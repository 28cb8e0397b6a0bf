-- ===== src/Middleware/Contexts.antt =====
-- Middleware that only adds to the context or to the response's headers: middleware/trace_id.go,
-- middleware/nonce.go, middleware/operating_system.go, middleware/i18n.go, middleware/template.go,
-- middleware/method.go, middleware/static.go, middleware/debug.go, middleware/current_path.go.
pub mod Trace
mod Tests
use go_bananas.Base.{
  ℕ, ◌+◌, ◌-◌, leb, eqb, Bool, true, false, ◌||◌, ◌&&◌, Option, none, some, List, [], ◌∷◌, ◌++◌,
  Bytes, bytes_eq, codes, ◌==◌, if◌then◌else◌, length, split, has_prefix, has_suffix, cut_suffix,
  ◌⊎◌, inl, inr,
}
use go_bananas.Base.Dict
use go_bananas.Base.Dict.{Dict}
use go_bananas.Webctx.{
  Context, TemplateMap, Entry, nil, text, strings, flag, other, Os, unknown, with_trace_id,
  trace_id_from_context, with_nonce, with_operating_system, with_locale, with_template_map,
  template_map_from_context, locale_key,
}
use go_bananas.Response.{Request, header_get, real_host_from_request}

-- A character of the regular expression's class: a letter, a digit, a dash or an underscore.
abbrev pub is_id_char : ℕ → Bool
is_id_char c =
    (leb 65 c && leb c 90)
    || (leb 97 c && leb c 122)
    || (leb 48 c && leb c 57)
    || eqb c 95
    || eqb c 45

unfoldable pub all_id_chars : Bytes → Bool
all_id_chars [] = true
all_id_chars (c ∷ s) = is_id_char c && all_id_chars s

-- validTraceID.MatchString
unfoldable pub valid_trace_id : Bytes → Bool
unfolding all_id_chars
valid_trace_id id = leb 1 (length id) && leb (length id) 128 && all_id_chars id

abbrev pub head_or_empty : List Bytes → Bytes
head_or_empty [] = []
head_or_empty (p ∷ ps) = p

abbrev pub set_trace_id : Context → Bytes → Context
set_trace_id c id = if valid_trace_id id then with_trace_id c id else c

abbrev pub read_trace_id : (Bytes → Bytes) → Context → Bytes → Context
read_trace_id trim_space c [] = c
read_trace_id trim_space c (b ∷ v) = set_trace_id c (trim_space (head_or_empty (split 47 (b ∷ v))))

-- PopulateTraceID, with util.TrimSpace: the context of the next handler.
unfoldable pub populate_trace_id : (Bytes → Bytes) → Request → Context
unfolding valid_trace_id
populate_trace_id trim_space r =
    if trace_id_from_context r.context == []
    then read_trace_id trim_space r.context (header_get r (codes "X-Cloud-Trace-Context"))
    else r.context

-- ProcessNonce; the random bytes, or an error, and base64.StdEncoding are arguments.
abbrev pub nonce_set : (Bytes → Bytes) → Context → ℕ ⊎ Bytes → Context
nonce_set encode c (inl e) = c
nonce_set encode c (inr b) = with_nonce c (encode b)

unfoldable pub process_nonce : (Bytes → Bytes) → ℕ ⊎ Bytes → Context → Context
process_nonce encode random c = nonce_set encode c random

-- strings.Contains
unfoldable pub contains : Bytes → Bytes → Bool
contains s [] = has_prefix s []
contains s (c ∷ agent) = has_prefix s (c ∷ agent) || contains s agent

-- The loop over the user agents, in the order of an iteration over the map.
unfoldable pub find_os : List (Bytes × Os) → Bytes → Os
unfolding contains
find_os [] agent = unknown
find_os ((k, os) ∷ agents) agent =
    let rest = find_os agents agent in if contains k agent then os else rest

-- AddOperatingSystemFromUserAgent; the agent is in lower case.
unfoldable pub add_operating_system : List (Bytes × Os) → Bytes → Context → Context
unfolding find_os
add_operating_system agents agent c = with_operating_system c (find_os agents agent)

abbrev pub locale_entry : Option ℕ → Entry
locale_entry none = nil
locale_entry (some l) = other l

abbrev pub direction : Bytes → Bytes
direction lang = if lang == codes "ar" then codes "rtl" else codes "ltr"

abbrev pub with_found_locale : Context → Option ℕ → Context
with_found_locale c none = Dict.delete locale_key c
with_found_locale c (some l) = with_locale c l

-- ProcessLocale; a nil translator hides an earlier one on the context.
unfoldable pub process_locale :
    (Bytes → Bytes → Option ℕ × Bytes) → Bytes → Bytes → Context → Context
process_locale lookup_locale param header c =
    let (locale, lang) = lookup_locale param header in
    let m = Dict.insert (codes "locale") (locale_entry locale) (template_map_from_context c) in
    let m = Dict.insert (codes "acceptLanguage") (strings (param ∷ header ∷ [])) m in
    let m = Dict.insert (codes "textLanguage") (text lang) m in
    with_template_map (with_found_locale c locale)
      (Dict.insert (codes "textDirection") (text (direction lang)) m)

pub record TemplateConfig : Type 0 where
  pub server_name : Bytes
  pub server_endpoint : Bytes
  pub build_id : Bytes
  pub build_tag : Bytes
  pub dev_mode : Bool
  pub extra : TemplateMap

abbrev pub trim_suffix : Bytes → Option Bytes → Bytes
trim_suffix s none = s
trim_suffix s (some t) = t

-- serverEndpoint
abbrev pub endpoint_or : Bytes → Bytes → Bytes
endpoint_or host [] = host
endpoint_or host (c ∷ given) = trim_suffix (c ∷ given) (cut_suffix (codes "/") (c ∷ given))

unfoldable pub server_endpoint : (Bytes → Bytes) → (Bytes → Bytes) → Request → Bytes → Bytes
server_endpoint hostname port r given = endpoint_or (real_host_from_request hostname port r) given

abbrev pub copy_entries : TemplateMap → TemplateMap → TemplateMap
copy_entries m [] = m
copy_entries m ((k, v) ∷ extra) = copy_entries (Dict.insert k v m) extra

-- PopulateTemplateVariables
unfoldable pub populate_template_variables :
    (Bytes → Bytes) → (Bytes → Bytes) → TemplateConfig → Request → Context
unfolding server_endpoint
populate_template_variables hostname port cfg r =
    let m =
      Dict.insert (codes "server") (text cfg.server_name) (template_map_from_context r.context) in
    let m =
      Dict.insert (codes "serverEndpoint")
        (text (server_endpoint hostname port r cfg.server_endpoint)) m in
    let m = Dict.insert (codes "title") (text cfg.server_name) m in
    let m = Dict.insert (codes "buildID") (text cfg.build_id) m in
    let m = Dict.insert (codes "buildTag") (text cfg.build_tag) m in
    let m = Dict.insert (codes "devMode") (flag cfg.dev_mode) m in
    with_template_map r.context (copy_entries m cfg.extra)

-- MutateMethod: the method of the request, given the form value in upper case.
unfoldable pub mutate_method : Bytes → Bytes → Bytes
mutate_method [] method = method
mutate_method (c ∷ form_value) method = c ∷ form_value

abbrev pub Headers : Type 0
Headers = Dict Bytes Bytes

abbrev pub cache_headers : Bytes → Bytes → Headers → Headers
cache_headers control expires h =
    Dict.insert (codes "Vary") (codes "Accept-Encoding")
      (Dict.insert (codes "Expires") expires (Dict.insert (codes "Cache-Control") control h))

-- ConfigureStaticAssets: the headers that the file server starts from, or none for http.NotFound.
-- `stamp` formats a time in nanoseconds.
unfoldable pub configure_static_assets : Bool → (ℕ → Bytes) → ℕ → Bytes → Headers → Option Headers
configure_static_assets dev_mode stamp now path h =
    if has_suffix (codes "/") path
    then none
    else some (
        if dev_mode
        then cache_headers (codes "private, no-cache, max-age=0") (stamp (now - 1800000000000)) h
        else cache_headers (codes "public, max-age=604800") (stamp (now + 604800000000000)) h)

-- ProcessDebug
unfoldable pub process_debug : Bytes → Bytes → Request → Headers → Headers
process_debug build_id build_tag r h =
    if header_get r (codes "X-Debug") == []
    then h
    else Dict.insert (codes "X-Build-Tag") build_tag (Dict.insert (codes "X-Build-Id") build_id h)

-- Path.IsPath and Path.IsDir, on the request URI
unfoldable pub is_path : Bytes → Bytes → Bool
is_path uri s = uri == s

unfoldable pub is_dir : Bytes → Bytes → Bool
is_dir uri s = has_prefix s uri
