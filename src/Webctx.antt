-- ===== src/Webctx.antt =====
-- webctx/context.go, webctx/os.go, webctx/template.go: the values that a request's context carries.
-- The keys are of an unexported string type, so no other package can write them. A template map is
-- taken by value: what a holder of it sees after a later write is not modelled.
pub mod Accessors
mod Tests
use go_bananas.Base.{
  ℕ, Bool, true, false, Option, none, some, List, [], ◌∷◌, ◌++◌, Bytes, bytes_eq, codes,
  if◌then◌else◌, ◌==◌,
}
use go_bananas.Base.Dict
use go_bananas.Base.Dict.{Dict}
use go_bananas.Session.{Session}

pub data Os : Type 0 where
  unknown : Os
  ios : Os
  android : Os

-- OS.String
unfoldable pub os_string : Os → Bytes
os_string ios = codes "iOS"
os_string android = codes "Android"
os_string unknown = codes "Unknown"

-- An entry of a template map: nil, a string, a list of them, a Boolean, or any other value.
pub data Entry : Type 0 where
  nil : Entry
  text : Bytes → Entry
  strings : List Bytes → Entry
  flag : Bool → Entry
  other : ℕ → Entry

abbrev pub TemplateMap : Type 0
TemplateMap = Dict Bytes Entry

-- The dynamic value of a context key. Translators and principals are opaque.
pub data Stored : Type 0 where
  session_value : Session → Stored
  string_value : Bytes → Stored
  locale_value : ℕ → Stored
  principal_value : ℕ → Stored
  os_value : Os → Stored
  template_value : TemplateMap → Stored

abbrev pub Context : Type 0
Context = Dict Bytes Stored

abbrev pub locale_key : Bytes
locale_key = codes "locale"

abbrev pub nonce_key : Bytes
nonce_key = codes "nonce"

abbrev pub os_key : Bytes
os_key = codes "os"

abbrev pub principal_key : Bytes
principal_key = codes "principal"

abbrev pub request_id_key : Bytes
request_id_key = codes "requestID"

abbrev pub session_key : Bytes
session_key = codes "session"

abbrev pub template_key : Bytes
template_key = codes "template"

abbrev pub trace_id_key : Bytes
trace_id_key = codes "traceID"

unfoldable pub with_session : Context → Session → Context
with_session c s = Dict.insert session_key (session_value s) c

abbrev pub as_session : Option Stored → Option Session
as_session (some (session_value s)) = some s
as_session _ = none

unfoldable pub session_from_context : Context → Option Session
session_from_context c = as_session (Dict.lookup session_key c)

abbrev pub as_string : Option Stored → Bytes
as_string (some (string_value s)) = s
as_string _ = []

unfoldable pub with_nonce : Context → Bytes → Context
with_nonce c n = Dict.insert nonce_key (string_value n) c

unfoldable pub nonce_from_context : Context → Bytes
nonce_from_context c = as_string (Dict.lookup nonce_key c)

abbrev pub as_template_map : Option Stored → TemplateMap
as_template_map (some (template_value m)) = m
as_template_map _ = []

unfoldable pub with_template_map : Context → TemplateMap → Context
with_template_map c m = Dict.insert template_key (template_value m) c

unfoldable pub template_map_from_context : Context → TemplateMap
template_map_from_context c = as_template_map (Dict.lookup template_key c)

unfoldable pub with_request_id : Context → Bytes → Context
unfolding with_template_map template_map_from_context
with_request_id c id =
    let m = Dict.insert (codes "requestID") (text id) (template_map_from_context c) in
    Dict.insert request_id_key (string_value id) (with_template_map c m)

unfoldable pub request_id_from_context : Context → Bytes
request_id_from_context c = as_string (Dict.lookup request_id_key c)

unfoldable pub with_trace_id : Context → Bytes → Context
unfolding with_template_map template_map_from_context
with_trace_id c id =
    let m = Dict.insert (codes "traceID") (text id) (template_map_from_context c) in
    Dict.insert trace_id_key (string_value id) (with_template_map c m)

unfoldable pub trace_id_from_context : Context → Bytes
trace_id_from_context c = as_string (Dict.lookup trace_id_key c)

unfoldable pub with_locale : Context → ℕ → Context
with_locale c l = Dict.insert locale_key (locale_value l) c

abbrev pub as_locale : Option Stored → Option ℕ
as_locale (some (locale_value l)) = some l
as_locale _ = none

unfoldable pub locale_from_context : Context → Option ℕ
locale_from_context c = as_locale (Dict.lookup locale_key c)

unfoldable pub with_principal : Context → ℕ → Context
with_principal c p = Dict.insert principal_key (principal_value p) c

abbrev pub as_principal : Option Stored → Option ℕ
as_principal (some (principal_value p)) = some p
as_principal _ = none

unfoldable pub principal_from_context : Context → Option ℕ
principal_from_context c = as_principal (Dict.lookup principal_key c)

unfoldable pub with_operating_system : Context → Os → Context
with_operating_system c o = Dict.insert os_key (os_value o) c

abbrev pub as_os : Option Stored → Os
as_os (some (os_value o)) = o
as_os _ = unknown

unfoldable pub operating_system_from_context : Context → Os
operating_system_from_context c = as_os (Dict.lookup os_key c)

-- What follows " | " where there is a title; fmt prints the values that are no strings.
abbrev pub breadcrumb : (Entry → Bytes) → Bytes → Option Entry → Bytes
breadcrumb shown s (some (text (c ∷ title))) = s ++ codes " | " ++ c ∷ title
breadcrumb shown s (some (strings vs)) = s ++ codes " | " ++ shown (strings vs)
breadcrumb shown s (some (flag b)) = s ++ codes " | " ++ shown (flag b)
breadcrumb shown s (some (other v)) = s ++ codes " | " ++ shown (other v)
breadcrumb shown s _ = s

-- TemplateMap.Title; `s` is the format applied to its arguments.
unfoldable pub title : (Entry → Bytes) → Bytes → Bytes → TemplateMap → TemplateMap
title shown [] s m = m
title shown (c ∷ f) s m =
    Dict.insert (codes "title") (text (breadcrumb shown s (Dict.lookup (codes "title") m))) m
