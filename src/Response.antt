-- ===== src/Response.antt =====
-- response/response.go and response/content_type.go: redirects, error pages and the origin of a
-- request. strings.TrimSpace, strings.ToLower, url.Parse and the methods of url.URL are parameters.
pub mod Pages
pub mod Origin
mod Tests
use go_bananas.Base.{
  ℕ, Bool, true, false, ◌||◌, ◌&&◌, not, Option, none, some, List, [], ◌∷◌, ◌++◌, Bytes, bytes_eq,
  codes, ◌==◌, if◌then◌else◌, split, has_prefix,
}
use go_bananas.Base.Dict
use go_bananas.Base.Dict.{Dict}
use go_bananas.Webctx.{
  Entry, Context, TemplateMap, template_map_from_context, title, request_id_from_context,
  trace_id_from_context,
}

-- url.URL, as far as it is read here
pub record Url : Type 0 where
  pub scheme : Bytes
  pub host : Bytes

-- The headers are kept under their canonical names.
pub record Request : Type 0 where
  pub headers : Dict Bytes (List Bytes)
  pub host : Bytes
  pub url : Url
  pub context : Context

abbrev pub or_nil : Option (List Bytes) → List Bytes
or_nil none = []
or_nil (some vs) = vs

abbrev pub first : List Bytes → Bytes
first [] = []
first (v ∷ vs) = v

-- http.Header.Values and http.Header.Get of a canonical name
unfoldable pub header_values : Request → Bytes → List Bytes
header_values r name = or_nil (Dict.lookup name r.headers)

unfoldable pub header_get : Request → Bytes → Bytes
unfolding header_values
header_get r name = first (header_values r name)

pub data Error : Type 0 where
  bad_request : Error
  unauthorized : Error
  forbidden : Error
  not_found : Error
  missing_session : Error
  caused : ℕ → Error

-- What is sent: http.Redirect, the renderer's HTML and JSON, its 500 pages, or http.Error, which
-- sends the status text.
pub data Reply : Type 0 where
  redirect : Bytes → ℕ → Reply
  html : ℕ → Bytes → Option TemplateMap → Reply
  json : ℕ → Error → Reply
  html500 : Error → Reply
  json500 : Error → Reply
  plain : ℕ → Reply

abbrev pub content_type_json : Bytes
content_type_json = codes "application/json"

abbrev pub content_type_html : Bytes
content_type_html = codes "text/html"

unfoldable pub accept_list : Request → List Bytes
unfolding header_get
accept_list r =
    split 44 (header_get r (codes "Accept")) ++ split 44 (header_get r (codes "Content-Type"))

-- Back; the Location is what http.Redirect is called with.
abbrev pub back_host : Bytes → Bytes → Option Url → Reply
back_host ref host none = redirect (codes "/") 303
back_host ref host (some u) = if u.host == host then redirect ref 303 else redirect (codes "/") 303

abbrev pub back_to : (Bytes → Option Url) → Bytes → Bytes → Reply
back_to parse host [] = redirect (codes "/") 303
back_to parse host (c ∷ ref) = back_host (c ∷ ref) host (parse (c ∷ ref))

unfoldable pub back : (Bytes → Option Url) → Request → Reply
back parse r = back_to parse r.host (header_get r (codes "Referer"))

unfoldable pub see_other : Bytes → Reply
see_other path = redirect path 303

module _ (trim_space : Bytes → Bytes) where
  unfoldable pub prefix_in_list : List Bytes → Bytes → Bool
  prefix_in_list [] prefix = false
  prefix_in_list (v ∷ vs) prefix = has_prefix prefix (trim_space v) || prefix_in_list vs prefix

  unfoldable pub is_json_content_type : (Bytes → Bytes) → Request → Bool
  is_json_content_type to_lower r =
      has_prefix content_type_json (to_lower (trim_space (header_get r (codes "Content-Type"))))

  -- The switch that the error pages share.
  unfoldable pub choose : Request → Reply → Reply → Reply → Reply
  unfolding accept_list prefix_in_list
  choose r page document otherwise =
      if prefix_in_list (accept_list r) content_type_html
      then page
      else if prefix_in_list (accept_list r) content_type_json
      then document
      else otherwise

-- The template map, with the status text as its title; `shown` prints a title that is no string.
unfoldable pub titled : (Entry → Bytes) → Bytes → Request → TemplateMap
unfolding title template_map_from_context
titled shown text r = title shown text text (template_map_from_context r.context)

module _ (trim_space : Bytes → Bytes) (shown : Entry → Bytes) where
  unfoldable pub internal_error : Request → Error → Reply
  unfolding choose titled
  internal_error r e = choose trim_space r (html500 e) (json500 e) (plain 500)

  unfoldable pub not_found_page : Request → Reply
  unfolding choose titled
  not_found_page r =
      choose trim_space r (html 404 (codes "404") (some (titled shown (codes "Not Found") r)))
        (json 404 not_found) (plain 404)

  unfoldable pub unauthorized_page : Request → Reply
  unfolding choose titled
  unauthorized_page r =
      choose trim_space r (html 401 (codes "401") (some (titled shown (codes "Unauthorized") r)))
        (json 401 unauthorized) (plain 401)

  unfoldable pub forbidden_page : Request → Reply
  unfolding choose titled
  forbidden_page r =
      choose trim_space r (html 403 (codes "403") (some (titled shown (codes "Forbidden") r)))
        (json 403 forbidden) (plain 403)

  unfoldable pub bad_request_page : Request → Reply
  unfolding choose titled
  bad_request_page r =
      choose trim_space r (html 400 (codes "400") none) (json 400 bad_request) (plain 400)

  unfoldable pub missing_session_page : Request → Reply
  unfolding internal_error
  missing_session_page r = internal_error r missing_session

-- RealHostFromRequest: the scheme, where the URL names none. A colon is the byte 58.
abbrev pub default_scheme : Bytes → Bytes → Bytes
default_scheme [] host =
    if host == codes "localhost" || host == codes "127.0.0.1" then codes "http" else codes "https"
default_scheme (c ∷ scheme) host = c ∷ scheme

abbrev pub strip_port : Bytes → Bytes → Bytes
strip_port scheme port =
    if (scheme == codes "https" && port == codes "443")
      || (scheme == codes "http" && port == codes "80")
    then []
    else port

abbrev pub with_port : Bytes → Bytes → Bytes → Bytes
with_port scheme host [] = scheme ++ codes "://" ++ host
with_port scheme host (c ∷ port) = scheme ++ codes "://" ++ host ++ 58 ∷ c ∷ port

abbrev pub origin : Bytes → Bytes → Bytes → Bytes
origin given host port =
    let scheme = default_scheme given host in with_port scheme host (strip_port scheme port)

-- A URL is absolute if it has a scheme. An absolute one is read itself, else the Host header.
abbrev pub authority : Bytes → Bytes → Bytes → Bytes
authority [] url_host host = host
authority (c ∷ scheme) url_host host = url_host

unfoldable pub real_host_from_request : (Bytes → Bytes) → (Bytes → Bytes) → Request → Bytes
real_host_from_request hostname port r =
    let h = authority r.url.scheme r.url.host r.host in origin r.url.scheme (hostname h) (port h)

-- withInjectedDataRoundTripper.RoundTrip: the headers that the request is sent on with.
abbrev pub inject : Bytes → Bytes → Dict Bytes (List Bytes) → Dict Bytes (List Bytes)
inject name [] headers = headers
inject name (c ∷ id) headers = Dict.insert name ((c ∷ id) ∷ []) headers

unfoldable pub round_trip : Context → Dict Bytes (List Bytes) → Dict Bytes (List Bytes)
round_trip c headers =
    inject (codes "X-Cloud-Trace-Context") (trace_id_from_context c)
      (inject (codes "X-Request-Id") (request_id_from_context c) headers)
