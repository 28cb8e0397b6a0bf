-- ===== src/Response/Pages.antt =====
-- response/response.go and response/content_type.go: which page is sent, and where Back redirects.
use go_bananas.Webctx.{Entry}
use go_bananas.Base.{
  ℕ, ◌≡◌, ◌⊎◌, inl, inr, refl, Bool, true, false, ◌||◌, Option, some, List, [], ◌∷◌, ◌++◌, Bytes,
  bytes_eq, codes, arith, if◌then◌else◌, split, has_prefix, Option-cases, any, Bool-cases, ◌==◌,
}
use go_bananas.Response.{
  Url, Request, header_get, Error, Reply, redirect, html, json, html500, json500, plain,
  content_type_json, content_type_html, accept_list, back, back_to, prefix_in_list, choose,
  internal_error, not_found_page, unauthorized_page, forbidden_page, bad_request_page,
  missing_session_page,
}

abbrev pub status : Reply → ℕ
status (redirect to code) = code
status (html code name m) = code
status (json code e) = code
status (html500 e) = 500
status (json500 e) = 500
status (plain code) = code

pub data Format : Type 0 where
  html_page : Format
  json_page : Format
  text_page : Format

abbrev pub format : Reply → Format
format (redirect to code) = text_page
format (html code name m) = html_page
format (json code e) = json_page
format (html500 e) = html_page
format (json500 e) = json_page
format (plain code) = text_page

-- A media type is accepted if an item of the Accept or of the Content-Type header begins with it.
abbrev pub accepts : (Bytes → Bytes) → Request → Bytes → Bool
accepts trim_space r kind =
    any (λ v. has_prefix kind (trim_space v)) (split 44 (header_get r (codes "Accept")))
    || any (λ v. has_prefix kind (trim_space v)) (split 44 (header_get r (codes "Content-Type")))

abbrev pub wanted : (Bytes → Bytes) → Request → Format
wanted trim_space r =
    if accepts trim_space r content_type_html
    then html_page
    else if accepts trim_space r content_type_json
    then json_page
    else text_page

prefix_in_list-append :
    (trim_space : Bytes → Bytes) (vs ws : List Bytes) (p : Bytes)
    → prefix_in_list trim_space (vs ++ ws) p
      ≡ (any (λ v. has_prefix p (trim_space v)) vs || any (λ v. has_prefix p (trim_space v)) ws)
unfolding prefix_in_list
prefix_in_list-append trim_space [] [] p = refl
prefix_in_list-append trim_space [] (w ∷ ws) p =
    ground (arith, prefix_in_list-append trim_space [] ws p)
prefix_in_list-append trim_space (v ∷ vs) ws p =
    ground (arith, prefix_in_list-append trim_space vs ws p)

prefix_in_list-accept_list :
    (trim_space : Bytes → Bytes) (r : Request) (p : Bytes)
    → prefix_in_list trim_space (accept_list r) p ≡ accepts trim_space r p
unfolding accept_list
prefix_in_list-accept_list trim_space r p = prefix_in_list-append trim_space _ _ p

-- The reply has this status, and the format that the request wants.
abbrev pub Answers : (Bytes → Bytes) → Request → ℕ → Reply → Type 0
Answers trim_space r code reply = (status reply ≡ code) × (format reply ≡ wanted trim_space r)

choose_lem :
    (trim_space : Bytes → Bytes) (r : Request) (code : ℕ) (page document otherwise : Reply)
    → (status page ≡ code) × (format page ≡ html_page)
    → (status document ≡ code) × (format document ≡ json_page)
    → (status otherwise ≡ code) × (format otherwise ≡ text_page)
    → Answers trim_space r code (choose trim_space r page document otherwise)
unfolding choose
choose_lem trim_space r code page document otherwise p d o =
    rw
      (
        prefix_in_list-accept_list trim_space r content_type_html,
        prefix_in_list-accept_list trim_space r content_type_json,
      )
      (go (accepts trim_space r content_type_html) (accepts trim_space r content_type_json))
  where
    go :
        (h j : Bool)
        → (status (if h then page else if j then document else otherwise) ≡ code)
          × (format (if h then page else if j then document else otherwise)
              ≡ (if h then html_page else if j then json_page else text_page))
    go true j = p
    go false true = d
    go false false = o

-- Every error page has its status in each format. The format is HTML if an item of the Accept or
-- the Content-Type header begins with text/html, else JSON if one begins with application/json,
-- else text.
pub page-Answers :
    (trim_space : Bytes → Bytes) (shown : Entry → Bytes) (r : Request) (e : Error)
    → Answers trim_space r 500 (internal_error trim_space shown r e)
      × Answers trim_space r 500 (missing_session_page trim_space shown r)
      × Answers trim_space r 404 (not_found_page trim_space shown r)
      × Answers trim_space r 401 (unauthorized_page trim_space shown r)
      × Answers trim_space r 403 (forbidden_page trim_space shown r)
      × Answers trim_space r 400 (bad_request_page trim_space shown r)
unfolding internal_error missing_session_page not_found_page unauthorized_page forbidden_page
    bad_request_page
page-Answers trim_space shown r e = (
  choose_lem trim_space r 500 _ _ _ (refl, refl) (refl, refl) (refl, refl),
  choose_lem trim_space r 500 _ _ _ (refl, refl) (refl, refl) (refl, refl),
  choose_lem trim_space r 404 _ _ _ (refl, refl) (refl, refl) (refl, refl),
  choose_lem trim_space r 401 _ _ _ (refl, refl) (refl, refl) (refl, refl),
  choose_lem trim_space r 403 _ _ _ (refl, refl) (refl, refl) (refl, refl),
  choose_lem trim_space r 400 _ _ _ (refl, refl) (refl, refl) (refl, refl),
)

-- Back always answers 303, and sends the client to its own front page or to a Referer that parses
-- to the host that was asked: never to another host.
pub back-same_host :
    (parse : Bytes → Option Url) (r : Request)
    → (back parse r ≡ redirect (codes "/") 303)
      ⊎ ((back parse r ≡ redirect (header_get r (codes "Referer")) 303)
          × ((u : Url) × (parse (header_get r (codes "Referer")) ≡ some u) × (u.host ≡ r.host)))
unfolding back
back-same_host parse r = go (header_get r (codes "Referer"))
  where
    go :
        (ref : Bytes)
        → (back_to parse r.host ref ≡ redirect (codes "/") 303)
          ⊎ ((back_to parse r.host ref ≡ redirect ref 303)
              × ((u : Url) × (parse ref ≡ some u) × (u.host ≡ r.host)))
    go [] = inl refl
    go (c ∷ ref) = elim (Option-cases (parse (c ∷ ref))) [
      | inl none_there ↦ inl (rw none_there refl)
      | inr found ↦
          let (u, there) = found in
          elim (Bool-cases (u.host == r.host)) [
            | inl same ↦
                inr
                  ((rw (there, same) refl), (u, there, (bytes_eq.equals_iff u.host r.host).0 same))
            | inr other ↦ inl (rw (there, other) refl)
          ]
    ]
