-- ===== src/Response/Tests.antt =====
-- The responses at concrete requests.
use go_bananas.Webctx.{Entry}
use go_bananas.Base.{◌≡◌, ◌⊎◌, Option, some, [], ◌∷◌, Bytes, codes}
use go_bananas.Response.{
  Url, Request, header_get, redirect, back, internal_error, missing_session_page, not_found_page,
  unauthorized_page, forbidden_page, bad_request_page, missing_session,
}
use go_bananas.Response.Pages.{Answers, page-Answers, back-same_host}

abbrev asked : Request
asked = record {
  headers =
      (codes "Accept", codes "application/json" ∷ [])
      ∷ (codes "Referer", codes "https://a.org/x" ∷ [])
      ∷ [];
  host = codes "a.org";
  url = record { scheme = []; host = [] };
  context = [];
}

abbrev trim : Bytes → Bytes
trim s = s

abbrev shown : Entry → Bytes
shown e = []

abbrev parse : Bytes → Option Url
parse s = some (record { scheme = codes "https"; host = codes "a.org" })

abbrev no_port : Bytes → Bytes
no_port s = []

page-Answers_example :
    Answers trim asked 500 (internal_error trim shown asked missing_session)
    × Answers trim asked 500 (missing_session_page trim shown asked)
    × Answers trim asked 404 (not_found_page trim shown asked)
    × Answers trim asked 401 (unauthorized_page trim shown asked)
    × Answers trim asked 403 (forbidden_page trim shown asked)
    × Answers trim asked 400 (bad_request_page trim shown asked)
page-Answers_example = page-Answers trim shown asked missing_session

back-same_host_example :
    (back parse asked ≡ redirect (codes "/") 303)
    ⊎ ((back parse asked ≡ redirect (header_get asked (codes "Referer")) 303)
        × ((u : Url) × (parse (header_get asked (codes "Referer")) ≡ some u)
            × (u.host ≡ asked.host)))
back-same_host_example = back-same_host parse asked
