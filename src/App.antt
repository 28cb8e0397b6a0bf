-- ===== src/App.antt =====
-- examples/ssr-oidc/auth.go and examples/ssr-oidc/main.go: sign-in with OpenID Connect, and who may do
-- what. The provider, the random source and the form decoder are parameters. Of a session its values
-- are kept, and apart from them the flash messages.
pub mod SignIn
mod Tests
use go_bananas.Base.{
  ℕ, Bool, true, false, ◌||◌, Option, none, some, List, [], ◌∷◌, ◌++◌, Bytes, bytes_eq, codes, ◌==◌,
  ◌⊎◌, inl, inr, if◌then◌else◌, any,
}
use go_bananas.Base.Dict
use go_bananas.Base.Dict.{Dict}

pub record User : Type 0 where
  pub subject : Bytes
  pub email : Bytes
  pub name : Bytes

-- A value of a session: a user, a string, or one of another type
pub data Value : Type 0 where
  user : User → Value
  text : Bytes → Value
  other : ℕ → Value

pub record Session : Type 0 where
  pub values : Dict Bytes Value
  pub alerts : List Bytes

-- What a handler answers: an error page, a page of the renderer, a redirect, or what the next handler does
pub data Answer : Type 0 where
  missing_session : Answer
  bad_request : Answer
  forbidden : Answer
  internal_error : ℕ → Answer
  page : ℕ → Bytes → Answer
  see_other : Bytes → Answer
  next : Answer

abbrev pub session_user_key : Bytes
session_user_key = codes "user"

abbrev pub session_state_key : Bytes
session_state_key = codes "oidc_state"

abbrev pub session_nonce_key : Bytes
session_nonce_key = codes "oidc_nonce"

abbrev pub session_verifier_key : Bytes
session_verifier_key = codes "oidc_verifier"

-- resetSession and storeUser of the session of a request
abbrev pub reset_session : Session → Session
reset_session s = record { values = []; alerts = [] }

unfoldable pub store_user : User → Session → Session
store_user u s = record s { values = Dict.insert session_user_key (user u) s.values }

abbrev pub as_user : Option Value → Option User
as_user none = none
as_user (some (user u)) = some u
as_user (some (text s)) = none
as_user (some (other n)) = none

abbrev pub as_text : Option Value → Bytes
as_text none = []
as_text (some (user u)) = []
as_text (some (text s)) = s
as_text (some (other n)) = []

-- userFromSession, and what SessionAuthenticator.Authenticate finds
unfoldable pub user_from_session : Option Session → Option User
user_from_session none = none
user_from_session (some s) = as_user (Dict.lookup session_user_key s.values)

abbrev pub alert : Bytes → Session → Session
alert message s = record s { alerts = s.alerts ++ message ∷ [] }

-- A verified ID token
pub record IdToken : Type 0 where
  pub subject : Bytes
  pub nonce : Bytes

-- The provider: Exchange of a code with a verifier, with the raw ID token of its answer; Verify; and
-- the email and the name of the claims
pub record Provider : Type 0 where
  pub exchange : Bytes → Bytes → ℕ ⊎ Option Bytes
  pub verify : Bytes → ℕ ⊎ IdToken
  pub claims : IdToken → ℕ ⊎ (Bytes × Bytes)
  pub auth_code_url : Bytes → Bytes → Bytes → Bytes

abbrev pub started : Provider → Bytes → Session → Bytes → ℕ ⊎ Bytes → Answer × Session
started p verifier s state (inl e) = (internal_error e, s)
started p verifier s state (inr nonce) = (
  see_other (p.auth_code_url state nonce verifier),
  record s {
    values = Dict.insert session_verifier_key (text verifier) (
        Dict.insert session_nonce_key (text nonce)
          (Dict.insert session_state_key (text state) s.values));
  },
)

abbrev pub with_state : Provider → Bytes → Session → ℕ ⊎ Bytes → ℕ ⊎ Bytes → Answer × Session
with_state p verifier s (inl e) nonce = (internal_error e, s)
with_state p verifier s (inr state) nonce = started p verifier s state nonce

abbrev pub in_session : (Session → Answer × Session) → Option Session → Answer × Option Session
in_session f none = (missing_session, none)
in_session f (some s) = let (a, s') = f s in (a, some s')

-- OIDC.Login, with the two random strings and the verifier
unfoldable pub login :
    Provider → ℕ ⊎ Bytes → ℕ ⊎ Bytes → Bytes → Option Session → Answer × Option Session
login p state nonce verifier = in_session (λ s. with_state p verifier s state nonce)

-- The deferred function of Callback
unfoldable pub clear_flow : Session → Session
clear_flow s = record s {
  values =
      Dict.delete session_verifier_key
        (Dict.delete session_nonce_key (Dict.delete session_state_key s.values));
}

abbrev pub signed_in : User → Session → Session
signed_in u s = alert (codes "Welcome, " ++ u.name ++ codes "!") (store_user u (reset_session s))

abbrev pub with_claims : IdToken → Session → ℕ ⊎ (Bytes × Bytes) → Answer × Session
with_claims t s (inl e) = (internal_error e, s)
with_claims t s (inr (email, name)) = (
  see_other (codes "/me"),
  signed_in (record { subject = t.subject; email = email; name = name }) s,
)

abbrev pub with_token : Provider → Session → ℕ ⊎ IdToken → Answer × Session
with_token p s (inl e) = (internal_error e, s)
with_token p s (inr t) =
    if t.nonce == as_text (Dict.lookup session_nonce_key s.values)
    then with_claims t s (p.claims t)
    else (bad_request, s)

abbrev pub with_exchanged : Provider → Session → ℕ ⊎ Option Bytes → Answer × Session
with_exchanged p s (inl e) = (internal_error e, s)
with_exchanged p s (inr none) = (internal_error 0, s)
with_exchanged p s (inr (some raw)) = with_token p s (p.verify raw)

abbrev pub checked_state : Provider → Bytes → Bytes → Session → Bytes → Answer × Session
checked_state p state code s [] = (bad_request, s)
checked_state p state code s (c ∷ want) =
    if state == c ∷ want
    then with_exchanged p s (p.exchange code (as_text (Dict.lookup session_verifier_key s.values)))
    else (bad_request, s)

abbrev pub cleared : Answer × Session → Answer × Session
cleared (a, s) = (a, clear_flow s)

-- OIDC.Callback, with the state and the code of the query
unfoldable pub callback : Provider → Bytes → Bytes → Option Session → Answer × Option Session
unfolding clear_flow store_user
callback p state code =
    in_session (λ s.
      cleared (checked_state p state code s (as_text (Dict.lookup session_state_key s.values))))

module _ (trim_space to_lower : Bytes → Bytes) where
  abbrev pub add_admin : Bytes → List Bytes → List Bytes
  add_admin [] admins = admins
  add_admin (c ∷ e) admins = (c ∷ e) ∷ admins

  -- The allow-list that newApp makes of the configured addresses
  unfoldable pub admins_of : List Bytes → List Bytes
  admins_of [] = []
  admins_of (e ∷ es) = add_admin (to_lower (trim_space e)) (admins_of es)

  -- app.isAdmin
  unfoldable pub is_admin : List Bytes → User → Bool
  is_admin admins u = any (λ a. a == to_lower u.email) admins

  -- app.requireAdmin, with the principal of the context
  unfoldable pub require_admin : List Bytes → Option User → Answer
  unfolding is_admin
  require_admin admins none = forbidden
  require_admin admins (some u) = if is_admin admins u then next else forbidden

-- app.handleSubmit, with what form.Bind returns: an error, or the name and whether there are errors
unfoldable pub handle_submit : ℕ ⊎ (Bytes × Bool) → Session → Answer × Session
handle_submit (inl e) s = (bad_request, s)
handle_submit (inr (name, true)) s = (page 422 (codes "home"), s)
handle_submit (inr (name, false)) s =
    (see_other (codes "/"), alert (codes "Thanks for your message, " ++ name ++ codes "!") s)

-- app.handleLogout
unfoldable pub handle_logout : Session → Answer × Session
handle_logout s =
    (see_other (codes "/"), alert (codes "You have been signed out.") (reset_session s))

-- app.handleDevLogin
unfoldable pub handle_dev_login : Session → Answer × Session
unfolding store_user
handle_dev_login s = (
  see_other (codes "/me"),
  alert (codes "Signed in as the dev user.") (
      store_user
        (record {
          subject = codes "dev|1";
          email = codes "dev@example.com";
          name = codes "Dev User";
        })
        (reset_session s)),
)
