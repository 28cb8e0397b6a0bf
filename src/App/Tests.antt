-- ===== src/App/Tests.antt =====
-- A sign-in, and the allow-list.
use go_bananas.Base.{◌≡◌, ◌⊎◌, refl, none, some, [], ◌∷◌, Bytes, codes, list_beq, inr}
use go_bananas.Base.Dict
use go_bananas.App.{
  User, Session, Answer, Provider, IdToken, text, user, bad_request, see_other, forbidden, next,
  login, callback, clear_flow, store_user, user_from_session, admins_of, is_admin, require_admin,
}
use go_bananas.App.SignIn.{HasNoFlow, Confirms, callback-Confirms}

program : Unit {0}
unfolding login callback clear_flow store_user user_from_session admins_of is_admin require_admin
    Dict.lookup Dict.insert Dict.delete list_beq
program = tt

abbrev token : IdToken
token = record { subject = codes "sub"; nonce = codes "N" }

abbrev provider : Provider
provider = record {
  exchange = λ code verifier. inr (some code);
  verify = λ raw. inr token;
  claims = λ t. inr (codes "a@b", codes "A");
  auth_code_url = λ state nonce verifier. state;
}

abbrev fresh : Session
fresh = record { values = []; alerts = [] }

abbrev flowing : Session
flowing = record {
  values =
      (codes "oidc_state", text (codes "S"))
      ∷ (codes "oidc_nonce", text (codes "N"))
      ∷ (codes "oidc_verifier", text (codes "V"))
      ∷ [];
  alerts = [];
}

abbrev alice : User
alice = record { subject = codes "sub"; email = codes "a@b"; name = codes "A" }

flow_tests :
    (login provider (inr (codes "S")) (inr (codes "N")) (codes "V") (some fresh)
      ≡ (see_other (codes "S"), some flowing))
    × (callback provider (codes "S") (codes "C") (some flowing) ≡ (
      see_other (codes "/me"),
      some (record { values = (codes "user", user alice) ∷ []; alerts = codes "Welcome, A!" ∷ [] }),
    ))
    × (callback provider (codes "X") (codes "C") (some flowing) ≡ (bad_request, some fresh))
unfolding program
flow_tests = (refl, refl, refl)

abbrev same : Bytes → Bytes
same s = s

admin_tests :
    (require_admin same same (admins_of same same (codes "a@b" ∷ [] ∷ [])) (some alice) ≡ next)
    × (require_admin same same (admins_of same same ([] ∷ [])) (some alice) ≡ forbidden)
    × (require_admin same same (admins_of same same []) none ≡ forbidden)
unfolding program
admin_tests = (refl, refl, refl)

callback-Confirms_example :
    (a : Answer) × (s' : Session) × (callback provider (codes "S") (codes "C") (some flowing)
      ≡ (a, some s'))
    × HasNoFlow s'
    × ((callback provider (codes "S") (codes "C") (some s')).0 ≡ bad_request)
    × ((user_from_session (some s') ≡ user_from_session (some flowing))
        ⊎ ((u : User) × Confirms provider (codes "S") (codes "C") flowing u
            × (user_from_session (some s') ≡ some u)
            × (a ≡ see_other (codes "/me"))))
callback-Confirms_example =
    callback-Confirms provider (codes "S") (codes "C") (codes "S") (codes "C") flowing
