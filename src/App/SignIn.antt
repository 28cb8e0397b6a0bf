-- ===== src/App/SignIn.antt =====
-- examples/ssr-oidc/auth.go: who is signed in after a callback, and that a flow is used once.
use go_bananas.Base.{
  ℕ, ◌≡◌, ◌≢◌, ◌⊎◌, inl, inr, refl, sym, ap, ◌∙◌, Option, none, some, [], ◌∷◌, Bytes, bytes_eq,
  list_beq, codes, ◌==◌, arith, if◌then◌else◌, Bool-cases,
}
use go_bananas.Base.Dict
use go_bananas.Base.Dict.{lookup-delete, lookup-insert}
use go_bananas.App.{
  User, Session, Answer, Provider, IdToken, user, bad_request, see_other, session_user_key,
  session_state_key, session_nonce_key, session_verifier_key, as_text, as_user, user_from_session,
  store_user, signed_in, with_claims, with_token, with_exchanged, checked_state, cleared,
  clear_flow, callback,
}

-- Nothing of the flow is left on the session.
abbrev pub HasNoFlow : Session → Type 0
HasNoFlow s =
    (Dict.lookup session_state_key s.values ≡ none)
    × (Dict.lookup session_nonce_key s.values ≡ none)
    × (Dict.lookup session_verifier_key s.values ≡ none)

-- The request has the state of the session's flow, and the provider confirms the user for the code
-- with the flow's verifier and nonce.
abbrev pub Confirms : Provider → Bytes → Bytes → Session → User → Type 0
Confirms p state code s u =
    (state ≢ [])
    × (as_text (Dict.lookup session_state_key s.values) ≡ state)
    × ((raw : Bytes) × (p.exchange code (as_text (Dict.lookup session_verifier_key s.values))
          ≡ inr (some raw))
        × ((t : IdToken) × (p.verify raw ≡ inr t)
            × (t.nonce ≡ as_text (Dict.lookup session_nonce_key s.values))
            × (t.subject ≡ u.subject)
            × (p.claims t ≡ inr (u.email, u.name))))

lookup-clear_flow :
    (k : Bytes) (s : Session)
    → Dict.lookup k (clear_flow s).values ≡ (
        if session_verifier_key == k
        then none
        else if session_nonce_key == k
        then none
        else if session_state_key == k
        then none
        else Dict.lookup k s.values)
unfolding clear_flow
lookup-clear_flow k s =
    (rw
      (
        lookup-delete session_verifier_key k
            (Dict.delete session_nonce_key (Dict.delete session_state_key s.values)),
        lookup-delete session_nonce_key k (Dict.delete session_state_key s.values),
        lookup-delete session_state_key k s.values,
      )
      refl)

clear_flow-HasNoFlow : (s : Session) → HasNoFlow (clear_flow s)
unfolding list_beq
clear_flow-HasNoFlow s = (
  lookup-clear_flow session_state_key s,
  lookup-clear_flow session_nonce_key s,
  lookup-clear_flow session_verifier_key s,
)

user_from_session-clear_flow :
    (s : Session) → user_from_session (some (clear_flow s)) ≡ user_from_session (some s)
unfolding user_from_session list_beq
user_from_session-clear_flow s = ap as_user (lookup-clear_flow session_user_key s)

user_from_session-signed_in :
    (u : User) (s : Session) → user_from_session (some (signed_in u s)) ≡ some u
unfolding user_from_session store_user list_beq
user_from_session-signed_in u s =
    ap as_user (lookup-insert session_user_key session_user_key (user u) [])

module _ (p : Provider) (state code : Bytes) (s : Session) where
  -- The session before it is cleared: as it was, or signed in
  abbrev Inner : Answer × Session → Type 0
  Inner (a, s1) =
      (s1 ≡ s)
      ⊎ ((u : User) × Confirms p state code s u
          × (s1 ≡ signed_in u s)
          × (a ≡ see_other (codes "/me")))

  -- A request that has the state of the flow
  abbrev HasState : Type 0
  HasState = (state ≢ []) × (as_text (Dict.lookup session_state_key s.values) ≡ state)

  claims-Inner :
      (raw : Bytes) (t : IdToken) (r : ℕ ⊎ (Bytes × Bytes))
      → HasState
      → p.exchange code (as_text (Dict.lookup session_verifier_key s.values)) ≡ inr (some raw)
      → p.verify raw ≡ inr t
      → t.nonce ≡ as_text (Dict.lookup session_nonce_key s.values)
      → p.claims t ≡ r
      → Inner (with_claims t s r)
  claims-Inner raw t (inl e) has exchanged verified nonce claimed = inl refl
  claims-Inner raw t (inr (email, name)) (full, same) exchanged verified nonce claimed = inr (
    record { subject = t.subject; email = email; name = name },
    (full, same, (raw, exchanged, (t, verified, nonce, refl, claimed))),
    refl,
    refl,
  )

  token-Inner :
      (raw : Bytes) (r : ℕ ⊎ IdToken)
      → HasState
      → p.exchange code (as_text (Dict.lookup session_verifier_key s.values)) ≡ inr (some raw)
      → p.verify raw ≡ r
      → Inner (with_token p s r)
  token-Inner raw (inl e) has exchanged verified = inl refl
  token-Inner raw (inr t) has exchanged verified =
      elim (Bool-cases (t.nonce == as_text (Dict.lookup session_nonce_key s.values))) [
        | inl same ↦ rw same (
            claims-Inner raw t _ has exchanged verified
              ((bytes_eq.equals_iff t.nonce (as_text (Dict.lookup session_nonce_key s.values))).0
                same)
              refl)
        | inr differs ↦ rw differs (inl refl)
      ]

  exchanged-Inner :
      (r : ℕ ⊎ Option Bytes)
      → HasState
      → p.exchange code (as_text (Dict.lookup session_verifier_key s.values)) ≡ r
      → Inner (with_exchanged p s r)
  exchanged-Inner (inl e) has exchanged = inl refl
  exchanged-Inner (inr none) has exchanged = inl refl
  exchanged-Inner (inr (some raw)) has exchanged = token-Inner raw _ has exchanged refl

  state-Inner :
      (want : Bytes)
      → as_text (Dict.lookup session_state_key s.values) ≡ want
      → Inner (checked_state p state code s want)
  state-Inner [] is = inl refl
  state-Inner (c ∷ want) is = elim (Bool-cases (state == c ∷ want)) [
    | inl same ↦
        let e : state ≡ c ∷ want = (bytes_eq.equals_iff state (c ∷ want)).0 same in
        rw same (exchanged-Inner _ ((λ empty. absurd (ground (arith, e, empty))), is ∙ sym e) refl)
    | inr differs ↦ rw differs (inl refl)
  ]

callback-HasNoFlow :
    (p : Provider) (state code : Bytes) (s : Session)
    → HasNoFlow s
    → callback p state code (some s) ≡ (bad_request, some (clear_flow s))
unfolding callback
callback-HasNoFlow p state code s (no_state, _, _) = (rw no_state refl)

pub callback-Confirms :
    (p : Provider) (state code state2 code2 : Bytes) (s : Session)
    → (a : Answer) × (s' : Session) × (callback p state code (some s) ≡ (a, some s'))
      × HasNoFlow s'
      × ((callback p state2 code2 (some s')).0 ≡ bad_request)
      × ((user_from_session (some s') ≡ user_from_session (some s))
          ⊎ ((u : User) × Confirms p state code s u
              × (user_from_session (some s') ≡ some u)
              × (a ≡ see_other (codes "/me"))))
unfolding callback
callback-Confirms p state code state2 code2 s =
    go (checked_state p state code s want) refl (state-Inner p state code s want refl)
  where
    want : Bytes
    want = as_text (Dict.lookup session_state_key s.values)

    go :
        (r : Answer × Session)
        → checked_state p state code s want ≡ r
        → Inner p state code s r
        → (a : Answer) × (s' : Session) × (callback p state code (some s) ≡ (a, some s'))
          × HasNoFlow s'
          × ((callback p state2 code2 (some s')).0 ≡ bad_request)
          × ((user_from_session (some s') ≡ user_from_session (some s))
              ⊎ ((u : User) × Confirms p state code s u
                  × (user_from_session (some s') ≡ some u)
                  × (a ≡ see_other (codes "/me"))))
    go (a, s1) e inner = (
      a,
      clear_flow s1,
      ap (λ r. ((cleared r).0, some (cleared r).1)) e,
      clear_flow-HasNoFlow s1,
      ap (λ r. r.0) (callback-HasNoFlow p state2 code2 (clear_flow s1) (clear_flow-HasNoFlow s1)),
      users inner,
    )
      where
        users :
            Inner p state code s (a, s1)
            → (user_from_session (some (clear_flow s1)) ≡ user_from_session (some s))
              ⊎ ((u : User) × Confirms p state code s u
                  × (user_from_session (some (clear_flow s1)) ≡ some u)
                  × (a ≡ see_other (codes "/me")))
        users (inl same) =
            inl (user_from_session-clear_flow s1 ∙ ap (λ s. user_from_session (some s)) same)
        users (inr (u, confirmed, signed, leads)) = inr (
          u,
          confirmed,
          user_from_session-clear_flow s1
              ∙ ap (λ s. user_from_session (some s)) signed
              ∙ user_from_session-signed_in u s,
          leads,
        )
