-- ===== src/Middleware/Guards/Passes.antt =====
-- middleware/auth.go and middleware/header.go: which requests pass.
use go_bananas.Base.{
  ◌≡◌, ◌↔◌, ◌⊎◌, inl, inr, refl, sym, subst, Bool, true, false, List, [], ◌∷◌, Bytes, bytes_eq,
  arith, if◌then◌else◌, Member, Bool-cases,
}
use go_bananas.Webctx.{Entry}
use go_bananas.Response.{Request, header_values, unauthorized_page}
use go_bananas.Middleware.Guards.{
  Outcome, passes, answers, is_one_of, find_allowed, values_allowed, pass_if, require_header_values,
}

is_one_of_iff : (v : Bytes) (ws : List Bytes) → (is_one_of v ws ≡ true) ↔ Member v ws
unfolding is_one_of
is_one_of_iff v [] = ground arith
is_one_of_iff v (w ∷ ws) = ground (arith, bytes_eq.equals_iff w v, is_one_of_iff v ws)

find_allowed_iff :
    (allowed vs : List Bytes)
    → (find_allowed allowed vs ≡ true) ↔ ((v : Bytes) × Member v vs × Member v allowed)
unfolding find_allowed
find_allowed_iff allowed [] = ground arith
find_allowed_iff allowed (v ∷ vs) =
    cons (find_allowed_iff allowed vs) (Bool-cases (is_one_of v allowed))
  where
    back :
        (find_allowed allowed vs ≡ true) ↔ ((x : Bytes) × Member x vs × Member x allowed)
        → is_one_of v allowed ≡ false
        → ((x : Bytes) × ((v ≡ x) ⊎ Member x vs) × Member x allowed)
        → find_allowed allowed vs ≡ true
    back h missing (x, inl e, k) = absurd (
        ground
          (arith, missing, (is_one_of_iff v allowed).1 (subst (λ y. Member y allowed) (sym e) k)))
    back h missing (x, inr m, k) = h.1 (x, m, k)

    cons :
        (find_allowed allowed vs ≡ true) ↔ ((x : Bytes) × Member x vs × Member x allowed)
        → (is_one_of v allowed ≡ true) ⊎ (is_one_of v allowed ≡ false)
        → ((if is_one_of v allowed then true else find_allowed allowed vs) ≡ true)
          ↔ ((x : Bytes) × ((v ≡ x) ⊎ Member x vs) × Member x allowed)
    cons h (inl found) = rw found (λ _. (v, inl refl, (is_one_of_iff v allowed).0 found), λ _. refl)
    cons h (inr missing) = rw missing (λ e. let (x, m, k) = h.0 e in (x, inr m, k), back h missing)

values_allowed_lem :
    (trim_space : Bytes → Bytes) (shown : Entry → Bytes) (allowed vs : List Bytes)
    → values_allowed trim_space shown allowed vs ≡ find_allowed allowed vs
unfolding find_allowed
values_allowed_lem trim_space shown allowed [] = refl
values_allowed_lem trim_space shown allowed (v ∷ vs) = refl

module _ (trim_space : Bytes → Bytes) (shown : Entry → Bytes) where
  -- How a guard that answers 401 treats a request.
  abbrev pub Guards : Outcome → Request → Type 0 → Type 0
  Guards o r P =
      ((o ≡ passes r) ↔ P) × ((o ≡ passes r) ⊎ (o ≡ answers (unauthorized_page trim_space shown r)))

  pass_if-Guards :
      (b : Bool) (r : Request) (P : Type 0)
      → (b ≡ true) ↔ P
      → Guards (pass_if trim_space shown b r (unauthorized_page trim_space shown r)) r P
  pass_if-Guards true r P h = ((λ _. h.0 refl, λ _. refl), inl refl)
  pass_if-Guards false r P h =
      ((λ e. absurd (ground arith), λ p. absurd (ground (arith, h.1 p))), inr refl)

  -- A request passes RequireHeaderValues exactly if one of the header's values is allowed, and is
  -- answered with the 401 page otherwise.
  pub require_header_values-Guards :
      (name : Bytes) (allowed : List Bytes) (r : Request)
      → Guards
          (require_header_values trim_space shown name allowed r)
          r
          ((v : Bytes) × Member v (header_values r name) × Member v allowed)
  unfolding require_header_values
  require_header_values-Guards name allowed r = pass_if-Guards _ r _ (
      subst (λ b. (b ≡ true) ↔ ((v : Bytes) × Member v (header_values r name) × Member v allowed))
        (sym (values_allowed_lem trim_space shown allowed (header_values r name)))
        (find_allowed_iff allowed (header_values r name)))
