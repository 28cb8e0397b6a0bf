-- ===== src/Secrets/JsonExpander/Tests.antt =====
-- Names with and without periods.
use go_bananas.Base.{
  ◌≡◌, ◌↔◌, refl, [], ◌∷◌, Bytes, codes, list_beq, split, join, ◌⊎◌, inr, ℕ, arith,
}
use go_bananas.Base.Result.{ok, err}
use go_bananas.Secrets.JsonExpander.{
  Members, no_members, member, number, string, object, field, walk_path, expand_secret, not_object,
  missing_key, not_string,
}
use go_bananas.Secrets.JsonExpander.Selection.{Selects, expand_secret-Selects}

abbrev manager : Bytes → ℕ ⊎ Bytes
manager name = inr (codes "{}")

abbrev unmarshal : Bytes → ℕ ⊎ Members
unmarshal text = inr (
    member (codes "db") (object (member (codes "user") (string (codes "gandalf")) no_members))
      (member (codes "port") (number (codes "1")) no_members))

expand_tests :
    (expand_secret manager unmarshal (codes "s.db.user") ≡ ok (codes "gandalf"))
    × (expand_secret manager unmarshal (codes "s.db")
        ≡ err (not_string (object (member (codes "user") (string (codes "gandalf")) no_members))))
    × (expand_secret manager unmarshal (codes "s.port.x") ≡ err (not_object (codes "port")))
    × (expand_secret manager unmarshal (codes "s.db.") ≡ err (missing_key []))
    × (expand_secret manager unmarshal (codes "s") ≡ ok (codes "{}"))
unfolding expand_secret walk_path field split join list_beq
expand_tests = (refl, refl, refl, refl, refl)

expand_secret-Selects_example :
    (expand_secret manager unmarshal (join 46 (codes "s" ∷ codes "db" ∷ codes "user" ∷ []))
      ≡ ok (codes "gandalf"))
    ↔ Selects manager unmarshal (codes "s") (codes "db" ∷ codes "user" ∷ []) (codes "gandalf")
expand_secret-Selects_example =
    expand_secret-Selects manager unmarshal (codes "s") (codes "db" ∷ codes "user" ∷ [])
      (codes "gandalf") (ground arith)
