-- ===== src/Cache/Sweep.antt =====
-- cache/cache.go: the background expiry, mark and purgeExpired.
use go_bananas.Base.{
  ◌≡◌, refl, true, Option, none, some, if◌then◌else◌, Bytes, List, [], ◌∷◌, arith, bytes_eq, ◌==◌,
  any, Option-cases, inl, inr,
}
use go_bananas.Base.Dict
use go_bananas.Base.Dict.{Dict, lookup-delete}
use go_bananas.Base.Int.{ℤ, ltb_ℤ}
use go_bananas.Cache.{Cache, Item, collect, sweep_key, sweep, mark}

module _ {A : Type 0} where
  -- An entry, unless it has expired before t.
  abbrev pub unless_expired : ℤ → Option (Item A) → Option (Item A)
  unless_expired t none = none
  unless_expired t (some i) = if ltb_ℤ i.expires_at t then none else some i

  pub lookup-sweep_key :
      (t : ℤ) (k j : Bytes) (m : Dict Bytes (Item A))
      → Dict.lookup j (sweep_key t k m)
        ≡ (if k == j then unless_expired t (Dict.lookup j m) else Dict.lookup j m)
  unfolding sweep_key
  lookup-sweep_key t k j m = ground (arith, lookup-delete k j m, bytes_eq.equals_iff k j)

  pub lookup-sweep :
      (t : ℤ) (ks : List Bytes) (j : Bytes) (m : Dict Bytes (Item A))
      → Dict.lookup j (sweep t ks m)
        ≡ (if any (λ k. k == j) ks then unless_expired t (Dict.lookup j m) else Dict.lookup j m)
  unfolding sweep
  lookup-sweep t [] j m = refl
  lookup-sweep t (k ∷ ks) j m =
      ground (arith, lookup-sweep_key t k j m, lookup-sweep t ks j (sweep_key t k m))

  collect_complete :
      (t : ℤ) (j : Bytes) (m : Dict Bytes (Item A)) (i : Item A)
      → Dict.lookup j m ≡ some i
      → ltb_ℤ i.expires_at t ≡ true
      → any (λ k. k == j) (collect t m) ≡ true
  unfolding collect Dict.lookup
  collect_complete t j [] i h late = ground arith
  collect_complete t j ((k, v) ∷ m) i h late = ground (arith, collect_complete t j m i)

  -- mark(t) deletes exactly the entries whose deadline lies before t: under every name there is
  -- afterwards what was there before, unless that had expired.
  pub lookup-mark :
      (c : Cache A) (t : ℤ) (j : Bytes)
      → Dict.lookup j (mark c t).data_map ≡ unless_expired t (Dict.lookup j c.data_map)
  unfolding mark
  lookup-mark c t j = elim (Option-cases (Dict.lookup j c.data_map)) [
    | inl absent ↦ ground (arith, lookup-sweep t (collect t c.data_map) j c.data_map)
    | inr (i, found) ↦ ground (
      arith,
      lookup-sweep t (collect t c.data_map) j c.data_map,
      collect_complete t j c.data_map i,
    )
  ]
