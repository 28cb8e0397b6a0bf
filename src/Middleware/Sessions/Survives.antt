-- ===== src/Middleware/Sessions/Survives.antt =====
-- middleware/sessions.go: what the next request finds of a session.
use go_bananas.Base.{
  ℕ, ◌≡◌, ◌⊎◌, inl, inr, refl, sym, ap, ◌∙◌, Bool, true, false, Option, none, some, List, [], ◌∷◌,
  ◌++◌, Bytes, arith, Bool-cases,
}
use mathlib.Core.List.{append-nil, append_assoc}
use go_bananas.Base.Dict
use go_bananas.Base.Dict.{lookup-insert}
use go_bananas.Session.{activity_key, unix}
use go_bananas.Values.{Key, key_eq, Value, int64, Values}
use go_bananas.Middleware.Sessions.{
  Event, companion, main_cookie, Call, update, write_header, write, unwrap, panics, member,
  split_keys, split_all, join_all, companions, any_fails, fails, main_values, build_handler,
}
use go_bananas.Middleware.Sessions.Split.{
  AreApart, last_cookie, later, or_else-none, lookup-join_all, lookup-split_all,
  last_cookie-present, member-split_keys, split_keys-IsUnique,
}
use go_bananas.Middleware.Sessions.Commit.{
  StartsWrapped, at_commit, sent, committed, build_handler-committed,
}

-- The cookies that a client gets: those that are set before anything else is done to the writer.
abbrev pub main_of : List Event → Option Values
main_of [] = none
main_of (companion name vs ∷ es) = main_of es
main_of (main_cookie vs ∷ es) = later (main_of es) (some vs)
main_of (_ ∷ es) = none

abbrev pub companions_of : List Event → List (Bytes × Values)
companions_of [] = []
companions_of (companion name vs ∷ es) = (name, vs) ∷ companions_of es
companions_of (main_cookie vs ∷ es) = companions_of es
companions_of (_ ∷ es) = []

abbrev pub or_new : Option Values → Values
or_new none = []
or_new (some vs) = vs

sent-sets :
    (cs : List Call)
    → StartsWrapped cs
    → (main_of (sent false cs) ≡ none) × (companions_of (sent false cs) ≡ [])
sent-sets [] h = (refl, refl)
sent-sets (update f ∷ cs) h = sent-sets cs h
sent-sets (write_header c ∷ cs) h = (refl, refl)
sent-sets (write b ∷ cs) h = (refl, refl)
sent-sets (unwrap e ∷ cs) h = absurd h
sent-sets (panics ∷ cs) h = absurd h

-- Another value beside those that are split is kept too, under a key that is not listed.
lookup-join-saved :
    (shown : Bytes → Bytes) (keys : List Key) (vs : Values) (a : Key) (v : Value) (q : Key)
    → AreApart shown keys
    → member a keys ≡ false
    → Dict.lookup q (
        join_all shown
          (last_cookie (split_all shown (split_keys keys) vs).0)
          keys
          (Dict.insert a v (split_all shown (split_keys keys) vs).1))
      ≡ Dict.lookup q (Dict.insert a v vs)
lookup-join-saved shown keys vs a v q apart unlisted = joined (Bool-cases (member q keys))
  where
    joined :
        (member q keys ≡ true) ⊎ (member q keys ≡ false)
        → Dict.lookup q (
            join_all shown
              (last_cookie (split_all shown (split_keys keys) vs).0)
              keys
              (Dict.insert a v (split_all shown (split_keys keys) vs).1))
          ≡ Dict.lookup q (Dict.insert a v vs)
    joined (inl listed) = ground (
      arith,
      listed,
      unlisted,
      key_eq.equals_iff a q,
      lookup-join_all shown (last_cookie (split_all shown (split_keys keys) vs).0) q keys
          (Dict.insert a v (split_all shown (split_keys keys) vs).1),
      lookup-insert a q v (split_all shown (split_keys keys) vs).1,
      lookup-insert a q v vs,
      lookup-split_all shown q (split_keys keys) vs,
      last_cookie-present shown q (split_keys keys) vs
          (λ k there e. apart k q (sym (member-split_keys k keys) ∙ there) listed e)
          (split_keys-IsUnique keys) (member-split_keys q keys ∙ listed),
      member-split_keys q keys,
      or_else-none (Dict.lookup q vs),
    )
    joined (inr other) = ground (
      arith,
      other,
      lookup-join_all shown (last_cookie (split_all shown (split_keys keys) vs).0) q keys
          (Dict.insert a v (split_all shown (split_keys keys) vs).1),
      lookup-insert a q v (split_all shown (split_keys keys) vs).1,
      lookup-insert a q v vs,
      lookup-split_all shown q (split_keys keys) vs,
      member-split_keys q keys,
    )

module _ (shown : Bytes → Bytes) (keys : List Key) (save_fails : Option Bytes → Values → Bool)
    (now : ℕ) (saves : (name : Option Bytes) (vs : Values) → save_fails name vs ≡ false) where
  any_fails-false :
      (parts : List (Bytes × Values)) → any_fails shown keys save_fails now parts ≡ false
  any_fails-false [] = refl
  any_fails-false ((name, vs) ∷ parts) = ground (arith, saves (some name) vs, any_fails-false parts)

  fails-false : (vs : Values) → fails shown keys save_fails now vs ≡ false
  fails-false vs = (rw (any_fails-false _, saves) refl)

  companions-sets :
      (parts : List (Bytes × Values)) (es : List Event)
      → (main_of (companions shown keys save_fails now parts ++ es) ≡ main_of es)
        × (companions_of (companions shown keys save_fails now parts ++ es)
            ≡ parts ++ companions_of es)
  companions-sets [] es = (refl, refl)
  companions-sets ((name, vs) ∷ parts) es =
      let (main, others) = companions-sets parts es in
      (rw (saves (some name) vs) (main, ap (◌∷◌ (name, vs)) others))

  committed-sets :
      (cs : List Call) (vs : Values)
      → StartsWrapped cs
      → (main_of (committed shown keys save_fails now cs vs)
          ≡ some (main_values shown keys save_fails now (at_commit cs vs)))
        × (companions_of (committed shown keys save_fails now cs vs)
            ≡ (split_all shown (split_keys keys) (at_commit cs vs)).0)
  committed-sets cs vs h =
      let (main, others) =
        companions-sets (split_all shown (split_keys keys) (at_commit cs vs)).0
          (main_cookie (main_values shown keys save_fails now (at_commit cs vs)) ∷ sent false cs) in
      let (no_main, no_others) = sent-sets cs h in
      (rw
        (
          fails-false (at_commit cs vs),
          saves none (main_values shown keys save_fails now (at_commit cs vs)),
          append_assoc,
        )
        (
          main
              ∙ ap (λ o. later o (some (main_values shown keys save_fails now (at_commit cs vs))))
                  no_main,
          others
              ∙ ap (◌++◌ (split_all shown (split_keys keys) (at_commit cs vs)).0) no_others
              ∙ append-nil _,
        ))

  -- If no save fails, no two of the split keys have the same cookie, the last activity is not split,
  -- and the handler neither goes past its writer nor panics before its first status or byte: the
  -- cookies that the client gets before anything else of the response, of each name the last, load
  -- and join in the next request to the values that the session had at that moment, with the time of
  -- the save as the last activity.
  pub build_handler-survives :
      (loaded : Values) (split_cookies : Bytes → Option Values) (calls : List Call) (q : Key)
      → AreApart shown keys
      → member activity_key keys ≡ false
      → StartsWrapped calls
      → (let es = (build_handler shown keys save_fails now loaded split_cookies calls).events in
          Dict.lookup q (join_all shown (last_cookie (companions_of es)) keys (or_new (main_of es)))
          ≡ Dict.lookup q (
              Dict.insert activity_key
                (int64 (unix now))
                (at_commit calls (join_all shown split_cookies keys loaded))))
  build_handler-survives loaded split_cookies calls q apart unlisted h =
      let (main, others) = committed-sets calls (join_all shown split_cookies keys loaded) h in
      (rw
        (
          build_handler-committed shown keys save_fails now loaded split_cookies calls h,
          main,
          others,
        )
        (lookup-join-saved shown keys (at_commit calls (join_all shown split_cookies keys loaded))
          activity_key (int64 (unix now)) q apart unlisted))
