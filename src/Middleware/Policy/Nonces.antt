-- ===== src/Middleware/Policy/Nonces.antt =====
-- middleware/csp.go after middleware/nonce.go: the header names the nonce that templates read.
use go_bananas.Base.{
  ℕ, ◌≡◌, ◌≢◌, refl, sym, ap, ◌∙◌, Bool, true, false, ◌||◌, none, [], ◌∷◌, ◌++◌, Bytes, bytes_eq,
  ◌==◌, arith, cut_prefix, Lacks, inr,
}
use mathlib.Core.List.{append-nil}
use go_bananas.Base.Dict.{lookup-insert}
use go_bananas.Webctx
use go_bananas.Webctx.{Context, as_string, nonce_key, string_value, nonce_from_context}
use go_bananas.Middleware.Contexts.{process_nonce}
use go_bananas.Middleware.Policy.{
  csp_nonce_placeholder, contains, replace_from, with_nonce, content_security_policy,
}

no_placeholder : (c : ℕ) (s : Bytes) → c ≢ 123 → cut_prefix csp_nonce_placeholder (c ∷ s) ≡ none
unfolding cut_prefix
no_placeholder c s apart = ground (arith, apart)

-- A text without an opening brace is copied.
replace_from-append :
    (s t new : Bytes)
    → Lacks 123 s
    → replace_from 0 (s ++ t) csp_nonce_placeholder new
      ≡ s ++ replace_from 0 t csp_nonce_placeholder new
unfolding replace_from
replace_from-append [] t new h = refl
replace_from-append (c ∷ s) t new (apart, h) =
    (rw (replace_from, no_placeholder c (s ++ t) apart)
      (ap (◌∷◌ c) (replace_from-append s t new h)))

replace_from-placeholder :
    (post new : Bytes)
    → Lacks 123 post
    → replace_from 0 (csp_nonce_placeholder ++ post) csp_nonce_placeholder new ≡ new ++ post
unfolding replace_from
replace_from-placeholder post new h =
    ap (λ t. new ++ t)
      (ap (λ s. replace_from 0 s csp_nonce_placeholder new) (sym (append-nil post))
        ∙ replace_from-append post [] new h
        ∙ append-nil post)

or_true : (b : Bool) → (b || true) ≡ true
or_true true = refl
or_true false = refl

contains-append :
    (pre post : Bytes)
    → contains (pre ++ (csp_nonce_placeholder ++ post)) csp_nonce_placeholder ≡ true
unfolding contains
contains-append [] post = refl
contains-append (c ∷ pre) post = (rw (contains-append pre post) (or_true _))

reads_nonce : (c : Context) (n : Bytes) → nonce_from_context (Webctx.with_nonce c n) ≡ n
unfolding nonce_from_context Webctx.with_nonce
reads_nonce c n =
    let same : (nonce_key == nonce_key) ≡ true = (bytes_eq.equals_iff nonce_key nonce_key).1 refl in
    (rw (lookup-insert nonce_key nonce_key (string_value n) c, same) refl)

-- After ProcessNonce, with a policy that has the placeholder once and no other opening brace,
-- ContentSecurityPolicy sends the policy with the nonce in the place of the placeholder, and this is
-- the nonce that templates read from the context. The encoded nonce is not empty.
pub content_security_policy-process_nonce :
    (encode : Bytes → Bytes) (b pre post : Bytes) (c : Context)
    → Lacks 123 pre
    → Lacks 123 post
    → encode b ≢ []
    → (nonce_from_context (process_nonce encode (inr b) c) ≡ encode b)
      × (content_security_policy
            (pre ++ (csp_nonce_placeholder ++ post))
            (process_nonce encode (inr b) c)
          ≡ pre ++ (encode b ++ post))
unfolding content_security_policy
content_security_policy-process_nonce encode b pre post c h k full =
    (reads, (rw (contains-append pre post, reads) (sent (encode b) full)))
  where
    reads : nonce_from_context (process_nonce encode (inr b) c) ≡ encode b
    reads = unfold process_nonce in reads_nonce c (encode b)

    sent :
        (nonce : Bytes)
        → nonce ≢ []
        → with_nonce (pre ++ (csp_nonce_placeholder ++ post)) nonce ≡ pre ++ (nonce ++ post)
    sent [] full = absurd (full refl)
    sent (n ∷ nonce) full =
        replace_from-append pre (csp_nonce_placeholder ++ post) (n ∷ nonce) h
        ∙ ap (λ t. pre ++ t) (replace_from-placeholder post (n ∷ nonce) k)
