-- ===== src/Middleware/Policy/Tests.antt =====
-- A policy with a nonce, and without one.
use go_bananas.Base.{◌≡◌, refl, [], ◌++◌, Bytes, codes, cut_prefix, join, inr, arith, list_beq}
use go_bananas.Base.Dict
use go_bananas.Webctx.{nonce_from_context}
use go_bananas.Middleware.Contexts.{process_nonce}
use go_bananas.Middleware.Policy.{
  csp_nonce_placeholder, contains, replace_from, fields_from, content_security_policy,
}
use go_bananas.Middleware.Policy.Nonces.{content_security_policy-process_nonce}

policy_test :
    content_security_policy
      (codes "default-src 'self'; script-src 'self' 'nonce-{{nonce}}'; object-src 'none'")
      []
    ≡ codes "default-src 'self'; script-src 'self'; object-src 'none'"
unfolding content_security_policy contains replace_from fields_from nonce_from_context Dict.lookup
    cut_prefix join list_beq
policy_test = refl

abbrev same : Bytes → Bytes
same s = s

content_security_policy-process_nonce_example :
    (nonce_from_context (process_nonce same (inr (codes "n")) []) ≡ codes "n")
    × (content_security_policy
          (codes "script-src 'nonce-" ++ (csp_nonce_placeholder ++ codes "'"))
          (process_nonce same (inr (codes "n")) [])
        ≡ codes "script-src 'nonce-" ++ (codes "n" ++ codes "'"))
content_security_policy-process_nonce_example =
    content_security_policy-process_nonce same (codes "n") (codes "script-src 'nonce-") (codes "'")
      [] (ground arith) (ground arith) (ground arith)
