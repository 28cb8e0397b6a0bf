-- ===== src/Middleware/Policy.antt =====
-- middleware/csp.go and middleware/recovery.go: the policy header with the nonce of the request, and
-- the error page after a panic. strings.Fields is modelled on ASCII text.
pub mod Nonces
mod Tests
use go_bananas.Base.{
  ℕ, ◌-◌, Bool, true, false, ◌||◌, ◌&&◌, Option, none, some, List, [], ◌∷◌, ◌++◌, Bytes, bytes_eq,
  codes, eqb, leb, length, join, has_prefix, cut_prefix, is_some, if◌then◌else◌, ◌==◌, zero, suc,
}
use go_bananas.Webctx.{Context, nonce_from_context}
use go_bananas.Response.{Request, Reply, Error, caused}

-- CSPNoncePlaceholder
abbrev pub csp_nonce_placeholder : Bytes
csp_nonce_placeholder = codes "{{nonce}}"

-- strings.Contains of a text that is not empty
unfoldable pub contains : Bytes → Bytes → Bool
unfolding cut_prefix
contains [] old = false
contains (c ∷ s) old = has_prefix old (c ∷ s) || contains s old

-- strings.ReplaceAll of a text that is not empty. The number counts the bytes of a match that are
-- still to be passed over.
unfoldable pub replace_from : ℕ → Bytes → Bytes → Bytes → Bytes
unfolding cut_prefix
replace_from n [] old new = []
replace_from (suc n) (c ∷ s) old new = replace_from n s old new
replace_from zero (c ∷ s) old new = elim (cut_prefix old (c ∷ s)) [
  | some rest ↦ new ++ replace_from (length old - 1) s old new
  | none ↦ c ∷ replace_from 0 s old new
]

abbrev pub replace_all : Bytes → Bytes → Bytes → Bytes
replace_all s old new = replace_from 0 s old new

abbrev pub is_space : ℕ → Bool
is_space c = eqb c 32 || leb 9 c && leb c 13

abbrev pub put_word : Bytes → List Bytes → List Bytes
put_word [] words = words
put_word (c ∷ word) words = (c ∷ word) ∷ words

-- strings.Fields, with the word that has been read
unfoldable pub fields_from : Bytes → Bytes → List Bytes
fields_from word [] = put_word word []
fields_from word (c ∷ s) = elim (is_space c) [
  | true ↦ put_word word (fields_from [] s)
  | false ↦ fields_from (word ++ c ∷ []) s
]

-- The policy without the sources of a nonce
abbrev pub without_nonce : Bytes → Bytes
without_nonce value =
    let dropped = replace_all value (codes "'nonce-" ++ csp_nonce_placeholder ++ codes "'") [] in
    let cleared = replace_all dropped csp_nonce_placeholder [] in
    replace_all (join 32 (fields_from [] cleared)) (codes " ;") (codes ";")

abbrev pub with_nonce : Bytes → Bytes → Bytes
with_nonce value [] = without_nonce value
with_nonce value (n ∷ nonce) = replace_all value csp_nonce_placeholder (n ∷ nonce)

-- ContentSecurityPolicy: the value of the header
unfoldable pub content_security_policy : Bytes → Context → Bytes
unfolding contains replace_from fields_from join nonce_from_context
content_security_policy policy c =
    if contains policy csp_nonce_placeholder
    then with_nonce policy (nonce_from_context c)
    else policy

-- Recovery, on what the next handler sends, and the panic that it may end with
unfoldable pub recovery : (Request → Error → Reply) → Request → List Reply → Option ℕ → List Reply
recovery internal_error r sent none = sent
recovery internal_error r sent (some p) = sent ++ internal_error r (caused p) ∷ []
