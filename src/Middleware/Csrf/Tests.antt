-- ===== src/Middleware/Csrf/Tests.antt =====
-- Requests with and without a token, and the theorems at inputs that meet their hypotheses.
use go_bananas.Base.{
  ◌≡◌, refl, none, some, [], ◌∷◌, ◌++◌, Bytes, codes, arith, length, replicate, list_beq,
}
use go_bananas.Base.Dict
use go_bananas.Base.Result.{ok}
use go_bananas.Values.{byte_slice, key_eq, key_beq}
use go_bananas.Session.{Session, csrf_token, csrf_key, store_csrf_token}
use go_bananas.Middleware.Csrf.{
  Codec, Request, Outcome, unauthorized, internal_error, next, mask, unmask, xor,
  token_from_request, token_string, handle_csrf, can_skip_csrf_check,
}
use go_bananas.Middleware.Csrf.Check.{next-token, masked-accepted}

program : Unit {0}
unfolding mask unmask xor token_from_request token_string handle_csrf can_skip_csrf_check csrf_token
    key_beq list_beq Dict.lookup Dict.insert store_csrf_token
program = tt

-- A codec that leaves the bytes as they are.
abbrev plain : Codec
plain = record { encode = λ b. b; decode = λ b. some b }

abbrev token : Bytes
token = replicate 64 7

abbrev pad : Bytes
pad = replicate 64 5

abbrev masked_token : Bytes
masked_token = pad ++ replicate 64 2

abbrev session : Session
session = record { values = some ((csrf_key, byte_slice token) ∷ []) }

abbrev post : Bytes → Request
post header = record {
  method = codes "POST";
  header = λ _. header;
  post_form_value = λ _. [];
  multipart_form = none;
}

abbrev passed : Outcome
passed = record { reply = next masked_token; session = some session }

handle_tests :
    (handle_csrf plain (post masked_token) (some session) none (some pad) ≡ ok passed)
    × (handle_csrf plain (post []) (some session) none (some pad)
        ≡ ok (record passed { reply = unauthorized }))
    × (handle_csrf plain (post masked_token) (some session) none none
        ≡ ok (record passed { reply = internal_error }))
unfolding program
handle_tests = (refl, refl, refl)

next-token_example :
    (token_from_request plain (post masked_token) ≡ ok (csrf_token (some session)).0)
    × (length (csrf_token (some session)).0 ≡ 64)
unfolding program
next-token_example =
    next-token plain (post masked_token) session none (some pad) passed masked_token
      (λ f e. absurd (ground arith)) refl refl refl

masked-accepted_example :
    (m : Bytes) × (handle_csrf plain (post masked_token) (some session) (some pad) (some pad)
      ≡ ok (record { reply = next m; session = (csrf_token (some session)).1 }))
unfolding program
masked-accepted_example =
    masked-accepted plain (post masked_token) session pad pad masked_token (λ s. refl) refl refl
      (omega arith) (refl, omega arith) (refl, omega arith) refl refl
