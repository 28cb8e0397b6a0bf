-- ===== src/Middleware/Csrf.antt =====
-- middleware/csrf.go: masked tokens and the check of mutating requests. What crypto/rand returns
-- and the base64 codec are arguments.
pub mod Xor
pub mod Masking
pub mod Check
mod Tests
use Prim.Native.Nat.{bit_xor}
use go_bananas.Base.{
  ℕ, ◌/◌, ◌%◌, Bool, true, false, ◌||◌, not, Option, none, some, List, [], ◌∷◌, ◌++◌, Bytes, codes,
  bytes_eq, ◌==◌, eqb, ltb, if◌then◌else◌, length, take, drop,
}
use go_bananas.Base.Dict
use go_bananas.Base.Dict.{Dict}
use go_bananas.Base.Result.{Result, ok, err, panic, ◌>>=◌}
use go_bananas.Session.{Session, csrf_token, store_csrf_token}

-- The sentinel errors, and the failures that mask and the handler pass on.
pub data Error : Type 0 where
  missing_incoming_token invalid_token random_failed : Error

-- encoding/base64.RawURLEncoding
pub record Codec : Type 0 where
  pub encode : Bytes → Bytes
  pub decode : Bytes → Option Bytes

-- What a handler reads of a request: Header.Get, PostFormValue and MultipartForm.Value.
pub record Request : Type 0 where
  pub method : Bytes
  pub header : Bytes → Bytes
  pub post_form_value : Bytes → Bytes
  pub multipart_form : Option (Dict Bytes (List Bytes))

abbrev pub csrf_header_field : Bytes
csrf_header_field = codes "X-CSRF-Token"

abbrev pub csrf_form_field : Bytes
csrf_form_field = codes "csrf_token"

abbrev pub token_length : ℕ
token_length = 64

-- xor; an index past the end of y panics.
unfoldable pub xor : Bytes → Bytes → Result Error Bytes
xor [] ys = ok []
xor (x ∷ xs) [] = panic
xor (x ∷ xs) (y ∷ ys) = do rest ← xor xs ys; ok (bit_xor x y ∷ rest)

-- The random bytes, or an error of the source.
unfoldable pub random_bytes : Option Bytes → Result Error Bytes
random_bytes none = err random_failed
random_bytes (some b) = ok b

-- unmask
unfoldable pub unmask : Bytes → Result Error Bytes
unmask raw =
    if ltb (length raw) 2 || not (eqb (length raw % 2) 0)
    then err invalid_token
    else xor (drop (length raw / 2) raw) (take (length raw / 2) raw)

-- r.MultipartForm.Value[CSRFFormField], its first value
abbrev first_value : Option (List Bytes) → Bytes
first_value (some (v ∷ vs)) = v
first_value _ = []

unfoldable pub multipart_value : Option (Dict Bytes (List Bytes)) → Bytes
multipart_value none = []
multipart_value (some form) = first_value (Dict.lookup csrf_form_field form)

-- The three sources of the token, in order; the empty string stands for absence.
unfoldable pub token_string : Request → Bytes
unfolding multipart_value
token_string r =
    let h = r.header csrf_header_field in
    let p = r.post_form_value csrf_form_field in
    if not (h == []) then h else if not (p == []) then p else multipart_value r.multipart_form

-- canSkipCSRFCheck
unfoldable pub can_skip_csrf_check : Bytes → Bool
can_skip_csrf_check method =
    method == codes "GET"
    || method == codes "HEAD"
    || method == codes "OPTIONS"
    || method == codes "TRACE"

-- What the middleware answers with: a rendered 500 or 401, or the next handler.
pub data Reply : Type 0 where
  missing_session internal_error unauthorized : Reply
  next : (masked : Bytes) → Reply

pub record Outcome : Type 0 where
  pub reply : Reply
  pub session : Option Session

-- An error of tokenFromRequest leaves a nil slice for the comparison.
abbrev or_nil : Result Error Bytes → Result Error Bytes
or_nil (ok t) = ok t
or_nil (err e) = ok []
or_nil panic = panic

-- A returned error of a step of the handler is a 500.
abbrev or_500 :
    {A : Type 0}
    → Option Session
    → Result Error A
    → (A → Result Error Outcome)
    → Result Error Outcome
or_500 s (ok a) k = k a
or_500 s (err e) k = ok (record { reply = internal_error; session = s })
or_500 s panic k = panic

-- A panic of session.StoreCSRFToken, on a nil map
abbrev lift : Result (Unit {0}) (Option Session) → Result Error (Option Session)
lift (ok s) = ok s
lift (err e) = panic
lift panic = panic

module _ (codec : Codec) where
  open codec use {encode, decode}

  -- mask, with the random bytes given
  unfoldable pub mask : Bytes → Option Bytes → Result Error Bytes
  unfolding random_bytes
  mask raw random = do b ← random_bytes random; masked ← xor b raw; ok (encode (b ++ masked))

  abbrev unmask_decoded : Option Bytes → Result Error Bytes
  unmask_decoded none = err invalid_token
  unmask_decoded (some b) = unmask b

  -- tokenFromRequest
  unfoldable pub token_from_request : Request → Result Error Bytes
  token_from_request r =
      let str = token_string r in
      if str == [] then err missing_incoming_token else unmask_decoded (decode str)

  -- The part of HandleCSRF that follows the session's token: the helpers of the templates, and the
  -- check of a mutating request by subtle.ConstantTimeCompare.
  unfoldable pub verify : Request → Bytes → Option Session → Option Bytes → Result Error Outcome
  verify r existing s pad = or_500 s (mask existing pad) λ masked.
      if can_skip_csrf_check r.method then ok (record { reply = next masked; session = s }) else do
        incoming ← or_nil (token_from_request r)
        ok (record {
          reply = if existing == incoming then next masked else unauthorized;
          session = s;
        })

  -- HandleCSRF with a session: a token of the wrong length is replaced by a new one.
  unfoldable pub ensure_token :
      Request → Bytes → Option Session → Option Bytes → Option Bytes → Result Error Outcome
  unfolding verify random_bytes
  ensure_token r existing s fresh pad =
      if eqb (length existing) token_length
      then verify r existing s pad
      else or_500 s (random_bytes fresh)
          λ new_token. (do s' ← lift (store_csrf_token s new_token); verify r new_token s' pad)

  -- HandleCSRF
  unfoldable pub handle_csrf :
      Request → Option Session → Option Bytes → Option Bytes → Result Error Outcome
  unfolding ensure_token
  handle_csrf r none fresh pad = ok (record { reply = missing_session; session = none })
  handle_csrf r (some session) fresh pad =
      let (existing, s) = csrf_token (some session) in ensure_token r existing s fresh pad
