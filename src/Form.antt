-- ===== src/Form.antt =====
-- form/errors.go and form/form.go: field errors and Bind. The request's parser, the decoder, the
-- struct validator and a Validator are not of this code: Bind takes what they return.
pub mod Fields
pub mod Bound
mod Tests
use go_bananas.Base.{
  ℕ, Bool, true, false, not, Option, none, some, List, [], ◌∷◌, ◌++◌, Bytes, bytes_eq, codes, ◌==◌,
  if◌then◌else◌, has_prefix, ◌⊎◌, inl, inr,
}
use go_bananas.Base.Dict
use go_bananas.Base.Dict.{Dict}
use go_bananas.Base.Int.{ℤ, pos, ltb_ℤ}

abbrev pub Errors : Type 0
Errors = Dict Bytes (List Bytes)

abbrev pub or_empty : Option (List Bytes) → List Bytes
or_empty none = []
or_empty (some msgs) = msgs

-- Errors.Get; the nil map reads like the empty one.
unfoldable pub get : Bytes → Errors → List Bytes
get field e = or_empty (Dict.lookup field e)

-- Errors.Add
unfoldable pub add : Bytes → Bytes → Errors → Errors
unfolding get
add field msg e = Dict.insert field (get field e ++ msg ∷ []) e

abbrev pub is_empty {ℓ} : {A : Type ℓ} → List A → Bool
is_empty [] = true
is_empty (x ∷ xs) = false

-- Errors.Has
unfoldable pub has : Bytes → Errors → Bool
unfolding get
has field e = not (is_empty (get field e))

-- Errors.Any
unfoldable pub any_errors : Errors → Bool
any_errors e = not (is_empty e)

-- Errors.Merge, with the map `o` in the order of the iteration
unfoldable pub merge : Errors → Errors → Errors
unfolding get
merge e [] = e
merge e ((field, msgs) ∷ o) = merge (Dict.insert field (get field e ++ msgs) e) o

abbrev pub default_messages : Dict Bytes Bytes
default_messages =
    (codes "required", codes "is required")
    ∷ (codes "email", codes "must be a valid email address")
    ∷ (codes "min", codes "is too short")
    ∷ (codes "max", codes "is too long")
    ∷ (codes "gte", codes "is too small")
    ∷ (codes "lte", codes "is too large")
    ∷ (codes "len", codes "has the wrong length")
    ∷ (codes "default", codes "is invalid")
    ∷ []

pub record Options : Type 0 where
  pub max_body_bytes : ℤ
  pub messages : Dict Bytes Bytes

abbrev pub copy_into : Dict Bytes Bytes → Dict Bytes Bytes → Dict Bytes Bytes
copy_into m [] = m
copy_into m ((k, v) ∷ src) = copy_into (Dict.insert k v m) src

-- An Option of the package.
unfoldable pub with_max_body_bytes : ℤ → Options → Options
with_max_body_bytes n o = if ltb_ℤ (pos 0) n then record o { max_body_bytes = n } else o

unfoldable pub with_messages : Dict Bytes Bytes → Options → Options
with_messages m o = record o { messages = copy_into o.messages m }

abbrev pub first_of : Option Bytes → Option Bytes → Option Bytes → Bytes → Bytes
first_of (some a) b c d = a
first_of none (some b) c d = b
first_of none none (some c) d = c
first_of none none none d = d

-- options.message
unfoldable pub message : Options → Bytes → Bytes
message o tag =
    first_of (Dict.lookup tag o.messages) (Dict.lookup tag default_messages)
      (Dict.lookup (codes "default") o.messages) (codes "is invalid")

-- isMultipart; strings.ToLower after strings.TrimSpace has been applied.
unfoldable pub is_multipart : Bytes → Bool
is_multipart content_type = has_prefix (codes "multipart/form-data") content_type

-- An entry of a schema.MultiError: a conversion error with its key, and whether its type is known
-- and of a numeric kind, or any other error.
pub data FieldError : Type 0 where
  conversion : Bytes → Bool → FieldError
  foreign : ℕ → FieldError

pub data DecodeError : Type 0 where
  multi : List (Bytes × FieldError) → DecodeError
  undecoded : ℕ → DecodeError

-- The fields and tags of validator.ValidationErrors, or any other error.
pub data ValidateError : Type 0 where
  violations : List (Bytes × Bytes) → ValidateError
  invalid : ℕ → ValidateError

unfoldable pub conversion_message : Bool → Bytes
conversion_message numeric =
    if numeric then codes "must be a number" else codes "must be a valid value"

-- The field of a conversion error
abbrev pub field_or : Bytes → Bytes → Bytes
field_or [] key = key
field_or (c ∷ field) key = c ∷ field

-- The loop of collectDecodeErrors
unfoldable pub collect_multi : List (Bytes × FieldError) → Errors → ℕ ⊎ Errors
unfolding add
collect_multi [] errs = inr errs
collect_multi ((key, conversion field numeric) ∷ es) errs =
    collect_multi es (add (field_or field key) (conversion_message numeric) errs)
collect_multi ((key, foreign e) ∷ es) errs = inl e

unfoldable pub collect_decode_errors : DecodeError → Errors → ℕ ⊎ Errors
collect_decode_errors (multi es) errs = collect_multi es errs
collect_decode_errors (undecoded e) errs = inl e

-- The loop over the violations
unfoldable pub add_violations : Options → List (Bytes × Bytes) → Errors → Errors
unfolding add
add_violations o [] errs = errs
add_violations o ((field, tag) ∷ vs) errs = add_violations o vs (add field (message o tag) errs)

unfoldable pub apply_options : List (Options → Options) → Options → Options
apply_options [] o = o
apply_options (f ∷ fs) o = apply_options fs (f o)

-- What the parser, given the cap and whether the form is multipart, the decoder, the validator and
-- the Validator return.
pub record Source : Type 0 where
  pub content_type : Bytes
  pub parse : ℤ → Bool → Option ℕ
  pub decode : Option DecodeError
  pub validate : Option ValidateError
  pub bespoke : Option Errors

abbrev pub decoded : Option DecodeError → ℕ ⊎ Errors
decoded none = inr []
decoded (some e) = collect_decode_errors e []

abbrev pub validated : Options → Option ValidateError → Errors → ℕ ⊎ Errors
validated o none errs = inr errs
validated o (some (violations vs)) errs = inr (add_violations o vs errs)
validated o (some (invalid e)) errs = inl e

abbrev pub merged : Option Errors → Errors → Errors
merged none errs = errs
merged (some more) errs = merge errs more

abbrev pub finish : Source → ℕ ⊎ Errors → ℕ ⊎ Errors
finish s (inl e) = inl e
finish s (inr errs) = inr (merged s.bespoke errs)

abbrev pub check : Source → Options → ℕ ⊎ Errors → ℕ ⊎ Errors
check s o (inl e) = inl e
check s o (inr errs) = finish s (validated o s.validate errs)

abbrev pub parsed : Source → Options → Option ℕ → ℕ ⊎ Errors
parsed s o (some e) = inl e
parsed s o none = check s o (decoded s.decode)

-- Bind: a fatal error, or the errors of the fields.
unfoldable pub bind : List (Options → Options) → Source → ℕ ⊎ Errors
unfolding apply_options is_multipart collect_decode_errors collect_multi add_violations merge
bind options s =
    let o = apply_options options (record { max_body_bytes = pos 10485760; messages = [] }) in
    parsed s o (s.parse o.max_body_bytes (is_multipart s.content_type))
