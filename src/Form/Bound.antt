-- ===== src/Form/Bound.antt =====
-- form/form.go: what Bind returns.
use go_bananas.Base.{
  ℕ, ◌≡◌, ◌⊎◌, inl, inr, refl, sym, ap, subst, ◌∙◌, Option, none, some, List, [], ◌∷◌, ◌++◌, Bytes,
  bytes_eq,
}
use mathlib.Core.List.{append_assoc, append-nil}
use go_bananas.Base.Dict
use go_bananas.Base.Int.{pos}
use go_bananas.Form.{
  Errors, get, add, Options, FieldError, conversion, foreign, conversion_message, field_or,
  DecodeError, multi, undecoded, ValidateError, violations, invalid, collect_multi,
  collect_decode_errors, add_violations, apply_options, Source, decoded, validated, merged, finish,
  check, parsed, bind, is_multipart,
}
use go_bananas.Form.Fields.{
  IsMap, get-add, get-merge, get-add_violations, violations_of, conversions_of,
}

-- The first error of a decoding that is no conversion error
abbrev pub first_foreign : List (Bytes × FieldError) → Option ℕ
first_foreign [] = none
first_foreign ((key, conversion g numeric) ∷ es) = first_foreign es
first_foreign ((key, foreign e) ∷ es) = some e

abbrev pub decode_fatal : Option DecodeError → Option ℕ
decode_fatal none = none
decode_fatal (some (multi es)) = first_foreign es
decode_fatal (some (undecoded e)) = some e

abbrev pub validate_fatal : Option ValidateError → Option ℕ
validate_fatal (some (invalid e)) = some e
validate_fatal _ = none

abbrev pub or_first : Option ℕ → Option ℕ → Option ℕ
or_first none b = b
or_first (some a) b = some a

abbrev pub bound_options : List (Options → Options) → Options
bound_options options =
    apply_options options (record { max_body_bytes = pos 10485760; messages = [] })

-- The first of the errors that are not the user's.
abbrev pub fatal : Options → Source → Option ℕ
fatal o s =
    or_first (s.parse o.max_body_bytes (is_multipart s.content_type))
      (or_first (decode_fatal s.decode) (validate_fatal s.validate))

abbrev pub decode_messages : Bytes → Option DecodeError → List Bytes
decode_messages f (some (multi es)) = conversions_of f es
decode_messages f _ = []

abbrev pub validate_messages : Options → Bytes → Option ValidateError → List Bytes
validate_messages o f (some (violations vs)) = violations_of o f vs
validate_messages o f _ = []

abbrev pub bespoke_errors : Option Errors → Errors
bespoke_errors none = []
bespoke_errors (some e) = e

-- A result that is the fatal error, if there is one, or else has these messages for the field.
abbrev pub Yields : ℕ ⊎ Errors → Option ℕ → Bytes → List Bytes → Type 0
Yields r e f msgs =
    ((n : ℕ) × (e ≡ some n) × (r ≡ inl n))
    ⊎ ((e ≡ none) × ((errs : Errors) × (r ≡ inr errs) × (get f errs ≡ msgs)))

collect-Yields :
    (f : Bytes) (es : List (Bytes × FieldError)) (errs : Errors)
    → Yields (collect_multi es errs) (first_foreign es) f (get f errs ++ conversions_of f es)
unfolding collect_multi
collect-Yields f [] errs = inr (refl, (errs, refl, sym (append-nil _)))
collect-Yields f ((key, foreign e) ∷ es) errs = inl (e, refl, refl)
collect-Yields f ((key, conversion g numeric) ∷ es) errs =
    subst
      (Yields (collect_multi es (add (field_or g key) (conversion_message numeric) errs))
        (first_foreign es) f)
      (ap (◌++ conversions_of f es) (get-add f (field_or g key) (conversion_message numeric) errs)
        ∙ append_assoc (get f errs) _ (conversions_of f es))
      (collect-Yields f es (add (field_or g key) (conversion_message numeric) errs))

decoded-Yields :
    (f : Bytes) (d : Option DecodeError)
    → Yields (decoded d) (decode_fatal d) f (decode_messages f d)
unfolding collect_decode_errors get Dict.lookup
decoded-Yields f none = inr (refl, ([], refl, refl))
decoded-Yields f (some (multi es)) = collect-Yields f es []
decoded-Yields f (some (undecoded e)) = inl (e, refl, refl)

finish-Yields :
    (s : Source) (f : Bytes)
    → IsMap (bespoke_errors s.bespoke)
    → (errs : Errors)
    → Yields (finish s (inr errs)) none f (get f errs ++ get f (bespoke_errors s.bespoke))
unfolding get Dict.lookup
finish-Yields s f h errs = go s.bespoke h
  where
    go :
        (b : Option Errors)
        → IsMap (bespoke_errors b)
        → Yields (inr (merged b errs)) none f (get f errs ++ get f (bespoke_errors b))
    go none h = inr (refl, (errs, refl, sym (append-nil _)))
    go (some more) h = inr (refl, (_, refl, get-merge f errs more h))

validated-Yields :
    (o : Options) (s : Source) (f : Bytes)
    → IsMap (bespoke_errors s.bespoke)
    → (v : Option ValidateError) (errs : Errors)
    → Yields
        (finish s (validated o v errs))
        (validate_fatal v)
        f
        (get f errs ++ validate_messages o f v ++ get f (bespoke_errors s.bespoke))
validated-Yields o s f h none errs =
    subst (λ msgs. Yields (finish s (inr errs)) none f (msgs ++ get f (bespoke_errors s.bespoke)))
      (sym (append-nil (get f errs))) (finish-Yields s f h errs)
validated-Yields o s f h (some (invalid e)) errs = inl (e, refl, refl)
validated-Yields o s f h (some (violations vs)) errs =
    subst (Yields (finish s (inr (add_violations o vs errs))) none f)
      (ap (◌++ get f (bespoke_errors s.bespoke)) (get-add_violations o f vs errs))
      (finish-Yields s f h (add_violations o vs errs))

check-Yields :
    (o : Options) (s : Source) (f : Bytes)
    → IsMap (bespoke_errors s.bespoke)
    → (r : ℕ ⊎ Errors) (e : Option ℕ) (msgs : List Bytes) → Yields r e f msgs
    → Yields
        (check s o r)
        (or_first e (validate_fatal s.validate))
        f
        (msgs ++ validate_messages o f s.validate ++ get f (bespoke_errors s.bespoke))
check-Yields o s f h r e msgs (inl (n, failed, same)) = rw (failed, same) (inl (n, refl, refl))
check-Yields o s f h r e msgs (inr (fine, (errs, same, found))) =
    rw (fine, same, ← found) (validated-Yields o s f h s.validate errs)

parsed-Yields :
    (o : Options) (s : Source) (f : Bytes)
    → IsMap (bespoke_errors s.bespoke)
    → (p : Option ℕ)
    → Yields
        (parsed s o p)
        (or_first p (or_first (decode_fatal s.decode) (validate_fatal s.validate)))
        f
        (decode_messages f s.decode
          ++ validate_messages o f s.validate
          ++ get f (bespoke_errors s.bespoke))
parsed-Yields o s f h (some e) = inl (e, refl, refl)
parsed-Yields o s f h none = check-Yields o s f h _ _ _ (decoded-Yields f s.decode)

-- Bind returns an error exactly if parsing fails, or else decoding for another reason than a
-- conversion, or else the validator does not run: the first of these. Otherwise each field has its
-- conversion messages, then those of its violated tags, then those of the Validator, which are a
-- map, and no others.
pub bind-Yields :
    (options : List (Options → Options)) (s : Source) (f : Bytes)
    → IsMap (bespoke_errors s.bespoke)
    → Yields (bind options s) (fatal (bound_options options) s) f (
        decode_messages f s.decode
        ++ validate_messages (bound_options options) f s.validate
        ++ get f (bespoke_errors s.bespoke))
unfolding bind
bind-Yields options s f h = parsed-Yields (bound_options options) s f h _
