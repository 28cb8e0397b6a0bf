-- ===== src/Form/Fields.antt =====
-- form/errors.go and the loops of form/form.go: the messages of one field.
use go_bananas.Base.{
  ◌≡◌, refl, sym, ap, ◌∙◌, none, List, [], ◌∷◌, ◌++◌, Bytes, bytes_eq, arith, ◌==◌, if◌then◌else◌,
}
use mathlib.Core.List.{append_assoc, append-nil}
use go_bananas.Base.Dict
use go_bananas.Base.Dict.{Dict, lookup-insert}
use go_bananas.Form.{
  Errors, get, add, merge, Options, message, add_violations, FieldError, conversion, foreign,
  field_or, conversion_message,
}

-- No key stands twice.
abbrev pub IsMap : Errors → Type 0
IsMap [] = Unit
IsMap ((k, v) ∷ m) = (Dict.lookup k m ≡ none) × IsMap m

get-insert :
    (f g : Bytes) (msgs : List Bytes) (e : Errors)
    → get f (Dict.insert g msgs e) ≡ (if g == f then msgs else get f e)
unfolding get
get-insert f g msgs e = ground (arith, lookup-insert g f msgs e)

pub get-add :
    (f g msg : Bytes) (e : Errors)
    → get f (add g msg e) ≡ get f e ++ (if g == f then msg ∷ [] else [])
unfolding add
get-add f g msg e =
    ground
      (arith, get-insert f g (get g e ++ msg ∷ []) e, bytes_eq.equals_iff g f, append-nil (get f e))

get-cons :
    (f g : Bytes) (msgs : List Bytes) (o : Errors)
    → get f ((g, msgs) ∷ o) ≡ (if g == f then msgs else get f o)
unfolding get Dict.lookup
get-cons f g msgs o = ground arith

absent_lem : (f : Bytes) (o : Errors) → Dict.lookup f o ≡ none → get f o ≡ []
unfolding get
absent_lem f o h = rw h refl

-- After a merge every field has its messages of both, in this order.
pub get-merge : (f : Bytes) (e o : Errors) → IsMap o → get f (merge e o) ≡ get f e ++ get f o
unfolding merge get Dict.lookup
get-merge f e [] h = sym (append-nil _)
get-merge f e ((g, msgs) ∷ o) (fresh, h) = ground (
  arith,
  get-merge f (Dict.insert g (get g e ++ msgs) e) o h,
  get-insert f g (get g e ++ msgs) e,
  get-cons f g msgs o,
  bytes_eq.equals_iff g f,
  absent_lem g o fresh,
  append-nil (get g e ++ msgs),
)

-- The messages for the violations of a field, and for the conversions that failed.
abbrev pub violations_of : Options → Bytes → List (Bytes × Bytes) → List Bytes
violations_of o f [] = []
violations_of o f ((g, tag) ∷ vs) =
    (if g == f then message o tag ∷ [] else []) ++ violations_of o f vs

abbrev pub conversions_of : Bytes → List (Bytes × FieldError) → List Bytes
conversions_of f [] = []
conversions_of f ((key, conversion g numeric) ∷ es) =
    (if field_or g key == f then conversion_message numeric ∷ [] else []) ++ conversions_of f es
conversions_of f ((key, foreign e) ∷ es) = conversions_of f es

pub get-add_violations :
    (o : Options) (f : Bytes) (vs : List (Bytes × Bytes)) (e : Errors)
    → get f (add_violations o vs e) ≡ get f e ++ violations_of o f vs
unfolding add_violations
get-add_violations o f [] e = sym (append-nil _)
get-add_violations o f ((g, tag) ∷ vs) e =
    get-add_violations o f vs (add g (message o tag) e)
    ∙ ap (◌++ violations_of o f vs) (get-add f g (message o tag) e)
    ∙ append_assoc (get f e) _ (violations_of o f vs)
