-- ===== src/Form/Tests.antt =====
-- Binding a concrete form.
use go_bananas.Base.{
  ◌≡◌, ◌++◌, refl, ℕ, Bool, true, false, Option, none, some, List, [], ◌∷◌, bytes_eq, codes,
  list_beq,
}
use go_bananas.Base.Dict
use go_bananas.Base.Int.{ℤ, pos}
use go_bananas.Form.{
  Options, Source, conversion, multi, violations, bind, with_messages, with_max_body_bytes, get,
  has, any_errors, merge,
}
use go_bananas.Form.Bound.{
  Yields, fatal, bound_options, decode_messages, validate_messages, bespoke_errors, bind-Yields,
}

abbrev parse : ℤ → Bool → Option ℕ
parse n multipart = none

abbrev source : Source
source = record {
  content_type = codes "text/plain";
  parse = parse;
  decode = some (multi ((codes "age", conversion (codes "age") true) ∷ []));
  validate = some (violations ((codes "age", codes "min") ∷ (codes "mail", codes "odd") ∷ []));
  bespoke = some ((codes "age", codes "is odd" ∷ []) ∷ []);
}

abbrev options : List (Options → Options)
options =
    with_messages ((codes "default", codes "is wrong") ∷ []) ∷ with_max_body_bytes (pos 5) ∷ []

-- A Validator that returns an empty list of messages for a field makes Any true, and no field has
-- a message.
empty_list_test :
    (any_errors (merge [] ((codes "age", []) ∷ [])) ≡ true)
    × (has (codes "age") (merge [] ((codes "age", []) ∷ [])) ≡ false)
unfolding any_errors has merge get Dict.lookup Dict.insert list_beq
empty_list_test = (refl, refl)

bind-Yields_example :
    Yields (bind options source) (fatal (bound_options options) source) (codes "age") (
      decode_messages (codes "age") source.decode
      ++ validate_messages (bound_options options) (codes "age") source.validate
      ++ get (codes "age") (bespoke_errors source.bespoke))
unfolding Dict.lookup
bind-Yields_example = bind-Yields options source (codes "age") (refl, tt)
