-- ===== src/Graph/Identifier.antt =====
-- `split_entity_id` inverts `entity_id`.
use griefer_security_platfor.Prelude.{
  String, ◌≡◌, refl, ◌≢◌, Bool, true, false, not, ◌&&◌, some, arith, ◌==◌, leb, All,
}
use Prim.Native.Char.{Char, code}
use Prim.Native.String.{◌++◌ as ◌++ₛ◌}
use griefer_security_platfor.Prelude.{text_eq-false_of_ne}
use text.Mathlib.TextLemmas.{nil-append, cons-append, cons-ne-nil}
use griefer_security_platfor.Prelude.Dict.{contains-All}
use griefer_security_platfor.Prelude.Text.{Unicode, to_lower, trim_space, split_colon}
use griefer_security_platfor.Graph.{known_entity_types, valid_type, entity_id, split_entity_id}

is_colon : Char → Bool
is_colon c = leb b':' (code c) && leb (code c) b':'

has_no_colon : String → Bool
unfolding is_colon
has_no_colon String.[] = true
has_no_colon (String.◌∷◌ c s) = not (is_colon c) && has_no_colon s

split_colon-append :
    (t r : String) → has_no_colon t ≡ true → split_colon (t ++ₛ (":" ++ₛ r)) ≡ some (t, r)
unfolding has_no_colon split_colon is_colon
split_colon-append String.[] r h = rw nil-append (rw cons-append (rw nil-append))
split_colon-append (String.◌∷◌ c t) r h = rw cons-append (ground (arith, split_colon-append t r))

abbrev IsPlain : String → Type 0
IsPlain t = (has_no_colon t ≡ true) × ((t == "") ≡ false)

known-IsPlain : All IsPlain known_entity_types
unfolding has_no_colon
known-IsPlain = search

valid_type-IsPlain : (t : String) → valid_type t ≡ true → IsPlain t
unfolding valid_type
valid_type-IsPlain t v = contains-All IsPlain known_entity_types t known-IsPlain v

to_lower-ne_empty : (u : Unicode) (s : String) → s ≢ "" → (to_lower u s == "") ≡ false
unfolding to_lower
to_lower-ne_empty u String.[] h = absurd (h refl)
to_lower-ne_empty u (String.◌∷◌ c s) h = text_eq-false_of_ne _ _ (cons-ne-nil _ _)

-- Splitting the identifier of a typed key gives the type and the key in canonical form, trimmed and
-- in lower case, where the type is one of the ten and the trimmed key is not empty.
pub split_entity_id-entity_id :
    (u : Unicode) (t key : String)
    → valid_type t ≡ true
    → trim_space key ≢ ""
    → split_entity_id (entity_id u t key) ≡ some (t, to_lower u (trim_space key))
unfolding split_entity_id entity_id
split_entity_id-entity_id u t key v h =
    let (plain, named) = valid_type-IsPlain t v in
    ground (
      arith,
      split_colon-append t (to_lower u (trim_space key)) plain,
      named,
      to_lower-ne_empty u (trim_space key) h,
    )
