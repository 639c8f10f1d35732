-- ===== src/Prelude/Text.antt =====
-- The functions of Go's `strings` that the program calls, over the native texts. `Unicode` stands
-- for the case tables of Go's `unicode` package outside ASCII, which the repository does not hold.
use Prim.Native.Char.{Char, code}
use Prim.Native.String.{String}
use mathlib.Core.Path.{◌≡◌, refl}
use mathlib.Core.Bool.{Bool, ◌||◌, ◌&&◌}
use mathlib.Core.Option.{Option, none, some}
use text.Mathlib.Text.{◌==◌}
use griefer_security_platfor.Prelude.Tests.{ltb, leb, if◌then◌else◌}

pub record Unicode : Type 0 where
  pub lower : Char → Char
  pub upper : Char → Char

-- The tables of a program whose texts are ASCII.
abbrev pub ascii : Unicode
ascii = record { lower = λ c. c; upper = λ c. c }

abbrev capitals : String
capitals = "ABCDEFGHIJKLMNOPQRSTUVWXYZ"

abbrev smalls : String
smalls = "abcdefghijklmnopqrstuvwxyz"

same_char : Char → Char → Bool
same_char c d = leb (code c) (code d) && leb (code d) (code c)

-- The letter of `to` at the place of `c` in `from`, and `c` where `from` has no `c`.
translate : String → String → Char → Char
unfolding same_char
translate (String.◌∷◌ a from) (String.◌∷◌ b to) c = if same_char a c then b else translate from to c
translate String.[] _ c = c
translate _ String.[] c = c

module _ (u : Unicode) where
  lower_char : Char → Char
  unfolding translate
  lower_char c = if ltb (code c) 128 then translate capitals smalls c else u.lower c

  upper_char : Char → Char
  unfolding translate
  upper_char c = if ltb (code c) 128 then translate smalls capitals c else u.upper c

  -- strings.ToLower
  unfoldable pub to_lower : String → String
  unfolding lower_char
  to_lower String.[] = String.[]
  to_lower (String.◌∷◌ c s) = String.◌∷◌ (lower_char c) (to_lower s)

  -- strings.ToUpper
  unfoldable pub to_upper : String → String
  unfolding upper_char
  to_upper String.[] = String.[]
  to_upper (String.◌∷◌ c s) = String.◌∷◌ (upper_char c) (to_upper s)

-- unicode.IsSpace
is_space : Char → Bool
is_space c =
    let n = code c in
    (leb 9 n && leb n 13)
    || leb 32 n && leb n 32
    || leb 0x85 n && leb n 0x85
    || leb 0xa0 n && leb n 0xa0
    || leb 0x1680 n && leb n 0x1680
    || leb 0x2000 n && leb n 0x200a
    || leb 0x2028 n && leb n 0x2029
    || leb 0x202f n && leb n 0x202f
    || leb 0x205f n && leb n 0x205f
    || leb 0x3000 n && leb n 0x3000

trim_left : String → String
unfolding is_space
trim_left String.[] = String.[]
trim_left (String.◌∷◌ c s) = let rest = trim_left s in if is_space c then rest else String.◌∷◌ c s

-- A character that is a space goes where nothing is left behind it.
trim_right : String → String
unfolding is_space
trim_right String.[] = String.[]
trim_right (String.◌∷◌ c s) =
    let rest = trim_right s in if is_space c && rest == "" then String.[] else String.◌∷◌ c rest

-- strings.TrimSpace
unfoldable pub trim_space : String → String
unfolding trim_left trim_right
trim_space s = trim_right (trim_left s)

-- strings.HasPrefix, with what follows the prefix, as strings.CutPrefix returns it
unfoldable pub cut_prefix : String → String → Option String
unfolding same_char
cut_prefix s String.[] = some s
cut_prefix String.[] (String.◌∷◌ _ _) = none
cut_prefix (String.◌∷◌ c s) (String.◌∷◌ d p) = if same_char d c then cut_prefix s p else none

-- The text before the first `:` and the text behind it.
unfoldable pub split_colon : String → Option (String × String)
split_colon String.[] = none
split_colon (String.◌∷◌ c s) =
    if leb b':' (code c) && leb (code c) b':'
    then some (String.[], s)
    else elim (split_colon s) [ none ↦ none | some (a, b) ↦ some (String.◌∷◌ c a, b) ]

trims : trim_space " \tok, go \n" ≡ "ok, go"
unfolding trim_space
trims = refl

lowers : to_lower ascii "Griefer.Role" ≡ "griefer.role"
unfolding to_lower
lowers = refl

cuts : cut_prefix "labels.outcome" "labels." ≡ some "outcome"
unfolding cut_prefix
cuts = refl

splits : split_colon "identity:a:b" ≡ some ("identity", "a:b")
unfolding split_colon
splits = refl
