-- ===== src/Jobs/Inputs.antt =====
-- How the input of a plugin operation is read: FirstString, IntFromInput and their kin in
-- core/pluginbinding/index.go.
pub mod Bounds
use Prim.Native.Char.{Char, code}
use Prim.Native.String.{[] as end, ◌∷◌ as then_char}
use fluxplane_dex.Prelude.{
  ℕ, zero, suc, ◌+◌, ◌-◌, ◌*◌, ◌^◌, String, Bool, false, true, ◌&&◌, ◌||◌, not, Option, none, some,
  List, [], ◌∷◌, ◌++◌, ◌==◌, if◌then◌else◌, trim_space, to_lower, nat_eq, ltb, leb, length,
}
use fluxplane_dex.Prelude.Int.{ℤ, pos, negsuc}
use fluxplane_dex.Prelude.Outcome.{Outcome, ok, err}
use fluxplane_dex.Prelude.Slices.{split_from, format_int}
use fluxplane_dex.Prelude.Unique.{mem}
use fluxplane_dex.Maps.{Map, get, put}
use fluxplane_dex.Json.{Object, Value, text, float, int}

-- the answer for one value
abbrev pub shown_value : Option Value → Option String
shown_value (some (text s)) = if trim_space s == "" then none else some (trim_space s)
shown_value (some (float f)) = if f.is_zero then none else some (format_int f.truncated)
shown_value (some (int (pos zero))) = none
shown_value (some (int n)) = some (format_int n)
shown_value _ = none

unfoldable pub first_string : Object → List String → String
first_string input [] = ""
first_string input (key ∷ keys) = elim (shown_value (get key input)) [
  | some s ↦ s
  | none ↦ first_string input keys
]

abbrev pub is_digit : Char → Bool
is_digit c = leb 48 (code c) && leb (code c) 57

-- the value of a text of digits, after those read before
unfoldable pub digits_from : ℕ → String → Option ℕ
digits_from n end = some n
digits_from n (then_char c s) =
    let rest = digits_from (10 * n + (code c - 48)) s in if is_digit c then rest else none

unfoldable pub magnitude : String → Option ℕ
unfolding digits_from
magnitude end = none
magnitude (then_char c s) = digits_from 0 (then_char c s)

-- the integer of a sign and a magnitude that 64 bits hold
abbrev pub signed : Bool → Option ℕ → Option ℤ
signed minus none = none
signed false (some n) = if leb (2 ^ 63) n then none else some (pos n)
signed true (some zero) = some (pos zero)
signed true (some (suc n)) = if leb (2 ^ 63) n then none else some (negsuc n)

-- strconv.Atoi
unfoldable pub atoi : String → Option ℤ
unfolding magnitude
atoi end = none
atoi (then_char c s) =
    if nat_eq (code c) 45
    then signed true (magnitude s)
    else if nat_eq (code c) 43
    then signed false (magnitude s)
    else signed false (magnitude (then_char c s))

unfoldable pub int_from_input : Object → String → ℤ → ℤ
unfolding atoi
int_from_input input key fallback = elim (get key input) [
  | some (float f) ↦ f.truncated
  | some (int n) ↦ n
  | some (text s) ↦ elim (atoi (trim_space s)) [ some n ↦ n | none ↦ fallback ]
  | _ ↦ fallback
]

abbrev pub is_positive : ℤ → Bool
is_positive (pos zero) = false
is_positive (pos (suc n)) = true
is_positive (negsuc n) = false

-- `a > b`
abbrev pub greater : ℤ → ℤ → Bool
greater (pos m) (pos n) = ltb n m
greater (pos m) (negsuc n) = true
greater (negsuc m) (pos n) = false
greater (negsuc m) (negsuc n) = ltb m n

-- the two tests at the end of BoundedIntFromInput
abbrev pub bounded : ℤ → ℤ → ℤ → ℤ
bounded fallback max untested =
    let value = if is_positive untested then untested else fallback in
    if is_positive max && greater value max then max else value

unfoldable pub bounded_int_from_input : Object → String → ℤ → ℤ → ℤ
unfolding int_from_input
bounded_int_from_input input key fallback max =
    bounded fallback max (int_from_input input key fallback)

unfoldable pub string_from_input : Object → List String → String
unfolding first_string
string_from_input input keys = trim_space (first_string input keys)

unfoldable pub default_string_from_input : Object → String → List String → String
unfolding string_from_input
default_string_from_input input fallback keys =
    let value = string_from_input input keys in if value == "" then fallback else value
