-- ===== src/Prelude/Strings.antt =====
-- The functions of Go's package `strings` that the program calls, over the code points of a text.
-- `to_lower` maps the ASCII capitals and leaves every other character as it is.
use Prim.Native.Char.{Char, code}
use Prim.Native.String
use Prim.Native.String.{String, [], ◌∷◌}
use mathlib.Core.Path.{◌≡◌, refl}
use mathlib.Core.Bool.{Bool, true, false, ◌&&◌, ◌||◌}
use native.Mathlib.Omega.{arith}
use text.Mathlib.TextLemmas.{nil≢cons, tail-eq_of_cons-eq}
use text.Mathlib.TextEquality.{Char-path}
use mathlib.Core.Path.{◌∙◌, ap}
use mathlib.Core.Logic.{inl, inr}
use fluxplane_dex.Prelude.Tests.{ltb, leb, nat_eq, if◌then◌else◌, Bool-cases}

abbrev pub append : String → String → String
append = String.◌++◌

-- unicode.IsSpace
unfoldable pub is_space : Char → Bool
is_space c =
    let n = code c in
    (leb 9 n && leb n 13)
    || nat_eq n 32
    || nat_eq n 0x85
    || nat_eq n 0xa0
    || nat_eq n 0x1680
    || (leb 0x2000 n && leb n 0x200a)
    || nat_eq n 0x2028
    || nat_eq n 0x2029
    || nat_eq n 0x202f
    || nat_eq n 0x205f
    || nat_eq n 0x3000

unfoldable pub trim_left : String → String
trim_left [] = []
trim_left (c ∷ s) = let rest = trim_left s in if is_space c then rest else c ∷ s

-- a space at the head is dropped when nothing but spaces follows
unfoldable pub keep : Char → String → String
keep c [] = if is_space c then [] else c ∷ []
keep c (d ∷ s) = c ∷ d ∷ s

unfoldable pub trim_right : String → String
trim_right [] = []
trim_right (c ∷ s) = keep c (trim_right s)

-- strings.TrimSpace
unfoldable pub trim_space : String → String
trim_space s = trim_left (trim_right s)

-- the letter of the second text at the place where the first has `c`
unfoldable pub pick : Char → String → String → Char
pick c (u ∷ us) (l ∷ ls) = if nat_eq (code c) (code u) then l else pick c us ls
pick c _ _ = c

-- strings.ToLower on ASCII
unfoldable pub to_lower : String → String
unfolding pick
to_lower [] = []
to_lower (c ∷ s) = pick c "ABCDEFGHIJKLMNOPQRSTUVWXYZ" "abcdefghijklmnopqrstuvwxyz" ∷ to_lower s

-- strings.ToUpper on ASCII
unfoldable pub to_upper : String → String
unfolding pick
to_upper [] = []
to_upper (c ∷ s) = pick c "abcdefghijklmnopqrstuvwxyz" "ABCDEFGHIJKLMNOPQRSTUVWXYZ" ∷ to_upper s

unfoldable pub has_prefix : String → String → Bool
has_prefix s [] = true
has_prefix [] (d ∷ p) = false
has_prefix (c ∷ s) (d ∷ p) = nat_eq (code c) (code d) && has_prefix s p

unfoldable pub str_contains : String → String → Bool
unfolding has_prefix
str_contains [] p = has_prefix [] p
str_contains (c ∷ s) p = has_prefix (c ∷ s) p || str_contains s p

-- `s < t` on strings
unfoldable pub str_lt : String → String → Bool
str_lt s [] = false
str_lt [] (d ∷ t) = true
str_lt (c ∷ s) (d ∷ t) = ltb (code c) (code d) || (nat_eq (code c) (code d) && str_lt s t)

-- What a test unfolds to run these functions.
unfoldable pub strings : Unit {0}
unfolding is_space trim_left keep trim_right trim_space to_lower has_prefix str_contains str_lt
strings = tt

lower_example : to_lower (trim_space "  Foo Bar ") ≡ "foo bar"
unfolding strings
lower_example = refl

contains_example : str_contains "gitlab.project" "lab.p" ≡ true
unfolding strings
contains_example = refl

-- The order of texts is asymmetric, and its negation is transitive.
pub str_lt_asym : (s t : String) → str_lt s t ≡ true → str_lt t s ≡ false
unfolding str_lt
str_lt_asym s [] h = ground arith
str_lt_asym [] (d ∷ t) h = refl
str_lt_asym (c ∷ s) (d ∷ t) h = ground (arith, str_lt_asym s t)

pub str_lt_cotrans : (s t u : String) → str_lt t s ≡ false → str_lt u t ≡ false → str_lt u s ≡ false
unfolding str_lt
str_lt_cotrans [] t u h k = refl
str_lt_cotrans (c ∷ s) [] u h k = ground arith
str_lt_cotrans (c ∷ s) (d ∷ t) [] h k = ground arith
str_lt_cotrans (c ∷ s) (d ∷ t) (e ∷ u) h k = ground (arith, str_lt_cotrans s t u)

pub str_lt_irrefl : (s : String) → str_lt s s ≡ false
unfolding str_lt
str_lt_irrefl [] = refl
str_lt_irrefl (c ∷ s) = ground (arith, str_lt_irrefl s)

-- Texts that are in neither order are equal.
pub str_lt_connected : (s t : String) → str_lt s t ≡ false → str_lt t s ≡ false → s ≡ t
unfolding str_lt
str_lt_connected [] [] h k = refl
str_lt_connected (c ∷ s) [] h k = ground arith
str_lt_connected [] (d ∷ t) h k = ground arith
str_lt_connected (c ∷ s) (d ∷ t) h k = ground (arith, str_lt_connected s t, Char-path c d)

-- Trimming twice is trimming once.
trim_right-keep : (c : Char) (r : String) → trim_right r ≡ r → trim_right (keep c r) ≡ keep c r
unfolding trim_right keep
trim_right-keep c [] h = elim (Bool-cases (is_space c)) [ inl e ↦ rw e | inr e ↦ rw e (rw e) ]
trim_right-keep c (d ∷ r) h = rw h

trim_right_idem : (s : String) → trim_right (trim_right s) ≡ trim_right s
unfolding trim_right
trim_right_idem [] = refl
trim_right_idem (c ∷ s) = trim_right-keep c (trim_right s) (trim_right_idem s)

keep-inv : (c : Char) (t s : String) → keep c t ≡ c ∷ s → t ≡ s
unfolding keep
keep-inv c [] s h = elim (Bool-cases (is_space c)) [
  | inl e ↦ absurd (nil≢cons (rw e at h))
  | inr e ↦ tail-eq_of_cons-eq (rw e at h)
]
keep-inv c (d ∷ t) s h = tail-eq_of_cons-eq h

trim_right-trim_left : (s : String) → trim_right s ≡ s → trim_right (trim_left s) ≡ trim_left s
unfolding trim_left
trim_right-trim_left [] h = h
trim_right-trim_left (c ∷ s) h = elim (Bool-cases (is_space c)) [
  | inl e ↦ rw e (trim_right-trim_left s (keep-inv c (trim_right s) s (unfold trim_right in h)))
  | inr e ↦ rw e h
]

trim_left_idem : (s : String) → trim_left (trim_left s) ≡ trim_left s
unfolding trim_left
trim_left_idem [] = refl
trim_left_idem (c ∷ s) = elim (Bool-cases (is_space c)) [
  | inl e ↦ rw e (trim_left_idem s)
  | inr e ↦ rw (e, trim_left) (rw e)
]

pub trim_space_idem : (s : String) → trim_space (trim_space s) ≡ trim_space s
unfolding trim_space
trim_space_idem s =
    ap trim_left (trim_right-trim_left (trim_right s) (trim_right_idem s))
    ∙ trim_left_idem (trim_right s)
