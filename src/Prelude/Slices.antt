-- ===== src/Prelude/Slices.antt =====
-- Go's functions that cut a text at a separator, a prefix or a suffix, and decimal printing.
use Prim.Native.Char.{Char, code}
use Prim.Native.String.{[], ◌∷◌}
use mathlib.Core.List.{[] as nil, ◌∷◌ as cons}
use mathlib.Core.Path.{◌≡◌, refl}
use fluxplane_dex.Prelude.{
  ℕ, zero, suc, ◌+◌, ◌/◌, ◌%◌, String, Bool, false, ◌||◌, Option, none, some, List, ◌==◌,
  if◌then◌else◌, nat_eq, ltb, append, has_prefix, is_space, strings, Bool-cases, inl, inr, arith,
  true, eq_iff,
}
use fluxplane_dex.Prelude.Int.{ℤ, pos, negsuc}
use mathlib.Core.Option
use text.Mathlib.TextLemmas.{append-eq-nil_iff}

-- strings.HasSuffix
unfoldable pub has_suffix : String → String → Bool
has_suffix [] p = p == []
has_suffix (c ∷ s) p = (c ∷ s) == p || has_suffix s p

-- strings.TrimSuffix
unfoldable pub trim_suffix : String → String → String
trim_suffix [] p = []
trim_suffix (c ∷ s) p = let rest = c ∷ trim_suffix s p in if (c ∷ s) == p then [] else rest

-- the text without its first characters, as many as the second text has
unfoldable pub drop_same : String → String → String
drop_same s [] = s
drop_same [] (d ∷ p) = []
drop_same (c ∷ s) (d ∷ p) = drop_same s p

-- strings.Cut: what stands before and after the first place of the separator
unfoldable pub cut : String → String → Option (String × String)
unfolding drop_same
cut [] sep = if sep == [] then some ([], []) else none
cut (c ∷ s) sep =
    let later = Option.map (λ (p : String × String). (c ∷ p.0, p.1)) (cut s sep) in
    if has_prefix (c ∷ s) sep then some ([], drop_same (c ∷ s) sep) else later

-- s[:strings.LastIndex(s, c)], if the character occurs
unfoldable pub before_last : Char → String → Option String
before_last c [] = none
before_last c (d ∷ s) = elim (before_last c s) [
  | some t ↦ some (d ∷ t)
  | none ↦ if nat_eq (code d) (code c) then some [] else none
]

-- strings.TrimRight and strings.TrimLeft with a set of characters, and both
unfoldable pub keep_unless : (Char → Bool) → Char → String → String
keep_unless cutset c [] = if cutset c then [] else c ∷ []
keep_unless cutset c (d ∷ s) = c ∷ d ∷ s

unfoldable pub trim_right_of : (Char → Bool) → String → String
trim_right_of cutset [] = []
trim_right_of cutset (c ∷ s) = keep_unless cutset c (trim_right_of cutset s)

unfoldable pub trim_left_of : (Char → Bool) → String → String
trim_left_of cutset [] = []
trim_left_of cutset (c ∷ s) = let rest = trim_left_of cutset s in if cutset c then rest else c ∷ s

unfoldable pub trim_of : (Char → Bool) → String → String
trim_of cutset s = trim_left_of cutset (trim_right_of cutset s)

abbrev utf8_len : ℕ → ℕ
utf8_len n = if ltb n 128 then 1 else if ltb n 2048 then 2 else if ltb n 65536 then 3 else 4

-- is the character one of the text
unfoldable pub char_in : String → Char → Bool
char_in [] c = false
char_in (d ∷ s) c = nat_eq (code d) (code c) || char_in s c

abbrev pub word_and : String → List String → List String
word_and word words = if word == "" then words else cons word words

-- strings.Fields: `word` is the word that is being read
unfoldable pub fields_from : String → String → List String
fields_from word [] = word_and word nil
fields_from word (c ∷ s) =
    let ended = word_and word (fields_from "" s) in
    let longer = fields_from (append word (c ∷ [])) s in if is_space c then ended else longer

unfoldable pub fields : String → List String
fields s = fields_from "" s

-- the separate texts between the commas, strings.Split(s, ",")
unfoldable pub split_from : Char → String → String → List String
split_from sep part [] = cons part nil
split_from sep part (c ∷ s) =
    let ended = cons part (split_from sep "" s) in
    let longer = split_from sep (append part (c ∷ [])) s in
    if nat_eq (code c) (code sep) then ended else longer

digit : ℕ → String
digit n =
    if nat_eq n 0
    then "0"
    else if nat_eq n 1
    then "1"
    else if nat_eq n 2
    then "2"
    else if nat_eq n 3
    then "3"
    else if nat_eq n 4
    then "4"
    else if nat_eq n 5
    then "5"
    else if nat_eq n 6
    then "6"
    else if nat_eq n 7
    then "7"
    else if nat_eq n 8
    then "8"
    else "9"

-- the decimal digits; the first number is fuel, and a number is enough fuel for itself
decimal_from : ℕ → ℕ → String
decimal_from zero n = digit n
decimal_from (suc f) n =
    let rest = append (decimal_from f (n / 10)) (digit (n % 10)) in
    if ltb n 10 then digit n else rest

-- strconv.Itoa, strconv.FormatInt in base 10
unfoldable pub format_int : ℤ → String
unfolding decimal_from digit
format_int (pos n) = decimal_from n n
format_int (negsuc n) = append "-" (decimal_from (suc n) (suc n))

one_of-set :
    (b : Bool) (s t : String)
    → (s == "") ≡ false
    → (t == "") ≡ false
    → ((if b then s else t) == "") ≡ false
one_of-set true s t h k = h
one_of-set false s t h k = k

digit-set : (n : ℕ) → (digit n == "") ≡ false
unfolding digit strings
digit-set n = one_of-set (nat_eq n 0) "0" _ refl (
    one_of-set (nat_eq n 1) "1" _ refl (
      one_of-set (nat_eq n 2) "2" _ refl (
        one_of-set (nat_eq n 3) "3" _ refl (
          one_of-set (nat_eq n 4) "4" _ refl (
            one_of-set (nat_eq n 5) "5" _ refl (
              one_of-set (nat_eq n 6) "6" _ refl (
                one_of-set (nat_eq n 7) "7" _ refl
                  (one_of-set (nat_eq n 8) "8" "9" refl refl))))))))

append-set : (s t : String) → (t == "") ≡ false → (append s t == "") ≡ false
append-set s t h = elim (Bool-cases (append s t == "")) [
  | inr e ↦ e
  | inl e ↦
      let none_left = append-eq-nil_iff.0 ((eq_iff (append s t) "").0 e) in
      absurd (ground (arith, h, eq_iff t "", none_left.1))
]

decimal_from-set : (fuel n : ℕ) → (decimal_from fuel n == "") ≡ false
unfolding decimal_from
decimal_from-set zero n = digit-set n
decimal_from-set (suc f) n = elim (Bool-cases (ltb n 10)) [
  | inl e ↦ rw e (digit-set n)
  | inr e ↦ rw e (append-set (decimal_from f (n / 10)) (digit (n % 10)) (digit-set (n % 10)))
]

-- The decimal form of a number is not blank.
pub format_int-set : (n : ℤ) → (format_int n == "") ≡ false
unfolding format_int
format_int-set (pos n) = decimal_from-set n n
format_int-set (negsuc n) =
    append-set "-" (decimal_from (suc n) (suc n)) (decimal_from-set (suc n) (suc n))

abbrev pub slash : Char
slash = "/"

slices_example :
    (fields " a  bc " ≡ cons "a" (cons "bc" nil))
    × (cut "g/p!12" "!" ≡ some ("g/p", "12"))
    × (before_last slash "a/b/c" ≡ some "a/b")
    × (trim_suffix "https://h/a/b" "a/b" ≡ "https://h/")
    × (format_int (pos 907) ≡ "907")
unfolding fields fields_from is_space cut has_prefix before_last trim_suffix format_int
slices_example = (refl, refl, refl, refl, refl)

-- `len` of a text: the number of bytes of its UTF-8 form
unfoldable pub byte_len : String → ℕ
byte_len [] = 0
byte_len (c ∷ s) = byte_len s + utf8_len (code c)
