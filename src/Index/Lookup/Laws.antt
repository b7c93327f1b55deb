-- ===== src/Index/Lookup/Laws.antt =====
-- containsLookupValue against occurrences in the text, and the range of lookupRecordScore,
-- runtime/index.go.
use Prim.Native.Char.{Char}
use Prim.Native.String.{[] as end, ◌∷◌ as then_char}
use text.Mathlib.TextLemmas.{nil-append, cons-append}
use text.Mathlib.TextEquality.{Char-path}
use mathlib.Core.Path.{subst}
use fluxplane_dex.Prelude.{
  ℕ, ◌-◌, ◌≤◌, ◌<◌, String, ◌≡◌, ◌≢◌, ◌↔◌, refl, ap, sym, true, ◌&&◌, Option, none, some, List, [],
  ◌∷◌, arith, append, has_prefix, Bool-cases, inl, inr,
}
use fluxplane_dex.Maps.{Map}
use fluxplane_dex.Json.{Object, Codec}
use fluxplane_dex.Index.{IndexRecord, first_record_string}
use fluxplane_dex.Index.Score.{Tally}
use fluxplane_dex.Index.Score.Bounds.{IsGraded, bump-IsGraded, no_match-IsGraded}
use fluxplane_dex.Index.Lookup.{
  lookup_boundary, head, after_prefix, contains_from, contains_lookup_value, add_terms, add_value,
  add_link_values, add_key_values, lookup_keys, lookup_record_score, lowered,
}

-- the last character of a text that follows the character `before`
unfoldable pub last_of : Option Char → String → Option Char
last_of before end = before
last_of before (then_char c s) = last_of (some c) s

-- The value stands in the text `s`, which follows the character `before`, between boundaries.
pub record Stands (before : Option Char) (s value : String) : Type 0 where
  pub left : String
  pub right : String
  pub split : s ≡ append left (append value right)
  pub starts : lookup_boundary (last_of before left) ≡ true
  pub ends : lookup_boundary (head right) ≡ true

append-after_prefix : (s v : String) → has_prefix s v ≡ true → s ≡ append v (after_prefix s v)
unfolding has_prefix after_prefix
append-after_prefix s end h = rw nil-append
append-after_prefix end (then_char d t) h = ground arith
append-after_prefix (then_char c s) (then_char d t) h =
    let (e, k) : (c ≡ d) × (has_prefix s t ≡ true) = (Char-path c d (ground arith), ground arith) in
    rw (cons-append, e) (ap (then_char d) (append-after_prefix s t k))

after_prefix-append :
    (v b : String) → (has_prefix (append v b) v ≡ true) × (after_prefix (append v b) v ≡ b)
unfolding has_prefix after_prefix
after_prefix-append end b = (refl, nil-append b)
after_prefix-append (then_char d t) b =
    let (p, e) = after_prefix-append t b in rw cons-append (ground (arith, p), e)

contains_from_sound :
    (before : Option Char) (s v : String)
    → v ≢ ""
    → contains_from before s v ≡ true
    → Stands before s v
unfolding contains_from last_of has_prefix
contains_from_sound before end end n h = absurd (n refl)
contains_from_sound before end (then_char d t) n h = ground arith
contains_from_sound before (then_char c s) v n h =
    elim (Bool-cases (
      has_prefix (then_char c s) v
      && (lookup_boundary before && lookup_boundary (head (after_prefix (then_char c s) v))))) [
        | inl e ↦ record {
          left = "";
          right = after_prefix (then_char c s) v;
          split = rw nil-append (append-after_prefix (then_char c s) v (ground arith));
          starts = ground arith;
          ends = ground arith;
        }
        | inr e ↦
            let later = contains_from_sound (some c) s v n (ground arith) in
            record {
              left = then_char c later.left;
              right = later.right;
              split = rw cons-append (ap (then_char c) later.split);
              starts = later.starts;
              ends = later.ends;
            }
      ]

contains_from_complete :
    (before : Option Char) (v : String)
    → v ≢ ""
    → (left right : String) → lookup_boundary (last_of before left) ≡ true
    → lookup_boundary (head right) ≡ true
    → contains_from before (append left (append v right)) v ≡ true
unfolding contains_from last_of
contains_from_complete before end n left right p q = absurd (n refl)
contains_from_complete before (then_char d t) n end right p q =
    let (h, e) = after_prefix-append (then_char d t) right in
    let e' : append (then_char d t) right ≡ then_char d (append t right) = rw cons-append in
    let h' = subst (λ z. has_prefix z (then_char d t) ≡ true) e' h in
    let e'' = subst (λ z. after_prefix z (then_char d t) ≡ right) e' e in
    rw (nil-append, cons-append, h', e'', p, q)
contains_from_complete before (then_char d t) n (then_char c left) right p q =
    let later = contains_from_complete (some c) (then_char d t) n left right p q in
    rw cons-append (ground (arith, later))

-- For a value that is not blank, the loop answers true exactly if the value stands in the text with
-- a boundary, or the end of the text, on both sides.
pub contains_lookup_value-Stands :
    (text value : String)
    → value ≢ ""
    → (contains_lookup_value text value ≡ true) ↔ Stands none text value
unfolding contains_lookup_value
contains_lookup_value-Stands text value n = (
  contains_from_sound none text value n,
  λ at.
      subst (λ t. contains_from none t value ≡ true) (sym at.split)
        (contains_from_complete none value n at.left at.right at.starts at.ends),
)

module _ (text : String) (terms : List String) where
  add_terms-IsGraded :
      (field value : String) (n : ℕ) (ts : List String) (t : Tally)
      → 250 < n
      → n ≤ 1200
      → IsGraded 1200 t
      → IsGraded 1200 (add_terms field value n ts t)
  unfolding add_terms
  add_terms-IsGraded field value n [] t p b g = g
  add_terms-IsGraded field value n (term ∷ ts) t p b g = add_terms-IsGraded field value n ts _ p b (
      ground (
        arith,
        bump-IsGraded (n - 50) field t (omega (arith, p)) (omega (arith, b)) g,
        bump-IsGraded (n - 250) field t (omega (arith, p)) (omega (arith, b)) g,
      ))

  add_value-IsGraded :
      (field value : String) (n : ℕ) (t : Tally)
      → 250 < n
      → n ≤ 1200
      → IsGraded 1200 t
      → IsGraded 1200 (add_value text terms field value n t)
  unfolding add_value
  add_value-IsGraded field value n t p b g = ground (
    arith,
    bump-IsGraded n field t (omega (arith, p)) b g,
    add_terms-IsGraded field (lowered value) n terms t p b g,
  )

  add_link_values-IsGraded :
      (links : Map String) (t : Tally)
      → IsGraded 1200 t
      → IsGraded 1200 (add_link_values text terms links t)
  unfolding add_link_values
  add_link_values-IsGraded [] t g = g
  add_link_values-IsGraded ((k, v) ∷ links) t g =
      add_link_values-IsGraded links _
        (add_value-IsGraded (append "links." k) v 1050 t (omega arith) (omega arith) g)

  add_key_values-IsGraded :
      (o : Option Object) (keys : List String) (t : Tally)
      → IsGraded 1200 t
      → IsGraded 1200 (add_key_values text terms o keys t)
  unfolding add_key_values
  add_key_values-IsGraded o [] t g = g
  add_key_values-IsGraded o (key ∷ keys) t g = add_key_values-IsGraded o keys _ (
      add_value-IsGraded (append "record." key) (first_record_string o (key ∷ [])) 950 t
        (omega arith) (omega arith) g)

  -- The score of a lookup is at most 1200, and it is positive exactly if some field is listed.
  pub lookup_record_score-IsGraded :
      (codec : Codec) (r : IndexRecord) → IsGraded 1200 (lookup_record_score codec r text terms)
  unfolding lookup_record_score
  lookup_record_score-IsGraded codec r =
      add_key_values-IsGraded (codec.unmarshal r.raw) lookup_keys _ (
        add_link_values-IsGraded r.links _ (
          add_value-IsGraded "entity" r.entity 500 _ (omega arith) (omega arith) (
            add_value-IsGraded "title" r.title 900 _ (omega arith) (omega arith) (
              add_value-IsGraded "url" r.url 1150 _ (omega arith) (omega arith) (
                add_value-IsGraded "id" r.id 1200 _ (omega arith) (omega arith)
                  no_match-IsGraded)))))
