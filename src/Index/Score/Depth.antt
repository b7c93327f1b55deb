-- ===== src/Index/Score/Depth.antt =====
-- The recursion of indexRecordScore through indexRecordTokenScore, runtime/index.go.
use Prim.Native.Char.{Char}
use Prim.Native.String
use Prim.Native.String.{◌∷◌}
use text.Mathlib.TextLemmas.{nil-append, cons-append}
use fluxplane_dex.Prelude.{
  ℕ, zero, suc, ◌≤◌, String, ◌≡◌, refl, Bool, false, List, [], ◌∷◌ as cons, ◌==◌, arith, length,
  All, Bool-cases, inl, inr, is_space, trim_left, trim_right, keep, trim_space, to_lower, pick,
  ◌||◌,
}
use fluxplane_dex.Prelude.Slices.{
  fields, fields_from, word_and, trim_of, trim_left_of, trim_right_of, keep_unless,
}
use fluxplane_dex.Prelude.Unique.{mem, collect}
use fluxplane_dex.Json.{Codec}
use fluxplane_dex.Index.{IndexRecord}
use fluxplane_dex.Index.Score.{
  Tally, no_match, cutset, is_no_term, search_terms, direct_score, sum_terms,
  index_record_token_score, or_terms, index_record_score,
}

abbrev NoSpace : String → Type 0
NoSpace String.[] = Unit
NoSpace (c ∷ s) = (is_space c ≡ false) × NoSpace s

NoSpace-concat :
    (w : String) (c : Char)
    → NoSpace w
    → is_space c ≡ false
    → NoSpace (String.◌++◌ w (c ∷ String.[]))
NoSpace-concat String.[] c h p = rw nil-append (p, tt)
NoSpace-concat (d ∷ w) c (q, h) p = rw cons-append (q, NoSpace-concat w c h p)

NoSpace-word_and :
    (w : String) (ws : List String) → NoSpace w → All NoSpace ws → All NoSpace (word_and w ws)
NoSpace-word_and w ws h hs = elim (Bool-cases (w == "")) [ inl e ↦ rw e hs | inr e ↦ rw e (h, hs) ]

fields_from-NoSpace : (w s : String) → NoSpace w → All NoSpace (fields_from w s)
unfolding fields_from
fields_from-NoSpace w String.[] h = NoSpace-word_and w [] h tt
fields_from-NoSpace w (c ∷ s) h = elim (Bool-cases (is_space c)) [
  | inl e ↦ rw e (NoSpace-word_and w (fields_from "" s) h (fields_from-NoSpace "" s tt))
  | inr e ↦ rw e (fields_from-NoSpace (String.◌++◌ w (c ∷ String.[])) s (NoSpace-concat w c h e))
]

keep_unless-NoSpace :
    (p : Char → Bool) (c : Char) (s : String)
    → is_space c ≡ false
    → NoSpace s
    → NoSpace (keep_unless p c s)
unfolding keep_unless
keep_unless-NoSpace p c String.[] q h = elim (Bool-cases (p c)) [
  | inl e ↦ rw e tt
  | inr e ↦ rw e (q, tt)
]
keep_unless-NoSpace p c (d ∷ s) q h = (q, h)

trim_right_of-NoSpace : (p : Char → Bool) (s : String) → NoSpace s → NoSpace (trim_right_of p s)
unfolding trim_right_of
trim_right_of-NoSpace p String.[] h = tt
trim_right_of-NoSpace p (c ∷ s) (q, h) =
    keep_unless-NoSpace p c (trim_right_of p s) q (trim_right_of-NoSpace p s h)

trim_left_of-NoSpace : (p : Char → Bool) (s : String) → NoSpace s → NoSpace (trim_left_of p s)
unfolding trim_left_of
trim_left_of-NoSpace p String.[] h = tt
trim_left_of-NoSpace p (c ∷ s) (q, h) = elim (Bool-cases (p c)) [
  | inl e ↦ rw e (trim_left_of-NoSpace p s h)
  | inr e ↦ rw e (q, h)
]

trim_of-NoSpace : (p : Char → Bool) (s : String) → NoSpace s → NoSpace (trim_of p s)
unfolding trim_of
trim_of-NoSpace p s h = trim_left_of-NoSpace p (trim_right_of p s) (trim_right_of-NoSpace p s h)

-- A text without spaces is trimmed already.
trim_right_of_NoSpace : (s : String) → NoSpace s → trim_right s ≡ s
unfolding trim_right keep
trim_right_of_NoSpace String.[] h = refl
trim_right_of_NoSpace (c ∷ String.[]) (q, h) = rw q
trim_right_of_NoSpace (c ∷ d ∷ s) (q, h) = rw (trim_right_of_NoSpace (d ∷ s) h)

trim_left_of_NoSpace : (s : String) → NoSpace s → trim_left s ≡ s
unfolding trim_left
trim_left_of_NoSpace String.[] h = refl
trim_left_of_NoSpace (c ∷ s) (q, h) = rw q

trim_space_of_NoSpace : (s : String) → NoSpace s → trim_space s ≡ s
unfolding trim_space
trim_space_of_NoSpace s h = rw (trim_right_of_NoSpace s h) (trim_left_of_NoSpace s h)

pick-NoSpace :
    (c : Char) (us ls : String) → is_space c ≡ false → NoSpace ls → is_space (pick c us ls) ≡ false
unfolding pick
pick-NoSpace c (u ∷ us) (l ∷ ls) q (p, h) = ground (arith, pick-NoSpace c us ls q h)
pick-NoSpace c String.[] ls q h = q
pick-NoSpace c (u ∷ us) String.[] q h = q

letters-NoSpace : NoSpace "abcdefghijklmnopqrstuvwxyz"
unfolding is_space
letters-NoSpace = (
  refl,
  (
    refl,
    (
      refl,
      (
        refl,
        (
          refl,
          (
            refl,
            (
              refl,
              (
                refl,
                (
                  refl,
                  (
                    refl,
                    (
                      refl,
                      (
                        refl,
                        (
                          refl,
                          (
                            refl,
                            (
                              refl,
                              (
                                refl,
                                (
                                  refl,
                                  (
                                    refl,
                                    (
                                      refl,
                                      (refl, (refl, (refl, (refl, (refl, (refl, (refl, tt))))))),
                                    ),
                                  ),
                                ),
                              ),
                            ),
                          ),
                        ),
                      ),
                    ),
                  ),
                ),
              ),
            ),
          ),
        ),
      ),
    ),
  ),
)

to_lower-NoSpace : (s : String) → NoSpace s → NoSpace (to_lower s)
unfolding to_lower
to_lower-NoSpace String.[] h = tt
to_lower-NoSpace (c ∷ s) (q, h) = (
  pick-NoSpace c "ABCDEFGHIJKLMNOPQRSTUVWXYZ" "abcdefghijklmnopqrstuvwxyz" q letters-NoSpace,
  to_lower-NoSpace s h,
)

length-word_and : (w : String) → length (word_and w []) ≤ 1
length-word_and w = ground arith

length-fields_from : (w s : String) → NoSpace s → length (fields_from w s) ≤ 1
unfolding fields_from
length-fields_from w String.[] h = length-word_and w
length-fields_from w (c ∷ s) (q, h) = rw q (length-fields_from (String.◌++◌ w (c ∷ String.[])) s h)

length-collect :
    (f : String → String) (skip : String → Bool) (seen xs : List String)
    → length (collect ◌==◌ f skip seen xs) ≤ length xs
unfolding collect
length-collect f skip seen [] = omega arith
length-collect f skip seen (cons x xs) =
    ground (arith, length-collect f skip seen xs, length-collect f skip (cons (f x) seen) xs)

-- A text without spaces has at most one search term.
length-search_terms : (t : String) → NoSpace t → length (search_terms t) ≤ 1
unfolding search_terms fields
length-search_terms t h =
    let s = to_lower (trim_space t) in
    let no_space : NoSpace s = rw (trim_space_of_NoSpace t h) (to_lower-NoSpace t h) in
    omega (
      arith,
      length-collect (trim_of cutset) is_no_term [] (fields_from "" s),
      length-fields_from "" s no_space,
    )

collect-NoSpace :
    (seen xs : List String)
    → All NoSpace xs
    → All NoSpace (collect ◌==◌ (trim_of cutset) is_no_term seen xs)
unfolding collect
collect-NoSpace seen [] h = tt
collect-NoSpace seen (cons x xs) (p, h) =
    let term = trim_of cutset x in
    elim (Bool-cases (is_no_term term || mem ◌==◌ term seen)) [
      | inl e ↦ rw e (collect-NoSpace seen xs h)
      | inr e ↦ rw e (trim_of-NoSpace cutset x p, collect-NoSpace (cons term seen) xs h)
    ]

search_terms-NoSpace : (q : String) → All NoSpace (search_terms q)
unfolding search_terms fields
search_terms-NoSpace q =
    collect-NoSpace [] (fields_from "" (to_lower (trim_space q)))
      (fields_from-NoSpace "" (to_lower (trim_space q)) tt)

module _ (codec : Codec) where
  token_score_of_NoSpace :
      (score_of : String → Tally) (t : String)
      → NoSpace t
      → index_record_token_score codec score_of t ≡ no_match
  unfolding index_record_token_score
  token_score_of_NoSpace score_of t h = ground (arith, length-search_terms t h)

  or_terms-no_match : (direct : Tally) → or_terms codec direct no_match ≡ direct
  unfolding or_terms
  or_terms-no_match direct = ground arith

  -- A term is scored by the fields alone.
  score_of_NoSpace :
      (n : ℕ) (r : IndexRecord) (t : String)
      → NoSpace t
      → index_record_score codec n r t ≡ index_record_score codec 0 r t
  unfolding index_record_score
  score_of_NoSpace zero r t h = refl
  score_of_NoSpace (suc n) r t h = rw (
    token_score_of_NoSpace (λ term. index_record_score codec n r term) t h,
    or_terms-no_match (direct_score codec r t),
  )

  sum_terms-congr :
      (f g : String → Tally) (terms : List String) (t : Tally)
      → All (λ term. f term ≡ g term) terms
      → sum_terms codec f terms t ≡ sum_terms codec g terms t
  unfolding sum_terms
  sum_terms-congr f g [] t h = refl
  sum_terms-congr f g (cons term terms) t (e, h) = rw (e, sum_terms-congr f g terms _ h)

  All-score_of_NoSpace :
      (n : ℕ) (r : IndexRecord) (terms : List String)
      → All NoSpace terms
      → All (λ term. index_record_score codec n r term ≡ index_record_score codec 0 r term) terms
  All-score_of_NoSpace n r [] h = tt
  All-score_of_NoSpace n r (cons term terms) (p, h) =
      (score_of_NoSpace n r term p, All-score_of_NoSpace n r terms h)

  -- The recursion of the scores ends: whatever fuel of one or more is given, the score is the one
  -- that fuel one gives.
  pub index_record_score-depth :
      (n : ℕ) (r : IndexRecord) (query : String)
      → index_record_score codec (suc n) r query ≡ index_record_score codec 1 r query
  unfolding index_record_score index_record_token_score
  index_record_score-depth n r query = rw (
      sum_terms-congr (λ term. index_record_score codec n r term)
        (λ term. index_record_score codec 0 r term) (search_terms query) no_match
        (All-score_of_NoSpace n r (search_terms query) (search_terms-NoSpace query)))
