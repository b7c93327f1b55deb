-- ===== src/Index/Score/Bounds.antt =====
-- The range of indexRecordScore, runtime/index.go.
use fluxplane_dex.Prelude.{
  ℕ, zero, suc, ◌+◌, ◌*◌, ◌/◌, ◌≤◌, ◌<◌, String, ◌≡◌, ◌≢◌, refl, Bool, false, true, Option, some,
  List, [], ◌∷◌, ◌==◌, arith, length, Bool-cases, Option-cases, inl, inr, nat_eq, ltb,
  if◌then◌else◌, All, eq_iff, trim_space, to_lower,
}
use fluxplane_dex.Prelude.Unique.{mem, All-collect}
use fluxplane_dex.Prelude.Slices.{fields, trim_of, byte_len}
use mathlib.Core.Path.{subst}
use fluxplane_dex.Maps.{Map}
use fluxplane_dex.Json.{Object, Codec}
use fluxplane_dex.Index.{IndexRecord}
use fluxplane_dex.Index.Score.{
  Tally, no_match, append_matched_field, append_matched_field_values, bump, add, add_links,
  searched_keys, add_keys, cutset, is_no_term, search_terms, direct_score, sum_terms,
  index_record_token_score, or_terms, index_record_score,
}

ne→false : (s : String) → s ≢ "" → (s == "") ≡ false
ne→false s n = ground (arith, eq_iff s "")

-- The score is at most `most`, and it is positive exactly if some field is listed.
pub record IsGraded (most : ℕ) (t : Tally) : Type 0 where
  pub bounded : t.score ≤ most
  pub listed : 0 < t.score → t.fields ≢ []
  pub scored : t.fields ≢ [] → 0 < t.score

append_matched_field-ne-nil : (fs : List String) (f : String) → append_matched_field fs f ≢ []
unfolding append_matched_field mem
append_matched_field-ne-nil [] f = ground arith
append_matched_field-ne-nil (g ∷ fs) f = ground arith

pub bump-IsGraded :
    {most : ℕ} (n : ℕ) (f : String) (t : Tally)
    → 0 < n
    → n ≤ most
    → IsGraded most t
    → IsGraded most (bump n f t)
unfolding bump
bump-IsGraded n f t p b g = record {
  bounded = ground (arith, g.bounded);
  listed = λ _. append_matched_field-ne-nil t.fields f;
  scored = λ _. ground arith;
}

add-IsGraded :
    (query field value : String) (e p i : ℕ) (t : Tally)
    → 0 < e
    → e ≤ 1000
    → 0 < p
    → p ≤ 1000
    → 0 < i
    → i ≤ 1000
    → IsGraded 1000 t
    → IsGraded 1000 (add query field value e p i t)
unfolding add
add-IsGraded query field value e p i t e0 e1 p0 p1 i0 i1 g = ground (
  arith,
  bump-IsGraded e field t e0 e1 g,
  bump-IsGraded p field t p0 p1 g,
  bump-IsGraded i field t i0 i1 g,
)

add_links-IsGraded :
    (query : String) (links : Map String) (t : Tally)
    → IsGraded 1000 t
    → IsGraded 1000 (add_links query links t)
unfolding add_links
add_links-IsGraded query [] t g = g
add_links-IsGraded query ((k, v) ∷ links) t g = add_links-IsGraded query links _ (
    add-IsGraded query _ v 450 350 250 t (omega arith) (omega arith) (omega arith) (omega arith)
      (omega arith) (omega arith) g)

add_keys-IsGraded :
    (query : String) (o : Option Object) (keys : List String) (t : Tally)
    → IsGraded 1000 t
    → IsGraded 1000 (add_keys query o keys t)
unfolding add_keys
add_keys-IsGraded query o [] t g = g
add_keys-IsGraded query o (key ∷ keys) t g = add_keys-IsGraded query o keys _ (
    add-IsGraded query _ _ 900 750 550 t (omega arith) (omega arith) (omega arith) (omega arith)
      (omega arith) (omega arith) g)

pub no_match-IsGraded : {most : ℕ} → IsGraded most no_match
no_match-IsGraded = record {
  bounded = omega arith;
  listed = λ p. absurd (omega arith);
  scored = λ n. absurd (n refl);
}

values-ne-nil : (fs cs : List String) → fs ≢ [] → append_matched_field_values fs cs ≢ []
unfolding append_matched_field_values
values-ne-nil fs [] n = n
values-ne-nil fs (c ∷ cs) n =
    values-ne-nil (append_matched_field fs c) cs (append_matched_field-ne-nil fs c)

values-ne-nil_right : (fs cs : List String) → cs ≢ [] → append_matched_field_values fs cs ≢ []
unfolding append_matched_field_values
values-ne-nil_right fs [] n = absurd (n refl)
values-ne-nil_right fs (c ∷ cs) n = values-ne-nil _ cs (append_matched_field-ne-nil fs c)

module _ (codec : Codec) where
  direct_score-IsGraded :
      (r : IndexRecord) (query : String) → IsGraded 1000 (direct_score codec r query)
  unfolding direct_score
  direct_score-IsGraded r query =
      let on_id =
        add-IsGraded query "id" r.id 1000 850 650 no_match (omega arith) (omega arith) (omega arith)
          (omega arith) (omega arith) (omega arith) no_match-IsGraded in
      let on_title =
        add-IsGraded query "title" r.title 950 800 600 _ (omega arith) (omega arith) (omega arith)
          (omega arith) (omega arith) (omega arith) on_id in
      let on_entity =
        add-IsGraded query "entity" r.entity 500 400 300 _ (omega arith) (omega arith) (omega arith)
          (omega arith) (omega arith) (omega arith) on_title in
      let on_keys =
        add_keys-IsGraded query (codec.unmarshal r.raw) searched_keys _
          (add_links-IsGraded query r.links _ on_entity) in
      last _ _ on_keys
    where
      last :
          (b : Bool) (t : Tally)
          → IsGraded 1000 t
          → IsGraded 1000 (if b then bump 100 "record" t else t)
      last true t g = bump-IsGraded 100 "record" t (omega arith) (omega arith) g
      last false t g = g

  -- The sum over the terms, after n terms that matched.
  record IsSummed (n : ℕ) (t : Tally) : Type 0 where
    low : n ≤ t.score
    high : t.score ≤ 1000 * n
    listed : 0 < n → t.fields ≢ []

  sum_terms-IsSummed :
      (score_of : String → Tally) (n : ℕ) (terms : List String) (t u : Tally)
      → All (λ term. IsGraded 1000 (score_of term)) terms
      → IsSummed n t
      → sum_terms codec score_of terms t ≡ some u
      → IsSummed (n + length terms) u
  unfolding sum_terms
  sum_terms-IsSummed score_of n [] t u g s h =
      let e : t ≡ u = ground arith in
      rw (← e) (record {
        low = omega (arith, s.low);
        high = omega (arith, s.high);
        listed = λ p. s.listed (omega arith);
      })
  sum_terms-IsSummed score_of n (term ∷ terms) t u (g, gs) s h =
      elim (Bool-cases (nat_eq (score_of term).score 0)) [
        | inl none_here ↦ absurd (ground arith)
        | inr some_here ↦
            let one = score_of term in
            let next : Tally = record {
              score = t.score + one.score;
              fields = append_matched_field_values t.fields one.fields;
            } in
            let pos : 0 < one.score = ground arith in
            let rest =
              sum_terms-IsSummed score_of (suc n) terms next u gs
                (record {
                  low = omega (arith, s.low);
                  high = omega (arith, s.high, g.bounded);
                  listed = λ _. values-ne-nil_right t.fields one.fields (g.listed pos);
                })
                (ground arith) in
            record {
              low = omega (arith, rest.low);
              high = omega (arith, rest.high);
              listed = λ p. rest.listed (omega arith);
            }
      ]

  token_score-IsGraded :
      (score_of : String → Tally) (query : String)
      → All (λ term. IsGraded 1000 (score_of term)) (search_terms query)
      → IsGraded 1000 (index_record_token_score codec score_of query)
  unfolding index_record_token_score
  token_score-IsGraded score_of query g = elim (Bool-cases (ltb (length (search_terms query)) 2)) [
    | inl few ↦ rw few no_match-IsGraded
    | inr many ↦ elim (Option-cases (sum_terms codec score_of (search_terms query) no_match)) [
      | inl missed ↦ rw (many, missed) no_match-IsGraded
      | inr (u, summed) ↦
          let k = length (search_terms query) in
          let two : 2 ≤ k = ground arith in
          let start : IsSummed 0 no_match = record {
            low = omega arith;
            high = omega arith;
            listed = λ p. absurd (omega arith);
          } in
          let s = sum_terms-IsSummed score_of 0 (search_terms query) no_match u g start summed in
          rw (many, summed)
            (averaged k u two (omega (arith, s.low)) (omega (arith, s.high))
              (s.listed (omega arith)))
    ]
  ]
    where
      averaged :
          (k : ℕ) (u : Tally)
          → 2 ≤ k
          → k ≤ u.score
          → u.score ≤ 1000 * k
          → u.fields ≢ []
          → IsGraded 1000 (record { score = u.score / k; fields = u.fields })
      averaged k u two low high listed = record {
        bounded = grind arith;
        listed = λ _. listed;
        scored = λ _. grind arith;
      }

  or_terms-IsGraded :
      (a b : Tally) → IsGraded 1000 a → IsGraded 1000 b → IsGraded 1000 (or_terms codec a b)
  unfolding or_terms
  or_terms-IsGraded a b ga gb = elim (Bool-cases (nat_eq a.score 0)) [
    | inr found ↦ rw found ga
    | inl missed ↦ elim (Bool-cases (nat_eq b.score 0)) [
      | inl none_here ↦ rw (missed, none_here) ga
      | inr some_here ↦
          let pos : 0 < b.score = ground arith in
          rw (missed, some_here)
            (record {
              bounded = gb.bounded;
              listed = λ _. values-ne-nil_right a.fields b.fields (gb.listed pos);
              scored = λ _. pos;
            })
    ]
  ]

  score_terms :
      (fuel : ℕ) (r : IndexRecord) (terms : List String)
      → ((query : String) → query ≢ "" → IsGraded 1000 (index_record_score codec fuel r query))
      → All (λ term. term ≢ "") terms
      → All (λ term. IsGraded 1000 (index_record_score codec fuel r term)) terms
  score_terms fuel r [] g h = tt
  score_terms fuel r (t ∷ ts) g (n, h) = (g t n, score_terms fuel r ts g h)

  search_terms-ne-blank : (query : String) → All (λ term. term ≢ "") (search_terms query)
  unfolding search_terms byte_len
  search_terms-ne-blank query =
      All-collect ◌==◌ (λ term. term ≢ "") (trim_of cutset) is_no_term []
        (fields (to_lower (trim_space query))) (λ x h. long (trim_of cutset x) h)
    where
      long : (t : String) → is_no_term t ≡ false → t ≢ ""
      long t h e = let short : is_no_term "" ≡ false = subst (λ x. is_no_term x ≡ false) e h in cc

  -- For a query that is not blank, the score of a record is at most 1000, and it is positive exactly
  -- if some matched field is listed.
  pub index_record_score-IsGraded :
      (fuel : ℕ) (r : IndexRecord) (query : String)
      → query ≢ ""
      → IsGraded 1000 (index_record_score codec fuel r query)
  unfolding index_record_score
  index_record_score-IsGraded zero r query n = rw (ne→false query n) (direct_score-IsGraded r query)
  index_record_score-IsGraded (suc fuel) r query n = rw (ne→false query n) (
      or_terms-IsGraded _ _ (direct_score-IsGraded r query) (
        token_score-IsGraded _ query (
          score_terms fuel r (search_terms query) (index_record_score-IsGraded fuel r)
            (search_terms-ne-blank query))))
