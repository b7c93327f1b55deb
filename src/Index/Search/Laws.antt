-- ===== src/Index/Search/Laws.antt =====
-- The answers of SearchIndexWithOptions, runtime/index.go.
use mathlib.Core.Path.{subst}
use fluxplane_dex.Prelude.{
  ℕ, zero, suc, ◌≤◌, ◌<◌, Bool, not, ◌&&◌, none, map, filtered, concat, ap, if◌then◌else◌, ◌++◌,
  String, ◌≡◌, ◌⊎◌, refl, true, Option, some, List, [], ◌∷◌, ◌==◌, trim_space, to_lower, arith, All,
  All-append, inl, inr, Bool-cases, Option-cases, ltb, eq_iff, ◌||◌,
}
use fluxplane_dex.Prelude.Outcome.{ok}
use fluxplane_dex.Prelude.Ranking.{
  top, IsTop, top-IsTop, ranks_before-IsLess, NotWorse, ranks_before-NotWorse, All-top,
}
use fluxplane_dex.Prelude.Int.{ℤ, pos, negsuc}
use fluxplane_dex.Json.{Codec}
use fluxplane_dex.Index.{IndexRecord, IndexSnapshot, enrich_index_record}
use fluxplane_dex.Index.Score.{index_record_score}
use fluxplane_dex.Index.Score.Bounds.{index_record_score-IsGraded}
use fluxplane_dex.Index.Store.{IndexDir, load_index_snapshots}
use fluxplane_dex.Index.Search.{
  SearchOptions, limit_of, gather, gather_all, other_entity, record_before, with_tally, search_hit,
  search_hits, search_index_with_options,
}

All-gather :
    {A : Type 0} (P : A → Type 0) (hit : IndexRecord → Option A)
    → ((r : IndexRecord) (a : A) → hit r ≡ some a → P a)
    → (rs : List IndexRecord) → All P (gather hit rs)
unfolding gather
All-gather P hit h [] = tt
All-gather P hit h (r ∷ rs) = elim (Option-cases (hit r)) [
  | inl e ↦ rw (e, gather) (All-gather P hit h rs)
  | inr (a, e) ↦ rw (e, gather) (h r a e, All-gather P hit h rs)
]

pub All-gather_all :
    {A : Type 0} (P : A → Type 0) (hit : IndexSnapshot → IndexRecord → Option A)
    → ((s : IndexSnapshot) (r : IndexRecord) (a : A) → hit s r ≡ some a → P a)
    → (ss : List IndexSnapshot) → All P (gather_all hit ss)
unfolding gather_all
All-gather_all P hit h [] = tt
All-gather_all P hit h (s ∷ ss) =
    All-append P (gather (hit s) s.records) (gather_all hit ss)
      (All-gather P (hit s) (h s) s.records) (All-gather_all P hit h ss)

-- A loop that keeps what passes a test is a map and then a filter.
gather-filtered :
    {A : Type 0} (hit : IndexRecord → Option A) (f : IndexRecord → A) (test : A → Bool)
    → ((r : IndexRecord) → hit r ≡ (if test (f r) then some (f r) else none))
    → (rs : List IndexRecord) → gather hit rs ≡ filtered test (map f rs)
unfolding gather
gather-filtered hit f test h [] = refl
gather-filtered hit f test h (r ∷ rs) = elim (Bool-cases (test (f r))) [
  | inl e ↦
      let found : hit r ≡ some (f r) = rw e at (h r) in
      rw (found, e, gather) (ap (λ xs. f r ∷ xs) (gather-filtered hit f test h rs))
  | inr e ↦
      let passed : hit r ≡ none = rw e at (h r) in
      rw (passed, e, gather) (gather-filtered hit f test h rs)
]

pub gather_all-filtered :
    {A : Type 0} (hit : IndexSnapshot → IndexRecord → Option A)
    (f : IndexSnapshot → IndexRecord → A) (test : A → Bool)
    → ((s : IndexSnapshot) (r : IndexRecord)
        → hit s r ≡ (if test (f s r) then some (f s r) else none))
    → (ss : List IndexSnapshot)
    → gather_all hit ss ≡ concat (map (λ s. filtered test (map (f s) s.records)) ss)
unfolding gather_all
gather_all-filtered hit f test h [] = refl
gather_all-filtered hit f test h (s ∷ ss) =
    rw (gather-filtered (hit s) (f s) test (h s) s.records)
      (ap (λ xs. filtered test (map (f s) s.records) ++ xs) (gather_all-filtered hit f test h ss))

-- how many answers may be given: 20 where no positive limit is asked for
abbrev pub allowed : ℤ → ℕ
allowed (pos (suc n)) = suc n
allowed _ = 20

pub limit_of-allowed : (limit : ℤ) → limit_of limit ≡ allowed limit
unfolding limit_of
limit_of-allowed (pos zero) = refl
limit_of-allowed (pos (suc n)) = refl
limit_of-allowed (negsuc n) = refl

-- the entity is the one asked for, if one is
abbrev pub is_of : String → String → Bool
is_of asked entity = asked == "" || entity == asked

pub other_entity-is_of :
    (asked : String) (r : IndexRecord) → other_entity asked r ≡ not (is_of asked r.entity)
other_entity-is_of asked r = ground arith

-- of two records, the one may stand before the other
abbrev pub MayPrecede : IndexRecord → IndexRecord → Type 0
MayPrecede =
    NotWorse (λ (r : IndexRecord). r.score) (λ (r : IndexRecord). r.entity)
      (λ (r : IndexRecord). r.id)

-- The record is one that the options ask for.
pub record IsAnswer (options : SearchOptions) (r : IndexRecord) : Type 0 where
  pub of_entity : (trim_space options.entity ≡ "") ⊎ (r.entity ≡ trim_space options.entity)
  pub scored : (to_lower (trim_space options.query) ≡ "") ⊎ (0 < r.score)
  pub bounded : r.score ≤ 1000
  pub from_index : r.origin.source ≡ "host_index"

positive : (query : String) (n : ℕ) → (query == "" || ltb 0 n) ≡ true → (query ≡ "") ⊎ (0 < n)
positive query n h = elim (Bool-cases (query == "")) [
  | inl e ↦ inl (ground (arith, eq_iff query ""))
  | inr e ↦ inr (ground arith)
]

pub of_asked : (asked entity : String) → is_of asked entity ≡ true → (asked ≡ "") ⊎ (entity ≡ asked)
of_asked asked entity h = elim (Bool-cases (asked == "")) [
  | inl e ↦ inl ((eq_iff asked "").0 e)
  | inr e ↦ inr (ground (arith, eq_iff entity asked))
]

module _ (codec : Codec) where
  -- a record of a snapshot, completed and with its score
  abbrev pub graded : SearchOptions → IndexSnapshot → IndexRecord → IndexRecord
  graded options s r =
      let full = enrich_index_record codec s r in
      let t = index_record_score codec 1 full (to_lower (trim_space options.query)) in
      record full { score = t.score; matched_fields = t.fields }

  abbrev pub is_wanted : SearchOptions → IndexRecord → Bool
  is_wanted options r =
      is_of (trim_space options.entity) r.entity
      && (to_lower (trim_space options.query) == "" || ltb 0 r.score)

  -- all records of the snapshots that a search may answer with
  abbrev pub candidates : SearchOptions → List IndexSnapshot → List IndexRecord
  candidates options ss =
      concat (map (λ s. filtered (is_wanted options) (map (graded options s) s.records)) ss)

  search_hits-candidates :
      (options : SearchOptions) (ss : List IndexSnapshot)
      → search_hits codec options ss ≡ candidates options ss
  unfolding search_hit
  search_hits-candidates options ss =
      gather_all-filtered _ (graded options) (is_wanted options)
        (λ s r.
          ground
            (arith, other_entity-is_of (trim_space options.entity) (enrich_index_record codec s r)))
        ss

  score-bounded :
      (r : IndexRecord) (query : String) → (index_record_score codec 1 r query).score ≤ 1000
  unfolding index_record_score
  score-bounded r query = elim (Bool-cases (query == "")) [
    | inl e ↦ rw e (omega arith)
    | inr e ↦
        (index_record_score-IsGraded codec 1 r query (λ b. ground (arith, eq_iff query ""))).bounded
  ]

  origin-enrich :
      (s : IndexSnapshot) (r : IndexRecord)
      → (enrich_index_record codec s r).origin.source ≡ "host_index"
  unfolding enrich_index_record
  origin-enrich s r = refl

  search_hit-IsAnswer :
      (options : SearchOptions) (s : IndexSnapshot) (r h : IndexRecord)
      → search_hit codec (trim_space options.entity) (to_lower (trim_space options.query)) s r
        ≡ some h
      → IsAnswer options h
  unfolding search_hit
  search_hit-IsAnswer options s r h e =
      let entity = trim_space options.entity in
      let query = to_lower (trim_space options.query) in
      let full = enrich_index_record codec s r in
      let t = index_record_score codec 1 full query in
      let (same, scored, is_h) : (is_of entity full.entity ≡ true)
          × ((query == "" || ltb 0 t.score) ≡ true)
          × (with_tally full t ≡ h) =
        let other = other_entity-is_of entity full in
        (ground (arith, other), ground arith, ground arith) in
      subst (IsAnswer options) is_h (record {
        of_entity = of_asked entity full.entity same;
        scored = positive query t.score scored;
        bounded = score-bounded full query;
        from_index = origin-enrich s r;
      })

  -- If the snapshots load, a search answers with at most the limit of the candidates, 20 if no
  -- positive limit is asked for. The candidates are the records of the snapshots, completed and
  -- scored, that are of the entity asked for and score more than 0 unless the query is blank. The
  -- answers have the higher score first, then the smaller entity and id; each may stand before every
  -- candidate left out, and some are left out only if the limit is reached. Each comes from the host
  -- index and scores at most 1000.
  pub search_index_with_options-IsTop :
      (dir : IndexDir) (plugin instance_name : String) (options : SearchOptions)
      (ss : List IndexSnapshot)
      → load_index_snapshots dir plugin instance_name ≡ ok ss
      → (out : List IndexRecord) × (search_index_with_options codec dir plugin instance_name options
          ≡ ok out)
        × IsTop MayPrecede (allowed options.limit) (candidates options ss) out
        × All (IsAnswer options) out
  unfolding search_index_with_options
  search_index_with_options-IsTop dir plugin instance_name options ss h =
      let n = limit_of options.limit in
      let hits = search_hits codec options ss in
      let best =
        top-IsTop record_before (ranks_before-IsLess _ _ _) MayPrecede (ranks_before-NotWorse _ _ _)
          n hits in
      rw h (
        top record_before n hits,
        refl,
        subst (λ xs. IsTop MayPrecede (allowed options.limit) xs (top record_before n hits))
            (search_hits-candidates options ss)
            (subst (λ m. IsTop MayPrecede m hits (top record_before n hits))
              (limit_of-allowed options.limit) best),
        All-top record_before (IsAnswer options) n hits
            (All-gather_all (IsAnswer options) _ (search_hit-IsAnswer options) ss),
      )
