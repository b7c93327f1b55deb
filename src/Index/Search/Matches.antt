-- ===== src/Index/Search/Matches.antt =====
-- The answers of LookupIndexWithOptions, runtime/index.go.
use mathlib.Core.Path.{subst}
use fluxplane_dex.Prelude.{
  ◌≤◌, ◌<◌, String, ◌≡◌, ◌≢◌, refl, true, some, ◌⊎◌, Bool, ◌&&◌, ltb, map, filtered, concat, List,
  [], trim_space, to_lower, arith, All,
}
use fluxplane_dex.Prelude.Outcome.{ok}
use fluxplane_dex.Prelude.Ranking.{
  top, IsTop, top-IsTop, ranks_before-IsLess, NotWorse, ranks_before-NotWorse, All-top,
}
use fluxplane_dex.Json.{Codec}
use fluxplane_dex.Index.{IndexRecord, IndexSnapshot, enrich_index_record}
use fluxplane_dex.Index.Lookup.{LookupOptions, lookup_terms, lookup_record_score}
use fluxplane_dex.Index.Lookup.Laws.{lookup_record_score-IsGraded}
use fluxplane_dex.Index.Store.{IndexDir, load_index_snapshots}
use fluxplane_dex.Index.Search.{
  limit_of, LookupMatch, match_before, with_tally, lookup_hit, lookup_hits,
  lookup_index_with_options,
}
use fluxplane_dex.Index.Search.Laws.{
  All-gather_all, gather_all-filtered, allowed, limit_of-allowed, is_of, other_entity-is_of,
  of_asked,
}

-- The match is one that the options ask for, and repeats what its record says.
pub record IsMatch (options : LookupOptions) (m : LookupMatch) : Type 0 where
  pub of_entity : (trim_space options.entity ≡ "") ⊎ (m.entity ≡ trim_space options.entity)
  pub positive : 0 < m.score
  pub bounded : m.score ≤ 1200
  pub listed : m.matched_fields ≢ []
  pub same_score : m.score ≡ m.matched.score
  pub same_entity : m.entity ≡ m.matched.entity
  pub same_id : m.id ≡ m.matched.id
  pub same_source : m.source ≡ m.matched.origin

-- of two matches, the one may stand before the other
abbrev pub MayPrecedeMatch : LookupMatch → LookupMatch → Type 0
MayPrecedeMatch =
    NotWorse (λ (m : LookupMatch). m.score) (λ (m : LookupMatch). m.entity)
      (λ (m : LookupMatch). m.id)

abbrev pub is_wanted_match : LookupOptions → LookupMatch → Bool
is_wanted_match options m = is_of (trim_space options.entity) m.entity && ltb 0 m.score

module _ (codec : Codec) where
  -- the match with a record of a snapshot
  abbrev pub graded_match : LookupOptions → IndexSnapshot → IndexRecord → LookupMatch
  graded_match options s r =
      let full = enrich_index_record codec s r in
      let t =
        lookup_record_score codec full (to_lower (trim_space options.text))
          (lookup_terms options) in
      record {
        source = full.origin;
        entity = full.entity;
        id = full.id;
        score = t.score;
        matched_fields = t.fields;
        matched = record full { score = t.score; matched_fields = t.fields };
      }

  -- all matches that a lookup may answer with
  abbrev pub candidate_matches : LookupOptions → List IndexSnapshot → List LookupMatch
  candidate_matches options ss =
      concat
        (map (λ s. filtered (is_wanted_match options) (map (graded_match options s) s.records)) ss)

  lookup_hits-candidates :
      (options : LookupOptions) (ss : List IndexSnapshot)
      → lookup_hits codec options ss ≡ candidate_matches options ss
  unfolding lookup_hit
  lookup_hits-candidates options ss =
      gather_all-filtered _ (graded_match options) (is_wanted_match options)
        (λ s r.
          ground
            (arith, other_entity-is_of (trim_space options.entity) (enrich_index_record codec s r)))
        ss

  lookup_hit-IsMatch :
      (options : LookupOptions) (s : IndexSnapshot) (r : IndexRecord) (m : LookupMatch)
      → lookup_hit codec
          (trim_space options.entity)
          (to_lower (trim_space options.text))
          (lookup_terms options)
          s
          r
        ≡ some m
      → IsMatch options m
  unfolding lookup_hit
  lookup_hit-IsMatch options s r m e =
      let entity = trim_space options.entity in
      let text = to_lower (trim_space options.text) in
      let full = enrich_index_record codec s r in
      let t = lookup_record_score codec full text (lookup_terms options) in
      let graded = lookup_record_score-IsGraded text (lookup_terms options) codec full in
      let made : LookupMatch = record {
        source = full.origin;
        entity = full.entity;
        id = full.id;
        score = t.score;
        matched_fields = t.fields;
        matched = with_tally full t;
      } in
      let (same, scored, is_m) : (is_of entity full.entity ≡ true) × (0 < t.score) × (made ≡ m) =
        (ground (arith, other_entity-is_of entity full), ground arith, ground arith) in
      subst (IsMatch options) is_m (record {
        of_entity = of_asked entity full.entity same;
        positive = scored;
        bounded = graded.bounded;
        listed = graded.listed scored;
        same_score = refl;
        same_entity = refl;
        same_id = refl;
        same_source = refl;
      })

  -- If the snapshots load, a lookup answers with at most the limit of the candidates, 20 if no
  -- positive limit is asked for. The candidates are the matches with the records of the snapshots,
  -- completed and scored, that are of the entity asked for and score more than 0. The answers have
  -- the higher score first, then the smaller entity and id; each may stand before every candidate
  -- left out, and some are left out only if the limit is reached. Each scores at most 1200 and lists
  -- a matched field.
  pub lookup_index_with_options-IsTop :
      (dir : IndexDir) (plugin instance_name : String) (options : LookupOptions)
      (ss : List IndexSnapshot)
      → load_index_snapshots dir plugin instance_name ≡ ok ss
      → (out : List LookupMatch) × (lookup_index_with_options codec dir plugin instance_name options
          ≡ ok out)
        × IsTop MayPrecedeMatch (allowed options.limit) (candidate_matches options ss) out
        × All (IsMatch options) out
  unfolding lookup_index_with_options
  lookup_index_with_options-IsTop dir plugin instance_name options ss h =
      let n = limit_of options.limit in
      let hits = lookup_hits codec options ss in
      let best =
        top-IsTop match_before (ranks_before-IsLess _ _ _) MayPrecedeMatch
          (ranks_before-NotWorse _ _ _) n hits in
      rw h (
        top match_before n hits,
        refl,
        subst (λ xs. IsTop MayPrecedeMatch (allowed options.limit) xs (top match_before n hits))
            (lookup_hits-candidates options ss)
            (subst (λ m. IsTop MayPrecedeMatch m hits (top match_before n hits))
              (limit_of-allowed options.limit) best),
        All-top match_before (IsMatch options) n hits
            (All-gather_all (IsMatch options) _ (lookup_hit-IsMatch options) ss),
      )
