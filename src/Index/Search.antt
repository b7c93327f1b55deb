-- ===== src/Index/Search.antt =====
-- SearchIndexWithOptions and LookupIndexWithOptions in runtime/index.go: the records of all loaded
-- snapshots are enriched, filtered and scored, and the best are kept.
pub mod Laws
pub mod Matches
use fluxplane_dex.Prelude.{
  ℕ, zero, suc, String, Bool, false, true, ◌&&◌, ◌||◌, not, Option, none, some, List, [], ◌∷◌, ◌++◌,
  ◌==◌, if◌then◌else◌, trim_space, to_lower, ltb, nat_eq,
}
use fluxplane_dex.Prelude.Int.{ℤ, pos, negsuc}
use fluxplane_dex.Prelude.Outcome.{Outcome, ok, err, ◌>>=◌}
use fluxplane_dex.Prelude.Ranking.{top, ranks_before}
use fluxplane_dex.Json.{Codec}
use fluxplane_dex.Index.{IndexRecord, IndexSnapshot, IndexOrigin, enrich_index_record}
use fluxplane_dex.Index.Score.{Tally, index_record_score}
use fluxplane_dex.Index.Lookup.{LookupOptions, lookup_terms, lookup_record_score}
use fluxplane_dex.Index.Store.{IndexDir, load_index_snapshots}

pub record SearchOptions : Type 0 where
  pub datasource : String
  pub query : String
  pub limit : ℤ
  pub entity : String

-- a limit that is not positive is 20
unfoldable pub limit_of : ℤ → ℕ
limit_of (pos zero) = 20
limit_of (pos (suc n)) = suc n
limit_of (negsuc n) = 20

-- the loop over the records of a snapshot, where `hit` is its body
unfoldable pub gather : {A : Type 0} → (IndexRecord → Option A) → List IndexRecord → List A
gather hit [] = []
gather hit (r ∷ rs) = elim (hit r) [ none ↦ gather hit rs | some a ↦ a ∷ gather hit rs ]

-- the loop over the snapshots
unfoldable pub gather_all :
    {A : Type 0} → (IndexSnapshot → IndexRecord → Option A) → List IndexSnapshot → List A
unfolding gather
gather_all hit [] = []
gather_all hit (s ∷ ss) = gather (hit s) s.records ++ gather_all hit ss

abbrev pub other_entity : String → IndexRecord → Bool
other_entity entity r = not (entity == "") && not (r.entity == entity)

-- pluginbinding.LookupMatch
pub record LookupMatch : Type 0 where
  pub source : IndexOrigin
  pub entity : String
  pub id : String
  pub score : ℕ
  pub matched_fields : List String
  pub matched : IndexRecord

abbrev pub record_before : IndexRecord → IndexRecord → Bool
record_before =
    ranks_before (λ (r : IndexRecord). r.score) (λ (r : IndexRecord). r.entity)
      (λ (r : IndexRecord). r.id)

abbrev pub match_before : LookupMatch → LookupMatch → Bool
match_before =
    ranks_before (λ (m : LookupMatch). m.score) (λ (m : LookupMatch). m.entity)
      (λ (m : LookupMatch). m.id)

abbrev pub with_tally : IndexRecord → Tally → IndexRecord
with_tally r t = record r { score = t.score; matched_fields = t.fields }

module _ (codec : Codec) where
  -- the body of the search loop
  unfoldable pub search_hit : String → String → IndexSnapshot → IndexRecord → Option IndexRecord
  search_hit entity query s r =
      let full = enrich_index_record codec s r in
      let t = index_record_score codec 1 full query in
      if other_entity entity full
      then none
      else if query == "" || ltb 0 t.score
      then some (with_tally full t)
      else none

  -- the records that a search chooses from
  abbrev pub search_hits : SearchOptions → List IndexSnapshot → List IndexRecord
  search_hits options ss =
      gather_all (search_hit (trim_space options.entity) (to_lower (trim_space options.query))) ss

  unfoldable pub search_index_with_options :
      IndexDir → String → String → SearchOptions → Outcome (List IndexRecord)
  unfolding limit_of gather_all search_hit
  search_index_with_options dir plugin instance_name options = do
    ss ← load_index_snapshots dir plugin instance_name
    ok (top record_before (limit_of options.limit) (search_hits options ss))

  -- SearchIndex
  abbrev pub search_index : IndexDir → String → String → String → ℤ → Outcome (List IndexRecord)
  search_index dir plugin instance_name query limit =
      search_index_with_options dir plugin instance_name
        (record { datasource = ""; query = query; limit = limit; entity = "" })

  -- the body of the lookup loop
  unfoldable pub lookup_hit :
      String → String → List String → IndexSnapshot → IndexRecord → Option LookupMatch
  lookup_hit entity text terms s r =
      let full = enrich_index_record codec s r in
      let t = lookup_record_score codec full text terms in
      if other_entity entity full
      then none
      else if nat_eq t.score 0
      then none
      else some (record {
        source = full.origin;
        entity = full.entity;
        id = full.id;
        score = t.score;
        matched_fields = t.fields;
        matched = with_tally full t;
      })

  abbrev pub lookup_hits : LookupOptions → List IndexSnapshot → List LookupMatch
  lookup_hits options ss =
      gather_all
        (lookup_hit (trim_space options.entity) (to_lower (trim_space options.text))
          (lookup_terms options))
        ss

  unfoldable pub lookup_index_with_options :
      IndexDir → String → String → LookupOptions → Outcome (List LookupMatch)
  unfolding limit_of gather_all lookup_hit
  lookup_index_with_options dir plugin instance_name options = do
    ss ← load_index_snapshots dir plugin instance_name
    ok (top match_before (limit_of options.limit) (lookup_hits options ss))
