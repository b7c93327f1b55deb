-- ===== src/Tests/Indexes.antt =====
-- The index, its search and its lookup on sample values.
use fluxplane_dex.Prelude.{
  String, ◌≡◌, ◌≢◌, ◌↔◌, refl, false, true, Option, none, some, List, [], ◌∷◌, ◌==◌, any,
  trim_space, strings, All,
}
use fluxplane_dex.Prelude.Outcome.{ok}
use fluxplane_dex.Prelude.Ranking.{IsTop}
use fluxplane_dex.Prelude.Sorting.{sort, insert}
use fluxplane_dex.Prelude.Slices.{char_in}
use fluxplane_dex.Files.{written}
use fluxplane_dex.Maps.{get, put}
use fluxplane_dex.Prelude.Unique.{mem}
use fluxplane_dex.Index.Records.{Reads, normalize_index_record-Reads}
use fluxplane_dex.Index.{
  IndexRecord, normalize_index_record, apply_standard_index_fields, index_record_links,
  relationship_links, namespace_link, clean_index_record_raw, clean, first_record_string,
  add_missing, merge_links, put_all,
}
use fluxplane_dex.Index.Score.{index_record_score}
use fluxplane_dex.Index.Score.Bounds.{IsGraded, index_record_score-IsGraded}
use fluxplane_dex.Index.Score.Depth.{index_record_score-depth}
use fluxplane_dex.Index.Lookup.{
  contains_lookup_value, contains_from, is_boundary, lookup_record_score,
}
use fluxplane_dex.Index.Lookup.Laws.{
  Stands, contains_lookup_value-Stands, lookup_record_score-IsGraded,
}
use fluxplane_dex.Index.Store.{
  load_index_snapshots, read_directory, read_entries, save_index_records_with_metadata, has_index,
  new_snapshot, get_index_record, normalize_records, normalize_index_metadata,
}
use fluxplane_dex.Index.Store.Status.{index_status, IndexStatus}
use fluxplane_dex.Index.Store.Status.Laws.{Agrees, index_status-Agrees}
use fluxplane_dex.Index.Store.Laws.{has_index-save}
use fluxplane_dex.Index.Store.Records.{Answers, get_index_record-Answers}
use fluxplane_dex.Index.Search.{search_index_with_options, LookupMatch, lookup_index_with_options}
use fluxplane_dex.Index.Search.Laws.{
  MayPrecede, allowed, candidates, IsAnswer, search_index_with_options-IsTop,
}
use fluxplane_dex.Index.Search.Matches.{
  MayPrecedeMatch, candidate_matches, IsMatch, lookup_index_with_options-IsTop,
}
use fluxplane_dex.Tests.Samples.{codec, ada, users, index_dir, no_index_dir, ask_ada, who_is_ada}

users-load : load_index_snapshots index_dir "slack" "work" ≡ ok (users ∷ [])
unfolding load_index_snapshots read_directory read_entries sort insert
users-load = refl

nothing-loads : load_index_snapshots no_index_dir "slack" "work" ≡ ok []
unfolding load_index_snapshots read_directory
nothing-loads = refl

search_index_with_options-IsTop_example :
    (out : List IndexRecord) × (search_index_with_options codec index_dir "slack" "work" ask_ada
      ≡ ok out)
    × IsTop MayPrecede (allowed ask_ada.limit) (candidates codec ask_ada (users ∷ [])) out
    × All (IsAnswer ask_ada) out
search_index_with_options-IsTop_example =
    search_index_with_options-IsTop codec index_dir "slack" "work" ask_ada (users ∷ []) users-load

lookup_index_with_options-IsTop_example :
    (out : List LookupMatch) × (lookup_index_with_options codec index_dir "slack" "work" who_is_ada
      ≡ ok out)
    × IsTop MayPrecedeMatch
        (allowed who_is_ada.limit)
        (candidate_matches codec who_is_ada (users ∷ []))
        out
    × All (IsMatch who_is_ada) out
lookup_index_with_options-IsTop_example =
    lookup_index_with_options-IsTop codec index_dir "slack" "work" who_is_ada (users ∷ [])
      users-load

get_index_record-Answers_example :
    (m : Option IndexRecord) × (get_index_record codec index_dir "slack" "work" " U1" ≡ ok m)
    × Answers
        (trim_space " U1")
        (any (λ s. any (λ r. r.id == trim_space " U1") s.records) (users ∷ []))
        m
get_index_record-Answers_example =
    get_index_record-Answers codec index_dir "slack" "work" " U1" (users ∷ []) users-load

index_record_score-depth_example :
    index_record_score codec 4 ada "ada lovelace" ≡ index_record_score codec 1 ada "ada lovelace"
index_record_score-depth_example = index_record_score-depth codec 3 ada "ada lovelace"

ada-not-blank : ◌≢◌ {A = String} "ada" ""
ada-not-blank h = cc

index_record_score-IsGraded_example : IsGraded 1000 (index_record_score codec 1 ada "ada")
index_record_score-IsGraded_example = index_record_score-IsGraded codec 1 ada "ada" ada-not-blank

lookup_record_score-IsGraded_example :
    IsGraded 1200 (lookup_record_score codec ada "who is ada?" ("ada" ∷ []))
lookup_record_score-IsGraded_example =
    lookup_record_score-IsGraded "who is ada?" ("ada" ∷ []) codec ada

contains_lookup_value-Stands_example :
    (contains_lookup_value "adam met ada" "ada" ≡ true) ↔ Stands none "adam met ada" "ada"
contains_lookup_value-Stands_example =
    contains_lookup_value-Stands "adam met ada" "ada" ada-not-blank

contains_test : contains_lookup_value "adam met ada" "ada" ≡ true
unfolding contains_lookup_value contains_from is_boundary char_in strings
contains_test = refl

contains_not_test : contains_lookup_value "adam" "ada" ≡ false
unfolding contains_lookup_value contains_from is_boundary char_in strings
contains_not_test = refl

index_status-run : (status : IndexStatus) × (index_status index_dir "slack" "work" ≡ ok status)
unfolding index_status load_index_snapshots read_directory read_entries sort insert
index_status-run = (_, refl)

index_status-Agrees_example : Agrees index_status-run.0
index_status-Agrees_example =
    index_status-Agrees index_dir "slack" "work" index_status-run.0 index_status-run.1

kept : (r : IndexRecord) × (normalize_index_record codec " ada " ≡ some r)
unfolding normalize_index_record apply_standard_index_fields index_record_links relationship_links
    namespace_link clean_index_record_raw clean first_record_string merge_links add_missing put_all
    get put mem strings
kept = (_, refl)

normalize_index_record-Reads_example : Reads codec " ada " (normalize_index_record codec " ada ")
normalize_index_record-Reads_example = normalize_index_record-Reads codec " ada "

has_index-save_example :
    has_index
      (save_index_records_with_metadata codec
        (λ t. "")
        3
        written
        "slack"
        "work"
        " users "
        ("ada" ∷ [])
        ""
        no_index_dir).1
      "slack"
      "work"
      " users "
    ≡ ok true
unfolding save_index_records_with_metadata new_snapshot normalize_records normalize_index_record
    normalize_index_metadata strings
has_index-save_example =
    has_index-save codec (λ t. "") 3 "slack" "work" " users " ("ada" ∷ []) "" no_index_dir _ _ []
      refl nothing-loads
