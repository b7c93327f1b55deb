-- ===== src/Tests/Locals.antt =====
-- Blobs of the local capability host and the enrichment of records, and their properties applied.
use fluxplane_dex.Prelude.{String, ◌≡◌, refl, ◌⊎◌, true, false, List, [], ◌∷◌, strings}
use fluxplane_dex.Prelude.Int.{pos}
use fluxplane_dex.Prelude.Outcome.{ok, is_ok}
use fluxplane_dex.Maps.{get, put}
use fluxplane_dex.Json.{Object, text}
use fluxplane_dex.Core.{DatasourceRelation}
use fluxplane_dex.Capabilities.{BlobReadResponse, BlobWriteRequest}
use fluxplane_dex.Capabilities.Paths.{
  blob_path, resolve_existing, resolve_create, resolve_candidate, real_root, follow, enter,
  ensure_inside, rel, rel_path, rel_text,
}
use fluxplane_dex.Capabilities.Paths.Laws.{is_clean}
use fluxplane_dex.Prelude.Slices.{split_from, drop_same, before_last}
use fluxplane_dex.Capabilities.Local.{bounded_blob_max_bytes, blob_read, blob_write}
use fluxplane_dex.Capabilities.Local.Laws.{
  IsPlaceOf, IsDone, IsBounded, blob_write-IsDone, blob_read-IsBounded,
}
use fluxplane_dex.Prelude.Unique.{mem}
use fluxplane_dex.Runner.Payloads.{string_at}
use fluxplane_dex.Index.Store.{get_index_record_by_entity, load_index_snapshots}
use fluxplane_dex.Runner.Enrichment.{
  Writer, enrich_record, empty_value, record_string, apply_fields, apply_indexed_record_fields,
  indexed_record_fields,
}
use fluxplane_dex.Runner.Enrichment.Laws.{is_fixed, enrich_record-keeps}
use fluxplane_dex.Tests.Hosts.{system, real-CleanReal, reader}
use fluxplane_dex.Tests.Samples.{index_dir}
use fluxplane_dex.Prelude.Sorting.{sort}
use fluxplane_dex.Index.{enrich_index_record, put_all, relationship_links, namespace_link}
use fluxplane_dex.Capabilities.Paths.{FilePath, Real, found}

abbrev note : BlobWriteRequest
note = record {
  ref = "";
  path = "notes/a.txt";
  content = 1 ∷ [];
  media_type = "";
  filename = "";
  overwrite = false;
  metadata = [];
}

blob_write-IsDone_example :
    (((blob_write system (ok ("w" ∷ [])) note []).1 ≡ [])
      × (is_ok (blob_write system (ok ("w" ∷ [])) note []).0 ≡ false)
      × (is_ok
            (resolve_create (system.eval_symlinks []) (ok ("w" ∷ [])) (blob_path "" "notes/a.txt"))
          ≡ false))
    ⊎ ((p : List String) × IsPlaceOf system (ok ("w" ∷ [])) real-CleanReal note [] p
        × IsDone system (ok ("w" ∷ [])) note p [] (blob_write system (ok ("w" ∷ [])) note []))
blob_write-IsDone_example = blob_write-IsDone system (ok ("w" ∷ [])) real-CleanReal note []

abbrev two_bytes : BlobReadResponse
two_bytes = record {
  blob = record {
    ref = "workspace:a.txt";
    path = "a.txt";
    media_type = "";
    filename = "a.txt";
    size = 3;
    metadata = [];
  };
  content = 1 ∷ 2 ∷ [];
  truncated = true;
}

read-two :
    (blob_read system (ok ("w" ∷ [])) (record { ref = ""; path = "a.txt"; max_bytes = pos 2 }) []).0
    ≡ ok two_bytes
unfolding blob_read blob_path resolve_existing resolve_candidate real_root follow enter
    ensure_inside rel rel_path rel_text bounded_blob_max_bytes is_clean split_from drop_same
    before_last strings
read-two = refl

blob_read-IsBounded_example : IsBounded system (ok ("w" ∷ [])) (pos 2) two_bytes
blob_read-IsBounded_example =
    blob_read-IsBounded system (ok ("w" ∷ []))
      (record { ref = ""; path = "a.txt"; max_bytes = pos 2 }) [] two_bytes read-two

abbrev writer : Writer
writer = record { links = λ l. text ""; array = λ vs. "" }

abbrev issue : Object
issue = ("author", text "U1") ∷ ("title", text "U1") ∷ []

abbrev of_author : DatasourceRelation
of_author = record { field = "author"; entity = "slack.user" }

-- the author is indexed with a title, which replaces the id in the title
abbrev completed : Object
completed = ("author", text "U1") ∷ ("title", text "Ada") ∷ []

enriched :
    enrich_record reader writer index_dir "slack" "work"
      ("author" ∷ "title" ∷ [])
      (of_author ∷ [])
      (issue, false)
    ≡ ok (completed, true)
unfolding enrich_record apply_indexed_record_fields indexed_record_fields apply_fields empty_value
    record_string string_at get_index_record_by_entity load_index_snapshots get put strings sort
    enrich_index_record put_all relationship_links namespace_link mem
enriched = refl

author-fixed : is_fixed ("author" ∷ "title" ∷ []) "author" (get "author" issue) ≡ true
unfolding get mem empty_value strings
author-fixed = refl

enrich_record-keeps_example : get "author" completed ≡ get "author" issue
enrich_record-keeps_example =
    enrich_record-keeps reader writer index_dir "slack" "work" ("author" ∷ "title" ∷ [])
      (of_author ∷ []) (issue, false) (completed, true) "author" enriched author-fixed

-- a link in the workspace to a file outside of it
abbrev link_out : FilePath → Real
link_out (n ∷ m ∷ p) = found ("etc" ∷ "passwd" ∷ [])
link_out p = found p

-- The path that is read lies outside of the root: the real path is not compared with the root.
resolve_existing-outside :
    resolve_existing link_out (ok ("w" ∷ [])) "link" ≡ ok ("etc" ∷ "passwd" ∷ [], "../etc/passwd")
unfolding resolve_existing resolve_candidate real_root follow enter ensure_inside rel rel_path
    rel_text split_from strings
resolve_existing-outside = refl
