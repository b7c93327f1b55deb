-- ===== src/Index/Store/Status.antt =====
-- IndexStatus and HasIndexRecords of runtime/index.go.
pub mod Laws
use fluxplane_dex.Prelude.{
  ℕ, zero, suc, ◌+◌, String, Bool, false, true, ◌&&◌, ◌||◌, not, Option, none, some, List, [], ◌∷◌,
  ◌++◌, map, ◌==◌, if◌then◌else◌, trim_space, ltb, length, any, str_lt,
}
use fluxplane_dex.Prelude.Int.{ℤ, pos}
use fluxplane_dex.Prelude.Outcome.{Outcome, ok, err, ◌>>=◌}
use fluxplane_dex.Prelude.Sorting.{sort, by_key}
use fluxplane_dex.Files.{
  File, absent, unreadable, malformed, holds, Disk, no_directory, after_write, write_error,
}
use fluxplane_dex.Maps.{Map, get, put}
use fluxplane_dex.Json.{Object, Value, int, text, Codec}
use fluxplane_dex.Grants.{PathName, path_name, same_path, normalize_instance}
use fluxplane_dex.Index.{IndexRecord, IndexSnapshot, normalize_index_record, enrich_index_record}
use fluxplane_dex.Index.Store.{IndexDir, load_index_snapshots}

pub record IndexStatusEntry : Type 0 where
  pub index : String
  pub records : ℕ
  pub updated_at : ℕ
  pub metadata : String

pub record IndexStatus : Type 0 where
  pub plugin : String
  pub instance_name : String
  pub indexes : List String
  pub records : ℕ
  pub updated_at : ℕ
  pub details : List IndexStatusEntry

abbrev pub entry_of : IndexSnapshot → IndexStatusEntry
entry_of s = record {
  index = s.index;
  records = length s.records;
  updated_at = s.updated_at;
  metadata = s.metadata;
}

-- the body of the loop over the snapshots
unfoldable pub add_snapshot : IndexStatus → IndexSnapshot → IndexStatus
add_snapshot status s = record {
  plugin = status.plugin;
  instance_name = status.instance_name;
  indexes = status.indexes ++ s.index ∷ [];
  records = status.records + length s.records;
  updated_at = if ltb status.updated_at s.updated_at then s.updated_at else status.updated_at;
  details = status.details ++ entry_of s ∷ [];
}

unfoldable pub add_snapshots : IndexStatus → List IndexSnapshot → IndexStatus
add_snapshots status [] = status
add_snapshots status (s ∷ ss) = add_snapshots (add_snapshot status s) ss

-- the two calls of package sort at the end
abbrev pub sorted_status : IndexStatus → IndexStatus
sorted_status status = record status {
  indexes = sort str_lt status.indexes;
  details = sort (by_key (λ (d : IndexStatusEntry). d.index)) status.details;
}

abbrev pub new_status : String → String → IndexStatus
new_status plugin instance_name = record {
  plugin = trim_space plugin;
  instance_name = instance_name;
  indexes = [];
  records = 0;
  updated_at = 0;
  details = [];
}

unfoldable pub index_status : IndexDir → String → String → Outcome IndexStatus
unfolding add_snapshots
index_status dir plugin instance_name = do
  ss ← load_index_snapshots dir plugin (normalize_instance instance_name)
  ok (sorted_status (add_snapshots (new_status plugin (normalize_instance instance_name)) ss))

unfoldable pub has_index_records : IndexDir → String → String → Outcome Bool
has_index_records dir plugin instance_name = do
  status ← index_status dir plugin instance_name
  ok (ltb 0 status.records)
