-- ===== src/Index/Store.antt =====
-- The index files, SaveIndexRecords and loadIndexSnapshots in runtime/index.go, and the questions
-- that are answered from the loaded snapshots alone. An index is one file in a directory per plugin
-- and instance; what a file holds is the snapshot that encoding/json reads from it.
pub mod Laws
pub mod Records
pub mod Status
use fluxplane_dex.Prelude.{
  ℕ, zero, suc, ◌+◌, String, Bool, false, true, ◌&&◌, ◌||◌, not, Option, none, some, List, [], ◌∷◌,
  ◌++◌, map, ◌==◌, if◌then◌else◌, trim_space, ltb, length, any, str_lt,
}
use fluxplane_dex.Prelude.Int.{ℤ, pos}
use fluxplane_dex.Prelude.Outcome.{Outcome, ok, err, ◌>>=◌}
use fluxplane_dex.Prelude.Sorting.{sort, by_key}
use fluxplane_dex.Files.{
  File, absent, unreadable, malformed, holds, Disk, no_directory, after_write, write_error,
}
use fluxplane_dex.Maps.{Map, get, put}
use fluxplane_dex.Json.{Object, Value, int, text, Codec}
use fluxplane_dex.Grants.{PathName, path_name, same_path, normalize_instance}
use fluxplane_dex.Index.{IndexRecord, IndexSnapshot, normalize_index_record, enrich_index_record}

-- an entry of a directory: its name, whether it is a file whose extension is .json, and the content
pub record Entry : Type 0 where
  pub name : PathName
  pub is_json : Bool
  pub content : File IndexSnapshot

-- what os.ReadDir finds
pub data Directory : Type 0 where
  missing : Directory
  closed : String → Directory
  entries : List Entry → Directory

-- the directory of a plugin and an instance
abbrev pub IndexDir : Type 0
IndexDir = PathName → PathName → Directory

-- A snapshot that is read goes before the others. A file that is gone by then is an error as well.
abbrev pub add_content :
    File IndexSnapshot → Outcome (List IndexSnapshot) → Outcome (List IndexSnapshot)
add_content absent rest = err "file does not exist"
add_content (unreadable m) rest = err m
add_content (malformed m) rest = err m
add_content (holds s) rest = rest >>= λ ss. ok (s ∷ ss)

-- the loop over the entries
unfoldable pub read_entries : List Entry → Outcome (List IndexSnapshot)
read_entries [] = ok []
read_entries (e ∷ es) =
    let rest = read_entries es in if e.is_json then add_content e.content rest else rest

-- the snapshots of a directory, sorted by index
unfoldable pub read_directory : Directory → Outcome (List IndexSnapshot)
unfolding read_entries
read_directory missing = ok []
read_directory (closed m) = err m
read_directory (entries es) = do
  ss ← read_entries es
  ok (sort (by_key (λ (s : IndexSnapshot). s.index)) ss)

unfoldable pub load_index_snapshots : IndexDir → String → String → Outcome (List IndexSnapshot)
unfolding read_directory
load_index_snapshots dir plugin instance_name =
    read_directory (dir (path_name plugin) (path_name (normalize_instance instance_name)))

-- metadata[key] = value where the key is missing
abbrev pub put_missing : String → Value → Object → Object
put_missing key value o = elim (get key o) [ none ↦ put key value o | some v ↦ o ]

module _ (codec : Codec) where
  abbrev pub object_or_empty : String → Object
  object_or_empty raw =
      if trim_space raw == "" then [] else elim (codec.unmarshal raw) [ none ↦ [] | some o ↦ o ]

  -- The text `null` makes the map nil, and the first assignment to it panics.
  unfoldable pub normalize_index_metadata : (ℕ → String) → String → IndexSnapshot → Outcome String
  unfolding put get
  normalize_index_metadata rfc3339 raw s =
      if trim_space raw == "null"
      then err "assignment to entry in nil map"
      else ok (
          codec.marshal (
            put_missing "records" (int (pos (length s.records))) (
              put_missing "index" (text s.index) (
                put_missing "instance" (text s.instance_name) (
                  put_missing "plugin" (text s.plugin) (
                    put_missing "built_at" (text (rfc3339 s.updated_at)) (object_or_empty raw)))))))

  -- the records that are kept
  unfoldable pub normalize_records : List String → List IndexRecord
  normalize_records [] = []
  normalize_records (raw ∷ raws) = elim (normalize_index_record codec raw) [
    | none ↦ normalize_records raws
    | some r ↦ r ∷ normalize_records raws
  ]

  -- the snapshot that SaveIndexRecordsWithMetadata builds from the trimmed names
  unfoldable pub new_snapshot :
      (ℕ → String) → ℕ → String → String → String → List String → String → Outcome IndexSnapshot
  unfolding normalize_records normalize_index_metadata
  new_snapshot rfc3339 now plugin instance_name index raws metadata =
      let s : IndexSnapshot = record {
        plugin = plugin;
        instance_name = instance_name;
        index = index;
        records = normalize_records raws;
        updated_at = now;
        metadata = "";
      } in
      if plugin == "" || index == ""
      then err "plugin and index are required"
      else normalize_index_metadata rfc3339 metadata s >>= λ m. ok (record s { metadata = m })

-- os.WriteFile: the entry of that name is replaced, or one is added
unfoldable pub put_entry :
    PathName → (File IndexSnapshot → File IndexSnapshot) → List Entry → List Entry
unfolding same_path
put_entry name write [] = record { name = name; is_json = true; content = write absent } ∷ []
put_entry name write (e ∷ es) =
    let rest = put_entry name write es in
    if e.is_json && same_path e.name name
    then record e { content = write e.content } ∷ es
    else e ∷ rest

-- A directory that cannot be listed stays so.
unfoldable pub put_file :
    PathName → (File IndexSnapshot → File IndexSnapshot) → Directory → Directory
put_file name write missing = entries (put_entry name write [])
put_file name write (closed m) = closed m
put_file name write (entries es) = entries (put_entry name write es)

unfoldable pub after_save : Disk IndexSnapshot → IndexSnapshot → IndexDir → IndexDir
unfolding put_file
after_save (no_directory m) s dir p i = dir p i
after_save disk s dir p i =
    if same_path (path_name s.plugin) p && same_path (path_name s.instance_name) i
    then put_file (path_name s.index) (after_write disk s) (dir p i)
    else dir p i

abbrev pub or_error : Option String → IndexSnapshot → Outcome IndexSnapshot
or_error none s = ok s
or_error (some e) s = err e

-- the part that writes the snapshot
abbrev pub write_snapshot :
    Disk IndexSnapshot → IndexDir → Outcome IndexSnapshot → Outcome IndexSnapshot × IndexDir
write_snapshot disk dir (err e) = (err e, dir)
write_snapshot disk dir (ok s) = (or_error (write_error disk) s, after_save disk s dir)

unfoldable pub save_index_records_with_metadata :
    Codec
    → (ℕ → String)
    → ℕ
    → Disk IndexSnapshot
    → String
    → String
    → String
    → List String
    → String
    → IndexDir
    → Outcome IndexSnapshot × IndexDir
save_index_records_with_metadata codec rfc3339 now disk plugin instance_name index raws metadata
      dir =
    write_snapshot disk dir (
      new_snapshot codec rfc3339 now (trim_space plugin) (normalize_instance instance_name)
        (trim_space index) raws metadata)

-- HasIndex
unfoldable pub has_index : IndexDir → String → String → String → Outcome Bool
has_index dir plugin instance_name index = do
  ss ← load_index_snapshots dir plugin instance_name
  ok (any (λ s. s.index == trim_space index) ss)

unfoldable pub has_indexed_entity : IndexDir → String → String → String → Outcome Bool
has_indexed_entity dir plugin instance_name entity = do
  ss ← load_index_snapshots dir plugin instance_name
  ok (any (λ s. any (λ r. r.entity == trim_space entity) s.records) ss)

module _ (codec : Codec) where
  -- the loop of GetIndexRecord over the records of one snapshot
  unfoldable pub find_id : String → IndexSnapshot → List IndexRecord → Option IndexRecord
  find_id id s [] = none
  find_id id s (r ∷ rs) =
      let rest = find_id id s rs in
      if r.id == id then some (enrich_index_record codec s r) else rest

  -- the loop of GetIndexRecordByEntity
  unfoldable pub find_entity_id :
      String → String → IndexSnapshot → List IndexRecord → Option IndexRecord
  find_entity_id entity id s [] = none
  find_entity_id entity id s (r ∷ rs) =
      let rest = find_entity_id entity id s rs in
      let full = enrich_index_record codec s r in
      if not (r.id == id)
      then rest
      else if not (entity == "") && not (full.entity == entity)
      then rest
      else some full

  -- the loop over the snapshots
  unfoldable pub first_found :
      (IndexSnapshot → List IndexRecord → Option IndexRecord)
      → List IndexSnapshot
      → Option IndexRecord
  first_found search [] = none
  first_found search (s ∷ ss) = elim (search s s.records) [
    | some r ↦ some r
    | none ↦ first_found search ss
  ]

  unfoldable pub get_index_record :
      IndexDir → String → String → String → Outcome (Option IndexRecord)
  unfolding first_found find_id
  get_index_record dir plugin instance_name id = do
    ss ← load_index_snapshots dir plugin instance_name
    ok (first_found (find_id (trim_space id)) ss)

  unfoldable pub get_index_record_by_entity :
      IndexDir → String → String → String → String → Outcome (Option IndexRecord)
  unfolding first_found find_entity_id
  get_index_record_by_entity dir plugin instance_name entity id = do
    ss ← load_index_snapshots dir plugin instance_name
    ok (first_found (find_entity_id (trim_space entity) (trim_space id)) ss)
