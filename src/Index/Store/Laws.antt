-- ===== src/Index/Store/Laws.antt =====
-- SaveIndexRecordsWithMetadata against HasIndex, runtime/index.go.
use mathlib.Core.Path.{subst}
use fluxplane_dex.Prelude.{
  ℕ, String, ◌≡◌, refl, sym, ap, ◌∙◌, Bool, false, true, ◌||◌, ◌&&◌, List, [], ◌∷◌, ◌==◌, arith,
  trim_space, trim_space_idem, any, eq_refl, Bool-cases, inl, inr,
}
use fluxplane_dex.Prelude.Outcome.{Outcome, ok, err, ok-injective, >>=-eq-ok}
use fluxplane_dex.Prelude.Sorting.{insert, sort, by_key}
use fluxplane_dex.Json.{Codec}
use fluxplane_dex.Files.{File, absent, unreadable, malformed, holds, written}
use fluxplane_dex.Grants.{PathName, blank, encoded, path_name, same_path, normalize_instance}
use fluxplane_dex.Index.{IndexSnapshot}
use fluxplane_dex.Index.Store.{
  IndexDir, Entry, Directory, missing, closed, entries, read_directory, add_content, read_entries,
  load_index_snapshots, put_entry, put_file, after_save, write_snapshot, has_index, new_snapshot,
  normalize_records, normalize_index_metadata, save_index_records_with_metadata,
}

-- the test of HasIndex on loaded snapshots
abbrev has_name : String → IndexSnapshot → Bool
has_name index s = s.index == index

any-insert :
    (p : IndexSnapshot → Bool) (less : IndexSnapshot → IndexSnapshot → Bool) (x : IndexSnapshot)
    (xs : List IndexSnapshot)
    → any p (insert less x xs) ≡ p x || any p xs
unfolding insert
any-insert p less x [] = refl
any-insert p less x (y ∷ ys) = ground (arith, any-insert p less x ys)

any-sort :
    (p : IndexSnapshot → Bool) (less : IndexSnapshot → IndexSnapshot → Bool)
    (xs : List IndexSnapshot)
    → any p (sort less xs) ≡ any p xs
unfolding sort
any-sort p less [] = refl
any-sort p less (x ∷ xs) = ground (arith, any-insert p less x (sort less xs), any-sort p less xs)

add_content-eq-ok :
    (f : File IndexSnapshot) (rest : Outcome (List IndexSnapshot)) (ss : List IndexSnapshot)
    → add_content f rest ≡ ok ss
    → (t : IndexSnapshot) × (ts : List IndexSnapshot) × (f ≡ holds t) × (rest ≡ ok ts)
add_content-eq-ok absent rest ss h = cc
add_content-eq-ok (unreadable m) rest ss h = cc
add_content-eq-ok (malformed m) rest ss h = cc
add_content-eq-ok (holds t) rest ss h =
    let (ts, e, k) = >>=-eq-ok rest (λ ss. ok (t ∷ ss)) h in (t, ts, refl, e)

read_entries-json :
    (e : Entry) (es : List Entry) (t : IndexSnapshot) (ts : List IndexSnapshot)
    → e.is_json ≡ true
    → e.content ≡ holds t
    → read_entries es ≡ ok ts
    → read_entries (e ∷ es) ≡ ok (t ∷ ts)
unfolding read_entries
read_entries-json e es t ts j c k = rw (j, c, k)

put_entry-other :
    (name : PathName) (write : File IndexSnapshot → File IndexSnapshot) (e : Entry)
    (es : List Entry)
    → (e.is_json && same_path e.name name) ≡ false
    → put_entry name write (e ∷ es) ≡ e ∷ put_entry name write es
unfolding put_entry
put_entry-other name write e es h = ground (arith, h)

read_entries-skip :
    (e : Entry) (es : List Entry) → e.is_json ≡ false → read_entries (e ∷ es) ≡ read_entries es
unfolding read_entries
read_entries-skip e es j = rw j

put_entry-same :
    (name : PathName) (s : IndexSnapshot) (e : Entry) (es : List Entry)
    → (e.is_json && same_path e.name name) ≡ true
    → put_entry name (λ f. holds s) (e ∷ es) ≡ record e { content = holds s } ∷ es
unfolding put_entry
put_entry-same name s e es h = ground (arith, h)

-- the snapshot that was written is read
read_entries-put_entry :
    (name : PathName) (s : IndexSnapshot) (es : List Entry) (ss : List IndexSnapshot)
    → read_entries es ≡ ok ss
    → (ss' : List IndexSnapshot) × (read_entries (put_entry name (λ f. holds s) es) ≡ ok ss')
      × (any (has_name s.index) ss' ≡ true)
unfolding read_entries put_entry
read_entries-put_entry name s [] ss h = (s ∷ [], refl, rw (eq_refl s.index))
read_entries-put_entry name s (e ∷ es) ss h =
    let write : File IndexSnapshot → File IndexSnapshot = λ f. holds s in
    elim (Bool-cases e.is_json) [
      | inr e0 ↦
          let (ss', k, p) = read_entries-put_entry name s es ss (ground arith) in
          (
            ss',
            subst (λ xs. read_entries xs ≡ ok ss') (sym (put_entry-other name write e es (rw e0)))
                (read_entries-skip e (put_entry name write es) e0 ∙ k),
            p,
          )
      | inl e1 ↦
          let (t, rest, c, k) = add_content-eq-ok e.content (read_entries es) ss (ground arith) in
          elim (Bool-cases (same_path e.name name)) [
            | inl same ↦ (
              s ∷ rest,
              subst (λ xs. read_entries xs ≡ ok (s ∷ rest))
                  (sym (put_entry-same name s e es (rw (e1, same))))
                  (read_entries-json (record e { content = holds s }) es s rest e1 refl k),
              rw (eq_refl s.index),
            )
            | inr other ↦
                let (ss', k', p) = read_entries-put_entry name s es rest k in
                (
                  t ∷ ss',
                  subst (λ xs. read_entries xs ≡ ok (t ∷ ss'))
                      (sym (put_entry-other name write e es (rw (e1, other))))
                      (read_entries-json e (put_entry name write es) t ss' e1 c k'),
                  ground (arith, p),
                )
          ]
    ]

abbrev by_index : IndexSnapshot → IndexSnapshot → Bool
by_index = by_key (λ (s : IndexSnapshot). s.index)

-- what a directory holds after the write
read_directory-put_file :
    (name : PathName) (s : IndexSnapshot) (d : Directory) (ss : List IndexSnapshot)
    → read_directory d ≡ ok ss
    → (ss' : List IndexSnapshot) × (read_directory (put_file name (λ f. holds s) d) ≡ ok ss')
      × (any (has_name s.index) ss' ≡ true)
unfolding read_directory put_file
read_directory-put_file name s missing ss h =
    let (ss', k, p) = read_entries-put_entry name s [] [] refl in
    (sort by_index ss', rw k, any-sort (has_name s.index) by_index ss' ∙ p)
read_directory-put_file name s (closed m) ss h = cc
read_directory-put_file name s (entries es) ss h =
    let (old, e, k) = >>=-eq-ok (read_entries es) _ h in
    let (ss', k', p) = read_entries-put_entry name s es old e in
    (sort by_index ss', rw k', any-sort (has_name s.index) by_index ss' ∙ p)

same_path_refl : (p : PathName) → same_path p p ≡ true
unfolding same_path
same_path_refl blank = refl
same_path_refl (encoded s) = eq_refl s

path_name-trim : (s : String) → path_name (trim_space s) ≡ path_name s
unfolding path_name
path_name-trim s = rw (trim_space_idem s)

after_save-at :
    (s : IndexSnapshot) (dir : IndexDir) (p i : PathName)
    → path_name s.plugin ≡ p
    → path_name s.instance_name ≡ i
    → after_save written s dir p i ≡ put_file (path_name s.index) (λ f. holds s) (dir p i)
unfolding after_save
after_save-at s dir p i e k = rw (e, k, same_path_refl p, same_path_refl i)

new_snapshot-names :
    (codec : Codec) (rfc3339 : ℕ → String) (now : ℕ) (plugin instance_name index : String)
    (raws : List String) (metadata : String) (s : IndexSnapshot)
    → new_snapshot codec rfc3339 now plugin instance_name index raws metadata ≡ ok s
    → (s.plugin ≡ plugin) × (s.instance_name ≡ instance_name) × (s.index ≡ index)
unfolding new_snapshot
new_snapshot-names codec rfc3339 now plugin instance_name index raws metadata s h =
    elim (Bool-cases (plugin == "" || index == "")) [
      | inl e ↦ ground arith
      | inr e ↦
          let start : IndexSnapshot = record {
            plugin = plugin;
            instance_name = instance_name;
            index = index;
            records = normalize_records codec raws;
            updated_at = now;
            metadata = "";
          } in
          let (m, k, is_s) =
            >>=-eq-ok (normalize_index_metadata codec rfc3339 metadata start)
              (λ m. ok (record start { metadata = m })) {out = s} (ground arith) in
          let same = ok-injective is_s in
          (
            ap (λ (x : IndexSnapshot). x.plugin) (sym same),
            ap (λ (x : IndexSnapshot). x.instance_name) (sym same),
            ap (λ (x : IndexSnapshot). x.index) (sym same),
          )
    ]

write_snapshot-saved :
    (dir : IndexDir) (o : Outcome IndexSnapshot) (s : IndexSnapshot) (dir' : IndexDir)
    → write_snapshot written dir o ≡ (ok s, dir')
    → (o ≡ ok s) × (after_save written s dir ≡ dir')
write_snapshot-saved dir (err e) s dir' h = cc
write_snapshot-saved dir (ok t) s dir' h = (ap (λ x. x.0) h, cc)

-- After a successful save into a directory whose files can be read, on a disk that writes, the
-- index exists.
pub has_index-save :
    (codec : Codec) (rfc3339 : ℕ → String) (now : ℕ) (plugin instance_name index : String)
    (raws : List String) (metadata : String) (dir : IndexDir) (s : IndexSnapshot) (dir' : IndexDir)
    (ss : List IndexSnapshot)
    → save_index_records_with_metadata codec rfc3339 now written plugin instance_name index raws
        metadata dir
      ≡ (ok s, dir')
    → load_index_snapshots dir plugin instance_name ≡ ok ss
    → has_index dir' plugin instance_name index ≡ ok true
unfolding save_index_records_with_metadata load_index_snapshots has_index
has_index-save codec rfc3339 now plugin instance_name index raws metadata dir s dir' ss h l =
    let i = normalize_instance instance_name in
    let built =
      new_snapshot codec rfc3339 now (trim_space plugin) i (trim_space index) raws metadata in
    let (is_s, is_dir) : (built ≡ ok s) × (after_save written s dir ≡ dir') =
      write_snapshot-saved dir built s dir' h in
    let (of_plugin, of_instance, of_index) =
      new_snapshot-names codec rfc3339 now (trim_space plugin) i (trim_space index) raws metadata s
        is_s in
    let (ss', k, found) =
      read_directory-put_file (path_name s.index) s (dir (path_name plugin) (path_name i)) ss l in
    let loaded : read_directory (dir' (path_name plugin) (path_name i)) ≡ ok ss' =
      subst (λ d. read_directory (d (path_name plugin) (path_name i)) ≡ ok ss') is_dir
        (rw
          (after_save-at s dir (path_name plugin) (path_name i)
            (ap path_name of_plugin ∙ path_name-trim plugin) (ap path_name of_instance))
          k) in
    rw loaded (ap ok (subst (λ n. any (has_name n) ss' ≡ true) of_index found))
