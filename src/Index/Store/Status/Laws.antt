-- ===== src/Index/Store/Status/Laws.antt =====
-- The parts of an IndexStatus against each other, runtime/index.go.
use mathlib.Core.Path.{subst}
use fluxplane_dex.Prelude.{
  ℕ, ◌+◌, String, ◌≡◌, refl, sym, ap, ◌∙◌, Bool, List, [], ◌∷◌, ◌++◌, map, arith, str_lt,
  Bool-cases, inl, inr,
}
use fluxplane_dex.Prelude.Outcome.{ok, ok-injective, >>=-eq-ok}
use fluxplane_dex.Prelude.Sorting.{insert, sort, by_key}
use fluxplane_dex.Grants.{normalize_instance}
use fluxplane_dex.Index.{IndexSnapshot}
use fluxplane_dex.Index.Store.{IndexDir, load_index_snapshots}
use fluxplane_dex.Index.Store.Status.{
  IndexStatus, IndexStatusEntry, entry_of, add_snapshot, add_snapshots, sorted_status, new_status,
  index_status,
}

-- Sorting by a key sorts the keys.
insert-map :
    {A : Type 0} (key : A → String) (x : A) (xs : List A)
    → map key (insert (by_key key) x xs) ≡ insert str_lt (key x) (map key xs)
unfolding insert
insert-map key x [] = refl
insert-map key x (y ∷ ys) = elim (Bool-cases (str_lt (key y) (key x))) [
  | inl e ↦ rw e (ap (λ zs. key y ∷ zs) (insert-map key x ys))
  | inr e ↦ rw e
]

map-sort :
    {A : Type 0} (key : A → String) (xs : List A)
    → map key (sort (by_key key) xs) ≡ sort str_lt (map key xs)
unfolding sort
map-sort key [] = refl
map-sort key (x ∷ xs) =
    insert-map key x (sort (by_key key) xs) ∙ ap (insert str_lt (key x)) (map-sort key xs)

-- the records that the entries of a status count
unfoldable pub total : List IndexStatusEntry → ℕ
total [] = 0
total (d ∷ ds) = d.records + total ds

total-append : (xs ys : List IndexStatusEntry) → total (xs ++ ys) ≡ total xs + total ys
unfolding total
total-append [] ys = omega arith
total-append (d ∷ xs) ys = omega (arith, total-append xs ys)

total-insert :
    (less : IndexStatusEntry → IndexStatusEntry → Bool) (d : IndexStatusEntry)
    (ds : List IndexStatusEntry)
    → total (insert less d ds) ≡ d.records + total ds
unfolding insert total
total-insert less d [] = refl
total-insert less d (e ∷ ds) = ground (arith, total-insert less d ds)

total-sort :
    (less : IndexStatusEntry → IndexStatusEntry → Bool) (ds : List IndexStatusEntry)
    → total (sort less ds) ≡ total ds
unfolding sort total
total-sort less [] = refl
total-sort less (d ∷ ds) = omega (arith, total-insert less d (sort less ds), total-sort less ds)

-- The indexes, the records and the details tell of the same snapshots.
pub record Agrees (status : IndexStatus) : Type 0 where
  pub names : status.indexes ≡ map (λ (d : IndexStatusEntry). d.index) status.details
  pub counts : status.records ≡ total status.details

map-append :
    (xs : List IndexStatusEntry) (d : IndexStatusEntry)
    → map (λ (d : IndexStatusEntry). d.index) (xs ++ d ∷ [])
      ≡ map (λ (d : IndexStatusEntry). d.index) xs ++ d.index ∷ []
map-append [] d = refl
map-append (x ∷ xs) d = ap (λ ys. x.index ∷ ys) (map-append xs d)

add_snapshot-Agrees :
    (status : IndexStatus) (s : IndexSnapshot) → Agrees status → Agrees (add_snapshot status s)
unfolding add_snapshot total
add_snapshot-Agrees status s a = record {
  names = rw a.names (sym (map-append status.details (entry_of s)));
  counts = rw (total-append status.details (entry_of s ∷ [])) (omega (arith, a.counts));
}

add_snapshots-Agrees :
    (status : IndexStatus) (ss : List IndexSnapshot)
    → Agrees status
    → Agrees (add_snapshots status ss)
unfolding add_snapshots
add_snapshots-Agrees status [] a = a
add_snapshots-Agrees status (s ∷ ss) a =
    add_snapshots-Agrees (add_snapshot status s) ss (add_snapshot-Agrees status s a)

sorted_status-Agrees : (status : IndexStatus) → Agrees status → Agrees (sorted_status status)
sorted_status-Agrees status a = record {
  names = rw a.names (sym (map-sort (λ (d : IndexStatusEntry). d.index) status.details));
  counts = rw (total-sort (by_key (λ (d : IndexStatusEntry). d.index)) status.details) a.counts;
}

-- A status that is returned is consistent: its indexes are those of its details, in their order,
-- and its count is the sum of theirs.
pub index_status-Agrees :
    (dir : IndexDir) (plugin instance_name : String) (status : IndexStatus)
    → index_status dir plugin instance_name ≡ ok status
    → Agrees status
unfolding index_status total
index_status-Agrees dir plugin instance_name status h =
    let (ss, e, k) =
      >>=-eq-ok (load_index_snapshots dir plugin (normalize_instance instance_name)) _ h in
    let start = new_status plugin (normalize_instance instance_name) in
    subst Agrees (ok-injective k) (
      sorted_status-Agrees (add_snapshots start ss)
        (add_snapshots-Agrees start ss (record { names = refl; counts = refl })))
