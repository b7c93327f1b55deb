-- ===== src/Index/Store/Records.antt =====
-- GetIndexRecord against the loaded records, runtime/index.go.
use fluxplane_dex.Prelude.{
  String, ◌≡◌, refl, ◌∙◌, Bool, false, true, ◌||◌, Option, none, some, List, [], ◌∷◌, ◌==◌, arith,
  trim_space, any, eq_iff, Bool-cases, inl, inr,
}
use fluxplane_dex.Prelude.Outcome.{ok}
use fluxplane_dex.Json.{Codec}
use fluxplane_dex.Index.{
  IndexRecord, IndexSnapshot, enrich_index_record, apply_standard_index_fields,
}
use fluxplane_dex.Index.Store.{
  IndexDir, load_index_snapshots, find_id, first_found, get_index_record,
}

-- the answer has the id, and names the host's index as its source
abbrev pub IsOfId : String → Option IndexRecord → Type 0
IsOfId id none = Unit
IsOfId id (some r) = (r.id ≡ id) × (r.origin.source ≡ "host_index")

abbrev pub is_some : {A : Type 0} → Option A → Bool
is_some none = false
is_some (some a) = true

abbrev has_id : String → IndexSnapshot → Bool
has_id id s = any (λ r. r.id == id) s.records

-- The answer `m` is of the id, and is there exactly if the test is true.
pub record Answers (id : String) (there : Bool) (m : Option IndexRecord) : Type 0 where
  pub of_id : IsOfId id m
  pub exact : is_some m ≡ there

-- the first answer, or else the second
join :
    (id : String) (b c : Bool) (m k : Option IndexRecord)
    → Answers id b m
    → Answers id c k
    → Answers id (b || c) (elim m [ some r ↦ some r | none ↦ k ])
join id b c none k h l = record { of_id = l.of_id; exact = ground (arith, h.exact, l.exact) }
join id b c (some r) k h l = record { of_id = h.of_id; exact = ground (arith, h.exact) }

module _ (codec : Codec) where
  id-enrich : (s : IndexSnapshot) (r : IndexRecord) → (enrich_index_record codec s r).id ≡ r.id
  unfolding enrich_index_record apply_standard_index_fields
  id-enrich s r = ground arith

  origin-enrich :
      (s : IndexSnapshot) (r : IndexRecord)
      → (enrich_index_record codec s r).origin.source ≡ "host_index"
  unfolding enrich_index_record
  origin-enrich s r = refl

  find_id-Answers :
      (id : String) (s : IndexSnapshot) (rs : List IndexRecord)
      → Answers id (any (λ r. r.id == id) rs) (find_id codec id s rs)
  unfolding find_id
  find_id-Answers id s [] = record { of_id = tt; exact = refl }
  find_id-Answers id s (r ∷ rs) =
      let later = find_id-Answers id s rs in
      elim (Bool-cases (r.id == id)) [
        | inl e ↦ rw e (record {
          of_id = (id-enrich s r ∙ ground (arith, eq_iff r.id id), origin-enrich s r);
          exact = refl;
        })
        | inr e ↦ rw e later
      ]

  first_found-Answers :
      (id : String) (ss : List IndexSnapshot)
      → Answers id (any (has_id id) ss) (first_found codec (find_id codec id) ss)
  unfolding first_found
  first_found-Answers id [] = record { of_id = tt; exact = refl }
  first_found-Answers id (s ∷ ss) =
      let here = find_id-Answers id s s.records in
      let later = first_found-Answers id ss in
      join id (has_id id s) (any (has_id id) ss) (find_id codec id s s.records)
        (first_found codec (find_id codec id) ss) here later

  -- If the snapshots load, the answer is a record exactly if some loaded record has the trimmed id,
  -- and then it has that id and names the host's index as its source.
  pub get_index_record-Answers :
      (dir : IndexDir) (plugin instance_name id : String) (ss : List IndexSnapshot)
      → load_index_snapshots dir plugin instance_name ≡ ok ss
      → (m : Option IndexRecord) × (get_index_record codec dir plugin instance_name id ≡ ok m)
        × Answers (trim_space id) (any (λ s. any (λ r. r.id == trim_space id) s.records) ss) m
  unfolding get_index_record
  get_index_record-Answers dir plugin instance_name id ss h = (
    first_found codec (find_id codec (trim_space id)) ss,
    rw h,
    first_found-Answers (trim_space id) ss,
  )
