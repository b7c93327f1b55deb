-- ===== src/Jobs.antt =====
-- The building of indexes by a plugin, core/pluginbinding/index.go: which indexes are selected, the
-- jobs that are run for them, and how their input is read.
pub mod Laws
pub mod Inputs
use Prim.Native.Char.{Char, code}
use Prim.Native.String.{[] as end, ◌∷◌ as then_char}
use fluxplane_dex.Prelude.{
  ℕ, zero, suc, ◌+◌, ◌-◌, ◌*◌, ◌^◌, String, Bool, false, true, ◌&&◌, ◌||◌, not, Option, none, some,
  List, [], ◌∷◌, ◌++◌, ◌==◌, if◌then◌else◌, trim_space, to_lower, nat_eq, ltb, leb, length,
}
use fluxplane_dex.Prelude.Int.{ℤ, pos, negsuc}
use fluxplane_dex.Prelude.Outcome.{Outcome, ok, err}
use fluxplane_dex.Prelude.Slices.{split_from, format_int}
use fluxplane_dex.Prelude.Unique.{mem}
use fluxplane_dex.Maps.{Map, get, put}
use fluxplane_dex.Jobs.Inputs.{first_string}
use fluxplane_dex.Json.{Object, Value, text, float, int}

-- the trimmed parts of one value that are not blank
unfoldable pub parts : List String → List String
parts [] = []
parts (untrimmed ∷ rest) =
    let part = to_lower (trim_space untrimmed) in
    let later = parts rest in if not (part == "") then part ∷ later else later

abbrev pub comma : Char
comma = ","

unfoldable pub split_selector_values : List String → List String
unfolding parts
split_selector_values [] = []
split_selector_values (value ∷ values) =
    parts (split_from comma "" value) ++ split_selector_values values

-- the indexes of a selector that are set in its map
pub record IndexSelector : Type 0 where
  pub indexes : List String

unfoldable pub includes : IndexSelector → String → Bool
includes s index = elim s.indexes [ [] ↦ true | i ∷ is ↦ mem ◌==◌ index (i ∷ is) ]

-- the loop over the selected values
unfoldable pub select : Map String → List String → Outcome (List String)
select known [] = ok []
select known (value ∷ values) = elim (get value known) [
  | none ↦ err "unknown index/entity selector"
  | some index ↦ elim (select known values) [ err e ↦ err e | ok is ↦ ok (index ∷ is) ]
]

abbrev pub selector_values : Object → List String
selector_values input = split_selector_values (
    first_string input ("index" ∷ "indexes" ∷ [])
    ∷ first_string input ("entity" ∷ "entities" ∷ [])
    ∷ [])

abbrev pub made : Outcome (List String) → Outcome IndexSelector
made (err e) = err e
made (ok is) = ok (record { indexes = is })

-- no value gives an empty list, which is the selector of all indexes
unfoldable pub new_index_selector : Object → Map String → Outcome IndexSelector
unfolding select split_selector_values first_string
new_index_selector input known = made (select known (selector_values input))

-- the entries of the second map replace those of the first
unfoldable pub put_each : Object → Object → Object
put_each o [] = o
put_each o ((k, v) ∷ rest) = put_each (put k v o) rest

unfoldable pub index_build_metadata : String → String → Object → Object
unfolding put_each
index_build_metadata entity operation input =
    put_each
      (("entity", text entity) ∷ ("source", text operation) ∷ ("fetch_mode", text "all_pages") ∷ [])
      input

-- an error of a plugin with its code, or another error
pub data JobError : Type 0 where
  plugin_error : String → String → JobError
  other_error : String → JobError

module _ (R : Type 0) where
  pub record IndexResult : Type 0 where
    pub index : String
    pub records : List R
    pub count : ℕ
    pub metadata : Object

  pub data JobRun : Type 0 where
    built : IndexResult → JobRun
    stopped : JobError → JobRun

  -- `run` is none for a nil function
  pub record IndexJob : Type 0 where
    pub index : String
    pub run : Option JobRun

  pub data BuildRun : Type 0 where
    finished : List IndexResult → BuildRun
    failed : JobError → BuildRun

  abbrev pub new_index_result : String → List R → Object → IndexResult
  new_index_result index records metadata = record {
    index = index;
    records = records;
    count = length records;
    metadata = metadata;
  }

  -- the loop over the items that were fetched
  unfoldable pub normalized : {T : Type 0} → (T → Option R) → List T → List R
  normalized normalize [] = []
  normalized normalize (item ∷ items) = elim (normalize item) [
    | none ↦ normalized normalize items
    | some r ↦ r ∷ normalized normalize items
  ]

  abbrev pub job_run :
      {T : Type 0} → String → String → String → Outcome (List T) → (T → Option R) → Object → JobRun
  job_run index entity operation (err e) normalize metadata = stopped (other_error e)
  job_run index entity operation (ok items) normalize metadata = built (
      new_index_result index (normalized normalize items)
        (index_build_metadata entity operation metadata))

  unfoldable pub new_dynamic_index_job :
      {T : Type 0}
      → String
      → String
      → String
      → Outcome (List T)
      → (T → Option R)
      → Object
      → IndexJob
  unfolding normalized index_build_metadata
  new_dynamic_index_job index entity operation fetched normalize metadata = record {
    index = index;
    run = some (job_run index entity operation fetched normalize metadata);
  }

  -- the error that the loop returns for the error of a job
  abbrev pub reported : String → JobError → JobError
  reported code (plugin_error c m) = plugin_error c m
  reported code (other_error m) =
      plugin_error (if trim_space code == "" then "plugin_error" else code) m

  abbrev pub add_result : IndexResult → BuildRun → BuildRun
  add_result r (finished rs) = finished (r ∷ rs)
  add_result r (failed e) = failed e

  -- what the run of a job makes of the rest of the loop
  abbrev pub after_run : String → JobRun → BuildRun → BuildRun
  after_run code (built r) rest = add_result r rest
  after_run code (stopped e) rest = failed (reported code e)

  -- the body of the loop, for a job whose index is to be passed over or not
  abbrev pub job_step : Bool → String → Option JobRun → BuildRun → BuildRun
  job_step passed code none rest = rest
  job_step passed code (some out) rest = if passed then rest else after_run code out rest

  abbrev pub is_passed : IndexSelector → IndexJob → Bool
  is_passed selector job = trim_space job.index == "" || not (includes selector job.index)

  unfoldable pub run_index_jobs : IndexSelector → String → List IndexJob → BuildRun
  unfolding includes
  run_index_jobs selector code [] = finished []
  run_index_jobs selector code (job ∷ jobs) =
      job_step (is_passed selector job) code job.run (run_index_jobs selector code jobs)
