-- ===== src/Jobs/Laws.antt =====
-- NewIndexSelector and RunIndexJobs of core/pluginbinding/index.go.
use mathlib.Core.Path.{subst, ◌∙◌}
use fluxplane_dex.Prelude.{
  String, ◌≡◌, refl, ap, Bool, false, true, not, ◌&&◌, ◌||◌, ◌++◌, filtered, trim_space, Option,
  none, some, List, [], ◌∷◌, map, ◌==◌, arith, Option-cases, inl, inr, if◌then◌else◌, any,
}
use fluxplane_dex.Prelude.Outcome.{Outcome, ok, err, Outcome-cases, ok-injective}
use fluxplane_dex.Prelude.Unique.{mem}
use fluxplane_dex.Maps.{Map, get}
use fluxplane_dex.Json.{Object}
use fluxplane_dex.Jobs.{
  IndexSelector, includes, select, selector_values, made, new_index_selector, IndexResult, JobRun,
  IndexJob, BuildRun, built, stopped, finished, failed, JobError, plugin_error, other_error,
  reported, after_run, job_step, is_passed, run_index_jobs,
}

-- does a value of the known selectors stand for the index
abbrev pub names : Map String → String → String → Bool
names known index value = elim (get value known) [ none ↦ false | some i ↦ i == index ]

abbrev pub is_empty : List String → Bool
is_empty [] = true
is_empty (x ∷ xs) = false

unknown-fails :
    (known : Map String) (v : String) (vs is : List String)
    → get v known ≡ none
    → select known (v ∷ vs) ≡ ok is
    → ⊥
unfolding select
unknown-fails known v vs is e h = ground (arith, e, h)

later-fails :
    (known : Map String) (v i : String) (vs is : List String) (m : String)
    → get v known ≡ some i
    → select known vs ≡ err m
    → select known (v ∷ vs) ≡ ok is
    → ⊥
unfolding select
later-fails known v i vs is m e bad h = ground (arith, e, bad, h)

selected :
    (known : Map String) (v i : String) (vs is later : List String)
    → get v known ≡ some i
    → select known vs ≡ ok later
    → select known (v ∷ vs) ≡ ok is
    → i ∷ later ≡ is
unfolding select
selected known v i vs is later e good h = ground (arith, e, good, h)

select-mem :
    (known : Map String) (index : String) (values is : List String)
    → select known values ≡ ok is
    → (mem ◌==◌ index is ≡ any (names known index) values) × (is_empty is ≡ is_empty values)
unfolding select mem
select-mem known index [] [] h = (refl, refl)
select-mem known index [] (i ∷ is) h = cc
select-mem known index (v ∷ vs) is h = elim (Option-cases (get v known)) [
  | inl e ↦ absurd (unknown-fails known v vs is e h)
  | inr (i, e) ↦ elim (Outcome-cases (select known vs)) [
    | inr (m, bad) ↦ absurd (later-fails known v i vs is m e bad h)
    | inl (later, good) ↦
        let there = select-mem known index vs later good in
        let is_cons = selected known v i vs is later e good h in
        subst (λ xs. (mem ◌==◌ index xs ≡ any (names known index) (v ∷ vs)) × (is_empty xs ≡ false))
          is_cons (rw (e, names) (ground (arith, there.0)), refl)
  ]
]

includes-mem :
    (selector : IndexSelector) (index : String)
    → includes selector index ≡ is_empty selector.indexes || mem ◌==◌ index selector.indexes
unfolding includes
includes-mem selector index = ground arith

made-ok :
    (o : Outcome (List String)) (selector : IndexSelector)
    → made o ≡ ok selector
    → o ≡ ok selector.indexes
made-ok (err e) selector h = cc
made-ok (ok is) selector h = ap ok (ap (λ (s : IndexSelector). s.indexes) (ok-injective h))

includes_of_select :
    (known : Map String) (index : String) (values : List String) (selector : IndexSelector)
    → select known values ≡ ok selector.indexes
    → includes selector index ≡ is_empty values || any (names known index) values
includes_of_select known index values selector h =
    let (there, empty) = select-mem known index values selector.indexes h in
    includes-mem selector index ∙ ground (arith, there, empty)

-- A selector that is made includes an index exactly if no value is selected, or some selected value
-- is known to stand for the index.
pub new_index_selector-includes :
    (input : Object) (known : Map String) (selector : IndexSelector) (index : String)
    → new_index_selector input known ≡ ok selector
    → includes selector index
      ≡ is_empty (selector_values input) || any (names known index) (selector_values input)
unfolding new_index_selector includes
new_index_selector-includes input known selector index h =
    includes_of_select known index (selector_values input) selector
      (made-ok (select known (selector_values input)) selector h)

-- the index of a job has a name, and is selected where any index is
abbrev pub is_chosen : {R : Type 0} → IndexSelector → IndexJob R → Bool
is_chosen selector job =
    not (trim_space job.index == "")
    && (is_empty selector.indexes || mem ◌==◌ job.index selector.indexes)

is_passed-chosen :
    {R : Type 0} (selector : IndexSelector) (job : IndexJob R)
    → is_passed R selector job ≡ not (is_chosen selector job)
is_passed-chosen selector job = ground (arith, includes-mem selector job.index)

module _ (R : Type 0) where
  abbrev add_run : Option (JobRun R) → List (JobRun R) → List (JobRun R)
  add_run none outs = outs
  add_run (some out) outs = out ∷ outs

  -- what the functions of some jobs give, in order
  abbrev pub runs : List (IndexJob R) → List (JobRun R)
  runs [] = []
  runs (job ∷ jobs) = add_run job.run (runs jobs)

  -- the error that stands for the error of a job
  abbrev pub IsReport : String → JobError → JobError → Type 0
  IsReport code (plugin_error c m) e = e ≡ plugin_error c m
  IsReport code (other_error m) e =
      e ≡ plugin_error (if trim_space code == "" then "plugin_error" else code) m

  -- Some runs in order end with the results of all of them, or with the error of the first that
  -- stopped.
  abbrev pub IsOutcome : String → List (JobRun R) → BuildRun R → Type 0
  IsOutcome code outs (finished rs) = outs ≡ map built rs
  IsOutcome code outs (failed e) =
      (before : List (IndexResult R)) × (first : JobError) × (after : List (JobRun R)) × (outs
        ≡ map built before ++ stopped first ∷ after)
      × IsReport code first e

  reported-IsReport : (code : String) (e : JobError) → IsReport code e (reported R code e)
  reported-IsReport code (plugin_error c m) = refl
  reported-IsReport code (other_error m) = refl

  after_run-IsOutcome :
      (code : String) (out : JobRun R) (outs : List (JobRun R)) (rest : BuildRun R)
      → IsOutcome code outs rest
      → IsOutcome code (out ∷ outs) (after_run R code out rest)
  after_run-IsOutcome code (built r) outs (finished rs) h = ap (λ xs. built r ∷ xs) h
  after_run-IsOutcome code (built r) outs (failed e) (before, first, after, h, reports) =
      (r ∷ before, first, after, ap (λ xs. built r ∷ xs) h, reports)
  after_run-IsOutcome code (stopped e) outs rest h = ([], e, outs, refl, reported-IsReport code e)

  job_step-IsOutcome :
      (chosen : Bool) (code : String) (o : Option (JobRun R)) (outs : List (JobRun R))
      (rest : BuildRun R)
      → IsOutcome code outs rest
      → IsOutcome code
          (if chosen then add_run o outs else outs)
          (job_step R (not chosen) code o rest)
  job_step-IsOutcome false code none outs rest h = h
  job_step-IsOutcome false code (some out) outs rest h = h
  job_step-IsOutcome true code none outs rest h = h
  job_step-IsOutcome true code (some out) outs rest h = after_run-IsOutcome code out outs rest h

  runs-first :
      (chosen : Bool) (job : IndexJob R) (jobs : List (IndexJob R))
      → runs (if chosen then job ∷ jobs else jobs)
        ≡ (if chosen then add_run job.run (runs jobs) else runs jobs)
  runs-first true job jobs = refl
  runs-first false job jobs = refl

  -- The jobs end with the results, in the order of the jobs, of exactly the jobs that have a function
  -- and an index with a name that is selected, where any index is; or, if one of those stops, with
  -- the error of the first that does, which gets the code of the caller if it has none.
  pub run_index_jobs-IsOutcome :
      (selector : IndexSelector) (code : String) (jobs : List (IndexJob R))
      → IsOutcome code
          (runs (filtered (is_chosen selector) jobs))
          (run_index_jobs R selector code jobs)
  unfolding run_index_jobs
  run_index_jobs-IsOutcome selector code [] = refl
  run_index_jobs-IsOutcome selector code (job ∷ jobs) =
      let later = run_index_jobs-IsOutcome selector code jobs in
      rw
        (
          is_passed-chosen selector job,
          runs-first (is_chosen selector job) job (filtered (is_chosen selector) jobs),
        )
        (job_step-IsOutcome (is_chosen selector job) code job.run
          (runs (filtered (is_chosen selector) jobs)) (run_index_jobs R selector code jobs) later)
