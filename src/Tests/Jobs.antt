-- ===== src/Tests/Jobs.antt =====
-- Selectors, inputs and jobs on sample values.
use fluxplane_dex.Prelude.{
  ℕ, suc, ◌≤◌, String, ◌≡◌, refl, ◌||◌, filtered, none, some, List, [], ◌∷◌, any, strings,
}
use fluxplane_dex.Prelude.Int.{pos}
use fluxplane_dex.Prelude.Outcome.{ok}
use fluxplane_dex.Prelude.Slices.{split_from}
use fluxplane_dex.Prelude.Unique.{mem}
use fluxplane_dex.Maps.{Map, get}
use fluxplane_dex.Json.{Object, text}
use fluxplane_dex.Jobs.{
  parts, split_selector_values, IndexSelector, includes, select, selector_values,
  new_index_selector, IndexResult, built, stopped, other_error, plugin_error, IndexJob, finished,
  failed, new_index_result, run_index_jobs,
}
use fluxplane_dex.Jobs.Inputs.{
  first_string, digits_from, magnitude, atoi, int_from_input, bounded_int_from_input,
}
use fluxplane_dex.Jobs.Inputs.Bounds.{bounded_int_from_input-range}
use fluxplane_dex.Jobs.Laws.{
  is_empty, names, new_index_selector-includes, is_chosen, runs, IsOutcome,
  run_index_jobs-IsOutcome,
}

abbrev input : Object
input = ("limit", text " 900 ") ∷ ("indexes", text "Users, channels") ∷ []

abbrev known : Map String
known = ("users", "users") ∷ ("slack.user", "users") ∷ ("channels", "channels") ∷ []

bounded_test : bounded_int_from_input input "limit" (pos 20) (pos 100) ≡ pos 100
unfolding bounded_int_from_input int_from_input atoi magnitude digits_from get strings
bounded_test = refl

bounded_int_from_input-range_example :
    (n : ℕ) × (bounded_int_from_input input "limit" (pos 20) (pos 100) ≡ pos (suc n)) × (n ≤ 99)
bounded_int_from_input-range_example = bounded_int_from_input-range input "limit" 19 99

abbrev selector : IndexSelector
selector = record { indexes = "users" ∷ "channels" ∷ [] }

selector-made : new_index_selector input known ≡ ok selector
unfolding new_index_selector select split_selector_values parts split_from first_string get strings
selector-made = refl

new_index_selector-includes_example :
    includes selector "users"
    ≡ is_empty (selector_values input) || any (names known "users") (selector_values input)
new_index_selector-includes_example =
    new_index_selector-includes input known selector "users" selector-made

abbrev users_result : IndexResult String
users_result = new_index_result String "users" ("u1" ∷ []) []

abbrev jobs : List (IndexJob String)
jobs =
    record { index = "files"; run = none }
    ∷ record { index = "users"; run = some (built users_result) }
    ∷ record { index = "teams"; run = some (built users_result) }
    ∷ []

-- the jobs end with the error of the second
abbrev bad_jobs : List (IndexJob String)
bad_jobs =
    record { index = "users"; run = some (built users_result) }
    ∷ record { index = "channels"; run = some (stopped (other_error "offline")) }
    ∷ []

jobs-run : run_index_jobs String selector "" jobs ≡ finished (users_result ∷ [])
unfolding run_index_jobs includes mem strings
jobs-run = refl

bad_jobs-run :
    run_index_jobs String selector " " bad_jobs ≡ failed (plugin_error "plugin_error" "offline")
unfolding run_index_jobs includes mem strings
bad_jobs-run = refl

run_index_jobs-IsOutcome_example :
    IsOutcome String ""
      (runs String (filtered (is_chosen selector) jobs))
      (run_index_jobs String selector "" jobs)
run_index_jobs-IsOutcome_example = run_index_jobs-IsOutcome String selector "" jobs
