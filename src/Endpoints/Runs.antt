-- ===== src/Endpoints/Runs.antt =====
-- Runs of the endpoint registry, runtime/endpoints.go: sequences of changes, each with its own clock
-- and disk.
use mathlib.Core.Path.{subst}
use fluxplane_dex.Prelude.{
  ℕ, String, ◌≡◌, refl, none, List, [], ◌∷◌, All, All-append, Option-cases, inl, inr, trim_space,
  ◌==◌, Bool-cases,
}
use fluxplane_dex.Prelude.Outcome.{ok, >>=-eq-ok, ok-injective}
use fluxplane_dex.Prelude.Sorting.{sort, by_key, All-sort}
use fluxplane_dex.Files.{
  File, Disk, IsAtomic, Writes, FileHolds, run-FileHolds, Writes-bind, Writes-check, read-holds,
  read,
}
use fluxplane_dex.Keyed.{find, Distinct}
use fluxplane_dex.Keyed.Laws.{
  Distinct-sort, Distinct-append, Distinct-remove, Distinct-change_first, All-change_first,
  All-remove,
}
use fluxplane_dex.Endpoints.{
  EndpointApi, EndpointRecord, EndpointHealth, EndpointRegistry, endpoint_id, fresh, carry, place,
  with_health, stamped, load_endpoints, save_plan, save_endpoint, save_endpoint_candidate,
  health_plan, save_endpoint_health, remove_plan, remove_endpoint,
}

module _ (api : EndpointApi) where
  pub data Command : Type 0 where
    save : ℕ → api.EndpointRef → Command
    save_candidate : ℕ → api.Candidate → Command
    save_health : ℕ → ℕ → String → EndpointHealth api → Command
    remove : String → Command

  -- the file after one command
  unfoldable pub exec :
      Disk (EndpointRegistry api)
      → Command
      → File (EndpointRegistry api)
      → File (EndpointRegistry api)
  exec disk (save now ref) f = (save_endpoint api disk now ref f).1
  exec disk (save_candidate now c) f = (save_endpoint_candidate api disk now c f).1
  exec disk (save_health checked now id h) f = (save_endpoint_health api disk checked now id h f).1
  exec disk (remove id) f = (remove_endpoint api disk id f).1

  unfoldable pub exec_all :
      List (Disk (EndpointRegistry api) × Command)
      → File (EndpointRegistry api)
      → File (EndpointRegistry api)
  exec_all [] f = f
  exec_all ((disk, c) ∷ rest) f = exec_all rest (exec disk c f)

  -- The reference is what the library's normalisation gives, and passes its validation.
  abbrev pub IsChecked : EndpointRecord api → Type 0
  IsChecked r =
      (raw : api.EndpointRef) × (r.ref ≡ api.normalize raw)
      × (api.validate (api.normalize raw) ≡ none)

  abbrev pub IsValid : EndpointRegistry api → Type 0
  IsValid rs = Distinct (endpoint_id api) rs × All IsChecked rs

  IsValid-sort :
      (rs : EndpointRegistry api) → IsValid rs → IsValid (sort (by_key (endpoint_id api)) rs)
  IsValid-sort rs (d, h) =
      (Distinct-sort (endpoint_id api) rs d, All-sort (by_key (endpoint_id api)) IsChecked rs h)

  load_endpoints-IsValid :
      (f : File (EndpointRegistry api)) (rs : EndpointRegistry api)
      → FileHolds IsValid f
      → load_endpoints api f ≡ ok rs
      → IsValid rs
  unfolding load_endpoints
  load_endpoints-IsValid f rs h l =
      let (raw, r, e) = >>=-eq-ok (read [] f) (λ t. ok (sort (by_key (endpoint_id api)) t)) l in
      subst IsValid (ok-injective e) (IsValid-sort raw (read-holds IsValid [] f raw (tt, tt) h r))

  place-IsValid :
      (now : ℕ) (raw : api.EndpointRef) (rs : EndpointRegistry api)
      → api.validate (api.normalize raw) ≡ none
      → IsValid rs
      → IsValid (place api (fresh api now (api.normalize raw)) rs).0
  unfolding place
  place-IsValid now raw rs v (d, h) =
      let new = fresh api now (api.normalize raw) in
      elim (Option-cases (find (endpoint_id api) (endpoint_id api new) rs)) [
        | inl missing ↦
            rw (missing, place)
              (
                Distinct-append (endpoint_id api) rs new missing d,
                All-append IsChecked rs (new ∷ []) h ((raw, refl, v), tt),
              )
        | inr (old, found) ↦
            rw (found, place)
              (
                Distinct-change_first (endpoint_id api) (endpoint_id api new) (λ r. carry api r new)
                    rs (λ r e. refl) d,
                All-change_first (endpoint_id api) IsChecked (endpoint_id api new)
                    (λ r. carry api r new) rs (λ r c. (raw, refl, v)) h,
              )
      ]

  save_plan-IsValid :
      (now : ℕ) (raw : api.EndpointRef) (f : File (EndpointRegistry api))
      → FileHolds IsValid f
      → Writes IsValid (save_plan api now raw f)
  unfolding save_plan
  save_plan-IsValid now raw f h = Writes-check IsValid (api.validate (api.normalize raw)) _ λ v.
      Writes-bind IsValid (load_endpoints api f) _
        λ rs l. place-IsValid now raw rs v (load_endpoints-IsValid f rs h l)

  health_plan-IsValid :
      (checked now : ℕ) (raw : String) (h : EndpointHealth api) (f : File (EndpointRegistry api))
      → FileHolds IsValid f
      → Writes IsValid (health_plan api checked now raw h f)
  unfolding health_plan
  health_plan-IsValid checked now raw h f valid =
      Writes-bind IsValid (load_endpoints api f) _ λ rs l.
        let id = trim_space raw in
        let change = with_health api now (stamped api checked h) in
        let (d, all) = load_endpoints-IsValid f rs valid l in
        elim (Bool-cases (id == "")) [
          | inl blank ↦ rw blank tt
          | inr full ↦ elim (Option-cases (find (endpoint_id api) id rs)) [
            | inl missing ↦ rw (full, missing) tt
            | inr (old, found) ↦
                rw (full, found)
                  (
                    Distinct-change_first (endpoint_id api) id change rs (λ r e. e) d,
                    All-change_first (endpoint_id api) IsChecked id change rs (λ r c. c) all,
                  )
          ]
        ]

  remove_plan-IsValid :
      (raw : String) (f : File (EndpointRegistry api))
      → FileHolds IsValid f
      → Writes IsValid (remove_plan api raw f)
  unfolding remove_plan
  remove_plan-IsValid raw f valid = Writes-bind IsValid (load_endpoints api f) _ λ rs l.
      let (d, all) = load_endpoints-IsValid f rs valid l in
      (
        Distinct-remove (endpoint_id api) (trim_space raw) rs d,
        All-remove (endpoint_id api) IsChecked (trim_space raw) rs all,
      )

  exec-IsValid :
      (disk : Disk (EndpointRegistry api)) (c : Command) (f : File (EndpointRegistry api))
      → IsAtomic disk
      → FileHolds IsValid f
      → FileHolds IsValid (exec disk c f)
  unfolding exec save_endpoint save_endpoint_candidate save_endpoint_health remove_endpoint
  exec-IsValid disk (save now raw) f a h =
      run-FileHolds IsValid disk _ f a (save_plan-IsValid now raw f h) h
  exec-IsValid disk (save_candidate now c) f a h =
      run-FileHolds IsValid disk _ f a (save_plan-IsValid now (api.candidate_ref c) f h) h
  exec-IsValid disk (save_health checked now id d) f a h =
      run-FileHolds IsValid disk _ f a (health_plan-IsValid checked now id d f h) h
  exec-IsValid disk (remove id) f a h =
      run-FileHolds IsValid disk _ f a (remove_plan-IsValid id f h) h

  -- From a registry with distinct ids and checked references, any sequence of saves, health reports
  -- and removals, on disks whose failed writes change nothing, leaves a registry with distinct ids
  -- in which every reference is normalised and passes the validation.
  pub exec_all-IsValid :
      (run : List (Disk (EndpointRegistry api) × Command)) (f : File (EndpointRegistry api))
      → All (λ (s : Disk (EndpointRegistry api) × Command). IsAtomic s.0) run
      → FileHolds IsValid f
      → FileHolds IsValid (exec_all run f)
  unfolding exec_all
  exec_all-IsValid [] f a h = h
  exec_all-IsValid ((disk, c) ∷ rest) f (a, as') h =
      exec_all-IsValid rest (exec disk c f) as' (exec-IsValid disk c f a h)
