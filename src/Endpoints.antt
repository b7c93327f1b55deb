-- ===== src/Endpoints.antt =====
-- The endpoint registry, runtime/endpoints.go. A file holds the registry; each operation loads it,
-- and the ones that change it write it back. Times are instants counted in nanoseconds, with 0 for
-- Go's zero time, so `UTC()` is the identity; `now` is what time.Now returns.
pub mod Laws
pub mod Runs
use fluxplane_dex.Prelude.{
  ℕ, String, Bool, false, true, Option, none, some, List, [], ◌∷◌, ◌++◌, ◌==◌, if◌then◌else◌,
  nat_eq, trim_space, append,
}
use fluxplane_dex.Prelude.Outcome
use fluxplane_dex.Prelude.Outcome.{Outcome, ok, err}
use fluxplane_dex.Prelude.Sorting.{sort, by_key}
use fluxplane_dex.Files.{File, Disk, read, Plan, stop, save, run, ◌>>=◌, ◌>>◌, check}
use fluxplane_dex.Keyed.{find, change_first, remove, has}

-- The types of the module fluxplane-endpoint, and what the registry uses of them.
pub record EndpointApi : Type 1 where
  pub EndpointRef : Type 0
  pub id : EndpointRef → String
  pub product : EndpointRef → String
  pub normalize : EndpointRef → EndpointRef
  pub validate : EndpointRef → Option String
  pub Candidate : Type 0
  pub candidate_ref : Candidate → EndpointRef
  pub HealthDetail : Type 0

module _ (api : EndpointApi) where
  open api use {EndpointRef, product, normalize, validate, Candidate, candidate_ref, HealthDetail}

  pub record EndpointHealth : Type 0 where
    pub checked_at : ℕ
    pub detail : HealthDetail

  pub record EndpointRecord : Type 0 where
    pub ref : EndpointRef
    pub created_at : ℕ
    pub updated_at : ℕ
    pub last_health : Option EndpointHealth

  abbrev pub EndpointRegistry : Type 0
  EndpointRegistry = List EndpointRecord

  abbrev pub endpoint_id : EndpointRecord → String
  endpoint_id r = api.id r.ref

  unfoldable pub load_endpoints : File EndpointRegistry → Outcome EndpointRegistry
  load_endpoints f = Outcome.◌>>=◌ (read [] f) (λ rs. ok (sort (by_key endpoint_id) rs))

  abbrev pub fresh : ℕ → EndpointRef → EndpointRecord
  fresh now ref = record { ref = ref; created_at = now; updated_at = now; last_health = none }

  -- a record that replaces one keeps its creation time and its last health
  abbrev pub carry : EndpointRecord → EndpointRecord → EndpointRecord
  carry old new = record new { created_at = old.created_at; last_health = old.last_health }

  -- the loop of SaveEndpoint, and the `append` after it: the registry and the record returned
  unfoldable pub place : EndpointRecord → EndpointRegistry → EndpointRegistry × EndpointRecord
  place new rs = elim (find endpoint_id (endpoint_id new) rs) [
    | some old ↦ (change_first endpoint_id (endpoint_id new) (λ r. carry r new) rs, carry old new)
    | none ↦ (rs ++ new ∷ [], new)
  ]

  unfoldable pub save_plan :
      ℕ → EndpointRef → File EndpointRegistry → Plan EndpointRegistry EndpointRecord
  save_plan now raw f = do
    let ref = normalize raw
    check (validate ref)
    registry ← load_endpoints f
    let (next, stored) = place (fresh now ref) registry
    save next stored

  unfoldable pub save_endpoint :
      Disk EndpointRegistry
      → ℕ
      → EndpointRef
      → File EndpointRegistry
      → Outcome EndpointRecord × File EndpointRegistry
  unfolding save_plan
  save_endpoint disk now ref f = run disk (save_plan now ref f) f

  unfoldable pub save_endpoint_candidate :
      Disk EndpointRegistry
      → ℕ
      → Candidate
      → File EndpointRegistry
      → Outcome EndpointRecord × File EndpointRegistry
  unfolding save_endpoint
  save_endpoint_candidate disk now c f = save_endpoint disk now (candidate_ref c) f

  -- `now_checked` and `now` are the two readings of the clock
  abbrev pub stamped : ℕ → EndpointHealth → EndpointHealth
  stamped now_checked h = if nat_eq h.checked_at 0 then record h { checked_at = now_checked } else h

  abbrev pub with_health : ℕ → EndpointHealth → EndpointRecord → EndpointRecord
  with_health now h r = record r { last_health = some h; updated_at = now }

  unfoldable pub health_plan :
      ℕ → ℕ → String → EndpointHealth → File EndpointRegistry → Plan EndpointRegistry EndpointRecord
  health_plan now_checked now raw health f = do
    registry ← load_endpoints f
    let id = trim_space raw
    if id == "" then stop (err "endpoint id is required") else do
      let h = stamped now_checked health
      elim (find endpoint_id id registry) [
        | some old ↦
            save (change_first endpoint_id id (with_health now h) registry) (with_health now h old)
        | none ↦ stop (err (append "unknown endpoint " id))
      ]

  unfoldable pub save_endpoint_health :
      Disk EndpointRegistry
      → ℕ
      → ℕ
      → String
      → EndpointHealth
      → File EndpointRegistry
      → Outcome EndpointRecord × File EndpointRegistry
  unfolding health_plan
  save_endpoint_health disk now_checked now id health f =
      run disk (health_plan now_checked now id health f) f

  -- the loop of ListEndpoints
  unfoldable pub of_product : String → EndpointRegistry → EndpointRegistry
  of_product p [] = []
  of_product p (r ∷ rs) =
      let rest = of_product p rs in if product r.ref == p then r ∷ rest else rest

  unfoldable pub list_endpoints : String → File EndpointRegistry → Outcome EndpointRegistry
  unfolding of_product
  list_endpoints raw f = Outcome.◌>>=◌ (load_endpoints f) λ registry.
      let p = trim_space raw in if p == "" then ok registry else ok (of_product p registry)

  unfoldable pub get_endpoint : String → File EndpointRegistry → Outcome (Option EndpointRecord)
  get_endpoint id f =
      Outcome.◌>>=◌ (load_endpoints f) (λ registry. ok (find endpoint_id (trim_space id) registry))

  unfoldable pub remove_plan : String → File EndpointRegistry → Plan EndpointRegistry Bool
  remove_plan raw f = do
    registry ← load_endpoints f
    let id = trim_space raw
    save (remove endpoint_id id registry) (has endpoint_id id registry)

  unfoldable pub remove_endpoint :
      Disk EndpointRegistry → String → File EndpointRegistry → Outcome Bool × File EndpointRegistry
  unfolding remove_plan
  remove_endpoint disk id f = run disk (remove_plan id f) f
