-- ===== src/Endpoints/Laws.antt =====
-- The operations of runtime/endpoints.go, seen through GetEndpoint and ListEndpoints.
use fluxplane_dex.Prelude.{
  ℕ, String, ◌≡◌, refl, false, true, Option, none, some, List, [], ◌∷◌, ◌==◌, if◌then◌else◌, arith,
  nat_eq, eq_iff, trim_space, All, ◌||◌, Bool-cases, inl, inr,
}
use fluxplane_dex.Prelude.Outcome.{ok}
use fluxplane_dex.Prelude.Sorting.{sort, by_key, by_key-IsLess, sort-IsSorted, IsSorted}
use fluxplane_dex.Files.{File, holds, written}
use fluxplane_dex.Keyed.{find, remove, Distinct}
use fluxplane_dex.Keyed.Laws.{
  find-append, find-change_first, find-remove, find-sort, Distinct-sort, has-find,
}
use fluxplane_dex.Endpoints.{
  EndpointApi, fresh, place, EndpointRecord, EndpointHealth, EndpointRegistry, endpoint_id, carry,
  load_endpoints, save_endpoint, of_product, list_endpoints, get_endpoint, remove_endpoint,
}

module _ (api : EndpointApi) where
  abbrev Record : Type 0
  Record = EndpointRecord api

  -- What SaveEndpoint stores for a reference over what was stored before.
  abbrev pub saved : ℕ → api.EndpointRef → Option Record → Record
  saved now ref none = record { ref = ref; created_at = now; updated_at = now; last_health = none }
  saved now ref (some old) = record {
    ref = ref;
    created_at = old.created_at;
    updated_at = now;
    last_health = old.last_health;
  }

  -- What SaveEndpointHealth makes of a record: the report as the last one, with the time of the check
  -- where the report has none.
  abbrev pub with_report : ℕ → ℕ → EndpointHealth api → Record → Record
  with_report now_checked now h old = record {
    ref = old.ref;
    created_at = old.created_at;
    updated_at = now;
    last_health = some (record {
      checked_at = if nat_eq h.checked_at 0 then now_checked else h.checked_at;
      detail = h.detail;
    });
  }

  -- What a file that was just written answers.
  get_endpoint-holds :
      (j : String) (rs : List Record)
      → get_endpoint api j (holds rs) ≡ ok (find (endpoint_id api) (trim_space j) rs)
  unfolding get_endpoint load_endpoints
  get_endpoint-holds j rs = rw find-sort

  find-place :
      (now : ℕ) (ref : api.EndpointRef) (j : String) (rs : List Record)
      → find (endpoint_id api) j (place api (fresh api now ref) rs).0 ≡ (
          if api.id ref == j
          then some (saved now ref (find (endpoint_id api) j rs))
          else find (endpoint_id api) j rs)
  unfolding place
  find-place now ref j rs = ground (
    arith,
    find-change_first (endpoint_id api) (api.id ref) j (λ r. carry api r (fresh api now ref)) rs
        (λ r e. refl),
    find-append (endpoint_id api) j rs (fresh api now ref),
    eq_iff (api.id ref) j,
  )

  load-get :
      (j : String) (f : File (EndpointRegistry api)) (rs : List Record)
      → load_endpoints api f ≡ ok rs
      → get_endpoint api j f ≡ ok (find (endpoint_id api) (trim_space j) rs)
  unfolding get_endpoint
  load-get j f rs l = rw l

  save_endpoint-file :
      (now : ℕ) (raw : api.EndpointRef) (f : File (EndpointRegistry api)) (rs : List Record)
      → api.validate (api.normalize raw) ≡ none
      → load_endpoints api f ≡ ok rs
      → (save_endpoint api written now raw f).1
        ≡ holds (place api (fresh api now (api.normalize raw)) rs).0
  unfolding save_endpoint
  save_endpoint-file now raw f rs v l = ground arith

  -- For a file that loads and a reference whose normal form passes the validation, after a save
  -- that is written the id of the normalised reference holds the new record, with the creation
  -- time and the last health of the record that it replaces, and every other id holds what it held
  -- before.
  pub get_endpoint-save_endpoint :
      (now : ℕ) (raw : api.EndpointRef) (j : String) (f : File (EndpointRegistry api))
      (rs : EndpointRegistry api)
      → api.validate (api.normalize raw) ≡ none
      → load_endpoints api f ≡ ok rs
      → get_endpoint api j (save_endpoint api written now raw f).1 ≡ (
          if api.id (api.normalize raw) == trim_space j
          then ok (some (saved now (api.normalize raw) (find (endpoint_id api) (trim_space j) rs)))
          else get_endpoint api j f)
  get_endpoint-save_endpoint now raw j f rs v l = ground (
    arith,
    save_endpoint-file now raw f rs v l,
    get_endpoint-holds j (place api (fresh api now (api.normalize raw)) rs).0,
    find-place now (api.normalize raw) (trim_space j) rs,
    load-get j f rs l,
  )

  -- For a file that loads, after a removal that is written the id holds nothing and every other id
  -- holds what it held; the answer says whether there was a record.
  pub get_endpoint-remove_endpoint :
      (id j : String) (f : File (EndpointRegistry api)) (rs : EndpointRegistry api)
      → load_endpoints api f ≡ ok rs
      → (get_endpoint api j (remove_endpoint api written id f).1
          ≡ (if trim_space id == trim_space j then ok none else get_endpoint api j f))
        × ((remove_endpoint api written id f).0
            ≡ ok
                (elim (find (endpoint_id api) (trim_space id) rs) [ none ↦ false | some r ↦ true ]))
  unfolding remove_endpoint
  get_endpoint-remove_endpoint id j f rs l = (
    ground (
      arith,
      get_endpoint-holds j (remove (endpoint_id api) (trim_space id) rs),
      find-remove (endpoint_id api) (trim_space id) (trim_space j) rs,
      load-get j f rs l,
    ),
    ground (arith, has-find (endpoint_id api) (trim_space id) rs),
  )

  find-of_product :
      (p j : String) (rs : List Record)
      → Distinct (endpoint_id api) rs
      → find (endpoint_id api) j (of_product api p rs) ≡ elim (find (endpoint_id api) j rs) [
        | some r ↦ if api.product r.ref == p then some r else none
        | none ↦ none
      ]
  unfolding of_product find
  find-of_product p j [] d = refl
  find-of_product p j (r ∷ rs) (n, d) =
      ground (arith, find-of_product p j rs d, eq_iff (api.id r.ref) j)

  All-of_product :
      (P : Record → Type 0) (p : String) (rs : List Record) → All P rs → All P (of_product api p rs)
  unfolding of_product
  All-of_product P p [] h = tt
  All-of_product P p (r ∷ rs) (x, h) = elim (Bool-cases (api.product r.ref == p)) [
    | inl e ↦ rw e (x, All-of_product P p rs h)
    | inr e ↦ rw e (All-of_product P p rs h)
  ]

  IsSorted-of_product :
      (p : String) (rs : List Record)
      → IsSorted (by_key (endpoint_id api)) rs
      → IsSorted (by_key (endpoint_id api)) (of_product api p rs)
  unfolding of_product
  IsSorted-of_product p [] s = tt
  IsSorted-of_product p (r ∷ rs) (b, s) = elim (Bool-cases (api.product r.ref == p)) [
    | inl e ↦ rw e (
      All-of_product (λ y. by_key (endpoint_id api) y r ≡ false) p rs b,
      IsSorted-of_product p rs s,
    )
    | inr e ↦ rw e (IsSorted-of_product p rs s)
  ]

  -- Listing a registry with distinct ids answers in the order of the ids, and has exactly the
  -- records of the product, or all of them for a blank product.
  pub list_endpoints-lists :
      (raw : String) (rs : EndpointRegistry api)
      → Distinct (endpoint_id api) rs
      → (out : EndpointRegistry api) × (list_endpoints api raw (holds rs) ≡ ok out)
        × IsSorted (by_key (endpoint_id api)) out
        × ((j : String)
            → find (endpoint_id api) j out ≡ elim (find (endpoint_id api) j rs) [
              | some r ↦
                  if trim_space raw == "" || api.product r.ref == trim_space raw
                  then some r
                  else none
              | none ↦ none
            ])
  unfolding list_endpoints load_endpoints
  list_endpoints-lists raw rs d =
      let key = endpoint_id api in
      let all = sort (by_key key) rs in
      let sorted = sort-IsSorted (by_key key) (by_key-IsLess key) rs in
      elim (Bool-cases (trim_space raw == "")) [
        | inl blank ↦ (all, rw blank, sorted, λ j. ground (arith, find-sort key j rs))
        | inr full ↦ (
          of_product api (trim_space raw) all,
          rw full,
          IsSorted-of_product (trim_space raw) all sorted,
          λ j. ground (
            arith,
            find-of_product (trim_space raw) j all (Distinct-sort key rs d),
            find-sort key j rs,
          ),
        )
      ]
