-- ===== src/Runner/Enrichment/Laws.antt =====
-- What enrichment keeps of a record, runtime/datasource_enrichment.go.
use mathlib.Core.Path.{subst}
use fluxplane_dex.Prelude.{
  String, ◌≡◌, refl, sym, ◌∙◌, Bool, true, not, ◌&&◌, ◌||◌, Option, none, some, List, [], ◌∷◌, ◌==◌,
  arith, eq_iff, eq_refl, Bool-cases, inl, inr, trim_space,
}
use fluxplane_dex.Prelude.Outcome.{ok, Gives, Gives-bind, Gives-after, Gives-weaken}
use fluxplane_dex.Prelude.Unique.{mem}
use fluxplane_dex.Maps.{get, put, get-put}
use fluxplane_dex.Json.{Value, Object}
use fluxplane_dex.Index.{IndexRecord}
use fluxplane_dex.Index.Store.{IndexDir, get_index_record_by_entity}
use fluxplane_dex.Core.{DatasourceRelation}
use fluxplane_dex.Runner.Payloads.{Reader}
use fluxplane_dex.Runner.Enrichment.{
  Writer, empty_value, record_string, is_open, apply_field, apply_fields, indexed_record_fields,
  apply_indexed_record_fields, apply_found, enrich_relation, enrich_record,
}

-- the fields that enrichment is to leave: those that are not allowed, and those with a value other
-- than the title
abbrev pub is_fixed : List String → String → Option Value → Bool
is_fixed allowed k value =
    not (mem ◌==◌ k allowed) || (not (k == "title") && not (empty_value value))

abbrev Keeps : List String → Object → Object → Type 0
Keeps allowed before after =
    (k : String) → is_fixed allowed k (get k before) ≡ true → get k after ≡ get k before

Keeps-trans :
    (allowed : List String) (a b c : Object)
    → Keeps allowed a b
    → Keeps allowed b c
    → Keeps allowed a c
Keeps-trans allowed a b c h g k s =
    g k (subst (λ v. is_fixed allowed k v ≡ true) (sym (h k s)) s) ∙ h k s

put-Keeps :
    (allowed : List String) (field : String) (v : Value) (fields : Object) (id : String)
    → mem ◌==◌ field allowed ≡ true
    → is_open fields field id ≡ true
    → Keeps allowed fields (put field v fields)
put-Keeps allowed field v fields id m o k s = elim (Bool-cases (field == k)) [
  | inl e ↦
      let fixed =
        subst (λ x. is_fixed allowed x (get x fields) ≡ true) (sym ((eq_iff field k).0 e)) s in
      absurd (ground arith)
  | inr e ↦ get-put field k v fields ∙ rw e refl
]

apply_field-Keeps :
    (allowed : List String) (id field : String) (value : Option Value) (out : Object × Bool)
    → mem ◌==◌ field allowed ≡ true
    → Keeps allowed out.0 (apply_field id field value out).0
apply_field-Keeps allowed id field none (fields, changed) m k s =
    elim (Bool-cases (empty_value none || not (is_open fields field id))) [
      | inl e ↦ rw e refl
      | inr e ↦ rw e refl
    ]
apply_field-Keeps allowed id field (some v) (fields, changed) m k s =
    elim (Bool-cases (empty_value (some v) || not (is_open fields field id))) [
      | inl e ↦ rw e refl
      | inr e ↦ rw e (put-Keeps allowed field v fields id m (ground arith) k s)
    ]

-- some fields are among the allowed ones
abbrev IsAmong : List String → List String → Type 0
IsAmong allowed [] = Unit
IsAmong allowed (f ∷ fs) = (mem ◌==◌ f allowed ≡ true) × IsAmong allowed fs

IsAmong-cons :
    (f : String) (allowed fs : List String) → IsAmong allowed fs → IsAmong (f ∷ allowed) fs
unfolding mem
IsAmong-cons f allowed [] h = tt
IsAmong-cons f allowed (g ∷ fs) h = (ground (arith, h.0), IsAmong-cons f allowed fs h.1)

IsAmong-refl : (fs : List String) → IsAmong fs fs
unfolding mem
IsAmong-refl [] = tt
IsAmong-refl (f ∷ fs) = (ground (arith, eq_refl f), IsAmong-cons f fs fs (IsAmong-refl fs))

apply_fields-Keeps :
    (allowed : List String) (source : Object) (id : String) (fs : List String) (out : Object × Bool)
    → IsAmong allowed fs
    → Keeps allowed out.0 (apply_fields source id fs out).0
unfolding apply_fields
apply_fields-Keeps allowed source id [] out a = λ k s. refl
apply_fields-Keeps allowed source id (f ∷ fs) out a =
    let next = apply_field id f (get f source) out in
    Keeps-trans allowed out.0 next.0 _ (apply_field-Keeps allowed id f (get f source) out a.0)
      (apply_fields-Keeps allowed source id fs next a.1)

module _ (reader : Reader) (writer : Writer) (dir : IndexDir) (plugin instance_name : String)
    (allowed : List String) where
  apply_found-Keeps :
      (id : String) (found : Option IndexRecord) (out : Object × Bool)
      → Keeps allowed out.0
          (apply_found reader writer dir plugin instance_name allowed id found out).0
  unfolding apply_indexed_record_fields
  apply_found-Keeps id none out = λ k s. refl
  apply_found-Keeps id (some indexed) out =
      apply_fields-Keeps allowed (indexed_record_fields reader writer indexed) id allowed out
        (IsAmong-refl allowed)

  abbrev KeepsOf : Object × Bool → Object × Bool → Type 0
  KeepsOf before after = Keeps allowed before.0 after.0

  enrich_relation-Keeps :
      (relation : DatasourceRelation) (out : Object × Bool)
      → Gives
          (KeepsOf out)
          (enrich_relation reader writer dir plugin instance_name allowed relation out)
  enrich_relation-Keeps relation out =
      let field = trim_space relation.field in
      let entity = trim_space relation.entity in
      let id = record_string out.0 field in
      elim (Bool-cases (field == "" || (entity == "" || id == ""))) [
        | inl e ↦ rw e (λ k s. refl)
        | inr e ↦ rw e (
            Gives-after (KeepsOf out)
              (get_index_record_by_entity reader.codec dir plugin instance_name entity id) _
              (λ found. apply_found-Keeps id found out))
      ]

  enrich_record-Keeps :
      (relations : List DatasourceRelation) (out : Object × Bool)
      → Gives
          (KeepsOf out)
          (enrich_record reader writer dir plugin instance_name allowed relations out)
  unfolding enrich_record
  enrich_record-Keeps [] out = λ k s. refl
  enrich_record-Keeps (relation ∷ relations) out =
      Gives-bind (KeepsOf out) (KeepsOf out)
        (enrich_relation reader writer dir plugin instance_name allowed relation out) _
        (enrich_relation-Keeps relation out)
        (λ next h.
          Gives-weaken (KeepsOf next) (KeepsOf out) _ (enrich_record-Keeps relations next)
            (λ last g. Keeps-trans allowed out.0 next.0 last.0 h g))

  -- If a record of a search is enriched without an error, it keeps every field that is not one of
  -- the allowed fields, and every field other than the title that was not empty.
  pub enrich_record-keeps :
      (relations : List DatasourceRelation) (out after : Object × Bool) (k : String)
      → enrich_record reader writer dir plugin instance_name allowed relations out ≡ ok after
      → is_fixed allowed k (get k out.0) ≡ true
      → get k after.0 ≡ get k out.0
  enrich_record-keeps relations out after k h s =
      subst (Gives (KeepsOf out)) h (enrich_record-Keeps relations out) k s
