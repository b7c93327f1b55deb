-- ===== src/Index/Records.antt =====
-- The records that are kept from JSON, normalizeIndexRecord and cleanIndexRecordRaw in
-- runtime/index.go.
use mathlib.Core.Path.{subst}
use mathlib.Core.List.{append_assoc}
use fluxplane_dex.Prelude.{
  String, ◌≡◌, ◌≢◌, ◌⊎◌, refl, ap, sym, ◌∙◌, true, false, Option, none, some, List, [], ◌∷◌, ◌++◌,
  ◌==◌, ◌||◌, All, All-append, arith, eq_iff, trim_space, Bool-cases, Option-cases, inl, inr,
  if◌then◌else◌,
}
use fluxplane_dex.Prelude.Slices.{format_int, format_int-set}
use fluxplane_dex.Prelude.Unique.{mem}
use fluxplane_dex.Maps.{get}
use fluxplane_dex.Json.{Object, Codec, Value, null, text, float, Float64, int, bool, nested}
use fluxplane_dex.Index.{
  IndexRecord, clean, clean_index_record_raw, apply_standard_index_fields, id_of, shown,
  first_record_string, normalize_index_record,
}

-- What a value says as an id: a text that is not blank, trimmed, or the whole part of a number.
pub data Says : Option Value → String → Type 0 where
  of_text : (s : String) → (trim_space s == "") ≡ false → Says (some (text s)) (trim_space s)
  of_number : (f : Float64) → Says (some (float f)) (format_int f.truncated)

Says-shown : {v : Option Value} {s : String} → Says v s → shown v ≡ some s
Says-shown (of_text s h) = rw h refl
Says-shown (of_number f) = refl

Says-set : {v : Option Value} {s : String} → Says v s → (s == "") ≡ false
Says-set (of_text s h) = h
Says-set (of_number f) = format_int-set f.truncated

shown-Says : (v : Option Value) (s : String) → shown v ≡ some s → Says v s
shown-Says none s h = cc
shown-Says (some null) s h = cc
shown-Says (some (int n)) s h = cc
shown-Says (some (bool b)) s h = cc
shown-Says (some (nested t)) s h = cc
shown-Says (some (float f)) s h =
    let e : format_int f.truncated ≡ s = cc in subst (Says (some (float f))) e (of_number f)
shown-Says (some (text t)) s h = elim (Bool-cases (trim_space t == "")) [
  | inl e ↦ absurd (ground arith)
  | inr e ↦
      let same : trim_space t ≡ s = ground arith in subst (Says (some (text t))) same (of_text t e)
]

abbrev pub IsSilent : Object → String → Type 0
IsSilent o key = (s : String) → Says (get key o) s → ⊥

shown-IsSilent : (o : Object) (key : String) → shown (get key o) ≡ none → IsSilent o key
shown-IsSilent o key h s says = let e = Says-shown says in cc

-- the first of some keys at which an object says something
pub record IsFirst (o : Object) (keys : List String) (s : String) : Type 0 where
  pub before : List String
  pub key : String
  pub after : List String
  pub split : keys ≡ before ++ key ∷ after
  pub passed : All (IsSilent o) before
  pub says : Says (get key o) s

first_record_string-cases :
    (o : Object) (keys : List String)
    → ((first_record_string (some o) keys ≡ "") × All (IsSilent o) keys)
      ⊎ IsFirst o keys (first_record_string (some o) keys)
unfolding first_record_string
first_record_string-cases o [] = inl (refl, tt)
first_record_string-cases o (k ∷ ks) = elim (Option-cases (shown (get k o))) [
  | inr (s, e) ↦
      rw (e, first_record_string)
        (inr (record {
          before = [];
          key = k;
          after = ks;
          split = refl;
          passed = tt;
          says = shown-Says (get k o) s e;
        }))
  | inl n ↦
      rw (n, first_record_string)
        (elim (first_record_string-cases o ks) [
          | inl (b, quiet) ↦ inl (b, (shown-IsSilent o k n, quiet))
          | inr i ↦ inr (record {
            before = k ∷ i.before;
            key = i.key;
            after = i.after;
            split = ap (λ xs. k ∷ xs) i.split;
            passed = (shown-IsSilent o k n, i.passed);
            says = i.says;
          })
        ])
]

IsFirst-before :
    (o : Object) (xs ys : List String) (s : String) → IsFirst o xs s → IsFirst o (xs ++ ys) s
IsFirst-before o xs ys s i = record {
  before = i.before;
  key = i.key;
  after = i.after ++ ys;
  split = ap (λ zs. zs ++ ys) i.split ∙ append_assoc i.before (i.key ∷ i.after) ys;
  passed = i.passed;
  says = i.says;
}

IsFirst-after :
    (o : Object) (xs ys : List String) (s : String)
    → All (IsSilent o) xs
    → IsFirst o ys s
    → IsFirst o (xs ++ ys) s
IsFirst-after o xs ys s quiet i = record {
  before = xs ++ i.before;
  key = i.key;
  after = i.after;
  split = ap (λ zs. xs ++ zs) i.split ∙ sym (append_assoc xs i.before (i.key ∷ i.after));
  passed = All-append (IsSilent o) xs i.before quiet i.passed;
  says = i.says;
}

abbrev first_keys : List String
first_keys = "id" ∷ "key" ∷ "ref" ∷ "path_with_namespace" ∷ "web_url" ∷ []

abbrev last_keys : List String
last_keys = "project_id" ∷ []

-- where the id of a record may stand, in the order of preference
abbrev pub id_keys : List String
id_keys = "id" ∷ "key" ∷ "ref" ∷ "path_with_namespace" ∷ "web_url" ∷ "project_id" ∷ []

-- the keys of the fields that a record has for itself
abbrev pub field_keys : List String
field_keys =
    "entity" ∷ "id" ∷ "title" ∷ "url" ∷ "links" ∷ "origin" ∷ "score" ∷ "matched_fields" ∷ []

IsFirst-set : (o : Object) (keys : List String) (s : String) → IsFirst o keys s → (s == "") ≡ false
IsFirst-set o keys s i = Says-set i.says

id_of-first :
    (codec : Codec) (o : Object)
    → (first_record_string (some o) first_keys == "") ≡ false
    → id_of codec o ≡ first_record_string (some o) first_keys
id_of-first codec o h = rw h refl

id_of-last :
    (codec : Codec) (o : Object)
    → (first_record_string (some o) first_keys == "") ≡ true
    → id_of codec o ≡ first_record_string (some o) last_keys
id_of-last codec o h = rw h refl

id_of-cases :
    (codec : Codec) (o : Object)
    → ((id_of codec o ≡ "") × All (IsSilent o) id_keys) ⊎ IsFirst o id_keys (id_of codec o)
id_of-cases codec o = elim (first_record_string-cases o first_keys) [
  | inr i ↦
      let e = id_of-first codec o (IsFirst-set o first_keys _ i) in
      inr (subst (IsFirst o id_keys) (sym e) (IsFirst-before o first_keys last_keys _ i))
  | inl (b, quiet) ↦
      let e = id_of-last codec o ((eq_iff _ "").1 b) in
      elim (first_record_string-cases o last_keys) [
        | inr i ↦
            inr (subst (IsFirst o id_keys) (sym e) (IsFirst-after o first_keys last_keys _ quiet i))
        | inl (c, more) ↦ inl (e ∙ c, All-append (IsSilent o) first_keys last_keys quiet more)
      ]
]

get-clean :
    (key : String) (o : Object)
    → get key (clean o) ≡ (if mem ◌==◌ key field_keys then none else get key o)
unfolding get clean
get-clean key [] = ground arith
get-clean key ((k, v) ∷ o) = ground (arith, get-clean key o, eq_iff k key)

-- What a record says of the object that it was read from.
pub record IsRead (codec : Codec) (o : Object) (r : IndexRecord) : Type 0 where
  pub same_id : IsFirst o id_keys r.id
  pub kept : Object
  pub stored : r.raw ≡ codec.marshal kept
  pub cleaned :
      (key : String) → get key kept ≡ (if mem ◌==◌ key field_keys then none else get key o)

-- What is read from a text: nothing, if it holds no object that says an id, or a record.
abbrev pub Reads : Codec → String → Option IndexRecord → Type 0
Reads codec raw none =
    (o : Object)
    → codec.unmarshal (trim_space raw) ≡ some o
    → ((trim_space raw ≡ "") ⊎ (trim_space raw ≡ "null")) ⊎ All (IsSilent o) id_keys
Reads codec raw (some r) =
    (trim_space raw ≢ "")
    × (trim_space raw ≢ "null")
    × ((o : Object) × (codec.unmarshal (trim_space raw) ≡ some o) × IsRead codec o r)

module _ (codec : Codec) (raw : String) (o : Object)
    (held : codec.unmarshal (trim_space raw) ≡ some o)
    (set : (trim_space raw == "" || trim_space raw == "null") ≡ false) where
  normalize-none : (id_of codec o == "") ≡ true → normalize_index_record codec raw ≡ none
  unfolding normalize_index_record
  normalize-none n = rw (set, held, n) refl

  normalize-some :
      (id_of codec o == "") ≡ false
      → (r : IndexRecord) × (normalize_index_record codec raw ≡ some r)
        × (r.id ≡ id_of codec o)
        × (r.raw ≡ codec.marshal (clean o))
  unfolding normalize_index_record apply_standard_index_fields clean_index_record_raw
  normalize-some n = rw (set, held, n) (_, refl, refl, refl)

  object-Reads : Reads codec raw (normalize_index_record codec raw)
  object-Reads = elim (id_of-cases codec o) [
    | inl (b, quiet) ↦
        rw (normalize-none ((eq_iff (id_of codec o) "").1 b))
          (λ p e. inr (let same : o ≡ p = cc in subst (λ q. All (IsSilent q) id_keys) same quiet))
    | inr i ↦
        let (r, is_r, same_id, same_raw) = normalize-some (IsFirst-set o id_keys _ i) in
        rw is_r (
          λ b. ground (arith, eq_iff (trim_space raw) "", b),
          λ b. ground (arith, eq_iff (trim_space raw) "null", b),
          (
            o,
            held,
            record {
              same_id = subst (IsFirst o id_keys) (sym same_id) i;
              kept = clean o;
              stored = same_raw;
              cleaned = λ key. get-clean key o;
            },
          ),
        )
  ]

blank-none :
    (codec : Codec) (raw : String)
    → (trim_space raw == "" || trim_space raw == "null") ≡ true
    → normalize_index_record codec raw ≡ none
unfolding normalize_index_record
blank-none codec raw h = rw h refl

unread-none :
    (codec : Codec) (raw : String)
    → codec.unmarshal (trim_space raw) ≡ none
    → normalize_index_record codec raw ≡ none
unfolding normalize_index_record
unread-none codec raw h = ground arith

is_blank_or_null : (s : String) → (s == "" || s == "null") ≡ true → (s ≡ "") ⊎ (s ≡ "null")
is_blank_or_null s h = elim (Bool-cases (s == "")) [
  | inl e ↦ inl ((eq_iff s "").0 e)
  | inr e ↦ inr (ground (arith, eq_iff s "null"))
]

-- A record is read from a text just if the trimmed text is neither blank nor null, and holds an
-- object that says something under one of the keys for ids: a text that is not blank, or a number.
-- Its id is what the object says at the first of these keys that says something, and it stores the
-- object without the keys of the record's own fields.
pub normalize_index_record-Reads :
    (codec : Codec) (raw : String) → Reads codec raw (normalize_index_record codec raw)
normalize_index_record-Reads codec raw =
    elim (Bool-cases (trim_space raw == "" || trim_space raw == "null")) [
      | inl b ↦ rw (blank-none codec raw b) (λ o e. inl (is_blank_or_null (trim_space raw) b))
      | inr s ↦ elim (Option-cases (codec.unmarshal (trim_space raw))) [
        | inl n ↦ rw (unread-none codec raw n) (λ o e. absurd cc)
        | inr (o, e) ↦ object-Reads codec raw o e s
      ]
    ]
