-- ===== src/Dag/JobIds/RoundTrip.antt =====
-- Making a job id and parsing it, in stolos/dag_tools/node.py.
use mathlib.Core.List.{append-nil, append_assoc}
use stolos.Prelude.{
  text_eq_self, ℕ, ◌≡◌, refl, ◌∙◌, ap, sym, true, some, List, [], ◌∷◌, map, arith, Text, Dict,
  lookup, insert, lookup-insert, join_by, length, text_eq, text_eq_iff, mem_text, if◌then◌else◌,
  inl, inr, Bool-cases,
}
use stolos.Jobs.Actions.{Result, ok, and_then, map_ok}
use stolos.Dag.Nodes.{
  is_delimited, parse_job_id, parse_job_id-join_by, validate_identifiers, validated,
}
use stolos.Dag.Tasks.{Tasks, Piece, literal, named, names, item, format}
use stolos.Dag.JobIds.{create_job_id}

module _ (k : Tasks) (identifiers : Dict k.Value) (value : Text → k.Value) where
  open k use {Value, template, layout, layout_lem, validation, raw, show, delimiter}

  -- The identifier at a key is validated as `value key`, and so is the text that this is printed as.
  pub record IsReadBack (key : Text) : Type 0 where
    pub given : Value
    pub found : lookup key identifiers ≡ some given
    pub accepted : validated k.config (validation key) given ≡ ok (value key)
    pub read_back : validated k.config (validation key) (raw (show (value key))) ≡ ok (value key)

  abbrev AllReadBack : List Text → Type 0
  AllReadBack [] = Unit
  AllReadBack (key ∷ keys) = IsReadBack key × AllReadBack keys

  insert_all : List Text → Dict Value → Dict Value
  insert_all [] rv = rv
  insert_all (key ∷ keys) rv = insert_all keys (insert key (value key) rv)

  abbrev printed : List Text → List Text
  printed keys = map (λ key. show (value key)) keys

  -- The pieces of a template whose names stand with the delimiter between them.
  abbrev pub delimited : List Text → List Piece
  delimited [] = []
  delimited (key ∷ []) = named key ∷ []
  delimited (key ∷ next ∷ keys) = named key ∷ literal delimiter ∷ delimited (next ∷ keys)

  lookup-insert_all :
      (key : Text) (keys : List Text) (rv : Dict Value)
      → lookup key (insert_all keys rv)
        ≡ (if mem_text key keys then some (value key) else lookup key rv)
  unfolding insert_all
  lookup-insert_all key [] rv = refl
  lookup-insert_all key (j ∷ keys) rv = elim (Bool-cases (text_eq key j)) [
    | inl here ↦
        let same = (text_eq_iff key j).0 here in
        ground (
          arith,
          lookup-insert_all key keys (insert j (value j) rv),
          lookup-insert j key (value j) rv,
          same,
          ap value same,
          text_eq_iff j key,
        )
    | inr away ↦ ground (
      arith,
      lookup-insert_all key keys (insert j (value j) rv),
      lookup-insert j key (value j) rv,
      away,
      text_eq_iff j key,
      text_eq_iff key j,
    )
  ]

  all_given : (keys : List Text) → AllReadBack keys → List Value
  all_given [] r = []
  all_given (key ∷ keys) (r, rs) = r.given ∷ all_given keys rs

  items-given :
      (keys : List Text) (r : AllReadBack keys)
      → map_ok (λ key. item k key identifiers) keys ≡ ok (all_given keys r)
  unfolding all_given
  items-given [] r = refl
  items-given (key ∷ keys) (r, rs) = rw (r.found, items-given keys rs) refl

  validate-given :
      (keys : List Text) (rv : Dict Value) (r : AllReadBack keys)
      → validate_identifiers k.config keys (all_given keys r) rv ≡ ok (insert_all keys rv)
  unfolding insert_all validate_identifiers all_given
  validate-given [] rv r = refl
  validate-given (key ∷ keys) rv (r, rs) =
      rw (r.accepted) (validate-given keys (insert key (value key) rv) rs)

  validate-printed :
      (keys : List Text) (rv : Dict Value)
      → AllReadBack keys
      → validate_identifiers k.config keys (map raw (printed keys)) rv ≡ ok (insert_all keys rv)
  unfolding insert_all validate_identifiers
  validate-printed [] rv r = refl
  validate-printed (key ∷ keys) rv (r, rs) =
      rw (r.read_back) (validate-printed keys (insert key (value key) rv) rs)

  -- Every key of `keys` has its value in `rv`.
  abbrev pub HasAll : List Text → Dict Value → Type 0
  HasAll [] rv = Unit
  HasAll (key ∷ keys) rv = (lookup key rv ≡ some (value key)) × HasAll keys rv

  format-delimited :
      (keys : List Text) (rv : Dict Value)
      → HasAll keys rv
      → format k (delimited keys) rv ≡ ok (join_by delimiter (printed keys))
  unfolding format
  format-delimited [] rv h = refl
  format-delimited (key ∷ []) rv (h, hs) = rw h (ap ok (append-nil (show (value key))))
  format-delimited (key ∷ next ∷ keys) rv (h, hs) =
      rw (h, format-delimited (next ∷ keys) rv hs)
        (ap ok (
          sym (
            append_assoc (show (value key)) delimiter (join_by delimiter (printed (next ∷ keys))))))

  HasAll-insert_all :
      (keys done : List Text) (rv : Dict Value)
      → ((key : Text) → mem_text key done ≡ true → mem_text key keys ≡ true)
      → HasAll done (insert_all keys rv)
  HasAll-insert_all keys [] rv h = tt
  HasAll-insert_all keys (key ∷ done) rv h =
      let here : mem_text key keys ≡ true = h key (ground (arith, text_eq_self key)) in
      (
        lookup-insert_all key keys rv ∙ rw here refl,
        HasAll-insert_all keys done rv (λ j m. h j (ground (arith, m))),
      )

  names-delimited : (keys : List Text) → names (delimited keys) ≡ keys
  names-delimited [] = refl
  names-delimited (key ∷ []) = refl
  names-delimited (key ∷ next ∷ keys) = ap (◌∷◌ key) (names-delimited (next ∷ keys))

  length-printed : (keys : List Text) → length (printed keys) ≡ length keys
  length-printed [] = refl
  length-printed (key ∷ keys) = omega (arith, length-printed keys)

  module _ (app_name : Text) (keys : List Text) (pieces : layout app_name ≡ delimited keys) where
    template-keys : template app_name ≡ keys
    template-keys = sym (layout_lem app_name) ∙ ap names pieces ∙ names-delimited keys

    create_job_id-printed :
        AllReadBack keys
        → create_job_id k app_name identifiers ≡ ok (join_by delimiter (printed keys))
    unfolding create_job_id
    create_job_id-printed r =
        let rv = insert_all keys [] in
        let printing =
          λ (x : Result (Dict Value)). and_then x (λ d. format k (layout app_name) d) in
        let validating = λ (ks : List Text) (x : Result (List Value)).
          and_then x (λ vals. printing (validate_identifiers k.config ks vals [])) in
        ap (λ ks. validating ks (map_ok (λ key. item k key identifiers) ks)) template-keys
        ∙ ap (validating keys) (items-given keys r)
        ∙ ap printing (validate-given keys [] r)
        ∙ ap (λ l. format k l rv) pieces
        ∙ format-delimited keys rv (HasAll-insert_all keys keys [] (λ j m. m))

  -- Where the template is its names with the delimiter, one character, between them, where the
  -- identifier at each name is given and validated as a value whose print is validated as the same
  -- value, and where no print but the last has the delimiter: making a job id succeeds, and parsing it
  -- gives back the validated values, each at its name.
  pub parse_job_id-create_job_id :
      (c : ℕ) (app_name key : Text) (keys : List Text)
      → delimiter ≡ c ∷ []
      → layout app_name ≡ delimited (key ∷ keys)
      → AllReadBack (key ∷ keys)
      → is_delimited c (printed (key ∷ keys)) ≡ true
      → (job_id : Text) × (parts : Dict Value) × (create_job_id k app_name identifiers ≡ ok job_id)
        × (parse_job_id k.config app_name job_id ≡ ok parts)
        × HasAll (key ∷ keys) parts
  parse_job_id-create_job_id c app_name key keys one pieces r free =
      let ks = key ∷ keys in
      let same = template-keys app_name ks pieces in
      let parts = map raw (printed ks) in
      (
        join_by delimiter (printed ks),
        insert_all ks [],
        create_job_id-printed app_name ks pieces r,
        ap (λ d. parse_job_id k.config app_name (join_by d (printed ks))) one
            ∙ parse_job_id-join_by k.config c app_name (show (value key)) (printed keys) one
                (length-printed ks ∙ ap length (sym same)) free
            ∙ ap (λ names. validate_identifiers k.config names parts []) same
            ∙ validate-printed ks [] r,
        HasAll-insert_all ks ks [] (λ j m. m),
      )
