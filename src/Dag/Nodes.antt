-- ===== src/Dag/Nodes.antt =====
-- stolos/dag_tools/node.py: a job id and its parts. The configuration is a parameter: the names in
-- the job id template of an app, which `re.findall` reads off it, and the validation functions.
use mathlib.Core.List.{append_assoc}
use stolos.Prelude.{
  ℕ, ◌-◌, ◌≡◌, refl, ◌∙◌, ap, Bool, true, false, not, ◌&&◌, Option, none, some, List, [], ◌∷◌, ◌++◌,
  map, arith, Text, Dict, insert, split, split_part, split_all, split_zero, join_by, has_char,
  length, ◌==◌, if◌then◌else◌,
}
use stolos.Jobs.Actions.{Result, ok, raised, value_error, invalid_job_id}

-- How a validation function ends: it returns a value, it raises a KeyError, or it returns None or
-- False or raises anything else.
pub data Checked (V : Type 0) : Type 0 where
  valid : V → Checked V
  key_error invalid : Checked V

pub record Config : Type 1 where
  -- the values that validation functions return, which a text is one of
  pub Value : Type 0
  pub raw : Text → Value
  -- `job_id_delimiter`, which is `_` by default
  pub delimiter : Text
  pub template : (app_name : Text) → List Text
  pub validation : (key : Text) → Option (Value → Checked Value)

module _ (g : Config) where
  open g use {Value, raw, delimiter, template, validation}

  -- `validations[key](_val)`, where a KeyError leaves the value as it is
  abbrev pub validated : Option (Value → Checked Value) → Value → Result Value
  validated none val = ok val
  validated (some check) val = elim (check val) [
    | valid v ↦ ok v
    | key_error ↦ ok val
    | invalid ↦ raised invalid_job_id
  ]

  abbrev pub and_insert : Text → Result Value → Dict Value → Result (Dict Value)
  and_insert key (ok v) rv = ok (insert key v rv)
  and_insert key (raised e) rv = raised e

  abbrev pub then_rest :
      Result (Dict Value) → (Dict Value → Result (Dict Value)) → Result (Dict Value)
  then_rest (ok rv) rest = rest rv
  then_rest (raised e) rest = raised e

  -- `_validate_job_id_identifiers`, from the entries that it has made so far
  unfoldable pub validate_identifiers :
      (keys : List Text) (vals : List Value) → Dict Value → Result (Dict Value)
  validate_identifiers (key ∷ keys) (val ∷ vals) rv =
      then_rest (and_insert key (validated (validation key) val) rv)
        (validate_identifiers keys vals)
  validate_identifiers _ _ rv = ok rv

  abbrev pub is_empty : Text → Bool
  is_empty [] = true
  is_empty (c ∷ t) = false

  -- `parse_job_id` with the delimiter of the configuration. A template without names ends in an
  -- error either way, since there is at least one value; `split` raises on an empty delimiter.
  unfoldable pub parse_job_id : (app_name job_id : Text) → Result (Dict Value)
  unfolding validate_identifiers
  parse_job_id app_name job_id =
      let keys = template app_name in
      let vals = split delimiter (length keys - 1) job_id in
      if is_empty delimiter
      then raised value_error
      else if length vals == length keys
      then validate_identifiers keys (map raw vals) []
      else raised invalid_job_id

-- All but the last value are free of the delimiter.
abbrev pub is_delimited : ℕ → List Text → Bool
is_delimited c [] = false
is_delimited c (last ∷ []) = true
is_delimited c (v ∷ w ∷ vals) = not (has_char c v) && is_delimited c (w ∷ vals)

split-join_by :
    (c : ℕ) (v : Text) (vals : List Text)
    → is_delimited c (v ∷ vals) ≡ true
    → split (c ∷ []) (length vals) (join_by (c ∷ []) (v ∷ vals)) ≡ v ∷ vals
split-join_by c v [] h = split_zero (c ∷ []) v
split-join_by c v (w ∷ vals) h =
    let plain : has_char c v ≡ false = ground arith in
    let rest = join_by (c ∷ []) (w ∷ vals) in
    let flat : join_by (c ∷ []) (v ∷ w ∷ vals) ≡ v ++ c ∷ rest = rw append_assoc refl in
    ap (split (c ∷ []) (length (w ∷ vals))) flat
    ∙ split_part c (length vals) v rest plain
    ∙ ap (◌∷◌ v) (split-join_by c w vals (ground arith))

module _ (g : Config) where
  open g use {Value, raw, delimiter, template}

  -- `parse_job_id` of values joined by the delimiter, one for each name in the template and all but
  -- the last free of the delimiter, which is one character: it validates exactly these values.
  pub parse_job_id-join_by :
      (c : ℕ) (app_name v : Text) (vals : List Text)
      → delimiter ≡ c ∷ []
      → length (v ∷ vals) ≡ length (template app_name)
      → is_delimited c (v ∷ vals) ≡ true
      → parse_job_id g app_name (join_by (c ∷ []) (v ∷ vals))
        ≡ validate_identifiers g (template app_name) (map raw (v ∷ vals)) []
  unfolding parse_job_id
  parse_job_id-join_by c app_name v vals one enough free =
      let k : length (template app_name) - 1 ≡ length vals = omega (arith, enough) in
      rw (one, k, split-join_by c v vals free) (ground (arith, enough))

  -- A job id without the delimiter, which is one character, raises InvalidJobId where the template
  -- has not exactly one name.
  pub parse_job_id_undelimited :
      (c : ℕ) (app_name job_id : Text)
      → delimiter ≡ c ∷ []
      → has_char c job_id ≡ false
      → (length (template app_name) == 1) ≡ false
      → parse_job_id g app_name job_id ≡ raised invalid_job_id
  unfolding parse_job_id
  parse_job_id_undelimited c app_name job_id one plain more =
      rw (one, split_all c (length (template app_name) - 1) job_id plain) (ground (arith, more))
