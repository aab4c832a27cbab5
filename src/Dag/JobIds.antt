-- ===== src/Dag/JobIds.antt =====
-- stolos/dag_tools/node.py: making a job id, and the filter of jobs. The function at `_func` is
-- imported by its path, which is a parameter.
pub mod RoundTrip
mod Examples
use stolos.Prelude.{
  Bool, true, false, Option, none, some, List, [], ◌∷◌, Text, Dict, lookup, if◌then◌else◌,
}
use stolos.Jobs.Actions.{Result, ok, raised, and_then, map_ok, key_error, dag_misconfigured}
use stolos.Dag.Nodes.{parse_job_id, validate_identifiers}
use stolos.Dag.Tasks.{Tasks, mem_value, item, format}

module _ (k : Tasks) where
  open k use {Value, template, layout, validation}

  -- `create_job_id`
  unfoldable pub create_job_id : (app_name : Text) → Dict Value → Result Text
  unfolding format validate_identifiers
  create_job_id app_name identifiers =
      let keys = template app_name in
      and_then (map_ok (λ key. item k key identifiers) keys) λ vals.
        and_then (validate_identifiers k.config keys vals []) λ rv. format k (layout app_name) rv

  -- `[job_id_validations[key](x) for x in values]`
  unfoldable pub read_each : Option (Value → Result Value) → List Value → Result (List Value)
  read_each none [] = ok []
  read_each none (x ∷ xs) = raised key_error
  read_each (some func) xs = map_ok func xs

  -- the loop over `dct.items()`
  unfoldable pub any_allowed :
      (Text → Option (Value → Result Value)) → Dict Value → Dict (List Value) → Result Bool
  unfolding read_each
  any_allowed functions parts [] = ok false
  any_allowed functions parts ((key, xs) ∷ conditions) =
      let rest = any_allowed functions parts conditions in
      elim (lookup key parts) [
        | none ↦ raised dag_misconfigured
        | some v ↦
            and_then (read_each (functions key) xs)
              λ vals. if mem_value k v vals then ok true else rest
      ]

  -- `valid_if_or`: what importing the function at `_func` gives, if there is one, and the sequences at
  -- the other keys.
  pub record Condition : Type 0 where
    pub func : Option (Result (Dict Value → Result Bool))
    pub allowed : Dict (List Value)

  unfoldable pub passes_condition :
      (Text → Option (Value → Result Value)) → Dict Value → Condition → Result Bool
  unfolding any_allowed
  passes_condition functions parts condition =
      let by_value = any_allowed functions parts condition.allowed in
      elim condition.func [
        | none ↦ by_value
        | some imported ↦
            and_then imported
              λ func. and_then (func parts) λ passed. if passed then ok true else by_value
      ]

  -- `passes_filter`; the functions of `job_id_validations` may return None and False too.
  unfoldable pub passes_filter :
      (Text → Option (Value → Result Value))
      → (Text → Option Condition)
      → (app_name job_id : Text) → Result Bool
  unfolding parse_job_id passes_condition
  passes_filter functions valid_if_or app_name job_id =
      and_then (parse_job_id k.config app_name job_id) λ parts. elim (valid_if_or app_name) [
        | none ↦ ok true
        | some condition ↦ passes_condition functions parts condition
      ]
