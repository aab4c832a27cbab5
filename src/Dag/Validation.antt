-- ===== src/Dag/Validation.antt =====
-- stolos/dag_tools/build.py: the validation of the tasks configuration. What it logs is left out:
-- `validate_job_type` does nothing but log. The `tasks_conf[ld['app_name']]` of the code is the
-- metadata of the task that is validated.
pub mod Groups
pub mod Checks
pub mod Outcomes
pub mod WellFormed
pub mod Build
pub mod Known
pub mod Consistency
pub mod Samples
mod Examples
use stolos.Prelude.{
  Bool, true, false, not, ◌&&◌, ◌||◌, List, [], ◌∷◌, map, Text, Dict, mem_text, if◌then◌else◌,
}
use stolos.Jobs.Actions.{Result, ok, raised, and_then, dag_misconfigured}

-- `_log_raise_if(condition, ..., exception_kls=DAGMisconfigured)`
abbrev pub raise_if : Bool → Result Unit
raise_if true = raised dag_misconfigured
raise_if false = ok tt

-- `for item in items: check(item)`
abbrev pub each {ℓ} : {A : Type ℓ} → (A → Result Unit) → List A → Result Unit
each check [] = ok tt
each check (a ∷ items) = and_then (check a) (λ _. each check items)

abbrev pub keys {ℓ} : {V : Type ℓ} → Dict V → List Text
keys d = map (λ e. e.0) d

-- `set(xs).difference(ys)`, where only its being empty matters
abbrev pub difference : (xs ys : List Text) → List Text
difference [] ys = []
difference (x ∷ xs) ys = let rest = difference xs ys in if mem_text x ys then rest else x ∷ rest

abbrev pub nonempty {ℓ} : {A : Type ℓ} → List A → Bool
nonempty [] = false
nonempty (x ∷ xs) = true
