-- ===== src/Jobs/States.antt =====
-- stolos/queue_backend/read_job_state.py: which states a caller asks for, and whether a job is in
-- one of them.
use stolos.Prelude.{
  ℕ, ◌+◌, Bool, true, false, not, ◌&&◌, ◌||◌, Option, none, some, List, [], ◌∷◌, ◌++◌, Text,
  mem_text, ltb, ◌==◌, if◌then◌else◌,
}
use stolos.Jobs.Actions.{Result, ok, raised, user_warning, no_node}
use stolos.Jobs.Backend.{Backend}
use stolos.Jobs.Paths.{get_job_path, pending_state, completed_state, failed_state, skipped_state}

-- The keyword arguments that name states.
pub record Flags : Type 0 where
  pub pending : Bool
  pub completed : Bool
  pub failed : Bool
  pub skipped : Bool

abbrev count_flag : Bool → ℕ
count_flag true = 1
count_flag false = 0

-- `pending + completed + failed + skipped`
abbrev pub count_flags : Flags → ℕ
count_flags f =
    count_flag f.pending + count_flag f.completed + count_flag f.failed + count_flag f.skipped

abbrev pub if_asked : Bool → Text → List Text
if_asked true state = state ∷ []
if_asked false state = []

abbrev pub requested : Flags → (all : Bool) → List Text
requested f all =
    if_asked (all || f.pending) pending_state
    ++ (if_asked (all || f.completed) completed_state
        ++ (if_asked (all || f.failed) failed_state ++ if_asked (all || f.skipped) skipped_state))

-- `validate_state(…, multi=True)`
unfoldable pub validate_states : Flags → (all : Bool) → Result (List Text)
validate_states f all =
    if ltb (count_flags f) 1 && not all then raised user_warning else ok (requested f all)

-- `rv[0]`; the list has one element where this is reached
abbrev first : List Text → Result Text
first [] = raised user_warning
first (state ∷ _) = ok state

-- `validate_state(…)`
unfoldable pub validate_state : Flags → Result Text
validate_state f = if count_flags f == 1 then first (requested f false) else raised user_warning

-- What `check_state` returns for a job: a Boolean, or the state itself.
pub data Answer : Type 0 where
  answer : Bool → Answer
  state : Text → Answer

abbrev accepted : Text → Result (List Text) → Result Answer
accepted got (ok states) = ok (answer (mem_text got states))
accepted got (raised e) = raised e

module _ (b : Backend) where
  open b use {State, node}

  abbrev answer_for : Option Text → (raise_if_not_exists get : Bool) → Flags → Bool → Result Answer
  answer_for none raise_if_not_exists get f all =
      if raise_if_not_exists then raised no_node else ok (answer false)
  answer_for (some got) raise_if_not_exists get f all =
      if get then ok (state got) else accepted got (validate_states f all)

  -- `check_state` for one job id, which reads the backend and changes nothing
  unfoldable pub check_state :
      (app_name job_id : Text)
      → (raise_if_not_exists get : Bool) → Flags
      → (all : Bool) → State
      → Result Answer
  check_state app_name job_id raise_if_not_exists get f all s =
      answer_for (node s (get_job_path app_name job_id)) raise_if_not_exists get f all

  abbrev and_rest : Result Answer → Result (List Answer) → Result (List Answer)
  and_rest (raised e) _ = raised e
  and_rest (ok a) (raised e) = raised e
  and_rest (ok a) (ok rest) = ok (a ∷ rest)

  -- `check_state` for a list of job ids
  unfoldable pub check_all :
      (app_name : Text)
      → (raise_if_not_exists get : Bool) → Flags
      → (all : Bool) → List Text
      → State
      → Result (List Answer)
  check_all app_name raise_if_not_exists get f all [] s = ok []
  check_all app_name raise_if_not_exists get f all (job_id ∷ rest) s =
      and_rest (check_state app_name job_id raise_if_not_exists get f all s)
        (check_all app_name raise_if_not_exists get f all rest s)
