-- ===== src/Dag/Autofill.antt =====
-- stolos/dag_tools/node.py: `get_autofill_values`. A text is a range `stop`, `start:stop` or
-- `start:stop:step`. `int` reads blanks and signs too, which the validation of build.py refuses.
pub mod Ranges
pub mod Validated
mod Examples
use stolos.Prelude.{
  ℕ, zero, suc, ◌+◌, Bool, Option, none, some, List, [], ◌∷◌, map, Text, Dict, txt, split, int_of,
  ltb, leb, ◌==◌, if◌then◌else◌,
}
use stolos.Jobs.Actions.{
  Result, ok, raised, and_then, cons_result, map_ok, value_error, type_error, attribute_error,
  assertion_error, dag_misconfigured,
}
use stolos.Dag.Metadata.{
  Entry, sequence, text, scalar, Autofill, fields, items, another, Values, int,
}

-- `range(start, stop, step)`; a step of at least 1 leaves at most `stop` numbers.
unfoldable pub range_from : (rounds start stop step : ℕ) → List ℕ
range_from zero start stop step = []
range_from (suc rounds) start stop step =
    let rest = range_from rounds (start + step) stop step in
    if ltb start stop then start ∷ rest else []

abbrev pub range : (start stop step : ℕ) → List ℕ
range start stop step = range_from stop start stop step

abbrev pub or_value_error : {A : Type 0} → Option A → Result A
or_value_error none = raised value_error
or_value_error (some a) = ok a

-- `range(*numbers)`, for a list
unfoldable pub range_of : List ℕ → Result (List ℕ)
unfolding range_from
range_of (stop ∷ []) = ok (range 0 stop 1)
range_of (start ∷ stop ∷ []) = ok (range start stop 1)
range_of (start ∷ stop ∷ step ∷ []) =
    if step == 0 then raised value_error else ok (range start stop step)
range_of _ = raised type_error

module _ (c : Values) (number : ℕ → c.Value) where
  open c use {Value, of_text}

  -- `numbers or list(v)`: an empty list is false
  abbrev pub or_letters : Text → List ℕ → List Value
  or_letters t [] = map (λ letter. of_text (letter ∷ [])) t
  or_letters t (n ∷ ns) = map number (n ∷ ns)

  unfoldable pub parse_entry : Entry Value → Result (List Value)
  unfolding split int_of range_of
  parse_entry (sequence vs) = ok vs
  parse_entry (text t) =
      and_then (map_ok (λ part. or_value_error (int c part)) (split (txt ":") 2 t))
        λ numbers. and_then (range_of numbers) λ ns. ok (or_letters t ns)
  parse_entry (scalar v) = raised attribute_error

  abbrev pub named_values : Text → Result (List Value) → Result (Text × List Value)
  named_values key (ok vs) = ok (key, vs)
  named_values key (raised e) = raised e

  -- `get_autofill_values`, of what the configuration holds
  unfoldable pub get_autofill_values :
      (raise_err : Bool) → Option (Autofill Value) → Result (Dict (List Value))
  unfolding parse_entry
  get_autofill_values raise_err none = if raise_err then raised dag_misconfigured else ok []
  get_autofill_values raise_err (some (fields d)) =
      map_ok (λ e. named_values e.0 (parse_entry e.1)) d
  get_autofill_values raise_err (some _) = raised assertion_error
