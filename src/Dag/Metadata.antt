-- ===== src/Dag/Metadata.antt =====
-- The tasks configuration before it is validated, as stolos/dag_tools/build.py finds it:
-- stolos/configuration_backend gives mappings and sequences, and leaves other values as they are.
-- The elements of a sequence are values that can be hashed; a group is a mapping, or a sequence of
-- mappings, or a value without `in`, such as a number.
use stolos.Prelude.{
  ℕ, ◌≡◌, Bool, false, ◌||◌, Option, none, some, List, [], ◌∷◌, map, Text, Dict, int_of, is_digits,
}
use stolos.Jobs.Actions.{Result, ok, raised, type_error}
use stolos.Dag.Tasks.{Piece, names}

-- A value of a mapping: a sequence, a text, or anything else that is neither nor a mapping.
pub data Entry (V : Type 0) : Type 0 where
  sequence : List V → Entry V
  text : Text → Entry V
  scalar : V → Entry V

pub data GroupData (V : Type 0) : Type 0 where
  mapping : Dict (Entry V) → GroupData V
  mappings : List (Dict (Entry V)) → GroupData V
  neither : GroupData V

-- `depends_on`: a mapping with the key app_name, a mapping without it, or anything
-- else, with its truth
pub data Dependencies (V : Type 0) : Type 0 where
  on_parents : Dict (Entry V) → Dependencies V
  by_name : Dict (GroupData V) → Dependencies V
  not_mapping : (truth : Bool) → Dependencies V

-- `autofill_values`: a mapping, a sequence, or a value that is neither, with its truth
pub data Autofill (V : Type 0) : Type 0 where
  fields : Dict (Entry V) → Autofill V
  items : List V → Autofill V
  another : Bool → Autofill V

pub record Metadata (V : Type 0) : Type 0 where
  -- the template, in pieces
  pub job_id : Option (List Piece)
  pub depends_on : Option (Dependencies V)
  pub valid_if_or : Option (Dict (Entry V))
  pub autofill_values : Option (Autofill V)

-- What Python and the options of the process do: values with `==`, also with a Boolean, and their
-- truth; the value that is a text; the functions of `job_id_validations`.
pub record Values : Type 1 where
  pub Value : Type 0
  pub same : Value → Value → Bool
  pub same_bool : Bool → Value → Bool
  pub truth : Value → Bool
  pub of_text : Text → Value
  pub as_text : Value → Option Text
  pub as_text-of_text : (t : Text) → as_text (of_text t) ≡ some t
  pub validation : (key : Text) → Option (Value → Result Value)
  pub default_template : List Piece
  pub default_name : Text
  -- `isdigit` and `int` on texts with other characters than the digits of ASCII: superscripts are
  -- digits that `int` does not read, digits of other scripts are read
  pub other_digits : Text → Bool
  pub other_int : Text → Option ℕ

module _ (c : Values) where
  open c use {Value, same, of_text, as_text, default_template, other_digits, other_int}

  -- `t.isdigit()`
  abbrev pub isdigit : Text → Bool
  isdigit t = is_digits t || other_digits t

  -- `int(t)`, none for ValueError
  abbrev pub int : Text → Option ℕ
  int t = elim (int_of t) [ some n ↦ some n | none ↦ other_int t ]

  -- `v in vs`
  abbrev pub mem_value : Value → List Value → Bool
  mem_value v [] = false
  mem_value v (w ∷ ws) = same v w || mem_value v ws

  -- `get_job_id_template(app_name)[1]`
  abbrev pub template_of : Metadata Value → List Text
  template_of meta = names (elim meta.job_id [ none ↦ default_template | some pieces ↦ pieces ])

  -- What iterating over a value yields: a text is iterated over by its letters.
  abbrev pub elements : Entry Value → Result (List Value)
  elements (sequence vs) = ok vs
  elements (text t) = ok (map (λ letter. of_text (letter ∷ [])) t)
  elements (scalar v) = raised type_error

  abbrev pub and_text : Option Text → List Text → List Text
  and_text none ts = ts
  and_text (some t) ts = t ∷ ts

  abbrev pub texts : List Value → List Text
  texts [] = []
  texts (v ∷ vs) = and_text (as_text v) (texts vs)

  -- The texts that are in `metadata.get('autofill_values', {})`.
  abbrev pub autofill_keys : Option (Autofill Value) → Result (List Text)
  autofill_keys none = ok []
  autofill_keys (some (fields d)) = ok (map (λ e. e.0) d)
  autofill_keys (some (items vs)) = ok (texts vs)
  autofill_keys (some (another b)) = raised type_error
