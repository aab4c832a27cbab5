-- ===== src/Dag/Tasks.antt =====
-- The tasks configuration as stolos/dag_tools reads it: stolos/configuration_backend gives mappings
-- and sequences, and stolos/dag_tools/node.py the templates and autofill values of an app. No part of
-- a job id is named app_name, job_id or dependency_group_name.
use stolos.Prelude.{
  ◌≡◌, Bool, false, ◌||◌, Option, none, some, List, [], ◌∷◌, ◌++◌, Text, Dict, lookup,
}
use stolos.Jobs.Actions.{Result, ok, raised, and_then, key_error}
use stolos.Dag.Nodes.{Config}

-- A piece of a job id template: text, or `{name}`.
pub data Piece : Type 0 where
  literal named : Text → Piece

-- `re.findall(r'{(.*?)}', template)`
abbrev pub names : List Piece → List Text
names [] = []
names (literal t ∷ pieces) = names pieces
names (named k ∷ pieces) = k ∷ names pieces

-- What a key of a dependency group may hold.
pub data Choice (V : Type 0) : Type 0 where
  all_values : Choice V
  values : List V → Choice V

-- A mapping with the key app_name; `V` is what the other keys hold.
pub record Group (V : Type 0) : Type 0 where
  pub app_names : List Text
  pub job_ids : Option (List Text)
  pub fields : Dict V

-- A dependency group is a mapping, or a sequence of mappings.
pub data Groups (V : Type 0) : Type 0 where
  single : Group V → Groups V
  several : List (Group V) → Groups V

-- `depends_on`: one group, or groups by their names.
pub data DependsOn (V : Type 0) : Type 0 where
  unnamed : Group V → DependsOn V
  by_name : Dict (Groups V) → DependsOn V

pub record Tasks : Type 1 where
  pub config : Config
  pub open config use *
  -- `==` on values, and how `str.format` prints one
  pub same : Value → Value → Bool
  pub show : Value → Text
  pub layout : (app_name : Text) → List Piece
  pub layout_lem : (app_name : Text) → names (layout app_name) ≡ template app_name
  -- none where the task has no autofill_values
  pub autofill_values : (app_name : Text) → Option (Dict (List Value))
  pub depends_on : (app_name : Text) → Option (DependsOn (Choice Value))
  pub default_name : Text

module _ (k : Tasks) where
  open k use {Value, same, show}

  -- `v in values`
  abbrev pub mem_value : Value → List Value → Bool
  mem_value v [] = false
  mem_value v (w ∷ ws) = same v w || mem_value v ws

  abbrev or_key_error : {A : Type 0} → Option A → Result A
  or_key_error none = raised key_error
  or_key_error (some a) = ok a

  -- `d[key]`
  abbrev pub item : {A : Type 0} → Text → Dict A → Result A
  item key d = or_key_error (lookup key d)

  -- `template.format(**parts)`
  unfoldable pub format : List Piece → Dict Value → Result Text
  format [] parts = ok []
  format (literal t ∷ pieces) parts = and_then (format pieces parts) (λ rest. ok (t ++ rest))
  format (named key ∷ pieces) parts =
      let rest = format pieces parts in
      and_then (item key parts) (λ v. and_then rest (λ r. ok (show v ++ r)))

  -- `get_autofill_values(app_name, raise_err=False)`
  abbrev pub autofill_or_empty : (app_name : Text) → Dict (List Value)
  autofill_or_empty app_name = elim (k.autofill_values app_name) [ none ↦ [] | some d ↦ d ]
