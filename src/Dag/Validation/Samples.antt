-- ===== src/Dag/Validation/Samples.antt =====
-- Values that are texts, where each validation function returns its argument.
use stolos.Prelude.{none, refl, true, false, some, [], ◌∷◌, Text, txt, text_eq}
use stolos.Jobs.Actions.{ok}
use stolos.Dag.Tasks.{named}
use stolos.Dag.Metadata.{Values}

abbrev pub values : Values
values = record {
  Value = Text;
  same = text_eq;
  same_bool = λ b v. false;
  truth = λ v. true;
  of_text = λ t. t;
  as_text = some;
  as_text-of_text = λ t. refl;
  validation = λ key. some ok;
  default_template = named (txt "date") ∷ [];
  default_name = txt "default";
  other_digits = λ t. false;
  other_int = λ t. none;
}
