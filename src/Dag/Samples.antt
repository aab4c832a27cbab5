-- ===== src/Dag/Samples.antt =====
-- The task `b` depends on `a`: its ids are a date and a client, those of `a` a date.
use stolos.Prelude.{refl, none, some, List, [], ◌∷◌, Text, txt, text_eq, if◌then◌else◌}
use stolos.Dag.Tasks.{Tasks, Piece, literal, named, names, unnamed}

abbrev layout : Text → List Piece
layout app =
    if text_eq app (txt "b")
    then named (txt "date") ∷ literal (txt "_") ∷ named (txt "client") ∷ []
    else named (txt "date") ∷ []

abbrev pub tasks : Tasks
tasks = record {
  config = record {
    Value = Text;
    raw = λ t. t;
    delimiter = txt "_";
    template = λ app. names (layout app);
    validation = λ key. none;
  };
  same = text_eq;
  show = λ t. t;
  layout = layout;
  layout_lem = λ app. refl;
  autofill_values = λ app.
      if text_eq app (txt "b")
      then some ((txt "client", txt "x" ∷ txt "y" ∷ []) ∷ [])
      else some ((txt "date", txt "1" ∷ txt "2" ∷ []) ∷ []);
  depends_on = λ app.
      if text_eq app (txt "b")
      then some (unnamed (record { app_names = txt "a" ∷ []; job_ids = none; fields = [] }))
      else none;
  default_name = txt "default";
}

abbrev pub successors : Text → List (Text × Text)
successors app = if text_eq app (txt "a") then (txt "b", txt "default") ∷ [] else []
