-- ===== src/Jobs/Graph/Samples.antt =====
-- Two tasks: each job of `b` depends on the job of `a` with the same id. The id `bad` is invalid, and
-- the filter rejects `old`.
use stolos.Prelude.{ℕ, true, false, [], ◌∷◌, Text, txt, text_eq, if◌then◌else◌}
use stolos.Jobs.Actions.{ok, raised, invalid_job_id}
use stolos.Jobs.Generators.{stops, yields}
use stolos.Jobs.Graph.{Graph}

abbrev pub graph : Graph
graph = record {
  dag = record {
    parse_job_id = λ _ job.
        if text_eq job (txt "bad") then raised invalid_job_id else ok ((txt "date", job) ∷ []);
    passes_filter = λ _ job. ok (if text_eq job (txt "old") then false else true);
  };
  get_children = λ app job. if text_eq app (txt "a") then yields (txt "b", job) stops else stops;
  get_parents = λ app job. if text_eq app (txt "b") then yields (txt "a", job) stops else stops;
  get_task_names = txt "a" ∷ txt "b" ∷ [];
}

-- `a` ranks above `b`.
abbrev pub rank : Text → ℕ
rank app = if text_eq app (txt "a") then 1 else 0
