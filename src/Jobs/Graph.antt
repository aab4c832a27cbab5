-- ===== src/Jobs/Graph.antt =====
-- What stolos/queue_backend and stolos/runner.py ask of stolos/dag_tools: the jobs that depend on a
-- job, the jobs it depends on, and the names of the tasks.
pub mod Samples
use stolos.Prelude.{Bool, true, false, Text, List}
use stolos.Jobs.Generators.{Generated}
use stolos.Jobs.Adding.{Dag}

pub record Graph : Type 0 where
  pub dag : Dag
  pub get_children : (app_name job_id : Text) → Generated (Text × Text)
  pub get_parents : (app_name job_id : Text) → Generated (Text × Text)
  pub get_task_names : List Text
