-- ===== src/Jobs/Resetting/Examples.antt =====
-- The descendants of a job in a graph of two tasks.
use stolos.Prelude.{◌≡◌, refl, [], arith, Text, txt, text_eq, Bool-cases, inl, inr}
use stolos.Jobs.Actions.{Action, ok, pure}
use stolos.Jobs.Backend.Memory.{Tables, memory, no_jobs}
use stolos.Jobs.Paths.{get_job_path, completed_state}
use stolos.Jobs.Graph.Samples.{graph, rank}
use stolos.Jobs.Resetting.{Keys, reset_children}
use stolos.Jobs.Resetting.Descendants.{IsValid, AreIn, Resets}
use stolos.Jobs.Resetting.Termination.{IsRanked, reset_children_returns}

abbrev no_children : Text → Text → Action Tables Unit
no_children app job = pure tt

ranked : IsRanked rank graph
ranked app job = elim (Bool-cases (text_eq app (txt "a"))) [
  | inl a ↦ rw a (omega arith, tt)
  | inr other ↦ rw other tt
]

valid : IsValid graph
valid app job (entry, parts, parsed) = elim (Bool-cases (text_eq app (txt "a"))) [
  | inl a ↦ rw a ((entry, parts, parsed), tt)
  | inr other ↦ rw other tt
]

-- The child of the job has run before.
abbrev child_done : Tables
child_done = memory.write (get_job_path (txt "b") (txt "1")) completed_state no_jobs

reset_children_returns_example :
    (keys' : Keys) × (s' : Tables) × (reset_children memory graph no_children 2
        (txt "a")
        (txt "1")
        []
        child_done
      ≡ (ok keys', s'))
    × Resets memory graph [] keys' child_done s'
    × AreIn keys' (graph.get_children (txt "a") (txt "1"))
reset_children_returns_example =
    reset_children_returns memory graph no_children rank ranked valid 2 (txt "a") (txt "1") []
      child_done (omega arith) ((txt "date", txt "1"), [], refl)
