-- ===== src/Zookeeper/Examples.antt =====
-- Nodes of kazoo in memory: a queue with two entries of which one is taken.
use mathlib.Core.Logic.{◌↔◌}
use stolos.Prelude.{
  ℕ, ◌+◌, ◌≡◌, refl, true, false, some, List, [], ◌∷◌, arith, Text, Dict, txt, mem_text,
}
use stolos.Jobs.Actions.{ok, raised, attribute_error}
use stolos.Zookeeper.Client.Memory.{memory}
use stolos.Zookeeper.Queue.{join, size, is_queued, size_parts, is_queued_iff}

abbrev path : Text
path = txt "app"

abbrev nodes : Dict Text
nodes =
    (txt "app/entries", [])
    ∷ (txt "app/taken", [])
    ∷ (txt "app/entries/1", txt "11_2")
    ∷ (txt "app/entries/2", txt "11_3")
    ∷ (txt "app/taken/1", txt "7")
    ∷ []

size_parts_example :
    (n : ℕ) × (m : ℕ) × (size memory path true false nodes ≡ ok n)
    × (size memory path false true nodes ≡ ok m)
    × (size memory path true true nodes ≡ ok (n + m))
    × (size memory path false false nodes ≡ raised attribute_error)
size_parts_example = size_parts memory path nodes 2 1 refl refl (omega arith)

abbrev entry_names : List Text
entry_names = txt "1" ∷ txt "2" ∷ []

is_queued_iff_example : (is_queued memory path (txt "11_3") nodes ≡ true) ↔ (
    (name : Text) × (mem_text name entry_names ≡ true)
    × (memory.get nodes (join (join path (txt "entries")) name) ≡ some (txt "11_3")))
is_queued_iff_example =
    is_queued_iff memory path (txt "11_3") entry_names nodes refl (refl, (refl, tt))
