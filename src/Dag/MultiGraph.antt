-- ===== src/Dag/MultiGraph.antt =====
-- networkx's MultiDiGraph as stolos/dag_tools/build.py uses it: edges with a key,
-- and no more of it. The package is not part of the repository, so it is a parameter: an edge that is
-- added is there, adding it changes no other, and the parent of an edge precedes its child.
pub mod Memory
use stolos.Prelude.{◌≡◌, Bool, true, false, ◌&&◌, ◌||◌, List, Text, text_eq, mem_text}

pub record Edge : Type 0 where
  pub parent : Text
  pub child : Text
  pub key : Text

abbrev pub same_edge : Edge → Edge → Bool
same_edge e f = text_eq e.parent f.parent && (text_eq e.child f.child && text_eq e.key f.key)

pub record MultiGraph : Type 1 where
  pub Dg : Type 0
  -- `MultiDiGraph()`, `has_edge(parent, child, key)`, `add_edge(parent, child, key=...)`
  pub no_edges : Dg
  pub has_edge : Edge → Dg → Bool
  pub add_edge : Edge → Dg → Dg
  -- `dg.pred[app_name]`, and `is_directed_acyclic_graph(dg)`
  pub predecessors : Text → Dg → List Text
  pub is_acyclic : Dg → Bool
  pub has_edge-no_edges : (e : Edge) → has_edge e no_edges ≡ false
  pub mem-predecessors :
      (e : Edge) (dg : Dg)
      → has_edge e dg ≡ true
      → mem_text e.parent (predecessors e.child dg) ≡ true
  pub has_edge-add_edge :
      (e f : Edge) (dg : Dg) → has_edge e (add_edge f dg) ≡ (has_edge e dg || same_edge e f)
