-- ===== src/Dag/MultiGraph/Memory.antt =====
-- A MultiDiGraph that keeps its edges in a list, each of them once.
use stolos.Prelude.{
  ℕ, Text, mem_text, ◌≡◌, refl, Bool, true, false, ◌||◌, List, [], ◌∷◌, ◌++◌, arith, text_eq_iff,
  text_eq_self, text_eq, length, not, zero, suc, if◌then◌else◌,
}
use stolos.Dag.MultiGraph.{MultiGraph, Edge, same_edge}

abbrev mem_edge : Edge → List Edge → Bool
mem_edge e [] = false
mem_edge e (f ∷ edges) = same_edge e f || mem_edge e edges

abbrev add_edge : Edge → List Edge → List Edge
add_edge e edges = if mem_edge e edges then edges else edges ++ e ∷ []

same_edge_self : (e : Edge) → same_edge e e ≡ true
same_edge_self e = ground (arith, text_eq_self e.parent, text_eq_self e.child, text_eq_self e.key)

same_edge-mem :
    (e f : Edge) (edges : List Edge)
    → same_edge e f ≡ true
    → mem_edge f edges ≡ true
    → mem_edge e edges ≡ true
same_edge-mem e f [] same m = cc
same_edge-mem e f (g ∷ edges) same m = ground (
  arith,
  same_edge-mem e f edges same,
  text_eq_iff e.parent f.parent,
  text_eq_iff e.child f.child,
  text_eq_iff e.key f.key,
)

mem_edge-append :
    (e f : Edge) (edges : List Edge)
    → mem_edge e (edges ++ f ∷ []) ≡ (mem_edge e edges || same_edge e f)
mem_edge-append e f [] = ground arith
mem_edge-append e f (g ∷ edges) = ground (arith, mem_edge-append e f edges)

pub mem_edge-add_edge :
    (e f : Edge) (edges : List Edge)
    → mem_edge e (add_edge f edges) ≡ (mem_edge e edges || same_edge e f)
mem_edge-add_edge e f edges = ground (arith, mem_edge-append e f edges, same_edge-mem e f edges)

abbrev predecessors : Text → List Edge → List Text
predecessors app_name [] = []
predecessors app_name (e ∷ edges) =
    let rest = predecessors app_name edges in
    if text_eq app_name e.child then e.parent ∷ rest else rest

pub mem-predecessors :
    (e : Edge) (edges : List Edge)
    → mem_edge e edges ≡ true
    → mem_text e.parent (predecessors e.child edges) ≡ true
mem-predecessors e [] h = cc
mem-predecessors e (f ∷ edges) h = ground (arith, mem-predecessors e edges, text_eq_self e.child)

abbrev any_edge : (Edge → Bool) → List Edge → Bool
any_edge test [] = false
any_edge test (e ∷ edges) = test e || any_edge test edges

-- by at most so many edges
abbrev reaches : ℕ → Text → Text → List Edge → Bool
reaches zero a b edges = false
reaches (suc n) a b edges =
    any_edge
      (λ e. elim (text_eq e.parent a) [
        | true ↦ elim (text_eq e.child b) [ true ↦ true | false ↦ reaches n e.child b edges ]
        | false ↦ false
      ])
      edges

abbrev is_acyclic : List Edge → Bool
is_acyclic edges = not (any_edge (λ e. reaches (length edges) e.parent e.parent edges) edges)

abbrev pub memory : MultiGraph
memory = record {
  Dg = List Edge;
  no_edges = [];
  has_edge = mem_edge;
  add_edge = add_edge;
  predecessors = predecessors;
  is_acyclic = is_acyclic;
  mem-predecessors = mem-predecessors;
  has_edge-no_edges = λ e. refl;
  has_edge-add_edge = mem_edge-add_edge;
}
