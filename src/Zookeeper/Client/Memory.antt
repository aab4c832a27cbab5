-- ===== src/Zookeeper/Client/Memory.antt =====
-- Nodes in a dict, each made on its own, where counters are left out.
use stolos.Prelude.{
  ℕ, ◌≡◌, Bool, true, false, not, ◌&&◌, Option, none, some, List, [], ◌∷◌, ◌++◌, arith, Text, Dict,
  txt, lookup, insert, lookup-insert, text_eq, text_eq_iff, is_some, if◌then◌else◌, length, ◌==◌,
}
use stolos.NodeStore.{is_above}
use stolos.Zookeeper.Client.{Client}

abbrev drop : Text → Text → Text
drop [] t = t
drop (c ∷ p) [] = []
drop (c ∷ p) (d ∷ t) = drop p t

-- The names below a path: all nodes under it are given, without the path.
abbrev below : Text → Dict Text → List Text
below path [] = []
below path ((j, v) ∷ nodes) =
    let rest = below path nodes in if is_above path j then drop (path ++ txt "/") j ∷ rest else rest

abbrev without : Text → Dict Text → Dict Text
without k [] = []
without k ((j, v) ∷ nodes) =
    let rest = without k nodes in if text_eq k j then rest else (j, v) ∷ rest

lookup-without :
    (k j : Text) (nodes : Dict Text)
    → lookup j (without k nodes) ≡ (if text_eq k j then none else lookup j nodes)
lookup-without k j [] = ground arith
lookup-without k j ((i, v) ∷ nodes) =
    ground (arith, lookup-without k j nodes, text_eq_iff k i, text_eq_iff j i, text_eq_iff k j)

abbrev children : Dict Text → Text → Option (List Text)
children nodes path = if is_some (lookup path nodes) then some (below path nodes) else none

abbrev stat : Dict Text → Text → Option ℕ
stat nodes path = if is_some (lookup path nodes) then some (length (below path nodes)) else none

abbrev set : (path value : Text) → Dict Text → Bool × Dict Text
set path value nodes =
    if is_some (lookup path nodes) then (true, insert path value nodes) else (false, nodes)

abbrev create : (path value : Text) → Dict Text → Bool × Dict Text
create path value nodes =
    if is_some (lookup path nodes) then (false, nodes) else (true, insert path value nodes)

abbrev delete : Text → Dict Text → Bool × Dict Text
delete path nodes =
    if is_some (lookup path nodes) && length (below path nodes) == 0
    then (true, without path nodes)
    else (false, nodes)

pub stat-get :
    (nodes : Dict Text) (path : Text) → is_some (stat nodes path) ≡ is_some (lookup path nodes)
stat-get nodes path = ground arith

pub set_lem :
    (path value : Text) (nodes : Dict Text) → (set path value nodes).0 ≡ is_some (lookup path nodes)
set_lem path value nodes = ground arith

pub get-set :
    (path value : Text) (nodes : Dict Text) (j : Text)
    → lookup j (set path value nodes).1
      ≡ (if text_eq path j && is_some (lookup path nodes) then some value else lookup j nodes)
get-set path value nodes j = ground (arith, lookup-insert path j value nodes)

pub create_lem :
    (path value : Text) (nodes : Dict Text)
    → (create path value nodes).0 ≡ not (is_some (lookup path nodes))
create_lem path value nodes = ground arith

pub get-create :
    (path value : Text) (nodes : Dict Text) (j : Text)
    → is_above j path ≡ false
    → lookup j (create path value nodes).1
      ≡ (if text_eq path j && not (is_some (lookup path nodes)) then some value else lookup j nodes)
get-create path value nodes j apart = ground (arith, lookup-insert path j value nodes)

pub delete_lem :
    (path : Text) (nodes : Dict Text)
    → (delete path nodes).0 ≡ true
    → is_some (lookup path nodes) ≡ true
delete_lem path nodes h = ground arith

pub get-delete :
    (path : Text) (nodes : Dict Text) (j : Text)
    → lookup j (delete path nodes).1
      ≡ (if text_eq path j && (delete path nodes).0 then none else lookup j nodes)
get-delete path nodes j = ground (arith, lookup-without path j nodes)

abbrev pub memory : Client
memory = record {
  Tree = Dict Text;
  get = λ nodes path. lookup path nodes;
  stat = stat;
  get_children = children;
  set = set;
  create = create;
  delete = delete;
  count = λ path n nodes. (n, nodes);
  stat-get = stat-get;
  set_lem = set_lem;
  get-set = get-set;
  create_lem = create_lem;
  get-create = get-create;
  delete_lem = delete_lem;
  get-delete = get-delete;
}
