-- ===== src/Zookeeper/Nodes.antt =====
-- stolos/queue_backend/qbcli_zookeeper.py: the functions get, exists, delete, set, create and
-- increment, which turn the errors of kazoo into those of stolos. `_recursive` is for tests only.
use stolos.Prelude.{
  ℕ, ◌≡◌, refl, Bool, true, false, not, ◌&&◌, Option, none, some, arith, Text, text_eq, is_some,
  Option-cases, inl, inr, if◌then◌else◌,
}
use stolos.Jobs.Actions.{Result, ok, raised, no_node, node_exists}
use stolos.NodeStore.{NodeStore, IsNodeStore}
use stolos.Zookeeper.Client.{Client}

abbrev pub or_no_node : Option Text → Result Text
or_no_node none = raised no_node
or_no_node (some v) = ok v

module _ (zk : Client) where
  open zk use {Tree, stat-get, set_lem, create_lem, delete_lem}

  unfoldable pub get : Text → Tree → Result Text
  get path t = or_no_node (zk.get t path)

  unfoldable pub exists : Text → Tree → Bool
  exists path t = is_some (zk.stat t path)

  unfoldable pub delete : Text → Tree → Bool × Tree
  delete path t = let (done, t') = zk.delete path t in (if done then true else false, t')

  unfoldable pub set : (path value : Text) → Tree → Result Unit × Tree
  set path value t =
      let (done, t') = zk.set path value t in (if done then ok tt else raised no_node, t')

  unfoldable pub create : (path value : Text) → Tree → Result Unit × Tree
  create path value t =
      let (done, t') = zk.create path value t in (if done then ok tt else raised node_exists, t')

  unfoldable pub increment : Text → ℕ → Tree → ℕ × Tree
  increment path value t = zk.count path value t

  -- The module qbcli_zookeeper.
  abbrev pub zookeeper_nodes : NodeStore
  zookeeper_nodes = record {
    State = Tree;
    get = get;
    exists = exists;
    delete = delete;
    set = set;
    create = create;
  }

  get_missing : (path : Text) (t : Tree) → exists path t ≡ false → get path t ≡ raised no_node
  unfolding get exists
  get_missing path t h = ground (arith, stat-get t path)

  get_present :
      (path : Text) (t : Tree) → exists path t ≡ true → (value : Text) × (get path t ≡ ok value)
  unfolding get exists
  get_present path t h = elim (Option-cases (zk.get t path)) [
    | inl missing ↦ absurd (ground (arith, stat-get t path, missing))
    | inr (v, held) ↦ (v, rw held refl)
  ]

  create_result :
      (path value : Text) (t : Tree)
      → (create path value t).0 ≡ (if exists path t then raised node_exists else ok tt)
  unfolding create exists
  create_result path value t = ground (arith, create_lem path value t, stat-get t path)

  create-get :
      (path value : Text) (t : Tree) (j : Text)
      → zk.get (create path value t).1 j
        ≡ (if text_eq path j && not (is_some (zk.get t path)) then some value else zk.get t j)
      → get j (create path value t).1
        ≡ (if text_eq path j && not (exists path t) then ok value else get j t)
  unfolding get exists
  create-get path value t j e = ground (arith, e, stat-get t path)

  set_result :
      (path value : Text) (t : Tree)
      → (set path value t).0 ≡ (if exists path t then ok tt else raised no_node)
  unfolding set exists
  set_result path value t = ground (arith, set_lem path value t, stat-get t path)

  get-set :
      (path value : Text) (t : Tree) (j : Text)
      → get j (set path value t).1 ≡ (if text_eq path j && exists path t then ok value else get j t)
  unfolding get set exists
  get-set path value t j = ground (arith, zk.get-set path value t j, stat-get t path)

  delete_present : (path : Text) (t : Tree) → (delete path t).0 ≡ true → exists path t ≡ true
  unfolding delete exists
  delete_present path t h = ground (arith, delete_lem path t, stat-get t path)

  get-delete :
      (path : Text) (t : Tree) (j : Text)
      → get j (delete path t).1
        ≡ (if text_eq path j && (delete path t).0 then raised no_node else get j t)
  unfolding get delete
  get-delete path t j = ground (arith, zk.get-delete path t j)

  -- On zookeeper the functions keep the contract of a queue backend for every value.
  pub zookeeper-IsNodeStore : IsNodeStore (λ value. Unit {0}) zookeeper_nodes
  unfolding create
  zookeeper-IsNodeStore = record {
    get_missing = get_missing;
    get_present = get_present;
    create_result = λ path value t any. create_result path value t;
    get-create =
        λ path value t j any apart. create-get path value t j (zk.get-create path value t j apart);
    set_result = λ path value t any. set_result path value t;
    get-set = λ path value t j any. get-set path value t j;
    delete_present = delete_present;
    get-delete = get-delete;
  }
