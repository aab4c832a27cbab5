-- ===== src/Zookeeper/Client.antt =====
-- The kazoo client as stolos/queue_backend/qbcli_zookeeper.py uses it. The package is not part of the
-- repository, so it is a parameter: what its calls do to the nodes, and the errors that the code
-- catches. Data are bytes; encoding a text to utf8 and back gives the text.
pub mod Memory
use stolos.Prelude.{
  ℕ, ◌≡◌, Bool, true, false, not, ◌&&◌, Option, none, some, List, Text, text_eq, is_some,
  if◌then◌else◌,
}
use stolos.NodeStore.{is_above}

-- How `Lock.acquire` of kazoo ends.
pub data Acquired : Type 0 where
  answered : Bool → Acquired
  no_node lock_timeout : Acquired

pub record Client : Type 1 where
  pub Tree : Type 0
  -- `get(path)[0]`, none for NoNodeError; `exists(path).numChildren`, none for no node
  pub get : Tree → Text → Option Text
  pub stat : Tree → Text → Option ℕ
  -- `get_children(path)`, none for NoNodeError
  pub get_children : Tree → Text → Option (List Text)
  -- `set`, `create` with makepath, `delete`: the Boolean says that the call did not raise
  pub set : (path value : Text) → Tree → Bool × Tree
  pub create : (path value : Text) → Tree → Bool × Tree
  pub delete : Text → Tree → Bool × Tree
  -- `Counter(path)`, `+=` and `value`
  pub count : Text → ℕ → Tree → ℕ × Tree
  pub stat-get : (t : Tree) (path : Text) → is_some (stat t path) ≡ is_some (get t path)
  pub set_lem : (path value : Text) (t : Tree) → (set path value t).0 ≡ is_some (get t path)
  pub get-set :
      (path value : Text) (t : Tree) (j : Text)
      → get (set path value t).1 j
        ≡ (if text_eq path j && is_some (get t path) then some value else get t j)
  pub create_lem :
      (path value : Text) (t : Tree) → (create path value t).0 ≡ not (is_some (get t path))
  -- `makepath` may add the nodes above.
  pub get-create :
      (path value : Text) (t : Tree) (j : Text)
      → is_above j path ≡ false
      → get (create path value t).1 j
        ≡ (if text_eq path j && not (is_some (get t path)) then some value else get t j)
  -- A node with children is not deleted.
  pub delete_lem : (path : Text) (t : Tree) → (delete path t).0 ≡ true → is_some (get t path) ≡ true
  pub get-delete :
      (path : Text) (t : Tree) (j : Text)
      → get (delete path t).1 j ≡ (if text_eq path j && (delete path t).0 then none else get t j)
