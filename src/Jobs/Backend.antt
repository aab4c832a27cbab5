-- ===== src/Jobs/Backend.antt =====
-- stolos/queue_backend/qbcli_baseapi.py: what a queue backend promises. A backend is chosen by
-- configuration, so it is a parameter: nodes with a text at a path, locks at a path, and a queue
-- of jobs for each app. The laws state the documented effect of each call; a write at a path
-- leaves the locks and nodes at other paths alone. `acquire` may make the nodes above its path that do
-- not exist yet, with no text in them, as zookeeper does; the functions on nodes and locks are called
-- for the paths of jobs, of their locks and of their counters. `holds` says that a lock object still
-- owns its path, which a lock's expiry can end between two calls. `jobs` lists what an app's queue
-- holds in the order in which it was put there; the priorities decide in which order it is taken.
pub mod Memory
use stolos.Prelude.{
  ℕ, suc, ◌≡◌, ◌⊎◌, Bool, true, false, not, ◌&&◌, ◌||◌, Option, none, some, List, [], ◌∷◌, ◌++◌,
  Text, text_eq, mem_text, is_some, if◌then◌else◌,
}
use stolos.Jobs.Actions.{Action, Result, ok, raised, no_node, node_exists, user_warning}

pub record Backend : Type 1 where
  pub State : Type 0
  pub Lock : Type 0
  -- the observable state
  pub node : State → Text → Option Text
  pub locked : State → Text → Bool
  pub holds : Lock → State → Bool
  pub lock_path : Lock → Text
  pub jobs : State → Text → List Text
  -- the calls: a write to a node, `Lock(path).acquire()`, `release`, `LockingQueue(app).put`
  pub write : Text → Text → State → State
  pub acquire : Text → State → Option Lock × State
  pub release : Lock → State → Bool × State
  pub put : (app job : Text) → Option ℕ → State → State
  pub node-write :
      (p v : Text) (s : State) (j : Text)
      → node (write p v s) j ≡ (if text_eq p j then some v else node s j)
  pub locked-write :
      (p v : Text) (s : State) (j : Text)
      → text_eq p j ≡ false
      → locked (write p v s) j ≡ locked s j
  pub holds-write :
      (p v : Text) (s : State) (l : Lock)
      → text_eq p (lock_path l) ≡ false
      → holds l (write p v s) ≡ holds l s
  pub jobs-write : (p v : Text) (s : State) (a : Text) → jobs (write p v s) a ≡ jobs s a
  pub acquire_free :
      (p : Text) (s : State)
      → locked s p ≡ false
      → (l : Lock) × ((acquire p s).0 ≡ some l)
        × (lock_path l ≡ p)
        × (holds l (acquire p s).1 ≡ true)
  pub acquire_taken : (p : Text) (s : State) → locked s p ≡ true → acquire p s ≡ (none, s)
  pub node-acquire :
      (p : Text) (s : State) (j v : Text)
      → text_eq p j ≡ false
      → node s j ≡ some v
      → node (acquire p s).1 j ≡ some v
  pub node-acquire_absent :
      (p : Text) (s : State) (j : Text)
      → text_eq p j ≡ false
      → node s j ≡ none
      → (node (acquire p s).1 j ≡ none) ⊎ (node (acquire p s).1 j ≡ some [])
  pub locked-acquire :
      (p : Text) (s : State) (j : Text) → locked (acquire p s).1 j ≡ (locked s j || text_eq p j)
  pub jobs-acquire : (p : Text) (s : State) (a : Text) → jobs (acquire p s).1 a ≡ jobs s a
  pub release_held : (l : Lock) (s : State) → holds l s ≡ true → (release l s).0 ≡ true
  pub node-release :
      (l : Lock) (s : State) (j : Text)
      → text_eq (lock_path l) j ≡ false
      → node (release l s).1 j ≡ node s j
  pub locked-release :
      (l : Lock) (s : State) (j : Text)
      → holds l s ≡ true
      → locked (release l s).1 j ≡ (locked s j && not (text_eq (lock_path l) j))
  pub jobs-release : (l : Lock) (s : State) (a : Text) → jobs (release l s).1 a ≡ jobs s a
  pub node-put :
      (app job : Text) (priority : Option ℕ) (s : State) (j : Text)
      → node (put app job priority s) j ≡ node s j
  pub locked-put :
      (app job : Text) (priority : Option ℕ) (s : State) (j : Text)
      → locked (put app job priority s) j ≡ locked s j
  pub holds-put :
      (app job : Text) (priority : Option ℕ) (s : State) (l : Lock)
      → holds l (put app job priority s) ≡ holds l s
  pub jobs-put :
      (app job : Text) (priority : Option ℕ) (s : State) (a : Text)
      → jobs (put app job priority s) a ≡ (if text_eq app a then jobs s a ++ job ∷ [] else jobs s a)

-- The functions of the module, with the errors that their docstrings name.
module _ (b : Backend) where
  open b use {State, Lock, node, write, release}

  unfoldable pub get : Text → Action State Text
  get path s = elim (node s path) [ none ↦ (raised no_node, s) | some v ↦ (ok v, s) ]

  unfoldable pub exists : Text → State → Bool
  exists path s = is_some (node s path)

  unfoldable pub set : (path value : Text) → Action State Unit
  set path value s =
      if is_some (node s path) then (ok tt, write path value s) else (raised no_node, s)

  unfoldable pub create : (path value : Text) → Action State Unit
  create path value s =
      if is_some (node s path) then (raised node_exists, s) else (ok tt, write path value s)

  -- `lock.release()`
  unfoldable pub release_lock : Lock → Action State Unit
  release_lock l s =
      let (done, s') = release l s in (if done then ok tt else raised user_warning, s')
