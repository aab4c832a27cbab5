-- ===== src/NodeStore.antt =====
-- stolos/queue_backend/qbcli_baseapi.py: what the functions get, exists, delete, set and create of a
-- queue backend promise. A backend may add the nodes above a node that it creates, and may refuse
-- some values.
use stolos.Prelude.{
  ◌≡◌, Bool, true, false, not, ◌&&◌, Text, txt, text_eq, starts_with, ◌++◌, if◌then◌else◌,
}
use stolos.Jobs.Actions.{Result, ok, raised, no_node, node_exists}

pub record NodeStore : Type 1 where
  pub State : Type 0
  pub get : Text → State → Result Text
  pub exists : Text → State → Bool
  pub delete : Text → State → Bool × State
  pub set : (path value : Text) → State → Result Unit × State
  pub create : (path value : Text) → State → Result Unit × State

-- `path` is `above/…`.
abbrev pub is_above : (above path : Text) → Bool
is_above above path = starts_with (above ++ txt "/") path

module _ (Allowed : Text → Type 0) (n : NodeStore) where
  open n use {State, get, exists, delete, set, create}

  pub record IsNodeStore : Type 0 where
    pub get_missing :
        (path : Text) (s : State) → exists path s ≡ false → get path s ≡ raised no_node
    pub get_present :
        (path : Text) (s : State) → exists path s ≡ true → (value : Text) × (get path s ≡ ok value)
    pub create_result :
        (path value : Text) (s : State)
        → Allowed value
        → (create path value s).0 ≡ (if exists path s then raised node_exists else ok tt)
    pub get-create :
        (path value : Text) (s : State) (j : Text)
        → Allowed value
        → is_above j path ≡ false
        → get j (create path value s).1
          ≡ (if text_eq path j && not (exists path s) then ok value else get j s)
    pub set_result :
        (path value : Text) (s : State)
        → Allowed value
        → (set path value s).0 ≡ (if exists path s then ok tt else raised no_node)
    pub get-set :
        (path value : Text) (s : State) (j : Text)
        → Allowed value
        → get j (set path value s).1
          ≡ (if text_eq path j && exists path s then ok value else get j s)
    pub delete_present : (path : Text) (s : State) → (delete path s).0 ≡ true → exists path s ≡ true
    pub get-delete :
        (path : Text) (s : State) (j : Text)
        → get j (delete path s).1
          ≡ (if text_eq path j && (delete path s).0 then raised no_node else get j s)
