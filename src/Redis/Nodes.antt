-- ===== src/Redis/Nodes.antt =====
-- stolos/queue_backend/qbcli_redis.py: the functions get, exists, delete, set, create and increment
-- of the module, over any server. `_recursive` of delete is for tests only. A text that is empty is stored as a stand-in.
pub mod Contract
mod Examples
use stolos.Prelude.{
  ℕ, ◌≡◌, ◌≢◌, refl, Bool, true, false, Option, none, some, [], ◌∷◌, arith, Text, txt, text_eq,
  text_eq_iff, text_eq_self, is_some, if◌then◌else◌, not, ◌&&◌,
}
use stolos.Jobs.Actions.{Result, ok, raised, no_node, node_exists}
use stolos.Redis.Keys.{Keys}
use stolos.Redis.Sets.{Redis}

unfoldable pub increment : (r : Redis) → Text → ℕ → r.Store → ℕ × r.Store
increment r path value s = r.incrby path value s

abbrev pub stand_in : Text
stand_in = txt "--STOLOSEMPTYSTRING--"

-- `if value == '': value = '--STOLOSEMPTYSTRING--'`
abbrev pub stored : Text → Text
stored [] = stand_in
stored (c ∷ t) = c ∷ t

abbrev pub loaded : Option Text → Result Text
loaded none = raised no_node
loaded (some rv) = if text_eq rv stand_in then ok [] else ok rv

module _ (r : Keys) where
  open r use {Store, del, set_nx, set_xx, set_nx_lem, set_xx_lem}

  unfoldable pub get : Text → Store → Result Text
  get path s = loaded (r.get s path)

  abbrev pub exists : Text → Store → Bool
  exists path s = is_some (r.get s path)

  unfoldable pub set : (path value : Text) → Store → Result Unit × Store
  set path value s =
      let (done, s') = set_xx path (stored value) s in (if done then ok tt else raised no_node, s')

  unfoldable pub create : (path value : Text) → Store → Result Unit × Store
  create path value s =
      let (done, s') = set_nx path (stored value) s in
      (if done then ok tt else raised node_exists, s')

  -- `delete` without _recursive: the server answers how many keys it removed.
  unfoldable pub delete : Text → Store → ℕ × Store
  delete path s = let (n, s') = del path s in (n, s')

  pub loaded-stored : (value : Text) → value ≢ stand_in → loaded (some (stored value)) ≡ ok value
  loaded-stored [] other = refl
  loaded-stored (c ∷ t) other = ground (arith, text_eq_iff (c ∷ t) stand_in)

  module _ (path value : Text) (s : Store) (other : value ≢ stand_in) where
    -- For a value that is not the stand-in: `create` raises NodeExistsError where the path exists
    -- and returns otherwise; what `get` then gives, or raises, is the value at a path that was
    -- created, also where it is empty, and what it was at every other path.
    pub get-create :
        (j : Text)
        → let (result, s') = create path value s in
          (result ≡ (if exists path s then raised node_exists else ok tt))
          × (get j s' ≡ (if text_eq path j && not (exists path s) then ok value else get j s))
    unfolding create get
    get-create j = ground (
      arith,
      set_nx_lem path (stored value) s,
      r.get-set path (stored value) s j,
      loaded-stored value other,
    )

    -- For a value that is not the stand-in: `set` raises NoNodeError where the path does not exist
    -- and returns otherwise; what `get` then gives, or raises, is the value at a path that was set,
    -- also where it is empty, and what it was at every other path.
    pub get-set :
        (j : Text)
        → let (result, s') = set path value s in
          (result ≡ (if exists path s then ok tt else raised no_node))
          × (get j s' ≡ (if text_eq path j && exists path s then ok value else get j s))
    unfolding set get
    get-set j = ground (
      arith,
      set_xx_lem path (stored value) s,
      r.get-set path (stored value) s j,
      loaded-stored value other,
    )
