-- ===== src/Redis/Nodes/Contract.antt =====
-- The functions of stolos/queue_backend/qbcli_redis.py keep the contract of qbcli_baseapi.py.
use stolos.Prelude.{
  ◌≡◌, ◌≢◌, refl, true, false, not, arith, Text, text_eq, text_eq_iff, Option-cases, Bool-cases, [],
  inl, inr, if◌then◌else◌, ◌==◌, ◌&&◌,
}
use stolos.Jobs.Actions.{ok, raised, no_node}
use stolos.NodeStore.{NodeStore, IsNodeStore}
use stolos.Redis.Keys.{Keys}
use stolos.Redis.Nodes.{stand_in, get, exists, set, create, delete, get-create, get-set}

-- The module qbcli_redis; the number that `delete` returns is true where it is not 0.
abbrev pub redis_nodes : Keys → NodeStore
redis_nodes r = record {
  State = r.Store;
  get = get r;
  exists = exists r;
  delete = λ path s. let (n, s') = delete r path s in (not (n == 0), s');
  set = set r;
  create = create r;
}

-- Any value but the stand-in for the empty text.
abbrev pub IsNoStandIn : Text → Type 0
IsNoStandIn value = value ≢ stand_in

module _ (r : Keys) where
  open r use {Store, del-reply, get-del}

  get_missing : (path : Text) (s : Store) → exists r path s ≡ false → get r path s ≡ raised no_node
  unfolding get
  get_missing path s h = ground arith

  get_present :
      (path : Text) (s : Store)
      → exists r path s ≡ true
      → (value : Text) × (get r path s ≡ ok value)
  unfolding get
  get_present path s h = elim (Option-cases (r.get s path)) [
    | inl missing ↦ cc (rw missing at h)
    | inr (v, held) ↦ elim (Bool-cases (text_eq v stand_in)) [
      | inl empty ↦ ([], rw (held, empty) refl)
      | inr plain ↦ (v, rw (held, plain) refl)
    ]
  ]

  delete_present :
      (path : Text) (s : Store) → not ((delete r path s).0 == 0) ≡ true → exists r path s ≡ true
  unfolding delete
  delete_present path s h = ground (arith, del-reply path s)

  get-delete :
      (path : Text) (s : Store) (j : Text)
      → get r j (delete r path s).1
        ≡ (if text_eq path j && not ((delete r path s).0 == 0) then raised no_node else get r j s)
  unfolding get delete
  get-delete path s j = ground (arith, del-reply path s, get-del path s j, text_eq_iff path j)

  -- On redis the functions keep the contract for every value but the stand-in for the empty text.
  pub redis-IsNodeStore : IsNodeStore IsNoStandIn (redis_nodes r)
  redis-IsNodeStore = record {
    get_missing = get_missing;
    get_present = get_present;
    create_result = λ path value s other. (get-create r path value s other path).0;
    get-create = λ path value s j other apart. (get-create r path value s other j).1;
    set_result = λ path value s other. (get-set r path value s other path).0;
    get-set = λ path value s j other. (get-set r path value s other j).1;
    delete_present = delete_present;
    get-delete = get-delete;
  }
