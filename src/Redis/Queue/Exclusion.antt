-- ===== src/Redis/Queue/Exclusion.antt =====
-- Who works on an item, through every interleaving of the methods of class LockingQueue in
-- stolos/queue_backend/qbcli_redis.py with each other and with the passing of time.
use stolos.Prelude.{
  ℕ, ◌+◌, ◌<◌, ◌≡◌, ◌≢◌, Option, none, some, List, [], ◌∷◌, arith, Text, text_eq_self, erase,
}
use stolos.Redis.Sets.{Redis}
use stolos.Redis.Scripts.{
  Reply, bulk, queue_empty, already_locked, completed, take_first, lq_get, lq_consume,
}
use stolos.Redis.Lock.Exclusion.{Owns, Holds, Keeps-Holds, waits-Owns}
use stolos.Redis.Queue.{
  LockingQueue, q_lookup, put, consume, pop_and_consume, get_item, after_get, unpack,
}
use stolos.Redis.Queue.Frame.{
  lq_put-Keeps, lq_get-Keeps, lq_consume-Keeps, lq_extend_lock-Keeps, lq_get_refused,
}
use stolos.Redis.Queue.Moves.{
  Move, gets, consumes, puts, extends, waits, seconds, duration, IsOther, AreOther, IsIdle, apply,
  run, after_get_store, finish_consume_store,
}

module _ (r : Redis) where
  open r use {
    Store, keys, now, get, set, expireat, elapse, now-elapse, zrange, set_nx_lem, get-set,
    deadline-set, now-set, get-expireat, deadline-expireat, now-expireat, get-zincrby,
    deadline-zincrby, now-zincrby,
  }

  module _ (p c : Text) (t : ℕ) (s : Store) (o : Owns keys p c t s) (running : c ≢ completed) where
    gets-Holds :
        (clock : ℕ) (q : LockingQueue)
        → q.client_id ≢ c
        → Holds keys p c t s (get_item r clock q s).2
    unfolding get_item
    gets-Holds clock q other =
        let e = clock + q.lock_timeout in
        let got = lq_get r q.path q.client_id e s in
        let kept =
          Keeps-Holds keys p c t s o got.1
            (lq_get-Keeps r p c q.client_id other q.path e s o.held) in
        ground (arith, kept, after_get_store r got.0 q got.1)

    pop-Holds :
        (h_k : Option Text) (q : LockingQueue)
        → IsOther p c (consumes q)
        → Holds keys p c t s (pop_and_consume r h_k q s).2
    unfolding pop_and_consume
    pop-Holds none q other = ground arith
    pop-Holds (some k) q other =
        let done = lq_consume r k q.path (q_lookup q) q.client_id s in
        let kept = Keeps-Holds keys p c t s o done.1 (
          lq_consume-Keeps r p c q.client_id other.0 k q.path (q_lookup q) s o.held running
            other.1) in
        ground
          (arith, kept, finish_consume_store r done.0 (record q { locks = erase k q.locks }) done.1)

    consumes-Holds :
        (q : LockingQueue) → IsOther p c (consumes q) → Holds keys p c t s (consume r q s).2
    unfolding consume
    consumes-Holds q other = ground (arith, pop-Holds q.h_k q other)

    -- A move of another client leaves the item with its holder until the deadline.
    step-Owns :
        (m : Move)
        → IsOther p c m
        → now s + seconds m < t
        → Owns keys p c t (apply r m s) × (now (apply r m s) ≡ now s + seconds m)
    unfolding apply put
    step-Owns (gets clock q) other early =
        let h = gets-Holds clock q other in (h.0, omega (arith, h.1))
    step-Owns (consumes q) other early = let h = consumes-Holds q other in (h.0, omega (arith, h.1))
    step-Owns (puts stamp value priority q) other early =
        let h = Keeps-Holds keys p c t s o _ (lq_put-Keeps r p q.path _ s) in
        (h.0, omega (arith, h.1))
    step-Owns (extends e k q) other early =
        let kept = lq_extend_lock-Keeps r p c q.client_id other k e s o.held in
        let h = Keeps-Holds keys p c t s o _ kept in (h.0, omega (arith, h.1))
    step-Owns (waits d) other early = (waits-Owns keys p c t s o d early, now-elapse d s)

  run-Owns :
      (p c : Text) (t : ℕ) (ms : List Move) (s : Store)
      → Owns keys p c t s
      → c ≢ completed
      → AreOther p c ms
      → now s + duration ms < t
      → Owns keys p c t (run r ms s)
  unfolding run
  run-Owns p c t [] s o running a early = o
  run-Owns p c t (m ∷ ms) s o running a early =
      let h = step-Owns p c t s o running m a.0 (omega arith) in
      run-Owns p c t ms (apply r m s) h.0 running a.1 (omega (arith, h.1))

  take_first_granted :
      (p q c : Text) (e : ℕ) (ks : List Text) (s : Store)
      → (take_first r q c e ks s).0 ≡ bulk p
      → now s < e
      → let s' = (take_first r q c e ks s).1 in Owns keys p c e s' × (now s' ≡ now s)
  unfolding take_first
  take_first_granted p q c e [] s got future = absurd (ground arith)
  take_first_granted p q c e (k ∷ ks) s got future =
      let s₁ = set k c s in
      let s₂ = (expireat k e s₁).1 in
      ground (
        arith,
        set_nx_lem k c s,
        get-set k c s k,
        deadline-set k c s k,
        now-set k c s,
        get-expireat k e s₁ k,
        deadline-expireat k e s₁ k,
        now-expireat k e s₁,
        get-zincrby q 1 k s₂ k,
        deadline-zincrby q 1 k s₂ k,
        now-zincrby q 1 k s₂,
        text_eq_self k,
      )

  lq_get_granted :
      (p q c : Text) (e : ℕ) (s : Store)
      → (lq_get r q c e s).0 ≡ bulk p
      → now s < e
      → let s' = (lq_get r q c e s).1 in Owns keys p c e s' × (now s' ≡ now s)
  unfolding lq_get
  lq_get_granted p q c e s got future = take_first_granted p q c e (zrange s q) s got future

  -- An object without an item has a hashed key after `get` only from the script's answer.
  after_get_h_k :
      (reply : Reply) (q : LockingQueue) (s : Store) (p : Text)
      → q.h_k ≡ none
      → (after_get r reply q s).1.h_k ≡ some p
      → reply ≡ bulk p
  unfolding after_get unpack
  after_get_h_k (bulk h_k) q s p idle got = ground arith
  after_get_h_k queue_empty q s p idle got = ground arith
  after_get_h_k already_locked q s p idle got = ground arith
  after_get_h_k _ q s p idle got = cc

  pub get_item_reply :
      (clock : ℕ) (q : LockingQueue) (s : Store) (p : Text)
      → IsIdle q
      → (get_item r clock q s).1.h_k ≡ some p
      → (lq_get r q.path q.client_id (clock + q.lock_timeout) s).0 ≡ bulk p
  unfolding get_item
  get_item_reply clock q s p idle got =
      let reply = lq_get r q.path q.client_id (clock + q.lock_timeout) s in
      ground (arith, after_get_h_k reply.0 q reply.1 p)

  get_item_store :
      (clock : ℕ) (q : LockingQueue) (s : Store)
      → q.item ≡ none
      → (get_item r clock q s).2 ≡ (lq_get r q.path q.client_id (clock + q.lock_timeout) s).1
  unfolding get_item
  get_item_store clock q s idle =
      let reply = lq_get r q.path q.client_id (clock + q.lock_timeout) s in
      ground (arith, after_get_store r reply.0 q reply.1)

  -- One worker at a time. After `get` gave an idle object the item with hashed key `p`, and any
  -- calls by other clients that end, on the server's clock, before the time that this client's
  -- clock showed plus the lock's timeout, the key of the item still holds this client's id, and
  -- `get` of no other idle object is given the item. The client's id is not the text "completed".
  pub get_excludes :
      (clock : ℕ) (q : LockingQueue) (s : Store) (p : Text) (ms : List Move) (clock' : ℕ)
      (q' : LockingQueue)
      → IsIdle q
      → (get_item r clock q s).1.h_k ≡ some p
      → q.client_id ≢ completed
      → AreOther p q.client_id ms
      → now s + duration ms < clock + q.lock_timeout
      → IsIdle q'
      → let s' = run r ms (get_item r clock q s).2 in
        (get s' p ≡ some q.client_id) × ((get_item r clock' q' s').1.h_k ≢ some p)
  get_excludes clock q s p ms clock' q' idle got running others early idle' =
      let e = clock + q.lock_timeout in
      let leased =
        lq_get_granted p q.path q.client_id e s (get_item_reply clock q s p idle got)
          (omega arith) in
      let stored = get_item_store clock q s idle.no_item in
      let kept =
        run-Owns p q.client_id e ms (get_item r clock q s).2 (rw stored leased.0) running others
          (rw stored (omega (arith, leased.1))) in
      (
        kept.held,
        λ again.
            lq_get_refused r p q.client_id q'.path q'.client_id _ _ kept.held
              (get_item_reply clock' q' _ p idle' again),
      )
