-- ===== src/Redis/Queue/Consume.antt =====
-- What `LockingQueue.consume` of stolos/queue_backend/qbcli_redis.py leaves on the server.
use stolos.Prelude.{
  ◌+◌, ◌≡◌, ◌≢◌, false, true, none, some, arith, Text, text_eq, text_eq_self, text_eq_iff, lookup,
  erase, is_some,
}
use stolos.Redis.Sets.{Redis}
use stolos.Redis.Lock.{is_value_iff}
use stolos.Redis.Scripts.{int, completed, lq_consume}
use stolos.Redis.Queue.{
  LockingQueue, ok, assertion_error, q_lookup, consume, pop_and_consume, finish_consume,
}

module _ (r : Redis) where
  open r use {
    Store, get, deadline, set, persist, zscore, zrem, counter, incrby, get-set, get-persist,
    deadline-persist, get-zrem, deadline-zrem, get-incrby, deadline-incrby, zscore-zrem,
    zscore-incrby, counter-set, counter-persist, counter-zrem, counter-incrby,
  }

  -- What marks the item as completed, and takes it off the queue.
  pub record IsConsumed (q h_k : Text) (s : Store) : Type 0 where
    pub marked : get s h_k ≡ some completed
    pub forever : deadline s h_k ≡ none
    pub unqueued : zscore s q h_k ≡ none

  module _ (k q qi : Text) (s : Store) (no_text : get s q ≡ none)
      (queue_apart : text_eq k q ≡ false) (counter_apart : text_eq k qi ≡ false)
      (no_queue : text_eq qi q ≡ false) where
    lq_consume_lem :
        (c : Text)
        → get s k ≡ some c
        → c ≢ completed
        → let (reply, s') = lq_consume r k q qi c s in
          (reply ≡ int 1) × IsConsumed q k s' × (counter s' qi ≡ counter s qi + 1)
    unfolding lq_consume
    lq_consume_lem c held running =
        let s₁ = set k completed s in
        let s₂ = persist k s₁ in
        let s₃ = zrem q k s₂ in
        ground (
          arith,
          is_value_iff (get s k) c,
          is_value_iff (get s k) completed,
          text_eq_self k,
          text_eq_self q,
          text_eq_self qi,
          get-set k completed s k,
          get-set k completed s q,
          get-persist k s₁ k,
          get-persist k s₁ q,
          deadline-persist k s₁ k,
          get-zrem q k s₂ k,
          deadline-zrem q k s₂ k,
          zscore-zrem q k s₂ q k,
          get-incrby qi 1 s₃ k,
          deadline-incrby qi 1 s₃ k,
          zscore-incrby qi 1 s₃ q k,
          counter-set k completed s qi,
          counter-persist k s₁ qi,
          counter-zrem q k s₂ qi,
          counter-incrby qi 1 s₃ qi,
          text_eq_iff k qi,
          text_eq_iff qi k,
        )

  -- The keys of an item, of its queue and of the queue's counter are three, and the queue's key
  -- holds no text.
  pub record AreApart (q : LockingQueue) (h_k : Text) (s : Store) : Type 0 where
    pub no_text : get s q.path ≡ none
    pub queue_apart : text_eq h_k q.path ≡ false
    pub counter_apart : text_eq h_k (q_lookup q) ≡ false
    pub no_queue : text_eq (q_lookup q) q.path ≡ false

  -- The object holds the item with this hashed key.
  pub record Has (q : LockingQueue) (h_k : Text) : Type 0 where
    pub has_item : is_some q.item ≡ true
    pub has_h_k : q.h_k ≡ some h_k
    pub has_lock : is_some (lookup h_k q.locks) ≡ true

  module _ (q : LockingQueue) (h_k : Text) (s : Store) where
    -- For an object that got an item and whose id the item's key still holds, `consume` returns,
    -- marks the item as completed for ever, takes it off the queue, counts it once, and leaves the
    -- object without an item. The keys of the item, the queue and the counter differ, the queue's
    -- key holds no text, and the client's id is not the text "completed".
    pub consume_completes :
        AreApart q h_k s
        → Has q h_k
        → get s h_k ≡ some q.client_id
        → q.client_id ≢ completed
        → let (result, q', s') = consume r q s in
          (result ≡ ok tt)
          × (q'.item ≡ none)
          × IsConsumed q.path h_k s'
          × (counter s' (q_lookup q) ≡ counter s (q_lookup q) + 1)
    unfolding consume pop_and_consume finish_consume
    consume_completes a h held running =
        let done =
          lq_consume_lem h_k q.path (q_lookup q) s a.no_text a.queue_apart a.counter_apart
            a.no_queue q.client_id held running in
        ground (arith, done)

    -- Where the lock of the item has expired or belongs to another client, and the item is not
    -- completed, `consume` raises AssertionError, writes nothing to the server, and the object keeps
    -- its item but not its lock.
    pub consume_lost :
        Has q h_k
        → get s h_k ≢ some q.client_id
        → get s h_k ≢ some completed
        → consume r q s ≡ (assertion_error, record q { locks = erase h_k q.locks }, s)
    unfolding consume pop_and_consume finish_consume lq_consume
    consume_lost h lost running =
        ground (arith, is_value_iff (get s h_k) q.client_id, is_value_iff (get s h_k) completed)
