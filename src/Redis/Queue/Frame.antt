-- ===== src/Redis/Queue/Frame.antt =====
-- What the queue's scripts leave alone: every key but the one that they take, and an item that
-- somebody else holds.
use stolos.Prelude.{
  ℕ, ◌≡◌, ◌≢◌, false, some, List, [], ◌∷◌, arith, Text, text_eq, text_eq_iff, Bool-cases, inl, inr,
}
use stolos.Redis.Sets.{Redis}
use stolos.Redis.Lock.Frame.{Keeps, Keeps-refl, Keeps-trans, set-Keeps, expireat-Keeps}
use stolos.Redis.Scripts.{bulk, completed, lq_put, lq_get, take_first, lq_extend_lock, lq_consume}

module _ (r : Redis) where
  open r use {
    Store, keys, now, get, deadline, set, set_nx_lem, expireat, persist, zincrby, zrem, incrby,
    now-persist, get-persist, deadline-persist, now-zincrby, get-zincrby, deadline-zincrby,
    now-zrem, get-zrem, deadline-zrem, now-incrby, get-incrby, deadline-incrby, zrange,
  }

  pub zincrby-Keeps : (p q : Text) (d : ℕ) (m : Text) (s : Store) → Keeps keys p s (zincrby q d m s)
  zincrby-Keeps p q d m s =
      ground (arith, now-zincrby q d m s, get-zincrby q d m s p, deadline-zincrby q d m s p)

  pub zrem-Keeps : (p q m : Text) (s : Store) → Keeps keys p s (zrem q m s)
  zrem-Keeps p q m s = ground (arith, now-zrem q m s, get-zrem q m s p, deadline-zrem q m s p)

  pub persist-Keeps : (p k : Text) (s : Store) → text_eq k p ≡ false → Keeps keys p s (persist k s)
  persist-Keeps p k s h = ground (arith, now-persist k s, get-persist k s p, deadline-persist k s p)

  pub incrby-Keeps :
      (p k : Text) (d : ℕ) (s : Store) → text_eq k p ≡ false → Keeps keys p s (incrby k d s).1
  incrby-Keeps p k d s h =
      ground (arith, now-incrby k d s, get-incrby k d s p, deadline-incrby k d s p)

  pub lq_put-Keeps : (p q h_k : Text) (s : Store) → Keeps keys p s (lq_put r q h_k s)
  unfolding lq_put
  lq_put-Keeps p q h_k s = zincrby-Keeps p q 0 h_k s

  module _ (p c d : Text) (other : d ≢ c) where
    take_first-Keeps :
        (q : Text) (e : ℕ) (ks : List Text) (s : Store)
        → get s p ≡ some c
        → Keeps keys p s (take_first r q d e ks s).1
    unfolding take_first
    take_first-Keeps q e [] s held = Keeps-refl keys p s
    take_first-Keeps q e (k ∷ ks) s held = elim (Bool-cases (text_eq k p)) [
      | inl same ↦ ground (arith, (text_eq_iff k p).0 same, set_nx_lem k d s, Keeps-refl keys p s)
      | inr apart ↦
          let written = set-Keeps keys p k apart d s in
          let leased = Keeps-trans keys p written (expireat-Keeps keys p k apart e (set k d s)) in
          let ranked =
            Keeps-trans keys p leased (zincrby-Keeps p q 1 k (expireat k e (set k d s)).1) in
          ground (arith, set_nx_lem k d s, leased, ranked, Keeps-refl keys p s)
    ]

    pub lq_get-Keeps :
        (q : Text) (e : ℕ) (s : Store) → get s p ≡ some c → Keeps keys p s (lq_get r q d e s).1
    unfolding lq_get
    lq_get-Keeps q e s held = take_first-Keeps q e (zrange s q) s held

    pub lq_extend_lock-Keeps :
        (k : Text) (e : ℕ) (s : Store)
        → get s p ≡ some c
        → Keeps keys p s (lq_extend_lock r k d e s).1
    unfolding lq_extend_lock
    lq_extend_lock-Keeps k e s held = elim (Bool-cases (text_eq k p)) [
      | inl same ↦ ground (arith, (text_eq_iff k p).0 same, text_eq_iff c d, Keeps-refl keys p s)
      | inr apart ↦ ground (arith, expireat-Keeps keys p k apart e s, Keeps-refl keys p s)
    ]

    pub lq_consume-Keeps :
        (k q qi : Text) (s : Store)
        → get s p ≡ some c
        → c ≢ completed
        → text_eq qi p ≡ false
        → Keeps keys p s (lq_consume r k q qi d s).1
    unfolding lq_consume
    lq_consume-Keeps k q qi s held running apart_qi = elim (Bool-cases (text_eq k p)) [
      | inl same ↦ ground (
        arith,
        (text_eq_iff k p).0 same,
        text_eq_iff c d,
        text_eq_iff c completed,
        Keeps-refl keys p s,
      )
      | inr apart ↦
          let s₁ = set k completed s in
          let s₂ = persist k s₁ in
          let done =
            Keeps-trans keys p (set-Keeps keys p k apart completed s)
              (persist-Keeps p k s₁ apart) in
          let removed = Keeps-trans keys p done (zrem-Keeps p q k s₂) in
          let counted = Keeps-trans keys p removed (incrby-Keeps p qi 1 (zrem q k s₂) apart_qi) in
          ground (arith, removed, counted, Keeps-refl keys p s)
    ]

  -- An item whose key somebody holds is not handed out.
  take_first_refused :
      (p c q d : Text) (e : ℕ) (ks : List Text) (s : Store)
      → get s p ≡ some c
      → (take_first r q d e ks s).0 ≢ bulk p
  unfolding take_first
  take_first_refused p c q d e [] s held = ground arith
  take_first_refused p c q d e (k ∷ ks) s held = ground (arith, set_nx_lem k d s)

  pub lq_get_refused :
      (p c q d : Text) (e : ℕ) (s : Store) → get s p ≡ some c → (lq_get r q d e s).0 ≢ bulk p
  unfolding lq_get
  lq_get_refused p c q d e s held = take_first_refused p c q d e (zrange s q) s held
