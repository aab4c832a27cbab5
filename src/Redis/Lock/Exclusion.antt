-- ===== src/Redis/Lock/Exclusion.antt =====
-- Who holds the key of a lock, through every interleaving of the methods of class Lock in
-- stolos/queue_backend/qbcli_redis.py with each other and with the passing of time.
use stolos.Prelude.{
  ℕ, ◌+◌, ◌<◌, ◌≡◌, ◌≢◌, refl, true, false, some, List, [], ◌∷◌, arith, Text, text_eq, text_eq_iff,
  Bool-cases, inl, inr,
}
use stolos.Redis.Keys.{Keys}
use stolos.Redis.Lock.{Lock, ok, l_lock, l_unlock, l_extend_lock, acquire, release, extend}
use stolos.Redis.Lock.Frame.{
  Keeps, l_lock-Keeps, l_unlock-Keeps, l_extend_lock-Keeps, l_lock_refused, l_unlock_refused,
  l_extend_lock_refused, l_lock_granted,
}

-- What the holders of lock objects may do, and the passing of time.
pub data Move : Type 0 where
  acquires extends : (clock : ℕ) → Lock → Move
  releases : Lock → Move
  waits : ℕ → Move

-- The seconds that moves take.
abbrev pub duration : List Move → ℕ
duration [] = 0
duration (waits d ∷ ms) = d + duration ms
duration (_ ∷ ms) = duration ms

abbrev pub NotBy : Text → Text → Lock → Type 0
NotBy p c l = l.path ≡ p → l.client_id ≢ c

-- No move is made by this client at this path.
abbrev pub AreOther : Text → Text → List Move → Type 0
AreOther p c [] = Unit
AreOther p c (acquires _ l ∷ ms) = NotBy p c l × AreOther p c ms
AreOther p c (extends _ l ∷ ms) = NotBy p c l × AreOther p c ms
AreOther p c (releases l ∷ ms) = NotBy p c l × AreOther p c ms
AreOther p c (waits _ ∷ ms) = AreOther p c ms

module _ (r : Keys) where
  open r use {Store, now, get, deadline, elapse, get-elapse, now-elapse, deadline-elapse}

  pub apply : Move → Store → Store
  apply (acquires clock l) s = (acquire r clock l s).2
  apply (extends clock l) s = (extend r clock l.path l.client_id l s).1
  apply (releases l) s = (release r l s).2
  apply (waits d) s = elapse d s

  pub run : List Move → Store → Store
  unfolding apply
  run [] s = s
  run (m ∷ ms) s = run ms (apply m s)

  -- Client `c` holds the key until the time `t`, which has not come.
  pub record Owns (p c : Text) (t : ℕ) (s : Store) : Type 0 where
    pub held : get s p ≡ some c
    pub until : deadline s p ≡ some t
    pub alive : now s < t

  abbrev pub Holds : Text → Text → ℕ → Store → Store → Type 0
  Holds p c t s s' = Owns p c t s' × (now s' ≡ now s)

  module _ (p c : Text) (t : ℕ) (s : Store) (o : Owns p c t s) where
    pub Keeps-Holds : (s' : Store) → Keeps r p s s' → Holds p c t s s'
    Keeps-Holds s' k = ground arith

    module _ (q d : Text) (other : q ≡ p → d ≢ c) where
      l_lock-Holds : (e : ℕ) → Holds p c t s (l_lock r q d e s).1
      l_lock-Holds e = elim (Bool-cases (text_eq q p)) [
        | inl same ↦
            let eq = (text_eq_iff q p).0 same in
            rw eq (rw (l_lock_refused r p c d s o.held (other eq) e) (o, refl))
        | inr apart ↦ Keeps-Holds _ (l_lock-Keeps r p q apart d e s)
      ]

      l_unlock-Holds : Holds p c t s (l_unlock r q d s).1
      l_unlock-Holds = elim (Bool-cases (text_eq q p)) [
        | inl same ↦
            let eq = (text_eq_iff q p).0 same in
            rw eq (rw (l_unlock_refused r p c d s o.held (other eq)) (o, refl))
        | inr apart ↦ Keeps-Holds _ (l_unlock-Keeps r p q apart d s)
      ]

      l_extend_lock-Holds : (e : ℕ) → Holds p c t s (l_extend_lock r q d e s).1
      l_extend_lock-Holds e = elim (Bool-cases (text_eq q p)) [
        | inl same ↦
            let eq = (text_eq_iff q p).0 same in
            rw eq (rw (l_extend_lock_refused r p c d s o.held (other eq) e) (o, refl))
        | inr apart ↦ Keeps-Holds _ (l_extend_lock-Keeps r p q apart d e s)
      ]

    module _ (l : Lock) (other : NotBy p c l) where
      acquires-Holds : (clock : ℕ) → Holds p c t s (acquire r clock l s).2
      unfolding acquire
      acquires-Holds clock =
          let kept = l_lock-Holds l.path l.client_id other (clock + l.lock_timeout) in
          ground (arith, kept)

      releases-Holds : Holds p c t s (release r l s).2
      unfolding release
      releases-Holds = ground (arith, l_unlock-Holds l.path l.client_id other)

      extends-Holds : (clock : ℕ) → Holds p c t s (extend r clock l.path l.client_id l s).1
      unfolding extend
      extends-Holds clock = l_extend_lock-Holds l.path l.client_id other _

    pub waits-Owns : (d : ℕ) → now s + d < t → Owns p c t (elapse d s)
    waits-Owns d early = ground (arith, get-elapse d s p, deadline-elapse d s p, now-elapse d s)

  -- Whatever the others do, the client keeps its lock until its deadline.
  pub run-Owns :
      (p c : Text) (t : ℕ) (ms : List Move) (s : Store)
      → Owns p c t s
      → AreOther p c ms
      → now s + duration ms < t
      → Owns p c t (run ms s) × (now (run ms s) ≡ now s + duration ms)
  unfolding run
  run-Owns p c t [] s o a early = (o, omega arith)
  run-Owns p c t (acquires clock l ∷ ms) s o a early =
      let h = acquires-Holds p c t s o l a.0 clock in
      let ih = run-Owns p c t ms _ h.0 a.1 (omega (arith, h.1)) in (ih.0, omega (arith, ih.1, h.1))
  run-Owns p c t (extends clock l ∷ ms) s o a early =
      let h = extends-Holds p c t s o l a.0 clock in
      let ih = run-Owns p c t ms _ h.0 a.1 (omega (arith, h.1)) in (ih.0, omega (arith, ih.1, h.1))
  run-Owns p c t (releases l ∷ ms) s o a early =
      let h = releases-Holds p c t s o l a.0 in
      let ih = run-Owns p c t ms _ h.0 a.1 (omega (arith, h.1)) in (ih.0, omega (arith, ih.1, h.1))
  run-Owns p c t (waits d ∷ ms) s o a early =
      let e = now-elapse d s in
      let ih =
        run-Owns p c t ms (elapse d s) (waits-Owns p c t s o d (omega arith)) a
          (omega (arith, e)) in
      (ih.0, omega (arith, ih.1, e))

  -- A lock object whose `acquire` returned true.
  pub acquire-Owns :
      (clock : ℕ) (l : Lock) (s : Store)
      → (acquire r clock l s).0 ≡ ok true
      → now s < clock + l.lock_timeout
      → Owns l.path l.client_id (clock + l.lock_timeout) (acquire r clock l s).2
        × (now (acquire r clock l s).2 ≡ now s)
  unfolding acquire
  acquire-Owns clock l s done future =
      ground (arith, l_lock_granted r l.path l.client_id (clock + l.lock_timeout) s)

  acquire_refused :
      (p c : Text) (t clock : ℕ) (s : Store) (l : Lock)
      → Owns p c t s
      → l.path ≡ p
      → l.client_id ≢ c
      → (acquire r clock l s).0 ≡ ok false
  unfolding acquire
  acquire_refused p c t clock s l o e other =
      let refused = l_lock_refused r p c l.client_id s o.held other (clock + l.lock_timeout) in
      ground (arith, refused)

  -- Mutual exclusion. After an `acquire` that returned true, and any moves of other clients that
  -- end, on the server's clock, before the time that the client's clock showed plus the lock's
  -- timeout, the key still holds the client's id, and `acquire` of any object at this path with
  -- another client id returns false.
  pub acquire_excludes :
      (clock : ℕ) (l : Lock) (s : Store) (ms : List Move) (clock' : ℕ) (l' : Lock)
      → (acquire r clock l s).0 ≡ ok true
      → AreOther l.path l.client_id ms
      → now s + duration ms < clock + l.lock_timeout
      → l'.path ≡ l.path
      → l'.client_id ≢ l.client_id
      → let s' = run ms (acquire r clock l s).2 in
        (get s' l.path ≡ some l.client_id) × ((acquire r clock' l' s').0 ≡ ok false)
  acquire_excludes clock l s ms clock' l' done others early same other =
      let taken = acquire-Owns clock l s done (omega arith) in
      let kept = run-Owns _ _ _ ms _ taken.0 others (omega (arith, taken.1)) in
      (kept.0.held, acquire_refused _ _ _ clock' _ l' kept.0 same other)
