-- ===== src/Redis/Lock/Extender.antt =====
-- The background loop of stolos/queue_backend/qbcli_redis.py that keeps locks alive,
-- `_extend_lock_in_background`: its sleep leaves time for the next round.
use stolos.Prelude.{
  ℕ, ◌+◌, ◌<◌, ◌≤◌, ◌≡◌, refl, Bool, true, some, List, [], ◌∷◌, arith, Dict, Text, text_eq_self,
  ◌&&◌,
}
use stolos.Redis.Keys.{Keys}
use stolos.Redis.Lock.{Lock, l_extend_lock, extend, extend_all, sleep_time}
use stolos.Redis.Lock.Exclusion.{Move, duration, AreOther, run, Owns, run-Owns}

sleep_time_lem : (t d x z : ℕ) → sleep_time t d x ≡ some z → (d + x + z ≡ t) × (d + x < t)
unfolding sleep_time
sleep_time_lem t d x z h = ground arith

-- What happens before the round's script runs, from there to the end of the round, and while the
-- loop sleeps.
pub record Round : Type 0 where
  pub before : List Move
  pub rest : List Move
  pub asleep : List Move

module _ (r : Keys) where
  open r use {Store, now, get, get-expireat, deadline-expireat, now-expireat, expireat-reply}

  -- One round of the loop among the moves of the others.
  round : Lock → Round → Store → Bool × Store
  round l w s =
      let (ok, s') = extend_all r (now s) l l.locks (run r w.before s) in
      (ok, run r w.asleep (run r w.rest s'))

  pub rounds : Lock → List Round → Store → Bool × Store
  rounds l [] s = (true, s)
  rounds l (w ∷ ws) s =
      let (ok, s') = round l w s in let (others, s'') = rounds l ws s' in (ok && others, s'')

  module _ (p c : Text) (s : Store) (l : Lock) (t clock : ℕ) (o : Owns r p c t s)
      (early : now s < clock + l.lock_timeout + 1) where
    extend_all_lem :
        (locks : Dict Text)
        → locks ≡ (p, c) ∷ []
        → extend_all r clock l locks s ≡ (true, (extend r clock p c l s).1)
    unfolding extend_all extend l_extend_lock
    extend_all_lem locks one =
        ground (arith, text_eq_self c, expireat-reply p (clock + l.lock_timeout + 1) s)

    extend-Owns :
        let s' = (extend r clock p c l s).1 in
        Owns r p c (clock + l.lock_timeout + 1) s' × (now s' ≡ now s)
    unfolding extend l_extend_lock
    extend-Owns =
        let e = clock + l.lock_timeout + 1 in
        ground (
          arith,
          text_eq_self c,
          text_eq_self p,
          get-expireat p e s p,
          deadline-expireat p e s p,
          now-expireat p e s,
        )

  -- The script runs within `delay` of the round's start, the others do not touch the client's
  -- lock, and the loop sleeps as `sleep_time` says.
  pub record IsTimely (l : Lock) (delay : ℕ) (w : Round) : Type 0 where
    pub prompt : duration w.before ≤ delay
    pub slept :
        sleep_time l.lock_timeout delay (duration w.before + duration w.rest)
        ≡ some (duration w.asleep)
    pub others_before : AreOther l.path l.client_id w.before
    pub others_rest : AreOther l.path l.client_id w.rest
    pub others_asleep : AreOther l.path l.client_id w.asleep

  abbrev pub AreTimely : Lock → ℕ → List Round → Type 0
  AreTimely l delay [] = Unit
  AreTimely l delay (w ∷ ws) = IsTimely l delay w × AreTimely l delay ws

  -- The lock outlives the longest delay.
  record HasSlack (l : Lock) (delay t : ℕ) (s : Store) : Type 0 where
    owns : Owns r l.path l.client_id t s
    slack : now s + delay < t

  module _ (l : Lock) (delay : ℕ) (one : l.locks ≡ (l.path, l.client_id) ∷ []) where
    round_renews :
        (t : ℕ) (w : Round) (s : Store)
        → HasSlack l delay t s
        → IsTimely l delay w
        → ((round l w s).0 ≡ true) × HasSlack l delay (now s + l.lock_timeout + 1) (round l w s).1
    unfolding round
    round_renews t w s h i =
        let p = l.path in
        let c = l.client_id in
        let fits = sleep_time_lem l.lock_timeout delay _ _ i.slept in
        let t' = now s + l.lock_timeout + 1 in
        let s₁ = run r w.before s in
        let s₂ = (extend r (now s) p c l s₁).1 in
        let b = run-Owns r p c t w.before s h.owns i.others_before (omega arith) in
        let e = extend-Owns p c s₁ l t (now s) b.0 (omega (arith, b.1, fits)) in
        let m = run-Owns r p c t' w.rest s₂ e.0 i.others_rest (omega (arith, b.1, e.1, fits)) in
        let z =
          run-Owns r p c t' w.asleep (run r w.rest s₂) m.0 i.others_asleep
            (omega (arith, b.1, e.1, m.1, fits)) in
        rw (extend_all_lem p c s₁ l t (now s) b.0 (omega (arith, b.1, fits)) l.locks one)
          (refl, record { owns = z.0; slack = omega (arith, b.1, e.1, m.1, z.1, fits) })

    -- An object with one lock, which it owns for longer than `delay`, and whose clock agrees with
    -- the server's at the start of each round: while every round is timely, the loop never gives up
    -- and the client never loses its lock.
    pub extender_sustains :
        (t : ℕ) (ws : List Round) (s : Store)
        → Owns r l.path l.client_id t s
        → now s + delay < t
        → AreTimely l delay ws
        → ((rounds l ws s).0 ≡ true) × (get (rounds l ws s).1 l.path ≡ some l.client_id)
    unfolding rounds
    extender_sustains t [] s o slack i = (refl, o.held)
    extender_sustains t (w ∷ ws) s o slack i =
        let h = round_renews t w s (record { owns = o; slack = slack }) i.0 in
        let ih =
          extender_sustains (now s + l.lock_timeout + 1) ws (round l w s).1 h.1.owns h.1.slack
            i.1 in
        (rw (h.0, ih.0) refl, ih.1)
