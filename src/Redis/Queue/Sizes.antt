-- ===== src/Redis/Queue/Sizes.antt =====
-- What `LockingQueue.size` of stolos/queue_backend/qbcli_redis.py counts.
use stolos.Prelude.{ℕ, ◌+◌, ◌≡◌, refl, true, false, List, [], ◌∷◌, arith, Text, length}
use stolos.Redis.Sets.{Redis}
use stolos.Redis.Scripts.{count_in, lq_qsize_fast, lq_qsize_slow}
use stolos.Redis.Queue.{LockingQueue, Result, ok, attribute_error, size}
use stolos.Redis.Queue.Lookup.{AreRunning}

abbrev value_of : Result ℕ → ℕ
value_of (ok n) = n
value_of _ = 0

module _ (r : Redis) where
  open r use {Store, zrange, zcard_lem}

  count_total :
      (ks : List Text) (s : Store)
      → AreRunning r ks s
      → count_in r false ks s + count_in r true ks s ≡ length ks
  unfolding count_in
  count_total [] s run = refl
  count_total (k ∷ ks) s run = ground (arith, count_total ks s run.1)

  -- While no member of the queue is marked as completed, the size with both flags, which the fast
  -- script reads off the sorted set, is the sum of the two sizes that the slow script counts; with
  -- neither flag the method raises AttributeError.
  size_total :
      (q : LockingQueue) (s : Store)
      → AreRunning r (zrange s q.path) s
      → let sized = λ (queued : _) (taken : _). (size r queued taken q s).0 in
        (sized true true ≡ ok (value_of (sized true false) + value_of (sized false true)))
        × (sized false false ≡ attribute_error)
  unfolding size lq_qsize_fast lq_qsize_slow
  size_total q s run = ground (arith, count_total (zrange s q.path) s run, zcard_lem s q.path)
