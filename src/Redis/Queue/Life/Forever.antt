-- ===== src/Redis/Queue/Life/Forever.antt =====
-- What stays true of a completed item, whatever is called on the queues in
-- stolos/queue_backend/qbcli_redis.py afterwards.
use stolos.Prelude.{
  ℕ, ◌+◌, ◌≡◌, ◌≢◌, refl, ◌∙◌, ap, sym, true, Option, none, some, List, [], ◌∷◌, arith, Text,
  text_eq_iff,
}
use stolos.Redis.Keys.{expired}
use stolos.Redis.Sets.{Redis}
use stolos.Redis.Scripts.{completed}
use stolos.Redis.Queue.{LockingQueue, get_item}
use stolos.Redis.Queue.Moves.{Move, IsIdle, apply, run}
use stolos.Redis.Queue.Frame.{lq_get_refused}
use stolos.Redis.Queue.Exclusion.{get_item_reply}
use stolos.Redis.Queue.Life.{
  Item, finished, until, Step, stay, take, finish, settle, extend, drop, expire, IsProper, item_at,
  view,
}
use stolos.Redis.Queue.Life.Steps.{apply-Step}

abbrev pub AreProper : Text → List Move → Type 0
AreProper p [] = Unit
AreProper p (m ∷ ms) = IsProper p m × AreProper p ms

-- No step leaves the state of an item that is finished without a deadline.
Step-finished :
    {p : Text} {t : ℕ} {m : Move} {x y : Item}
    → Step p t m x y
    → x ≡ finished none
    → y ≡ finished none
Step-finished (stay m x) e = e
Step-finished (take clock q later) e = cc
Step-finished (finish q c d own) e = refl
Step-finished (settle q d) e = refl
Step-finished (extend until k c q d here own later) e = cc
Step-finished (drop until k c q d here own past) e = cc
Step-finished {t = t} (expire n x over) e =
    let never : expired (until (finished none)) (t + n) ≡ true =
      ap (λ i. expired (until i) (t + n)) (sym e) ∙ over in
    cc never

item_at-finished :
    (g : Option Text) (d : Option ℕ)
    → item_at g d ≡ finished none
    → (g ≡ some completed) × (d ≡ none)
item_at-finished none d e = cc
item_at-finished (some v) d e = ground (arith, text_eq_iff v completed)

module _ (r : Redis) (p : Text) where
  open r use {Store, get, deadline}

  run-finished :
      (ms : List Move) (s : Store)
      → AreProper p ms
      → view r p s ≡ finished none
      → view r p (run r ms s) ≡ finished none
  unfolding run
  run-finished [] s proper e = e
  run-finished (m ∷ ms) s proper e =
      run-finished ms (apply r m s) proper.1 (Step-finished (apply-Step r p m s proper.0) e)

  -- An item that is marked as completed for ever stays so whatever is called afterwards, in any order
  -- and by any clients and however much time passes, and `get` of an idle object is never given the
  -- item again. No client has the id "completed", and no counter that is written has the item's key.
  pub completed_forever :
      (ms : List Move) (s : Store) (clock : ℕ) (q : LockingQueue)
      → get s p ≡ some completed
      → deadline s p ≡ none
      → AreProper p ms
      → IsIdle q
      → let s' = run r ms s in
        (get s' p ≡ some completed)
        × (deadline s' p ≡ none)
        × ((get_item r clock q s').1.h_k ≢ some p)
  completed_forever ms s clock q marked forever proper idle =
      let s' = run r ms s in
      let before : view r p s ≡ finished none = rw (marked, forever) refl in
      let (held, unbounded) =
        item_at-finished (get s' p) (deadline s' p) (run-finished ms s proper before) in
      (
        held,
        unbounded,
        λ again.
            lq_get_refused r p completed q.path q.client_id _ _ held
              (get_item_reply r clock q s' p idle again),
      )
