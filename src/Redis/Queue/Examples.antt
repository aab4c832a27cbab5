-- ===== src/Redis/Queue/Examples.antt =====
-- Two workers and a queue on a server in memory.
use stolos.Prelude.{
  ◌≡◌, ◌≢◌, refl, true, none, some, List, [], ◌∷◌, arith, Text, txt, decimal, split,
}
use stolos.Redis.Sets.Memory.{Tables, server, no_tables}
use stolos.Redis.Scripts.{completed, lq_get, lq_consume, lq_qsize_slow}
use stolos.Redis.Queue.{
  LockingQueue, ok, assertion_error, hashed_key, item_of, put, consume, get_item, size, is_queued,
}
use stolos.Redis.Queue.Moves.{Move, gets, consumes, extends, waits, apply, run, IsIdle}
use stolos.Redis.Queue.Exclusion.{get_excludes}
use stolos.Redis.Queue.Life.{Step, view}
use stolos.Redis.Queue.Life.Steps.{apply-Step}
use stolos.Redis.Queue.Life.Forever.{completed_forever}
use stolos.Redis.Queue.Consume.{IsConsumed, AreApart, Has, consume_completes, consume_lost}
use stolos.Redis.Queue.Lookup.{is_queued_suffix}
use stolos.Redis.Queue.Naming.{byte_lt, hashed_key-lt_of_longer}

abbrev worker : Text → LockingQueue
worker c = record {
  path = txt "app";
  client_id = c;
  lock_timeout = 60;
  item = none;
  h_k = none;
  locks = [];
}

abbrev ann : LockingQueue
ann = worker (txt "7")

abbrev bob : LockingQueue
bob = worker (txt "8")

abbrev key : Text
key = txt "100:5.0:11_2"

-- The item `11_2`, put at the time 5 with priority 100.
abbrev queued : Tables
queued = put server (txt "5.0") (txt "11_2") 100 ann (no_tables 100)

abbrev taken : Tables
taken = (get_item server 100 ann queued).2

definitions : Unit {0}
unfolding get_item put hashed_key decimal item_of consume size is_queued lq_get lq_qsize_slow split
definitions = tt

ann_gets : (get_item server 100 ann queued).1.h_k ≡ some key
unfolding definitions
ann_gets = refl

abbrev moves : List Move
moves = waits 20 ∷ gets 120 bob ∷ consumes bob ∷ extends 180 key bob ∷ waits 39 ∷ []

not_ann : txt "8" ≢ txt "7"
not_ann = ground arith

not_completed : txt "7" ≢ completed
not_completed = ground arith

idle : (c : Text) → IsIdle (worker c)
idle c = record { no_item = refl; no_h_k = refl }

get_excludes_example :
    let s' = run server moves taken in
    (server.get s' key ≡ some (txt "7")) × ((get_item server 159 bob s').1.h_k ≢ some key)
unfolding definitions
get_excludes_example =
    get_excludes server 100 ann queued key moves 159 bob (idle (txt "7")) ann_gets not_completed
      (tt, (not_ann, ((not_ann, refl), (not_ann, (tt, tt))))) (omega arith) (idle (txt "8"))

abbrev ann_working : LockingQueue
ann_working = record ann { item = some (txt "11_2"); h_k = some key; locks = (key, txt "7") ∷ [] }

apart : AreApart server ann_working key taken
unfolding definitions
apart = record { no_text = refl; queue_apart = refl; counter_apart = refl; no_queue = refl }

has : Has server ann_working key
has = record { has_item = refl; has_h_k = refl; has_lock = refl }

consume_completes_example :
    let (result, q', s') = consume server ann_working taken in
    (result ≡ ok tt)
    × (q'.item ≡ none)
    × IsConsumed server (txt "app") key s'
    × (server.counter s' (txt ".app") ≡ 1)
unfolding definitions
consume_completes_example =
    consume_completes server ann_working key taken apart has refl not_completed

consume_lost_example :
    consume server ann_working queued ≡ (assertion_error, record ann_working { locks = [] }, queued)
unfolding definitions
consume_lost_example = consume_lost server ann_working key queued has (ground arith) (ground arith)

-- `1_2` was never put.
is_queued_suffix_example : is_queued server (txt "1_2") bob queued ≡ true
unfolding definitions
is_queued_suffix_example =
    is_queued_suffix server (txt "100:5.0:1") b'1' (txt "_2") bob queued refl (refl, tt) refl

-- Priority 1 is the highest, and is listed behind priority 100.
hashed_key-lt_of_longer_example :
    byte_lt (hashed_key 100 (txt "9.0") (txt "b")) (hashed_key 1 (txt "5.0") (txt "a")) ≡ true
unfolding decimal
hashed_key-lt_of_longer_example =
    hashed_key-lt_of_longer 1 100 b'0' (txt "0") (txt "9.0") (txt "b") (txt "5.0") (txt "a") refl
      (omega arith)

apply-Step_example :
    Step key
      (server.now queued)
      (gets 100 ann)
      (view server key queued)
      (view server key (apply server (gets 100 ann) queued))
apply-Step_example = apply-Step server key (gets 100 ann) queued not_completed

abbrev done : Tables
done = (consume server ann_working taken).2

not_completed_bob : txt "8" ≢ completed
not_completed_bob = ground arith

abbrev more_moves : List Move
more_moves = waits 20 ∷ gets 120 bob ∷ consumes ann_working ∷ extends 180 key bob ∷ waits 3900 ∷ []

completed_forever_example :
    let s' = run server more_moves done in
    (server.get s' key ≡ some completed)
    × (server.deadline s' key ≡ none)
    × ((get_item server 4020 bob s').1.h_k ≢ some key)
unfolding definitions lq_consume
completed_forever_example =
    completed_forever server key more_moves done 4020 bob refl refl
      (tt, (not_completed_bob, ((not_completed, refl), (not_completed_bob, (tt, tt)))))
      (idle (txt "8"))
