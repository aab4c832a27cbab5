-- ===== src/Redis/Lock/Examples.antt =====
-- Two lock objects on a server in memory.
use stolos.Prelude.{◌≡◌, ◌≢◌, refl, true, false, some, List, [], ◌∷◌, arith, Text, txt}
use stolos.Redis.Keys.Memory.{Table, memory, no_keys}
use stolos.Redis.Lock.{Lock, ok, user_warning, acquire, release, sleep_time}
use stolos.Redis.Lock.Exclusion.{
  Move, acquires, extends, releases, waits, run, Owns, acquire_excludes,
}
use stolos.Redis.Lock.Release.{release_outcome}
use stolos.Redis.Lock.Extender.{Round, IsTimely, rounds, extender_sustains}

abbrev lock_of : Text → Lock
lock_of c = record { path = txt "app/j/lock"; client_id = c; lock_timeout = 60; locks = [] }

abbrev ann : Lock
ann = lock_of (txt "7")

abbrev bob : Lock
bob = lock_of (txt "8")

abbrev moves : List Move
moves = waits 20 ∷ acquires 120 bob ∷ releases bob ∷ extends 120 bob ∷ waits 39 ∷ []

-- The server after `ann` has acquired at the time 100.
abbrev taken : Table
taken = (acquire memory 100 ann (no_keys 100)).2

ann_acquires : (acquire memory 100 ann (no_keys 100)).0 ≡ ok true
unfolding acquire
ann_acquires = refl

not_ann : txt "8" ≢ txt "7"
not_ann = ground arith

acquire_excludes_example :
    let s' = run memory moves taken in
    (memory.get s' (txt "app/j/lock") ≡ some (txt "7")) × ((acquire memory 159 bob s').0 ≡ ok false)
acquire_excludes_example =
    acquire_excludes memory 100 ann (no_keys 100) moves 159 bob ann_acquires
      ((λ _. not_ann), ((λ _. not_ann), ((λ _. not_ann), tt))) (omega arith) refl not_ann

abbrev ann_holding : Lock
ann_holding = record ann { locks = (txt "app/j/lock", txt "7") ∷ [] }

-- The lock expired, and the other client took it: the release fails and leaves it in place.
abbrev stolen_by_bob : Table
stolen_by_bob = memory.set (txt "app/j/lock") (txt "8") (no_keys 100)

release_outcome_example :
    ((release memory ann_holding stolen_by_bob).0 ≡ user_warning)
    × (memory.get (release memory ann_holding stolen_by_bob).2 (txt "app/j/lock") ≡ some (txt "8"))
release_outcome_example = release_outcome memory ann_holding stolen_by_bob (txt "app/j/lock")

abbrev round_of_30 : Round
round_of_30 = record {
  before = waits 10 ∷ acquires 110 bob ∷ [];
  rest = waits 2 ∷ [];
  asleep = waits 18 ∷ [];
}

round-IsTimely : IsTimely memory ann_holding 30 round_of_30
unfolding sleep_time
round-IsTimely = record {
  prompt = omega arith;
  slept = refl;
  others_before = ((λ _. not_ann), tt);
  others_rest = tt;
  others_asleep = tt;
}

taken-Owns : Owns memory (txt "app/j/lock") (txt "7") 160 taken
unfolding acquire
taken-Owns = record { held = refl; until = refl; alive = omega arith }

extender_sustains_example :
    let (going, s') = rounds memory ann_holding (round_of_30 ∷ round_of_30 ∷ []) taken in
    (going ≡ true) × (memory.get s' (txt "app/j/lock") ≡ some (txt "7"))
unfolding acquire
extender_sustains_example =
    extender_sustains memory ann_holding 30 refl 160 (round_of_30 ∷ round_of_30 ∷ []) taken
      taken-Owns (omega arith) (round-IsTimely, (round-IsTimely, tt))
