-- ===== src/Jobs/Queues.antt =====
-- stolos/queue_backend/qbcli_baseapi.py as one worker process sees it: the rest of the calls of a
-- backend, with the one LockingQueue object that the process takes its job from. The laws state
-- what a call leaves alone: the nodes and locks of jobs.
pub mod Memory
use stolos.Prelude.{
  ℕ, ◌+◌, ◌≡◌, Bool, true, false, Option, none, some, Text, text_eq, if◌then◌else◌, List,
}
use stolos.Jobs.Actions.{Result, ok}
use stolos.Jobs.Backend.{Backend}
use stolos.Jobs.Paths.{LockType, get_job_path, get_lock_path}

pub record Queues : Type 1 where
  pub backend : Backend
  pub open backend use *
  pub counter : State → Text → ℕ
  -- the job that the queue object holds
  pub item : State → Option Text
  -- `increment(path)`, `is_queued(job)` on a new queue object, `q.get()` and `q.consume()`
  pub increment : Text → State → ℕ × State
  pub is_queued : (app job : Text) → State → Bool
  pub get_job : (app : Text) → State → Option Text × State
  pub consume : (app : Text) → State → Result Unit × State
  pub increment-reply : (p : Text) (s : State) → (increment p s).0 ≡ counter s p + 1
  pub counter-increment :
      (p : Text) (s : State) (j : Text)
      → counter (increment p s).1 j ≡ (if text_eq p j then counter s j + 1 else counter s j)
  pub locked-increment :
      (p : Text) (s : State) (j : Text)
      → text_eq p j ≡ false
      → locked (increment p s).1 j ≡ locked s j
  pub jobs-increment : (p : Text) (s : State) (a : Text) → jobs (increment p s).1 a ≡ jobs s a
  pub node-get_job :
      (a : Text) (s : State) (app job : Text)
      → node (get_job a s).1 (get_job_path app job) ≡ node s (get_job_path app job)
  pub locked-get_job :
      (a : Text) (s : State) (t : LockType) (app job : Text)
      → locked (get_job a s).1 (get_lock_path t app job) ≡ locked s (get_lock_path t app job)
  pub item-acquire : (p : Text) (s : State) → item (acquire p s).1 ≡ item s
  pub item-get_job : (a : Text) (s : State) → item (get_job a s).1 ≡ (get_job a s).0
  pub node-consume :
      (a : Text) (s : State) (app job : Text)
      → node (consume a s).1 (get_job_path app job) ≡ node s (get_job_path app job)
  pub locked-consume :
      (a : Text) (s : State) (t : LockType) (app job : Text)
      → locked (consume a s).1 (get_lock_path t app job) ≡ locked s (get_lock_path t app job)
  pub holds-consume :
      (a : Text) (s : State) (l : Lock) (t : LockType) (app job : Text)
      → lock_path l ≡ get_lock_path t app job
      → holds l (consume a s).1 ≡ holds l s
  -- A call that returns gives up the job.
  pub item-consume : (a : Text) (s : State) → (consume a s).0 ≡ ok tt → item (consume a s).1 ≡ none
