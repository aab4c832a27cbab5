-- ===== src/Jobs/Queues/Memory.antt =====
-- A worker's view of the backend in memory: it takes the first job of a queue, and the job leaves
-- the queue when it is consumed.
use stolos.Prelude.{
  ℕ, ◌+◌, ◌≡◌, refl, ap, arith, Option, none, some, List, [], ◌∷◌, Text, text_eq, mem_text,
  if◌then◌else◌,
}
use stolos.Jobs.Actions.{Result, ok, raised, user_warning}
use stolos.Jobs.Backend.Memory.{Tables, memory}
use stolos.Jobs.Queues.{Queues}

abbrev head : List Text → Option Text
head [] = none
head (job ∷ _) = some job

abbrev or_head : Option Text → List Text → Option Text
or_head none jobs = head jobs
or_head (some job) jobs = some job

abbrev remove : Text → List Text → List Text
remove job [] = []
remove job (j ∷ jobs) = if text_eq job j then jobs else j ∷ remove job jobs

abbrev get_job : Text → Tables → Option Text × Tables
get_job app s = let job = or_head s.item (s.queues app) in (job, record s { item = job })

abbrev taken : Text → Option Text → Tables → Result Unit × Tables
taken app none s = (raised user_warning, s)
taken app (some job) s = (
  ok tt,
  record s {
    item = none;
    queues = λ a. if text_eq app a then remove job (s.queues a) else s.queues a;
  },
)

abbrev consume : Text → Tables → Result Unit × Tables
consume app s = taken app s.item s

abbrev increment : Text → Tables → ℕ × Tables
increment p s = (
  s.counters p + 1,
  record s { counters = λ j. if text_eq p j then s.counters j + 1 else s.counters j },
)

module _ (app : Text) (s : Tables) where
  pub taken_keeps :
      (o : Option Text) → ((taken app o s).1.nodes ≡ s.nodes) × ((taken app o s).1.locks ≡ s.locks)
  taken_keeps none = (refl, refl)
  taken_keeps (some job) = (refl, refl)

  pub item-taken : (o : Option Text) → (taken app o s).0 ≡ ok tt → (taken app o s).1.item ≡ none
  item-taken none e = cc
  item-taken (some job) e = refl

pub item-acquire : (p : Text) (s : Tables) → (memory.acquire p s).1.item ≡ s.item
item-acquire p s = ground arith

abbrev pub worker : Queues
worker = record {
  backend = memory;
  counter = λ s. s.counters;
  item = λ s. s.item;
  increment = increment;
  is_queued = λ app job s. mem_text job (s.queues app);
  get_job = get_job;
  consume = consume;
  increment-reply = λ p s. refl;
  counter-increment = λ p s j. refl;
  locked-increment = λ p s j _. refl;
  jobs-increment = λ p s a. refl;
  node-get_job = λ a s app job. refl;
  locked-get_job = λ a s t app job. refl;
  item-acquire = item-acquire;
  item-get_job = λ a s. refl;
  node-consume = λ a s app job. rw (taken_keeps a s s.item).0 refl;
  locked-consume = λ a s t app job. rw (taken_keeps a s s.item).1 refl;
  holds-consume = λ a s l t app job at. ap (λ f. f l) (taken_keeps a s s.item).1;
  item-consume = λ a s. item-taken a s s.item;
}
