-- ===== src/Jobs/Generators.antt =====
-- Python generators of stolos/dag_tools/traversal.py as their consumers see them: they yield items,
-- and then stop or raise. What the consumer did before a raise stays done.
use stolos.Prelude.{List, [], ◌∷◌}
use stolos.Jobs.Actions.{Action, Exception, Result, ok, raised, pure, raise, ◌>>◌}

pub data Generated (A : Type 0) : Type 0 where
  stops : Generated A
  fails : Exception → Generated A
  yields : A → Generated A → Generated A

module _ {A : Type 0} where
  abbrev and_item : A → Result (List A) → Result (List A)
  and_item a (ok l) = ok (a ∷ l)
  and_item a (raised e) = raised e

  -- `list(generator)`
  unfoldable pub list_of : Generated A → Result (List A)
  list_of stops = ok []
  list_of (fails e) = raised e
  list_of (yields a g) = and_item a (list_of g)

  -- `for item in generator`
  unfoldable pub for_each : {S : Type 0} → (A → Action S Unit) → Generated A → Action S Unit
  for_each body stops = pure tt
  for_each body (fails e) = raise e
  for_each body (yields a g) = body a >> for_each body g

module _ {A : Type 0} where
  abbrev pub of_list : List A → Generated A
  of_list [] = stops
  of_list (a ∷ items) = yields a (of_list items)

  -- One loop after the other
  abbrev pub followed_by : Generated A → Generated A → Generated A
  followed_by stops h = h
  followed_by (fails e) h = fails e
  followed_by (yields a g) h = yields a (followed_by g h)

module _ {A B : Type 0} where
  -- A loop that yields in its body
  abbrev pub each_of : List A → (A → Generated B) → Generated B
  each_of [] body = stops
  each_of (a ∷ items) body = followed_by (body a) (each_of items body)

  abbrev pub when_ok : Result A → (A → Generated B) → Generated B
  when_ok (ok a) body = body a
  when_ok (raised e) body = fails e
