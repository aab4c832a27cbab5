-- ===== src/Redis/Lock/Release.antt =====
-- How `Lock.release` of stolos/queue_backend/qbcli_redis.py can end.
use stolos.Prelude.{
  ◌≡◌, Bool, none, arith, not, ◌&&◌, Text, text_eq, is_some, lookup, if◌then◌else◌,
}
use stolos.Redis.Keys.{Keys}
use stolos.Redis.Lock.{Lock, ok, user_warning, is_value, l_unlock, release}

module _ (r : Keys) (l : Lock) (s : r.Store) where
  open r use {get, del-reply, get-del}

  -- The object remembers that it acquired the lock.
  abbrev pub acquired_before : Bool
  acquired_before = is_value (lookup l.path l.locks) l.client_id

  -- The server holds the key for this client, or for another one.
  abbrev pub held : Bool
  held = is_value (get s l.path) l.client_id

  abbrev pub stolen : Bool
  stolen = is_some (get s l.path) && not held

  -- `release` succeeds exactly on an object that has acquired and whose key no other client has
  -- taken since; it raises UserWarning otherwise. Only a key that this client still holds is
  -- deleted, and no other key changes: a lock that was stolen after it expired stays in place.
  pub release_outcome :
      (j : Text)
      → ((release r l s).0 ≡ (if acquired_before && not stolen then ok tt else user_warning))
        × (get (release r l s).2 j
            ≡ (if acquired_before && held && text_eq l.path j then none else get s j))
  unfolding release l_unlock
  release_outcome j = ground (arith, del-reply l.path s, get-del l.path s j)
