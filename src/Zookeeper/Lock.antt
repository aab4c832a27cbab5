-- ===== src/Zookeeper/Lock.antt =====
-- stolos/queue_backend/qbcli_zookeeper.py: class Lock. A lock of kazoo is a parameter: what its
-- `acquire` and `release` answer.
use stolos.Prelude.{ℕ, Bool, false, not, Option, none, some, Text, ◌==◌, if◌then◌else◌}
use stolos.Jobs.Actions.{Result, ok, raised, user_warning}
use stolos.Zookeeper.Client.{Client, Acquired, answered, no_node, lock_timeout}

unfoldable pub acquire : Acquired → Result Bool
acquire (answered got) = ok got
acquire no_node = raised user_warning
acquire lock_timeout = ok false

unfoldable pub release : (released : Bool) → Result Unit
release released = if released then ok tt else raised user_warning

abbrev pub has_children : Option ℕ → Bool
has_children none = false
has_children (some n) = not (n == 0)

-- Where the path has no node, numChildren is an AttributeError, which is caught.
unfoldable pub is_locked : (zk : Client) → Text → zk.Tree → Bool
is_locked zk path t = has_children (zk.stat t path)
