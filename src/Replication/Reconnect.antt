-- ===== src/Replication/Reconnect.antt =====
-- `ReplicaClient` of distcache/replication.py: the task that connects, follows the master, and connects again.
use sd_03_distributed_cache.Prelude.{
  suc, Bool, true, false, Option, none, some, List, [], ◌∷◌, length, Bytes, Exn, incomplete_read,
  connection_error,
}
use sd_03_distributed_cache.Prelude.Int.{pos}
use sd_03_distributed_cache.Clock.{Clock}
use sd_03_distributed_cache.Lru.{LruCache}
use sd_03_distributed_cache.Replication.Replica.{Replica, consume}

-- `__init__`
unfoldable pub new_replica : {F : Type 0} → LruCache F → Replica F
new_replica store = record {
  store = store;
  applied_offset = pos 0;
  last_seen_offset = pos 0;
  synced = false;
}

-- What comes of `open_connection`: it is refused, or the master writes some bytes until it ends.
pub data Connection : Type 0 where
  refused : Connection
  served : Bytes → Connection

-- `except (ConnectionError, asyncio.IncompleteReadError, OSError)`
unfoldable pub is_caught : Exn → Bool
is_caught connection_error = true
is_caught incomplete_read = true
is_caught _ = false

-- `self.synced_event.clear()`
abbrev pub lost : {F : Type 0} → Replica F → Replica F
lost r = record r { synced = false }

module _ {F : Type 0} ⦃clock : Clock F⦄ where
  -- The body of the `try`. A round takes a byte of the stream, so that one more is enough.
  unfoldable pub attempt : Replica F → Connection → Replica F × Option Exn
  attempt r refused = (r, some connection_error)
  attempt r (served s) = consume (suc (length s)) r s

  -- `run`, with `_stop` not set, for the connections that come: the exception that ends the task, if one
  -- does.
  unfoldable pub run : Replica F → List Connection → Replica F × Option Exn
  unfolding attempt is_caught
  run r [] = (r, none)
  run r (c ∷ connections) =
      let (r', ended) = attempt r c in
      let later = run (lost r') connections in
      elim ended [
        | none ↦ later
        | some x ↦ elim (is_caught x) [ true ↦ later | false ↦ (r', some x) ]
      ]
