-- ===== src/Server/States.antt =====
-- The states that a node of distcache/server.py reaches.
use sd_03_distributed_cache.Prelude.{
  ℕ, ◌≡◌, ◌⊎◌, Option, some, List, [], ◌∷◌, ◌++◌, Bytes, Exn, Result, ok,
}
use sd_03_distributed_cache.Prelude.Int.{ℤ}
use sd_03_distributed_cache.Clock.{Clock}
use sd_03_distributed_cache.Lru.{LruCache, load_snapshot}
use sd_03_distributed_cache.Lru.Snapshot.{AreNew}
use sd_03_distributed_cache.Replication.Effects.{Effect}
use sd_03_distributed_cache.Replication.Queues.{Event, after}
use sd_03_distributed_cache.Replication.Replica.{apply}
use sd_03_distributed_cache.Server.{dispatch, expire_round}
use sd_03_distributed_cache.Server.Lifecycle.{
  running, ended, ReplicaClient, Host, follow, start, stop, promote, stop_client,
}

abbrev pub IsOneOf : ReplicaClient → List ReplicaClient → Type 0
IsOneOf c clients =
    (before : List ReplicaClient) × (behind : List ReplicaClient) × (clients ≡ before ++ c ∷ behind)

-- A replica client is at work: the node's, or one that it has let go.
abbrev pub HasFollower : {F : Type 0} → Host F → Type 0
HasFollower h =
    (c : ReplicaClient) × ((h.replica_client ≡ some c) ⊎ IsOneOf c h.retiring ⊎ IsOneOf c h.dropped)
    × (c.task ≡ running)

abbrev pub with_store : {F : Type 0} → Host F → LruCache F → Host F
with_store h c = record h { node = record h.node { store = c } }

-- What happens between two waits.
pub data Moves {F : Type 0} ⦃clock : Clock F⦄ : Host F → Host F → Type 0 where
  follows : {h : Host F} → (host : Bytes) (port : ℤ) → Moves h (follow h host port)
  starts : {h : Host F} → (bind : Bytes → ℤ → Result ℤ) → Moves h (start bind h).0
  stops : {h : Host F} → Moves h (stop h).0
  promotes : {h : Host F} → Moves h (promote h)
  -- A request of a client.
  answers :
      {h : Host F}
      → (printable : Bytes → Bytes) (now : F) (name : Bytes) (args : List Bytes)
      → Moves h (record h { node = (dispatch printable h.node now (name ∷ args)).0 })
  -- A round of the expiry loop, while it runs.
  expires :
      {h : Host F}
      → h.expire_task ≡ running
      → (sample : List Bytes → ℕ → List Bytes) (now : F)
      → Moves h (record h { node = (expire_round sample h.node now).0 })
  -- The tasks that serve slaves.
  serves :
      {h : Host F}
      → (e : Event)
      → Moves h (record h { node = record h.node { replicator = after h.node.replicator e } })
  -- An effect that is replayed, and a snapshot with distinct keys that is loaded.
  replays :
      {h : Host F}
      → HasFollower h
      → (e : Effect) (c : LruCache F) → apply h.node.store e ≡ ok c
      → Moves h (with_store h c)
  loads :
      {h : Host F}
      → HasFollower h
      → (items : List (Bytes × Bytes × Option F)) → AreNew items []
      → (c : LruCache F) → load_snapshot h.node.store items ≡ ok c
      → Moves h (with_store h c)
  -- The task of the replica client ends by an exception.
  breaks :
      {h : Host F}
      → (c : ReplicaClient) → h.replica_client ≡ some c
      → (x : Exn)
      → Moves h (record h { replica_client = some (record c { task = ended (some x) }) })
  -- A `stop` that `promote` has scheduled runs.
  retires :
      {h : Host F}
      → (before behind : List ReplicaClient) (c : ReplicaClient) → h.retiring ≡ before ++ c ∷ behind
      → Moves h (record h { retiring = before ++ (stop_client c).0 ∷ behind })

pub data Reaches {F : Type 0} ⦃clock : Clock F⦄ : Host F → Host F → Type 0 where
  here : {h : Host F} → Reaches h h
  and_then : {h h' h'' : Host F} → Reaches h h' → Moves h' h'' → Reaches h h''
