-- ===== src/Server/Lifecycle.antt =====
-- distcache/server.py and distcache/replication.py: the tasks of a node, and its connection to a master.
-- A task that is running ends where it is cancelled: it waits in `sleep` or in a read, and passes
-- CancelledError on or returns.
use sd_03_distributed_cache.Prelude.{
  Bool, true, false, Option, none, some, List, [], ◌∷◌, ◌++◌, if◌then◌else◌, Bytes, Exn, Result, ok,
  raise,
}
use sd_03_distributed_cache.Prelude.Int.{ℤ, pos}
use sd_03_distributed_cache.Server.{Node, is_master}
use sd_03_distributed_cache.Server

-- `None`, or a task: it is running, or it has ended, by an exception or not.
pub data Task : Type 0 where
  absent : Task
  running : Task
  ended : Option Exn → Task

-- `task.cancel(); try: await task; except CancelledError: pass`: what the task is then, and the exception
-- that `await` raises.
unfoldable pub cancel : Task → Task × Option Exn
cancel absent = (absent, none)
cancel running = (ended none, none)
cancel (ended x) = (ended x, x)

-- `ReplicaClient`, whose store is the node's.
pub record ReplicaClient : Type 0 where
  pub host : Bytes
  pub port : ℤ
  pub applied_offset : ℤ
  pub last_seen_offset : ℤ
  pub synced : Bool
  pub stopped : Bool
  pub task : Task

unfoldable pub new_client : Bytes → ℤ → ReplicaClient
new_client host port = record {
  host = host;
  port = port;
  applied_offset = pos 0;
  last_seen_offset = pos 0;
  synced = false;
  stopped = false;
  task = absent;
}

unfoldable pub start_client : ReplicaClient → ReplicaClient
start_client c = record c { task = running }

unfoldable pub stop_client : ReplicaClient → ReplicaClient × Option Exn
unfolding cancel
stop_client c = let (t, x) = cancel c.task in (record c { stopped = true; task = t }, x)

-- `_server`.
pub data Listener : Type 0 where
  unbound : Listener
  listening : Listener
  closed : Listener

-- A `Node` with its tasks. `retiring` are the replica clients that `promote` has let go, and whose `stop`
-- it has scheduled; `dropped` are those that a second `follow` has let go, whose tasks nothing stops.
pub record Host (F : Type 0) : Type 0 where
  pub node : Node F
  pub host : Bytes
  pub port : ℤ
  pub replica_client : Option ReplicaClient
  pub retiring : List ReplicaClient
  pub dropped : List ReplicaClient
  pub server : Listener
  pub expire_task : Task
  pub metrics_task : Task

-- `if self._expire_task is None`
abbrev pub or_running : Task → Task
or_running absent = running
or_running running = running
or_running (ended x) = ended x

-- A client that is let go, if there is one.
abbrev pub retired : Option ReplicaClient → List ReplicaClient → List ReplicaClient
retired none clients = clients
retired (some c) clients = clients ++ c ∷ []

-- The scheduled `stop` of each client runs; its exception is dropped.
unfoldable pub settled : List ReplicaClient → List ReplicaClient
unfolding stop_client
settled [] = []
settled (c ∷ cs) = (stop_client c).0 ∷ settled cs

module _ {F : Type 0} where
  unfoldable pub new_host : Bytes → ℤ → Node F → Host F
  new_host host port node = record {
    node = node;
    host = host;
    port = port;
    replica_client = none;
    retiring = [];
    dropped = [];
    server = unbound;
    expire_task = absent;
    metrics_task = absent;
  }

  unfoldable pub follow : Host F → Bytes → ℤ → Host F
  unfolding new_client
  follow h master_host master_port = record h {
    replica_client = some (new_client master_host master_port);
    dropped = retired h.replica_client h.dropped;
  }

  -- `start`, where `bind` is what `start_server` and `getsockname` make of a host and a port.
  unfoldable pub start : (Bytes → ℤ → Result ℤ) → Host F → Host F × Option Exn
  unfolding start_client is_master
  start bind h = elim (bind h.host h.port) [
    | raise x ↦ (h, some x)
    | ok port ↦ (
      record h {
        server = listening;
        port = port;
        expire_task = if is_master h.node then running else h.expire_task;
        replica_client = elim h.replica_client [ none ↦ none | some c ↦ some (start_client c) ];
        metrics_task = running;
      },
      none,
    )
  ]

  -- A wait for a task that is running lets the scheduled `stop` of every retiring client run; a task that
  -- has ended is not waited for.
  unfoldable pub awaited : Task → Host F → Host F
  unfolding settled
  awaited absent h = h
  awaited running h = record h { retiring = settled h.retiring }
  awaited (ended x) h = h

  -- `stop`, by its four parts.
  unfoldable pub close_server : Host F → Host F
  close_server h = elim h.server [
    | unbound ↦ h
    | listening ↦ record h { server = closed }
    | closed ↦ record h { server = closed }
  ]

  unfoldable pub stop_replica : Host F → Host F × Option Exn
  unfolding stop_client close_server awaited
  stop_replica h = elim h.replica_client [
    | none ↦ (close_server h, none)
    | some c ↦
        let (c', raised) = stop_client c in
        let h' : Host F = record (awaited c.task h) { replica_client = some c' } in
        elim raised [ none ↦ (close_server h', none) | some x ↦ (h', some x) ]
  ]

  unfoldable pub stop_metrics : Host F → Host F × Option Exn
  unfolding cancel stop_replica awaited
  stop_metrics h =
      let (t, raised) = cancel h.metrics_task in
      elim raised [
        | none ↦ stop_replica (record (awaited h.metrics_task h) { metrics_task = absent })
        | some x ↦ (record h { metrics_task = t }, some x)
      ]

  unfoldable pub stop : Host F → Host F × Option Exn
  unfolding cancel stop_metrics awaited
  stop h =
      let (t, raised) = cancel h.expire_task in
      elim raised [
        | none ↦ stop_metrics (record (awaited h.expire_task h) { expire_task = absent })
        | some x ↦ (record h { expire_task = t }, some x)
      ]

  unfoldable pub promote : Host F → Host F
  unfolding Server.promote
  promote h = record h {
    node = Server.promote h.node;
    replica_client = none;
    retiring = retired h.replica_client h.retiring;
    expire_task = or_running h.expire_task;
  }
