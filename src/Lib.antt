-- ===== src/Lib.antt =====
-- distcache, a small distributed cache in Python: cache nodes with LRU eviction and TTL, a RESP-style
-- protocol, master-slave replication, and clients that shard by consistent hashing.
--
-- Prelude: names shared by all modules, Python's dict (insertion ordered) and integers, exceptions as
--   values (`Result`).
-- Clock: Python floats as used for deadlines. antt has no floats, so the type and its operations are
--   a parameter of everything that reads a time.
-- Bytes: byte strings as lists of numbers, with Python's slices, `find`, `split`, `str` of a number
--   and `int` of a byte string. CPython's limit on the number of digits that `int` reads is not
--   modelled.
-- Lru: distcache/lru.py. `LruCache` is the object's state; a `_Node` is a cell of a heap, named by a
--   `Ptr`, and `None` in `prev` or `next` makes an access raise. `unlink`, `add_front`,
--   `move_to_front`, `insert_node`, `get`, `delete`, `set_expire`, `sample_expired`, `snapshot` and
--   `load_snapshot` are the methods. `random.sample` is a function argument. `Lru.Spec` is the
--   contract, over a list of entries with the most recently used first; `Lru.Chain`, `Lru.Links`,
--   `Lru.Cells`, `Lru.Invariant` and `Lru.Moves` carry the pointer proofs; `Lru.Refine`,
--   `Lru.Contract`, `Lru.Laws`, `Lru.Sweep`, `Lru.Snapshot`, `Lru.FullCopy` and `Lru.Unique` state what
--   holds.
-- Protocol: distcache/protocol.py. The parser's state is its buffer; `parse_one` waits, returns a
--   command with the buffer that is left, or fails. Positions are integers, as in the source, since a
--   bulk length may be negative. The loop over the arguments recurs on their number.
--   `Protocol.RoundTrip`, `Protocol.Incremental` and `Protocol.Negative` state what holds.
-- Replication: distcache/replication.py. `Replication.Effects` has the effects, their encoding as
--   commands and their frames; `Replication.Master` the offset, the queues and what is written to a
--   slave (`append_batch`, `register`, `take_batch`, `unregister`); `Replication.Queues` takes the
--   tasks of the master as a sequence of steps, each of which is the code between two of its waits.
--   A queue is named by a number. `Replication.Replica` reads the stream as the bytes written until
--   the connection ends, and replays it; `consume` is on fuel, and every round reads at least a byte,
--   so one more than the stream's length is enough. `Replication.Reconnect` is the loop `run` around it, on
--   the connections that come, with whatever bytes they bring; `_stop` is not set in it. `Replication.Lines`, `Replication.RoundTrip`,
--   `Replication.Batches`, `Replication.Delivery` and `Replication.Progress` state what holds;
--   `Replication.Cut`, `Replication.CutLine` and `Replication.Atomic` where a connection breaks inside a
--   line or a frame, `Replication.Broken` inside a tag. What a master writes begins with a snapshot:
--   `Server.FirstRound`, `Server.Interrupted`, `Server.Recovery` and `Server.Broken` have whole connections.
-- HashRing: distcache/hashring.py. The methods run under one lock, so that each is one step. The hash
--   function md5 is a parameter, `hash` takes its first eight bytes as the source does; nodes and keys
--   are the bytes that are hashed. `bisect` is Python's on sorted lists only, which is what a ring has.
--   `HashRing.Order`, `HashRing.Lookup`, `HashRing.Disruption`, `HashRing.Owners` and `HashRing.Added`
--   state what holds.
-- Server: distcache/server.py. A command (`_dispatch_inner` is `dispatch`) runs with no wait inside and
--   is one step from a node to a node with a reply. `time.time()` is an argument, and so is
--   `decode(errors="replace")`, which only the text of one error reply depends on. Where a float
--   cannot hold a deadline the step raises. `expire_round` is a round of the expiry loop.
--   `Server.Lifecycle` has the tasks of a node and of its replica client, what `start`, `stop`, `follow`
--   and `promote` do with them, and the exception that awaiting a task raises again. A task that runs is
--   taken to end where it is cancelled. The `stop` that `promote` schedules stays pending, and the client
--   may replay until it runs, at the latest where `stop` of the node waits for a running task. A client
--   that a second `follow` replaces runs on. `Server.States` is the relation of the steps that such a node takes,
--   `Server.Counting` what it tells its metrics.
--   `Server.Session` is `_handle_client`, over the chunks that `read` gives: `drain`, the inner loop, is
--   on fuel, and more rounds for each chunk than there are requests are enough where the bytes are
--   encoded requests; on other bytes the loop need not end (`Server.Endless`). What happens behind a
--   SYNC is in `Replication`. `Server.Rule` is the rule by which a property of all commands is shown;
--   `Server.Roles`, `Server.Logged`, `Server.Bounded`, `Server.Pipeline`, `Server.Steady`,
--   `Server.Whole`, `Server.Reached`, `Server.Stopping`, `Server.Follow`, `Server.Convergence`,
--   `Server.FullSync`, `Server.Recovery` and `Server.Failover` state what holds. The last five, with
--   `Server.Pairs`, `Server.CatchUp`, `Server.Expiry` and `Server.Snapshots`, compare a replica's store
--   with its master's, key by key (`Server.Mirror`), where `ms / 1000.0` of a deadline's milliseconds is
--   taken to have a value (`AreShort`), and a float that counts as false to be zero (`IsZeroFalse`).
-- Client: distcache/client.py. `Client.Reading` reads replies from a socket, which is the list of the
--   chunks that `recv` gives; its loops recur on that list. `Client` has the connections, the requests
--   and the registration of nodes. The network is a parameter (`Network`). A call of the watcher's
--   thread and a request are taken to run one after the other. `Client.Filling`, `Client.Replies`,
--   `Client.Registry` and `Client.History` state what holds.
-- Discovery: distcache/discovery.py. The client of etcd is a parameter (`Etcd`), each of whose calls may
--   raise; so is the JSON text that is registered. Text is its UTF-8 bytes, so that the other digits
--   and spaces of Unicode, which `int` reads in a str, are not read. `Discovery.Register` has
--   `EtcdRegistry`, `Discovery.Watcher` has `EtcdWatcher`; `Discovery.Names`, `Discovery.Leases` and
--   `Discovery.Tracking` state what holds.
-- Metrics: distcache/metrics.py. A call of a metric is a value; whether the client of Prometheus is there
--   is a parameter of `start`.
-- Serve: serve.py. `main` up to where it waits, `finish` for its end. The libraries are parameters
--   (`Libraries`), and so is what argparse makes of the command line. `Serve.Published`,
--   `Serve.Starting` and `Serve.Entry` state what holds.
-- Tests: runs of the models and the theorems at concrete inputs.
--
-- Simplified: `encode_command` has bytes for arguments only, which is what its callers give it; where the
-- deadline of an entry is out of range `snapshot_bytes` has no bytes, though the source has written the
-- lines before it; `readline` has no limit on the length of a line.
-- Not modelled: the pauses between the rounds of a loop, and the draining of what is written; the counter
-- of evictions; the objects that stand for metrics where prometheus_client is missing; argparse and
-- printing in serve.py; and demo.py and scripts/, which call the components above, print and wait.
pub mod Prelude
pub mod Clock
pub mod Bytes
pub mod Protocol
pub mod Replication
pub mod HashRing
pub mod Server
pub mod Discovery
pub mod Client
pub mod Lru
pub mod Metrics
pub mod Serve
pub mod Tests
