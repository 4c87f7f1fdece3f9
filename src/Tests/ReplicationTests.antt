-- ===== src/Tests/ReplicationTests.antt =====
-- Replication: a run of the reader, and its theorems at concrete inputs.
use sd_03_distributed_cache.Prelude.{
  ◌+◌, ◌≡◌, refl, arith, true, some, List, [], ◌∷◌, ◌++◌, map, length, Bytes, Exn, nat_eq, take,
  drop, take-drop, length-take_le,
}
use sd_03_distributed_cache.Prelude.Int.{ℤ, pos}
use sd_03_distributed_cache.Prelude.Dict.{lookup}
use sd_03_distributed_cache.Bytes.{codes}
use sd_03_distributed_cache.Lru.{logical}
use sd_03_distributed_cache.Lru.Refine.{init-Represents}
use sd_03_distributed_cache.Replication.Effects.{set, del}
use sd_03_distributed_cache.Replication.Master.{Batch, Replicator, batch_bytes, join, stream}
use sd_03_distributed_cache.Replication.Replica.{Replica, consume_one, replay, see, consume}
use sd_03_distributed_cache.Replication.RoundTrip.{consume_one-batch_bytes}
use sd_03_distributed_cache.Replication.Atomic.{Stopped, consume-Stopped}
use sd_03_distributed_cache.Tests.Streams.{
  following, batches, replayed, empty_store-Represents, batches-Applies,
}
use sd_03_distributed_cache.Replication.Progress.{consume-raises}
use sd_03_distributed_cache.Replication.Queues.{Event, write, send, enter, leave, after_all}
use sd_03_distributed_cache.Replication.Delivery.{sent, writes, upward, sent-join}
use sd_03_distributed_cache.Tests.Clocks.{ticking}

abbrev a : Bytes
a = codes "a"

abbrev batch : Batch
batch = record { offset = 3; effects = set a (codes "1") (pos 0) ∷ del (codes "b") ∷ [] }

abbrev replica : Replica ℤ
replica = record {
  store = ((init-Represents logical).0 1).0;
  applied_offset = pos 2;
  last_seen_offset = pos 2;
  synced = true;
}

consume-raises_example :
    (r' : Replica ℤ) × (x : Exn) × (consume
        (length (batch_bytes batch) + 1)
        replica
        (batch_bytes batch)
      ≡ (r', some x))
consume-raises_example =
    consume-raises (length (batch_bytes batch) + 1) replica (batch_bytes batch) (omega arith)

consume_one-batch_bytes_example :
    consume_one replica (batch_bytes batch ++ codes "BATCH")
    ≡ replay (see replica (pos 3)) (pos 3) batch.effects (codes "BATCH")
consume_one-batch_bytes_example = consume_one-batch_bytes replica batch (codes "BATCH")

-- One slave is connected; another joins, two writes follow, and the first slave leaves.
abbrev master : Replicator
master = record { offset = 4; slaves = (0, []) ∷ []; next_queue = 1 }

abbrev events : List Event
events = write (set a (codes "1") (pos 0) ∷ []) ∷ send 1 ∷ leave 0 ∷ write (del a ∷ []) ∷ enter ∷ []

sent-join_example :
    (left : List Batch) × (lookup (join master).1 (after_all (join master).0 events).slaves
      ≡ some left)
    × (map (λ (b : Batch). b.effects) (sent (join master).1 (join master).0 events ++ left)
        ≡ writes events)
    × (map (λ (b : Batch). b.offset) (sent (join master).1 (join master).0 events ++ left)
        ≡ upward (master.offset + 1) (length (writes events)))
unfolding join
sent-join_example = sent-join master events (omega arith, tt) (tt, (tt, (refl, (tt, (tt, tt)))))

-- The connection breaks inside the second batch.
consume-Stopped_example : Stopped 100 following batches (take 70 (stream batches))
consume-Stopped_example =
    consume-Stopped 100 following batches (replayed empty_store-Represents)
      (take 70 (stream batches)) (drop 70 (stream batches)) (omega arith, (omega arith, tt))
      (batches-Applies empty_store-Represents) (take-drop 70 (stream batches))
      (omega (arith, length-take_le 70 (stream batches)))
