-- ===== src/Tests/NodeTests.antt =====
-- The tasks and the counters of a node, and its start by serve.py.
use sd_03_distributed_cache.Prelude.{
  ℕ, ◌≡◌, refl, ap, arith, ◌⊎◌, none, some, List, [], ◌∷◌, Bytes, Exn, Result, ok, ◌>>=◌, bytes_beq,
}
use sd_03_distributed_cache.Prelude.Int.{ℤ, pos}
use sd_03_distributed_cache.Bytes.{codes, upper, upper_byte}
use sd_03_distributed_cache.Protocol.{encode_bulk}
use sd_03_distributed_cache.Lru.{authoritative}
use sd_03_distributed_cache.Lru
use sd_03_distributed_cache.Lru.Spec.{gotten}
use sd_03_distributed_cache.Lru.Refine.{init-Represents}
use sd_03_distributed_cache.Lru.Laws.{Stored, set-Stored}
use sd_03_distributed_cache.Replication.Master
use sd_03_distributed_cache.Metrics.{inc, time, ops_total, op_latency}
use sd_03_distributed_cache.Server.{Node, dispatch, expire_round}
use sd_03_distributed_cache.Server
use sd_03_distributed_cache.Server.Lifecycle.{
  running, Host, new_host, follow, start, stop, promote, cancel,
}
use sd_03_distributed_cache.Server.States.{here, and_then, follows, starts, promotes}
use sd_03_distributed_cache.Server.Reached.{IsSound, init-IsSound}
use sd_03_distributed_cache.Server.Stopping.{client_exn, IsStopped, stop-IsStopped}
use sd_03_distributed_cache.Server.Counting.{counted, get_result, counted-gotten}
use sd_03_distributed_cache.Tests.Clocks.{ticking}

abbrev plain : Bytes → Bytes
plain s = s

abbrev new_store : Lru.LruCache ℤ
new_store = ((init-Represents Lru.logical).0 1).0

-- A slave that follows a master, starts and is promoted, and that a slave of its own joins.
abbrev slave : Node ℤ
slave = record { role = codes "slave"; store = new_store; replicator = Master.init }

abbrev first : Host ℤ
first = new_host (codes "10.0.0.1") (pos 0) slave

abbrev bind : Bytes → ℤ → Result {0} ℤ
bind host port = ok (pos 7001)

abbrev fourth : Host ℤ
fourth = promote (start bind (follow first (codes "10.0.0.2") (pos 7000))).0

slave-made : Server.init (pos 2) (codes "slave") ≡ ok slave
unfolding Server.init bytes_beq
slave-made =
    ap
      (λ (r : Result (Lru.LruCache ℤ)).
        r >>= λ c. ok (record { role = codes "slave"; store = c; replicator = Master.init }))
      ((init-Represents Lru.logical).0 1).1

init-IsSound_example :
    IsSound 2 fourth
    × (fourth.expire_task ≡ running
        → (sample : List Bytes → ℕ → List Bytes) (now : ℤ)
        → (expire_round sample fourth.node now).1 ≡ none)
init-IsSound_example =
    init-IsSound 1 (codes "slave") (codes "10.0.0.1") (pos 0) slave fourth slave-made (
      and_then (and_then (and_then here (follows (codes "10.0.0.2") (pos 7000))) (starts bind))
        promotes)

-- It stops; the replica client that `promote` let go is still running then.
stop-IsStopped_example :
    ((stop fourth).0.dropped ≡ fourth.dropped)
    × (((client_exn fourth.replica_client ≡ none)
          × ((stop fourth).1 ≡ none)
          × IsStopped (stop fourth).0)
        ⊎ ((x : Exn) × (client_exn fourth.replica_client ≡ some x)
            × ((stop fourth).1 ≡ some x)
            × ((stop fourth).0.server ≡ fourth.server)))
unfolding cancel new_host start promote follow bytes_beq
stop-IsStopped_example = stop-IsStopped fourth refl refl

abbrev one_key :
    Stored 2 authoritative
      ((init-Represents authoritative).0 1).0
      []
      (codes "a")
      (codes "1")
      (some (pos 5))
one_key =
    set-Stored ((init-Represents authoritative).0 1).2 (omega arith) (codes "a") (codes "1")
      (some (pos 5))

abbrev holding : Node ℤ
holding = record { role = codes "master"; store = one_key.state; replicator = Master.init }

counted-gotten_example : counted plain plain holding (pos 4) (codes "get" ∷ codes "a" ∷ []) ≡ (
  (dispatch plain holding (pos 4) (codes "get" ∷ codes "a" ∷ [])).0,
  ok (encode_bulk (gotten authoritative (pos 4) (codes "a") one_key.rest).1),
  time op_latency (codes "GET" ∷ [])
      ∷ inc ops_total
          (codes "GET" ∷ get_result (gotten authoritative (pos 4) (codes "a") one_key.rest).1 ∷ [])
      ∷ [],
)
unfolding upper upper_byte
counted-gotten_example =
    counted-gotten holding one_key.represents plain plain (pos 4) (codes "get") (codes "a") refl
