-- ===== src/Tests/ConnectionTests.antt =====
-- A replica on a connection to a master that holds one key.
use sd_03_distributed_cache.Prelude.{
  ◌≡◌, refl, arith, sym, subst, some, [], ◌∷◌, ◌++◌, Bytes, protocol_error,
}
use sd_03_distributed_cache.Prelude.Int.{ℤ}
use sd_03_distributed_cache.Bytes.{codes}
use sd_03_distributed_cache.Lru.{LruCache, authoritative, logical}
use sd_03_distributed_cache.Replication.Master.{stream}
use sd_03_distributed_cache.Replication.Replica.{Replica, consume_one}
use sd_03_distributed_cache.Replication.Atomic.{Applies}
use sd_03_distributed_cache.Replication.Reconnect.{served, run}
use sd_03_distributed_cache.Server.FullSync.{Synced, register-Synced}
use sd_03_distributed_cache.Server.FirstRound.{IsFirst, snapshot-IsFirst}
use sd_03_distributed_cache.Server.Broken.{run-broken_tag}
use sd_03_distributed_cache.Tests.Clocks.{ticking}
use sd_03_distributed_cache.Tests.Streams.{
  short, following, batches, empty_store-Represents, replayed, batches-Applies,
}
use sd_03_distributed_cache.Tests.ServerTests.{zero_false, all-HasMillis, one_key, holding}

sent : Synced 2 logical (λ t. Unit) holding following one_key.rest
sent =
    register-Synced {m = authoritative} {m' = logical} short zero_false (λ t. Unit) holding
      following one_key.rest [] one_key.represents empty_store-Represents
      (λ j e f. all-HasMillis e.expire_at)

first : IsFirst 2 logical following sent.bytes
first =
    snapshot-IsFirst {m = authoritative} {m' = logical} short zero_false holding following
      one_key.rest [] sent.bytes one_key.represents empty_store-Represents
      (λ j e f. all-HasMillis e.expire_at) sent.written

abbrev left_store : LruCache ℤ
left_store = replayed first.whole.1

first-Applies : Applies (consume_one following sent.bytes).0.store batches left_store
first-Applies =
    subst (λ d. Applies d batches left_store) (sym first.store) (batches-Applies first.whole.1)

-- The connection breaks after 70 bytes; the replica connects again.
abbrev whole_stream : Bytes
whole_stream = sent.bytes ++ stream batches

-- It breaks inside the tag of a third batch.
run-broken_tag_example :
    (r' : Replica ℤ) × (run following (
        served (sent.bytes ++ (stream batches ++ codes "BAT")) ∷ served (codes "SNAPSHOT 9 0") ∷ [])
      ≡ (r', some protocol_error))
    × (r'.store ≡ left_store)
run-broken_tag_example =
    run-broken_tag {m = authoritative} {m' = logical} short zero_false holding following
      one_key.rest [] sent.bytes batches left_store 66 (codes "AT") (codes "CH") one_key.represents
      (λ j e f. all-HasMillis e.expire_at) empty_store-Represents sent.written first-Applies refl
      (omega arith) (served (codes "SNAPSHOT 9 0") ∷ [])
