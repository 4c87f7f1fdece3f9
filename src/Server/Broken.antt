-- ===== src/Server/Broken.antt =====
-- A connection that breaks inside the tag of a batch: `run` of `ReplicaClient` in distcache/replication.py.
use sd_03_distributed_cache.Prelude.{
  ℕ, ◌<◌, ◌≡◌, ap, ◌∙◌, subst, arith, true, false, none, some, List, ◌∷◌, ◌++◌, length,
  length-append, Bytes, protocol_error, ok, raise,
}
use sd_03_distributed_cache.Clock.{Clock}
use sd_03_distributed_cache.Bytes.{codes}
use sd_03_distributed_cache.Lru.{Mode, LruCache, snapshot}
use sd_03_distributed_cache.Lru.Spec.{Entry, find}
use sd_03_distributed_cache.Lru.Refine.{Represents}
use sd_03_distributed_cache.Replication.Master.{Batch, snapshot_bytes, stream}
use sd_03_distributed_cache.Replication.Replica.{Replica, consume_one, consume}
use sd_03_distributed_cache.Replication.Atomic.{Applies}
use sd_03_distributed_cache.Replication.Broken.{batches-raises, length-stream}
use sd_03_distributed_cache.Replication.Reconnect.{
  Connection, served, attempt, is_caught, lost, run,
}
use sd_03_distributed_cache.Server.{Node}
use sd_03_distributed_cache.Server.Mirror.{AreShort}
use sd_03_distributed_cache.Server.Snapshots.{HasMillis, IsZeroFalse}
use sd_03_distributed_cache.Server.FirstRound.{snapshot-IsFirst}

module _ {F : Type 0} ⦃clock : Clock F⦄ {size room : ℕ} {m m' : Mode} (short : AreShort F)
    (zero_false : IsZeroFalse F) where
  -- Both stores are well formed, every deadline of the master has milliseconds, these have seconds, and a
  -- time that counts as false has 0 of them. A connection to the master that breaks inside the tag of a
  -- batch, behind the snapshot and some batches that all apply, ends the task for good, with the store as
  -- these batches leave it: the exception is not one of those that `run` catches, and no later connection
  -- is tried, whatever comes.
  pub run-broken_tag :
      (n : Node F) (r : Replica F) (es ds : List (Entry F)) (bytes : Bytes) (bs : List Batch)
      (store : LruCache F) (c : ℕ) (p y : Bytes)
      → Represents size m n.store es
      → ((j : Bytes) (e : Entry F) → find j es ≡ some e → HasMillis e.expire_at)
      → Represents room m' r.store ds
      → snapshot_bytes n.replicator.offset (snapshot n.store) ≡ ok bytes
      → Applies (consume_one r bytes).0.store bs store
      → (c ∷ p) ++ y ≡ codes "BATCH"
      → 0 < length y
      → (connections : List Connection)
      → (r' : Replica F) × (run r (served (bytes ++ (stream bs ++ c ∷ p)) ∷ connections)
          ≡ (r', some protocol_error))
        × (r'.store ≡ store)
  unfolding run attempt is_caught consume
  run-broken_tag n r es ds bytes bs store c p y s millis w written a h ne connections =
      let first =
        snapshot-IsFirst {m = m} {m' = m'} short zero_false n r es ds bytes s w millis written in
      let t : Bytes = stream bs ++ c ∷ p in
      let fuel = length (bytes ++ t) in
      let (r', e, k) =
        batches-raises fuel first.replica bs store c p y
          (subst (λ d. Applies d bs store) first.store a) h ne
          (omega (
            arith,
            length-stream bs,
            length-append {0} (stream bs) (c ∷ p),
            length-append {0} bytes t,
          )) in
      (
        r',
        ap
            (λ t. elim t.1 [
              | none ↦ run (lost t.0) connections
              | some x ↦ elim (is_caught x) [
                | true ↦ run (lost t.0) connections
                | false ↦ (t.0, some x)
              ]
            ])
            (ap (λ t. elim t.1 [ raise x ↦ (t.0, some x) | ok rest ↦ consume fuel t.0 rest ])
                (first.reads t)
              ∙ e),
        k,
      )
