-- ===== src/Server/FirstRound.antt =====
-- The first round of a replica on a connection to its master: the snapshot.
use sd_03_distributed_cache.Prelude.{
  ℕ, ◌≡◌, ap, sym, ◌∙◌, some, List, [], ◌++◌, append-nil, Bytes, ok,
}
use sd_03_distributed_cache.Clock.{Clock}
use sd_03_distributed_cache.Lru.{Mode, snapshot}
use sd_03_distributed_cache.Lru.Spec.{Entry, find}
use sd_03_distributed_cache.Lru.Refine.{Represents}
use sd_03_distributed_cache.Replication.Master.{snapshot_bytes}
use sd_03_distributed_cache.Replication.Replica.{Replica, consume_one}
use sd_03_distributed_cache.Server.{Node}
use sd_03_distributed_cache.Server.Mirror.{AreShort}
use sd_03_distributed_cache.Server.Snapshots.{HasMillis, IsZeroFalse}
use sd_03_distributed_cache.Server.FullSync.{synced, register-Synced}
use sd_03_distributed_cache.Server.Stores.{IsWhole, ok-eq}

-- It reads the bytes, whatever follows, and leaves a well-formed store.
pub record IsFirst {F : Type 0} ⦃clock : Clock F⦄ (room : ℕ) (m' : Mode) (r : Replica F)
    (bytes : Bytes) : Type 0 where
  pub replica : Replica F
  pub reads : (rest : Bytes) → consume_one r (bytes ++ rest) ≡ (replica, ok rest)
  pub whole : IsWhole room m' replica.store
  pub store : (consume_one r bytes).0.store ≡ replica.store

module _ {F : Type 0} ⦃clock : Clock F⦄ {size room : ℕ} {m m' : Mode} (short : AreShort F)
    (zero_false : IsZeroFalse F) where
  pub snapshot-IsFirst :
      (n : Node F) (r : Replica F) (es ds : List (Entry F)) (bytes : Bytes)
      → Represents size m n.store es
      → Represents room m' r.store ds
      → ((j : Bytes) (e : Entry F) → find j es ≡ some e → HasMillis e.expire_at)
      → snapshot_bytes n.replicator.offset (snapshot n.store) ≡ ok bytes
      → IsFirst room m' r bytes
  snapshot-IsFirst n r es ds bytes s s' millis written =
      let y = register-Synced short zero_false (λ t. Unit) n r es ds s s' millis in
      let same : y.bytes ≡ bytes = ok-eq y.bytes bytes (sym y.written ∙ written) in
      let first = synced r n.replicator.offset y.store in
      let reads : (rest : Bytes) → consume_one r (bytes ++ rest) ≡ (first, ok rest) =
        λ rest. ap (λ b. consume_one r (b ++ rest)) (sym same) ∙ y.reads rest in
      record {
        replica = first;
        reads = reads;
        whole = (y.copied, y.represents);
        store =
            ap (λ b. (consume_one r b).0.store) (sym (append-nil bytes))
            ∙ ap (λ p. p.0.store) (reads []);
      }
