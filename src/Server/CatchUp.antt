-- ===== src/Server/CatchUp.antt =====
-- A replica at the other end of a queue that its master fills.
use sd_03_distributed_cache.Prelude.{
  ℕ, ◌+◌, ◌≡◌, refl, ap, sym, ◌∙◌, subst, ◌⊎◌, inl, inr, none, some, List, [], ◌∷◌, ◌++◌, length,
  Bytes, nat_eq,
}
use sd_03_distributed_cache.Prelude.Int.{pos}
use sd_03_distributed_cache.Prelude.Dict.{lookup}
use sd_03_distributed_cache.Clock.{Clock}
use sd_03_distributed_cache.Lru.{Mode, LruCache}
use sd_03_distributed_cache.Lru.Spec.{Entry}
use sd_03_distributed_cache.Lru.Refine.{Represents}
use sd_03_distributed_cache.Replication.Effects.{Effect}
use sd_03_distributed_cache.Replication.Master.{Batch, append_batch, stream}
use sd_03_distributed_cache.Replication.Delivery.{lookup-put_all}
use sd_03_distributed_cache.Replication.Replica.{Replica, apply_all, consume}
use sd_03_distributed_cache.Replication.Batches.{replayed, consume-more}
use sd_03_distributed_cache.Server.{Node}
use sd_03_distributed_cache.Server.Mirror.{Mirrors}

-- The replica `r` reads what is in the queue `q` of the master `n` without an exception, and it then has
-- what the master has, at the master's offset.
pub record CatchesUp {F : Type 0} ⦃clock : Clock F⦄ (size room : ℕ) (m m' : Mode)
    (past : F → Type 0) (q : ℕ) (n : Node F) (r : Replica F) : Type 0 where
  pub batches : List Batch
  pub queued : lookup q n.replicator.slaves ≡ some batches
  pub target : Replica F
  pub reads :
      (fuel : ℕ) (rest : Bytes)
      → consume (length batches + fuel) r (stream batches ++ rest) ≡ consume fuel target rest
  pub offset : target.applied_offset ≡ pos n.replicator.offset
  pub entries : List (Entry F)
  pub represents : Represents size m n.store entries
  pub copied : List (Entry F)
  pub represents_copy : Represents room m' target.store copied
  pub mirrors : Mirrors past entries copied

module _ {F : Type 0} ⦃clock : Clock F⦄ {size room : ℕ} {m m' : Mode} (past : F → Type 0) (q : ℕ)
    (r : Replica F) where
  -- Behind a command that replicates nothing, or one batch.
  pub followed-CatchesUp :
      (n n' : Node F) (u : CatchesUp size room m m' past q n r) (entries : List (Entry F))
      → Represents size m n'.store entries
      → (effects : List Effect) (copy : LruCache F) (copied : List (Entry F))
      → apply_all u.target.store effects ≡ (copy, none)
      → Represents room m' copy copied
      → Mirrors past entries copied
      → ((n'.replicator ≡ n.replicator) × (effects ≡ []))
        ⊎ (n'.replicator ≡ (append_batch n.replicator effects).0)
      → CatchesUp size room m m' past q n' r
  unfolding apply_all append_batch
  followed-CatchesUp n n' u entries s effects copy copied a s' k (inl (same, nothing)) = record {
    batches = u.batches;
    queued = ap (λ p. lookup q p.slaves) same ∙ u.queued;
    target = u.target;
    reads = u.reads;
    offset = u.offset ∙ sym (ap (λ p. pos p.offset) same);
    entries = entries;
    represents = s;
    copied = copied;
    represents_copy = subst (λ c. Represents room m' c copied) (sym kept) s';
    mirrors = k;
  }
    where
      kept : u.target.store ≡ copy
      kept = ap (λ p. p.0) (sym (ap (λ es. apply_all u.target.store es) nothing) ∙ a)
  followed-CatchesUp n n' u entries s effects copy copied a s' k (inr logged) = record {
    batches = u.batches ++ batch ∷ [];
    queued =
        ap (λ p. lookup q p.slaves) logged
        ∙ lookup-put_all q batch n.replicator.slaves u.batches u.queued;
    target = replayed u.target copy batch.offset;
    reads = consume-more r u.target copy u.batches batch u.reads a;
    offset = sym (ap (λ p. pos p.offset) logged);
    entries = entries;
    represents = s;
    copied = copied;
    represents_copy = s';
    mirrors = k;
  }
    where
      batch : Batch
      batch = record { offset = n.replicator.offset + 1; effects = effects }

  pub entries-followed :
      (n n' : Node F) (u : CatchesUp size room m m' past q n r) (entries : List (Entry F))
      (s : Represents size m n'.store entries) (effects : List Effect) (copy : LruCache F)
      (copied : List (Entry F)) (a : apply_all u.target.store effects ≡ (copy, none))
      (s' : Represents room m' copy copied) (k : Mirrors past entries copied)
      (logged : ((n'.replicator ≡ n.replicator) × (effects ≡ []))
        ⊎ (n'.replicator ≡ (append_batch n.replicator effects).0))
      → (followed-CatchesUp n n' u entries s effects copy copied a s' k logged).entries ≡ entries
  unfolding followed-CatchesUp
  entries-followed n n' u entries s effects copy copied a s' k (inl l) = refl
  entries-followed n n' u entries s effects copy copied a s' k (inr l) = refl
