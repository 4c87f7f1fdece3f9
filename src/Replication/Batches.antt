-- ===== src/Replication/Batches.antt =====
-- Batches, one after the other, read by a replica.
use sd_03_distributed_cache.Prelude.{
  ℕ, suc, ◌+◌, ◌≡◌, ap, sym, ◌∙◌, none, some, List, [], ◌∷◌, ◌++◌, append_assoc, length,
  length-append, Bytes, ok, raise, arith,
}
use sd_03_distributed_cache.Prelude.Int.{pos}
use sd_03_distributed_cache.Clock.{Clock}
use sd_03_distributed_cache.Lru.{LruCache}
use sd_03_distributed_cache.Replication.Master.{Batch, batch_bytes, stream}
use sd_03_distributed_cache.Replication.Replica.{Replica, see, apply_all, replay, consume}
use sd_03_distributed_cache.Replication.RoundTrip.{consume_one-batch_bytes}

stream-snoc :
    (bs : List Batch) (b : Batch) (rest : Bytes)
    → stream (bs ++ b ∷ []) ++ rest ≡ stream bs ++ (batch_bytes b ++ rest)
stream-snoc [] b rest = simp append_assoc
stream-snoc (c ∷ bs) b rest =
    append_assoc (batch_bytes c) (stream (bs ++ b ∷ [])) rest
    ∙ ap (◌++◌ (batch_bytes c)) (stream-snoc bs b rest)
    ∙ sym (append_assoc (batch_bytes c) (stream bs) (batch_bytes b ++ rest))

module _ {F : Type 0} ⦃clock : Clock F⦄ where
  -- The replica behind a batch all of whose effects apply.
  abbrev pub replayed : Replica F → LruCache F → ℕ → Replica F
  replayed r store off = record (see r (pos off)) { store = store; applied_offset = pos off }

  pub consume-batch :
      (r : Replica F) (store : LruCache F) (b : Batch)
      → apply_all r.store b.effects ≡ (store, none)
      → (fuel : ℕ) (rest : Bytes)
      → consume (suc fuel) r (batch_bytes b ++ rest) ≡ consume fuel (replayed r store b.offset) rest
  unfolding consume replay see
  consume-batch r store b h fuel rest =
      ap (λ p. elim p.1 [ raise x ↦ (p.0, some x) | ok rest ↦ consume fuel p.0 rest ])
        (consume_one-batch_bytes r b rest ∙ one_round)
    where
      one_round :
          replay (see r (pos b.offset)) (pos b.offset) b.effects rest
          ≡ (replayed r store b.offset, ok rest)
      one_round =
          ap
            (λ p. elim p.1 [
              | some x ↦ (record (see r (pos b.offset)) { store = p.0 }, raise x)
              | none ↦ (replayed r p.0 b.offset, ok rest)
            ])
            h

  pub consume-more :
      (r r' : Replica F) (store : LruCache F) (bs : List Batch) (b : Batch)
      → ((fuel : ℕ) (rest : Bytes)
          → consume (length bs + fuel) r (stream bs ++ rest) ≡ consume fuel r' rest)
      → apply_all r'.store b.effects ≡ (store, none)
      → (fuel : ℕ) (rest : Bytes)
      → consume (length (bs ++ b ∷ []) + fuel) r (stream (bs ++ b ∷ []) ++ rest)
        ≡ consume fuel (replayed r' store b.offset) rest
  consume-more r r' store bs b reads h fuel rest =
      ap (λ t. consume t r (stream (bs ++ b ∷ []) ++ rest))
        (omega (arith, length-append {0} bs (b ∷ [])))
      ∙ ap (consume (length bs + suc fuel) r) (stream-snoc bs b rest)
      ∙ reads (suc fuel) (batch_bytes b ++ rest)
      ∙ consume-batch r' store b h fuel rest
