-- ===== src/Replication/Broken.antt =====
-- A connection that breaks inside the tag of a batch.
use sd_03_distributed_cache.Prelude.{
  ℕ, suc, ◌<◌, ◌≡◌, refl, ap, sym, ◌∙◌, subst, arith, false, Bool-cases, inl, inr, zero, drop,
  append_assoc, ◌≤◌, some, List, [], ◌∷◌, ◌++◌, length, length-append, Bytes, bytes_beq,
  bytes_beq_iff, protocol_error, raise, ok,
}
use sd_03_distributed_cache.Clock.{Clock}
use sd_03_distributed_cache.Bytes.{codes, is_space, split}
use sd_03_distributed_cache.Lru.{LruCache}
use sd_03_distributed_cache.Replication.Master.{Batch, control, batch_bytes, stream}
use sd_03_distributed_cache.Replication.Lines.{OneWord, OneWord-OneLine}
use sd_03_distributed_cache.Replication.Cut.{head_or, read_line-cut}
use sd_03_distributed_cache.Replication.CutLine.{split_aux-word}
use sd_03_distributed_cache.Replication.Batches.{replayed, consume-batch}
use sd_03_distributed_cache.Replication.Atomic.{Applies}
use sd_03_distributed_cache.Replication.Replica.{
  Replica, dispatch_tag, dispatch_line, consume_one, consume,
}

front-OneWord : (p y word : Bytes) → p ++ y ≡ word → OneWord word → OneWord p
front-OneWord [] y word e o = tt
front-OneWord (c ∷ p) y [] e o = absurd (omega (arith, ap length e))
front-OneWord (c ∷ p) y (d ∷ word) e (u, o) = (
  subst (λ b. is_space b ≡ false) (sym (ap (head_or 0) e)) u,
  front-OneWord p y word (ap (drop 1) e) o,
)

pub length-stream : (bs : List Batch) → length bs ≤ length (stream bs)
unfolding batch_bytes control
length-stream [] = omega arith
length-stream (b ∷ bs) =
    omega (arith, length-append {0} (batch_bytes b) (stream bs), length-stream bs)

module _ {F : Type 0} ⦃clock : Clock F⦄ where
  tag-raises :
      (r : Replica F) (c : ℕ) (p y : Bytes)
      → (c ∷ p) ++ y ≡ codes "BATCH"
      → 0 < length y
      → consume_one r (c ∷ p) ≡ (r, raise protocol_error)
  unfolding consume_one dispatch_line dispatch_tag split bytes_beq is_space
  tag-raises r c p y h ne =
      rw (read_line-cut (c ∷ p) (OneWord-OneLine (c ∷ p) word), consume_one)
        (rw (split_aux-word [] (c ∷ p) word) (rw not_snapshot (rw not_batch refl)))
    where
      word : OneWord (c ∷ p)
      word = front-OneWord (c ∷ p) y (codes "BATCH") h (refl, (refl, (refl, (refl, (refl, tt)))))

      not_snapshot : bytes_beq (c ∷ p) (codes "SNAPSHOT") ≡ false
      not_snapshot = ground (arith, ap (head_or 0) h)

      not_batch : bytes_beq (c ∷ p) (codes "BATCH") ≡ false
      not_batch = elim (Bool-cases (bytes_beq (c ∷ p) (codes "BATCH"))) [
        | inl same ↦
            let e : c ∷ p ≡ codes "BATCH" = (bytes_beq_iff (c ∷ p) (codes "BATCH")).0 same in
            absurd (omega (arith, ap length e, ap length h, length-append {0} p y, ne))
        | inr other ↦ other
      ]

  -- Batches that all apply, and a part of the tag of another one.
  pub batches-raises :
      (fuel : ℕ) (r : Replica F) (bs : List Batch) (store : LruCache F) (c : ℕ) (p y : Bytes)
      → Applies r.store bs store
      → (c ∷ p) ++ y ≡ codes "BATCH"
      → 0 < length y
      → length bs < fuel
      → (r' : Replica F) × (consume fuel r (stream bs ++ c ∷ p) ≡ (r', some protocol_error))
        × (r'.store ≡ store)
  unfolding consume
  batches-raises zero r bs store c p y a h ne f = absurd (omega (arith, f))
  batches-raises (suc fuel) r [] store c p y a h ne f = (
    r,
    ap (λ t. elim t.1 [ raise x ↦ (t.0, some x) | ok rest ↦ consume fuel t.0 rest ])
        (tag-raises r c p y h ne),
    a,
  )
  batches-raises (suc fuel) r (b ∷ bs) store c p y (d, a, later) h ne f =
      let (r', e, k) =
        batches-raises fuel (replayed r d b.offset) bs store c p y later h ne (omega (arith, f)) in
      (
        r',
        ap (consume (suc fuel) r) (append_assoc (batch_bytes b) (stream bs) (c ∷ p))
            ∙ consume-batch r d b a fuel (stream bs ++ c ∷ p)
            ∙ e,
        k,
      )
