-- ===== src/Replication/Delivery.antt =====
-- What reaches a slave's queue, whatever the order in which the master's tasks run.
use sd_03_distributed_cache.Prelude.{
  ℕ, zero, suc, ◌+◌, ◌<◌, ◌≡◌, refl, ap, sym, ◌∙◌, arith, true, false, ◌==◌, Option, none, some,
  List, [], ◌∷◌, ◌++◌, append_assoc, append-nil, length, map, All, nat_eq, if◌then◌else◌,
  Bool-cases, inl, inr,
}
use sd_03_distributed_cache.Prelude.Dict.{Dict, lookup, lookup-insert, lookup-remove}
use sd_03_distributed_cache.Replication.Effects.{Effect}
use sd_03_distributed_cache.Replication.Queues.{
  Event, write, send, enter, leave, after, after_all, take_batch-empty, take_batch-next,
  IsReplicator, offset-take_batch,
}
use sd_03_distributed_cache.Replication.Master.{
  Batch, Replicator, put_all, append_batch, join, take_batch, unregister,
}

abbrev pub as_list : Option Batch → List Batch
as_list none = []
as_list (some b) = b ∷ []

abbrev pub sent_one : ℕ → Replicator → Event → List Batch
sent_one q r (send p) = if p == q then as_list (take_batch r p).1 else []
sent_one q r _ = []

-- What was taken from the queue `q`, in order.
abbrev pub sent : ℕ → Replicator → List Event → List Batch
sent q r [] = []
sent q r (e ∷ es) = sent_one q r e ++ sent q (after r e) es

-- The batches of the writes, numbered behind `offset`.
abbrev pub written_one : ℕ → Event → List Batch
written_one offset (write effects) = record { offset = offset + 1; effects = effects } ∷ []
written_one offset _ = []

abbrev pub written : Replicator → List Event → List Batch
written r [] = []
written r (e ∷ es) = written_one r.offset e ++ written (after r e) es

-- The task of the slave `q` does not end.
abbrev pub StaysOne : ℕ → Event → Type 0
StaysOne q (leave p) = (p == q) ≡ false
StaysOne q _ = Unit

abbrev pub Stays : ℕ → List Event → Type 0
Stays q = All (StaysOne q)

pub lookup-put_all :
    (q : ℕ) (b : Batch) (slaves : Dict ℕ (List Batch)) (queue : List Batch)
    → lookup q slaves ≡ some queue
    → lookup q (put_all b slaves) ≡ some (queue ++ b ∷ [])
unfolding lookup put_all
lookup-put_all q b [] queue h = ground arith
lookup-put_all q b ((p, bs) ∷ slaves) queue h = ground (arith, lookup-put_all q b slaves queue)

lookup-append :
    (q : ℕ) (slaves more : Dict ℕ (List Batch)) (queue : List Batch)
    → lookup q slaves ≡ some queue
    → lookup q (slaves ++ more) ≡ some queue
unfolding lookup
lookup-append q [] more queue h = ground arith
lookup-append q ((p, bs) ∷ slaves) more queue h = ground (arith, lookup-append q slaves more queue)

-- Another queue is left as it is.
lookup-take_batch :
    (p q : ℕ) (r : Replicator)
    → (p == q) ≡ false
    → lookup q (take_batch r p).0.slaves ≡ lookup q r.slaves
unfolding take_batch
lookup-take_batch p q r other = go (lookup p r.slaves) refl
  where
    go :
        (o : Option (List Batch))
        → lookup p r.slaves ≡ o
        → lookup q (take_batch r p).0.slaves ≡ lookup q r.slaves
    go none e = rw (e, take_batch) refl
    go (some []) e = rw (e, take_batch) refl
    go (some (b ∷ bs)) e = rw (e, take_batch) (lookup-insert p q bs r.slaves ∙ rw other refl)

abbrev Delivered : ℕ → Replicator → Event → List Batch → Type 0
Delivered q r e queue =
    (left : List Batch) × (lookup q (after r e).slaves ≡ some left)
    × (sent_one q r e ++ left ≡ queue ++ written_one r.offset e)

send-Delivered :
    (p q : ℕ) (r : Replicator) (queue : List Batch)
    → (p == q) ≡ true
    → lookup p r.slaves ≡ some queue
    → lookup q r.slaves ≡ some queue
    → Delivered q r (send p) queue
send-Delivered p q r [] same hp h =
    let taken = take_batch-empty p r hp in
    ([], ap (λ t. lookup q t.0.slaves) taken ∙ h, rw same (ap (λ t. as_list t.1 ++ []) taken))
send-Delivered p q r (b ∷ bs) same hp h =
    let taken = take_batch-next p r b bs hp in
    (
      bs,
      ap (λ t. lookup q t.0.slaves) taken ∙ (lookup-insert p q bs r.slaves ∙ rw same refl),
      rw same (ap (λ t. as_list t.1 ++ bs) taken ∙ ap (◌∷◌ b) (sym (append-nil bs))),
    )

-- One step: what is sent, with what is then queued, is what was queued, with what the step writes.
after-Delivered :
    (q : ℕ) (r : Replicator) (e : Event) (queue : List Batch)
    → lookup q r.slaves ≡ some queue
    → StaysOne q e
    → Delivered q r e queue
unfolding append_batch join unregister
after-Delivered q r (write effects) queue h st =
    (queue ++ _ ∷ [], lookup-put_all q _ r.slaves queue h, refl)
after-Delivered q r (send p) queue h st = elim (Bool-cases (p == q)) [
  | inl same ↦
      send-Delivered p q r queue same
        (ap (λ n. lookup n r.slaves) {x = p} {y = q} (ground arith) ∙ h) h
  | inr other ↦ (queue, lookup-take_batch p q r other ∙ h, rw other (sym (append-nil queue)))
]
after-Delivered q r enter queue h st =
    (queue, lookup-append q r.slaves _ queue h, sym (append-nil queue))
after-Delivered q r (leave p) queue h st =
    (queue, lookup-remove p q r.slaves ∙ rw st h, sym (append-nil queue))

-- Whatever else the master does, as long as the task of the slave `q` does not end, what has been
-- taken from its queue, with what is still in it, is what was in it, with one batch for each write
-- since, in the order of the writes and under their offsets. No batch is lost, repeated or reordered.
pub sent-written :
    (q : ℕ) (r : Replicator) (es : List Event) (queue : List Batch)
    → lookup q r.slaves ≡ some queue
    → Stays q es
    → (left : List Batch) × (lookup q (after_all r es).slaves ≡ some left)
      × (sent q r es ++ left ≡ queue ++ written r es)
sent-written q r [] queue h st = (queue, h, sym (append-nil queue))
sent-written q r (e ∷ es) queue h (s, st) =
    let (mid, there, one) = after-Delivered q r e queue h s in
    let (left, last, rest) = sent-written q (after r e) es mid there st in
    (
      left,
      last,
      append_assoc (sent_one q r e) (sent q (after r e) es) left
          ∙ ap (◌++◌ (sent_one q r e)) rest
          ∙ sym (append_assoc (sent_one q r e) mid (written (after r e) es))
          ∙ ap (λ (t : List Batch). t ++ written (after r e) es) one
          ∙ append_assoc queue (written_one r.offset e) (written (after r e) es),
    )

-- The numbers from `n` on.
abbrev pub upward : ℕ → ℕ → List ℕ
upward n zero = []
upward n (suc k) = n ∷ upward (n + 1) k

written-offset :
    (r : Replicator) (es : List Event)
    → map (λ (b : Batch). b.offset) (written r es) ≡ upward (r.offset + 1) (length (written r es))
unfolding append_batch join unregister
written-offset r [] = refl
written-offset r (write effects ∷ es) =
    ap (◌∷◌ (r.offset + 1)) (written-offset (after r (write effects)) es)
written-offset r (send q ∷ es) =
    written-offset (after r (send q)) es
    ∙ ap (λ n. upward (n + 1) (length (written (after r (send q)) es))) (offset-take_batch q r)
written-offset r (enter ∷ es) = written-offset (after r enter) es
written-offset r (leave q ∷ es) = written-offset (after r (leave q)) es

-- The effects of the writes.
abbrev pub writes : List Event → List (List Effect)
writes [] = []
writes (write effects ∷ es) = effects ∷ writes es
writes (_ ∷ es) = writes es

effects-written :
    (r : Replicator) (es : List Event) → map (λ (b : Batch). b.effects) (written r es) ≡ writes es
effects-written r [] = refl
effects-written r (write effects ∷ es) =
    ap (◌∷◌ effects) (effects-written (after r (write effects)) es)
effects-written r (send q ∷ es) = effects-written (after r (send q)) es
effects-written r (enter ∷ es) = effects-written (after r enter) es
effects-written r (leave q ∷ es) = effects-written (after r (leave q)) es

length-written : (r : Replicator) (es : List Event) → length (written r es) ≡ length (writes es)
length-written r [] = refl
length-written r (write effects ∷ es) = ap suc (length-written (after r (write effects)) es)
length-written r (send q ∷ es) = length-written (after r (send q)) es
length-written r (enter ∷ es) = length-written (after r enter) es
length-written r (leave q ∷ es) = length-written (after r (leave q)) es

lookup-new :
    (q : ℕ) (slaves : Dict ℕ (List Batch))
    → All (λ (p : ℕ × List Batch). p.0 < q) slaves
    → lookup q (slaves ++ (q, []) ∷ []) ≡ some []
unfolding lookup
lookup-new q [] h = ground arith
lookup-new q ((p, bs) ∷ slaves) h = ground (arith, lookup-new q slaves h.1)

-- Where no registered queue has a name still to be given, a slave that joins has a queue from then
-- on. What has been taken from it, with what is still in it, is one batch for each write since, in
-- the order of the writes, with the effects of that write, and the offsets count up by one from that
-- of the slave's snapshot. This holds whatever the master does meanwhile, as long as the slave's task
-- does not end.
pub sent-join :
    (r : Replicator) (es : List Event)
    → IsReplicator r
    → Stays (join r).1 es
    → (left : List Batch) × (lookup (join r).1 (after_all (join r).0 es).slaves ≡ some left)
      × (map (λ (b : Batch). b.effects) (sent (join r).1 (join r).0 es ++ left) ≡ writes es)
      × (map (λ (b : Batch). b.offset) (sent (join r).1 (join r).0 es ++ left)
          ≡ upward (r.offset + 1) (length (writes es)))
unfolding join
sent-join r es h st =
    let (left, there, all) =
      sent-written r.next_queue (join r).0 es [] (lookup-new r.next_queue r.slaves h) st in
    (
      left,
      there,
      ap (map (λ (b : Batch). b.effects)) all ∙ effects-written (join r).0 es,
      ap (map (λ (b : Batch). b.offset)) all
          ∙ written-offset (join r).0 es
          ∙ ap (upward (r.offset + 1)) (length-written (join r).0 es),
    )
