-- ===== src/Replication/Queues.antt =====
-- The steps of the master's tasks, and the names of its queues.
use sd_03_distributed_cache.Prelude.{
  ℕ, ◌+◌, ◌<◌, ◌≡◌, refl, ap, arith, Option, none, some, List, [], ◌∷◌, ◌++◌, All, nat_eq,
}
use sd_03_distributed_cache.Prelude.Dict.{Dict, lookup, insert, remove}
use sd_03_distributed_cache.Replication.Effects.{Effect}
use sd_03_distributed_cache.Replication.Master.{
  Batch, Replicator, put_all, append_batch, join, take_batch, unregister,
}

-- What a task does between two of its waits: a write is replicated, the task of a slave takes a
-- batch from its queue, a slave joins, or a slave's task ends.
pub data Event : Type 0 where
  write : List Effect → Event
  send : ℕ → Event
  enter : Event
  leave : ℕ → Event

abbrev pub after : Replicator → Event → Replicator
after r (write effects) = (append_batch r effects).0
after r (send q) = (take_batch r q).0
after r enter = (join r).0
after r (leave q) = unregister r q

abbrev pub after_all : Replicator → List Event → Replicator
after_all r [] = r
after_all r (e ∷ es) = after_all (after r e) es

take_batch-absent : (q : ℕ) (r : Replicator) → lookup q r.slaves ≡ none → take_batch r q ≡ (r, none)
unfolding take_batch
take_batch-absent q r h = rw (h, take_batch) refl

pub take_batch-empty :
    (q : ℕ) (r : Replicator) → lookup q r.slaves ≡ some [] → take_batch r q ≡ (r, none)
unfolding take_batch
take_batch-empty q r h = rw (h, take_batch) refl

pub take_batch-next :
    (q : ℕ) (r : Replicator) (b : Batch) (bs : List Batch)
    → lookup q r.slaves ≡ some (b ∷ bs)
    → take_batch r q ≡ (record r { slaves = insert q bs r.slaves }, some b)
unfolding take_batch
take_batch-next q r b bs h = rw (h, take_batch) refl

-- No registered queue has a name that is still to be given.
abbrev pub IsReplicator : Replicator → Type 0
IsReplicator r = All (λ (p : ℕ × List Batch). p.0 < r.next_queue) r.slaves

module _ (n : ℕ) where
  Below : Dict ℕ (List Batch) → Type 0
  Below = All (λ (p : ℕ × List Batch). p.0 < n)

  Below-put_all : (b : Batch) (d : Dict ℕ (List Batch)) → Below d → Below (put_all b d)
  unfolding Below put_all
  Below-put_all b [] h = h
  Below-put_all b ((p, bs) ∷ d) (h, hs) = (h, Below-put_all b d hs)

  Below-insert :
      (q : ℕ) (bs : List Batch) (d : Dict ℕ (List Batch)) → q < n → Below d → Below (insert q bs d)
  unfolding Below insert
  Below-insert q bs [] hq h = (hq, h)
  Below-insert q bs ((p, cs) ∷ d) hq (h, hs) = ground (arith, Below-insert q bs d hq hs)

  Below-remove : (q : ℕ) (d : Dict ℕ (List Batch)) → Below d → Below (remove q d)
  unfolding Below remove
  Below-remove q [] h = h
  Below-remove q ((p, cs) ∷ d) (h, hs) = ground (arith, Below-remove q d hs)

  Below-lookup :
      (q : ℕ) (bs : List Batch) (d : Dict ℕ (List Batch)) → Below d → lookup q d ≡ some bs → q < n
  unfolding Below lookup
  Below-lookup q bs [] h e = ground arith
  Below-lookup q bs ((p, cs) ∷ d) (h, hs) e = ground (arith, Below-lookup q bs d hs)

Below-join : (n : ℕ) (d : Dict ℕ (List Batch)) → Below n d → Below (n + 1) (d ++ (n, []) ∷ [])
unfolding Below
Below-join n [] h = (omega arith, tt)
Below-join n ((p, bs) ∷ d) (h, hs) = (omega (arith, h), Below-join n d hs)

-- Every step of the master keeps it so.
after-IsReplicator : (r : Replicator) (e : Event) → IsReplicator r → IsReplicator (after r e)
unfolding append_batch join unregister Below
after-IsReplicator r (write effects) h = Below-put_all r.next_queue _ r.slaves h
after-IsReplicator r (send q) h = go (lookup q r.slaves) refl
  where
    go : (o : Option (List Batch)) → lookup q r.slaves ≡ o → IsReplicator (take_batch r q).0
    go none e = rw (take_batch-absent q r e) h
    go (some []) e = rw (take_batch-empty q r e) h
    go (some (b ∷ bs)) e = rw (take_batch-next q r b bs e) (
        Below-insert r.next_queue q bs r.slaves (Below-lookup r.next_queue q (b ∷ bs) r.slaves h e)
          h)
after-IsReplicator r enter h = Below-join r.next_queue r.slaves h
after-IsReplicator r (leave q) h = Below-remove r.next_queue q r.slaves h

pub offset-take_batch : (q : ℕ) (r : Replicator) → (take_batch r q).0.offset ≡ r.offset
offset-take_batch q r = go (lookup q r.slaves) refl
  where
    go : (o : Option (List Batch)) → lookup q r.slaves ≡ o → (take_batch r q).0.offset ≡ r.offset
    go none e = ap (λ t. t.0.offset) (take_batch-absent q r e)
    go (some []) e = ap (λ t. t.0.offset) (take_batch-empty q r e)
    go (some (b ∷ bs)) e = ap (λ t. t.0.offset) (take_batch-next q r b bs e)
