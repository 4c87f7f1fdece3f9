-- ===== src/Replication/Master.antt =====
-- `MasterReplicator`: the offset, the queues of the connected slaves, and what is written to them.
use sd_03_distributed_cache.Prelude.{
  ℕ, ◌+◌, Option, none, some, List, [], ◌∷◌, ◌++◌, if◌then◌else◌, length, Bytes, Result, ok, raise,
  overflow_error, ◌>>=◌, nat_eq,
}
use sd_03_distributed_cache.Prelude.Int.{ℤ, pos}
use sd_03_distributed_cache.Prelude.Dict.{Dict, lookup, insert, remove}
use sd_03_distributed_cache.Clock.{Clock}
use sd_03_distributed_cache.Bytes.{codes, crlf}
use sd_03_distributed_cache.Bytes.Decimal.{show}
use sd_03_distributed_cache.Lru.{LruCache, Item, snapshot}
use sd_03_distributed_cache.Replication.Effects.{Effect, frame_effect}

pub record Batch : Type 0 where
  pub offset : ℕ
  pub effects : List Effect

-- A queue is an object with a name of its own; `slaves` is the list of those registered, each with
-- what is in it, oldest first.
pub record Replicator : Type 0 where
  pub offset : ℕ
  pub slaves : Dict ℕ (List Batch)
  pub next_queue : ℕ

abbrev pub init : Replicator
init = record { offset = 0; slaves = []; next_queue = 0 }

-- `q.put_nowait(batch)` for every queue.
unfoldable pub put_all : Batch → Dict ℕ (List Batch) → Dict ℕ (List Batch)
put_all batch [] = []
put_all batch ((q, batches) ∷ slaves) = (q, batches ++ batch ∷ []) ∷ put_all batch slaves

unfoldable pub append_batch : Replicator → List Effect → Replicator × ℕ
unfolding put_all
append_batch r effects =
    let batch : Batch = record { offset = r.offset + 1; effects = effects } in
    (record r { offset = r.offset + 1; slaves = put_all batch r.slaves }, batch.offset)

unfoldable pub slave_count : Replicator → ℕ
slave_count r = length r.slaves

-- A queue is made and registered. Its name is returned too.
unfoldable pub join : Replicator → Replicator × ℕ
join r = (
  record r { slaves = r.slaves ++ (r.next_queue, []) ∷ []; next_queue = r.next_queue + 1 },
  r.next_queue,
)

-- The critical section of `handle_replica`: the offset and the snapshot are taken and a queue is
-- registered with no other task in between.
unfoldable pub register :
    {F : Type 0} → Replicator → LruCache F → Replicator × ℕ × ℕ × List (Item F)
unfolding join
register r store = ((join r).0, (join r).1, r.offset, snapshot store)

-- `queue.get()`, where the queue is not empty.
unfoldable pub take_batch : Replicator → ℕ → Replicator × Option Batch
take_batch r q = elim (lookup q r.slaves) [
  | none ↦ (r, none)
  | some [] ↦ (r, none)
  | some (batch ∷ rest) ↦ (record r { slaves = insert q rest r.slaves }, some batch)
]

-- The `finally` of `handle_replica`.
unfoldable pub unregister : Replicator → ℕ → Replicator
unregister r q = record r { slaves = remove q r.slaves }

-- A control line: a tag and two numbers.
unfoldable pub control : Bytes → ℕ → ℕ → Bytes
control tag a b = tag ++ (codes " " ++ (show a ++ (codes " " ++ (show b ++ crlf))))

unfoldable pub frames : List Effect → Bytes
frames [] = []
frames (e ∷ es) = frame_effect e ++ frames es

unfoldable pub batch_bytes : Batch → Bytes
unfolding control frames
batch_bytes batch =
    control (codes "BATCH") batch.offset (length batch.effects) ++ frames batch.effects

-- What is written to a slave for the batches that are taken from its queue.
abbrev pub stream : List Batch → Bytes
stream [] = []
stream (b ∷ bs) = batch_bytes b ++ stream bs

-- `_as_bytes`, where None prints as its name.
abbrev pub as_bytes : Option Bytes → Bytes
as_bytes none = codes "None"
as_bytes (some s) = s

module _ {F : Type 0} ⦃clock : Clock F⦄ where
  -- `int(expire_at * 1000) if expire_at else 0`
  unfoldable pub deadline_ms : Option F → Result ℤ
  deadline_ms none = ok (pos 0)
  deadline_ms (some t) =
      if clock.truthy t
      then elim (clock.millis t) [ none ↦ raise overflow_error | some ms ↦ ok ms ]
      else ok (pos 0)

  unfoldable pub snapshot_effects : List (Item F) → Result (List Effect)
  unfolding deadline_ms
  snapshot_effects [] = ok []
  snapshot_effects (i ∷ items) = do
    ms ← deadline_ms i.expire_at
    es ← snapshot_effects items
    ok (Effect.set (as_bytes i.key) (as_bytes i.value) ms ∷ es)

  -- What `handle_replica` writes before the batches.
  unfoldable pub snapshot_bytes : ℕ → List (Item F) → Result Bytes
  unfolding snapshot_effects
  snapshot_bytes offset items = do
    es ← snapshot_effects items
    ok (control (codes "SNAPSHOT") offset (length items) ++ frames es)
