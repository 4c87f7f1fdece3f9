-- ===== src/Tests/Streams.antt =====
-- A replica, and batches that apply to its store, for the tests of the connection.
use sd_03_distributed_cache.Prelude.{refl, arith, true, none, List, [], ◌∷◌}
use sd_03_distributed_cache.Prelude.Int.{ℤ, pos}
use sd_03_distributed_cache.Bytes.{codes}
use sd_03_distributed_cache.Lru.{logical, LruCache}
use sd_03_distributed_cache.Lru.Spec.{Entry}
use sd_03_distributed_cache.Lru.Refine.{Represents, init-Represents}
use sd_03_distributed_cache.Replication.Effects.{Effect}
use sd_03_distributed_cache.Replication.Master.{Batch}
use sd_03_distributed_cache.Replication.Replica.{Replica}
use sd_03_distributed_cache.Replication.Atomic.{Applies}
use sd_03_distributed_cache.Server.Mirror.{AreShort, Applied, apply-set, apply-del, apply_all-one}
use sd_03_distributed_cache.Tests.Clocks.{ticking}

abbrev pub empty_store : LruCache ℤ
empty_store = ((init-Represents logical).0 1).0

pub empty_store-Represents : Represents 2 logical empty_store []
empty_store-Represents = ((init-Represents logical).0 1).2

abbrev pub following : Replica ℤ
following = record {
  store = empty_store;
  applied_offset = pos 2;
  last_seen_offset = pos 2;
  synced = true;
}

pub short : AreShort ℤ
short t ms h = (ms, refl)

abbrev pub set_effect : Effect
set_effect = Effect.set (codes "a") (codes "1") (pos 0)

abbrev pub del_effect : Effect
del_effect = Effect.del (codes "b")

abbrev pub batches : List Batch
batches =
    record { offset = 3; effects = set_effect ∷ [] }
    ∷ record { offset = 4; effects = del_effect ∷ [] }
    ∷ []

module _ {c : LruCache ℤ} {ds : List (Entry ℤ)} (r : Represents 2 logical c ds) where
  pub after_set : Applied short 2 logical c set_effect
  after_set = (apply-set short r (omega arith) (codes "a") (codes "1") none (pos 0) refl).0

  pub after_del : Applied short 2 logical after_set.state del_effect
  after_del = (apply-del short after_set.represents (codes "b")).0

  -- The store that the batches leave.
  abbrev pub replayed : LruCache ℤ
  replayed = after_del.state

  pub batches-Applies : Applies c batches replayed
  batches-Applies = (
    after_set.state,
    apply_all-one short c after_set.state set_effect after_set.returns,
    (
      after_del.state,
      apply_all-one short after_set.state after_del.state del_effect after_del.returns,
      refl,
    ),
  )
