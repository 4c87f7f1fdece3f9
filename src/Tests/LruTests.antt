-- ===== src/Tests/LruTests.antt =====
-- Runs of the cache, and its theorems at a cache with two entries.
use sd_03_distributed_cache.Prelude.{
  ℕ, zero, suc, ◌≤◌, ◌≡◌, ◌≢◌, refl, arith, true, Option, none, some, List, [], ◌∷◌, map, Bytes, ok,
  bytes_beq, ◌>>=◌,
}
use sd_03_distributed_cache.Prelude.Int.{ℤ, pos}
use sd_03_distributed_cache.Prelude.Dict.{lookup, insert, remove}
use sd_03_distributed_cache.Bytes.{codes}
use sd_03_distributed_cache.Lru.{
  authoritative, LruCache, init, delete, set_expire, insert_node, set, apply_set, get, len,
  snapshot, load_snapshot, sample_expired,
}
use sd_03_distributed_cache.Lru.Nodes.{deref, write, write_prev, write_next}
use sd_03_distributed_cache.Lru.Spec.{Entry, find, inserted, gotten, deleted, rescheduled}
use sd_03_distributed_cache.Lru.Refine.{Represents, Refines, init-Represents}
use sd_03_distributed_cache.Lru.Contract.{
  delete-deleted, set_expire-rescheduled, insert_node-inserted, get-gotten,
}
use sd_03_distributed_cache.Lru.Sweep.{Sampled, sample_expired-Sampled}
use sd_03_distributed_cache.Lru.FullCopy.{item, load_snapshot-snapshot}
use sd_03_distributed_cache.Lru.Laws.{Stored, set-Stored, apply_set-keeps}
use sd_03_distributed_cache.Tests.Clocks.{ticking}

abbrev a : Bytes
a = codes "a"

abbrev b : Bytes
b = codes "b"

abbrev v : Bytes
v = codes "1"

-- Two keys fit: with "a" read after "b" was stored, a third key evicts "b".
eviction_order :
    (do
      c ← init {F = ℤ} (pos 2) authoritative
      (c, _) ← set c a v none
      (c, _) ← set c b v none
      (c, _) ← get c a none (pos 0)
      (_, evicted) ← set c (codes "c") v none
      ok evicted)
    ≡ ok (some b)
unfolding init set get bytes_beq lookup insert remove deref write write_prev write_next
eviction_order = refl

-- A deadline that has come is a miss.
expiry :
    (do
      c ← init {F = ℤ} (pos 2) authoritative
      (c, _) ← set c a v (some (pos 5))
      (c, live) ← get c a none (pos 4)
      (c, gone) ← get c a none (pos 5)
      let result : Option Bytes × Option Bytes × ℕ = (live, gone, len c)
      ok result)
    ≡ ok (some v, none, 0)
unfolding init set get len bytes_beq lookup insert remove deref write write_prev write_next
expiry = refl

abbrev empty :
    (c : LruCache ℤ) × (init (pos 2) authoritative ≡ ok c) × Represents 2 authoritative c []
empty = (init-Represents authoritative).0 1

abbrev one : Stored 2 authoritative empty.0 [] a v (some (pos 5))
one = set-Stored empty.2 (omega arith) a v (some (pos 5))

abbrev two : Stored 2 authoritative one.state one.rest b v none
two = set-Stored one.represents (omega arith) b v none

delete-deleted_example : Refines 2 authoritative (delete two.state a) (deleted a two.rest)
delete-deleted_example = delete-deleted two.represents a

set_expire-rescheduled_example :
    Refines 2 authoritative (ok (set_expire two.state a (pos 9))) (rescheduled a (pos 9) two.rest)
set_expire-rescheduled_example = set_expire-rescheduled two.represents a (pos 9)

insert_node-inserted_example :
    Refines 2 authoritative
      (insert_node two.state (codes "c") v none true)
      (inserted 2 true (codes "c") v none two.rest)
insert_node-inserted_example = insert_node-inserted two.represents (codes "c") v none true

get-gotten_example :
    Refines 2 authoritative (get two.state a none (pos 4)) (gotten authoritative (pos 4) a two.rest)
get-gotten_example = get-gotten two.represents a none (pos 4)

set-Stored_example : Stored 2 authoritative two.state two.rest (codes "c") v none
set-Stored_example = set-Stored two.represents (omega arith) (codes "c") v none

apply_set-keeps_example :
    (c' : LruCache ℤ) × (es' : List (Entry ℤ)) × (apply_set two.state (codes "c") v none ≡ ok c')
    × Represents 2 authoritative c' es'
    × (find (codes "c") es' ≡ some (record { key = codes "c"; value = v; expire_at = none }))
    × ((j : Bytes) → j ≢ codes "c" → find j es' ≡ find j two.rest)
    × (len two.state ≤ len c')
apply_set-keeps_example = apply_set-keeps two.represents (omega arith) (codes "c") v none

-- `random.sample`, as a function that takes the first keys.
abbrev first_keys : List Bytes → ℕ → List Bytes
first_keys ks zero = []
first_keys [] (suc n) = []
first_keys (k ∷ ks) (suc n) = k ∷ first_keys ks n

sample_expired-Sampled_example :
    Sampled 2 authoritative
      (pos 5)
      two.state
      two.rest
      (sample_expired first_keys two.state none (pos 5) 20)
      20
sample_expired-Sampled_example = sample_expired-Sampled two.represents first_keys none (pos 5) 20

load_snapshot-snapshot_example :
    (items : List (Bytes × Bytes × Option ℤ)) × (d' : LruCache ℤ) × (es' : List (Entry ℤ))
    × (snapshot two.state ≡ map item items)
    × (load_snapshot empty.0 items ≡ ok d')
    × Represents 2 authoritative d' es'
    × ((j : Bytes) → find j es' ≡ find j two.rest)
load_snapshot-snapshot_example = load_snapshot-snapshot two.represents empty.2
