-- ===== src/Lru/Nodes.antt =====
-- The `_Node` objects of distcache/lru.py, and writes to their attributes.
use sd_03_distributed_cache.Prelude.{
  ℕ, ◌==◌, Option, none, some, if◌then◌else◌, Bytes, Result, ok, raise, attribute_error,
}

abbrev pub Ptr : Type 0
Ptr = ℕ

pub record Node (F : Type 0) : Type 0 where
  pub key : Option Bytes
  pub value : Option Bytes
  pub expire_at : Option F
  pub prev : Option Ptr
  pub next : Option Ptr

abbrev pub blank : {F : Type 0} → Node F
blank = record { key = none; value = none; expire_at = none; prev = none; next = none }

abbrev pub Heap : Type 0 → Type 0
Heap F = Ptr → Node F

-- `x.attr` where `x` may be None.
unfoldable pub deref : Option Ptr → Result Ptr
deref none = raise attribute_error
deref (some p) = ok p

module _ {F : Type 0} where
  unfoldable pub write : Heap F → Ptr → Node F → Heap F
  write h p n q = if p == q then n else h q

  unfoldable pub write_prev : Heap F → Ptr → Option Ptr → Heap F
  unfolding write
  write_prev h p v = write h p (record (h p) { prev = v })

  unfoldable pub write_next : Heap F → Ptr → Option Ptr → Heap F
  unfolding write
  write_next h p v = write h p (record (h p) { next = v })
