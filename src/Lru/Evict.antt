-- ===== src/Lru/Evict.antt =====
-- The eviction of `_insert`: the node before the sentinel `tail` holds the least recent entry.
use sd_03_distributed_cache.Prelude.{
  ℕ, ◌==◌, ◌≡◌, refl, ap, false, some, List, [], ◌∷◌, arith, Bytes, bytes_beq, bytes_beq_iff,
  bytes_beq_refl, ok,
}
use sd_03_distributed_cache.Lru.{Mode, LruCache, discard, evict_last}
use sd_03_distributed_cache.Lru.Nodes.{Ptr, Heap, deref}
use sd_03_distributed_cache.Lru.Chain.{Linked}
use sd_03_distributed_cache.Lru.Links.{has-ne}
use sd_03_distributed_cache.Lru.Spec.{Entry, but_last, last_key}
use sd_03_distributed_cache.Lru.Cells.{
  Cells, ptrs, entries, locate, drop_key, UniqueKeys, Located, locate-Located,
}
use sd_03_distributed_cache.Lru.Invariant.{IsCache, discard-IsCache}

module _ {F : Type 0} where
  record LastCell (h : Heap F) (z : Ptr) (cs : Cells F) : Type 0 where
    ptr : Ptr
    key : Bytes
    prev : (h z).prev ≡ some ptr
    located : locate key cs ≡ some ptr
    dropped : entries (drop_key key cs) ≡ but_last (entries cs)
    last : last_key (entries cs) ≡ some key

  last_cell :
      (h : Heap F) (a : Ptr) (c : Ptr × Entry F) (cs : Cells F) (z : Ptr)
      → UniqueKeys (c ∷ cs)
      → Linked h a (ptrs (c ∷ cs)) z
      → LastCell h z (c ∷ cs)
  unfolding locate drop_key but_last last_key
  last_cell h a (p, e) [] z u l = record {
    ptr = p;
    key = e.key;
    prev = l.2.1;
    located = rw (bytes_beq_refl e.key) refl;
    dropped = rw (bytes_beq_refl e.key) refl;
    last = refl;
  }
  last_cell h a (p, e) ((q, f) ∷ cs) z u l = let r = last_cell h p (q, f) cs z u.1 l.2 in step r
    where
      step : LastCell h z ((q, f) ∷ cs) → LastCell h z ((p, e) ∷ (q, f) ∷ cs)
      step r = record {
        ptr = r.ptr;
        key = r.key;
        prev = r.prev;
        located = rw differ r.located;
        dropped = rw differ (ap (λ (es : List (Entry F)). e ∷ es) r.dropped);
        last = r.last;
      }
        where
          differ : bytes_beq e.key r.key ≡ false
          differ = ground (arith, bytes_beq_iff e.key r.key, r.located, u.0)

  module _ {n : ℕ} {m : Mode} {c : LruCache F} {d : Ptr × Entry F} {cs : Cells F}
      (i : IsCache n m c (d ∷ cs)) (r : LastCell c.heap c.tail (d ∷ cs)) where
    holder : Located c.heap (d ∷ cs) r.key r.ptr
    holder = locate-Located c.heap (d ∷ cs) r.key r.ptr i.holds r.located

    not_head : (r.ptr == c.head) ≡ false
    not_head = ground (arith, has-ne r.ptr c.head (ptrs (d ∷ cs)), holder.member, i.distinct)

    evict_step :
        {c' : LruCache F} → discard c r.key r.ptr ≡ ok c' → evict_last c ≡ ok (c', some r.key)
    unfolding evict_last deref
    evict_step gone = rw (r.prev, deref) (rw not_head (rw holder.key (rw gone refl)))

  -- On a cache with entries, the least recent one goes, and its key is returned.
  pub evict_last-IsCache :
      {n : ℕ} {m : Mode} {c : LruCache F} {d : Ptr × Entry F} {cs : Cells F}
      → IsCache n m c (d ∷ cs)
      → (c' : LruCache F) × (k : Bytes) × (cs' : Cells F) × (evict_last c ≡ ok (c', some k))
        × IsCache n m c' cs'
        × (entries cs' ≡ but_last (entries (d ∷ cs)))
        × (last_key (entries (d ∷ cs)) ≡ some k)
  evict_last-IsCache {c} {d} {cs} i =
      let r = last_cell c.heap c.head d cs c.tail i.unique i.linked in
      let (c', gone, i') = discard-IsCache i r.key r.ptr r.located in
      (c', r.key, drop_key r.key (d ∷ cs), evict_step i r gone, i', r.dropped, r.last)
