-- ===== src/Lru/Chain.antt =====
-- Chains of nodes: `Linked h a ps z` says that from `a` the list runs through `ps` to `z`, forwards
-- by `next` and backwards by `prev`. What `_remove` and `_add_front` do to a chain.
use sd_03_distributed_cache.Prelude.{
  ◌==◌, ◌≡◌, ◌≢◌, refl, ap, ◌∙◌, Bool, true, false, ◌||◌, none, some, List, [], ◌∷◌, ok,
  if◌then◌else◌, arith,
}
use mathlib.Core.Path.{fun_ext}
use sd_03_distributed_cache.Lru.{unlink, add_front}
use sd_03_distributed_cache.Lru.Nodes.{Ptr, Heap, write, write_prev, write_next, deref}

abbrev pub has : Ptr → List Ptr → Bool
has p [] = false
has p (q ∷ qs) = (p == q) || has p qs

-- No pointer twice.
abbrev pub Distinct : List Ptr → Type 0
Distinct [] = Unit
Distinct (p ∷ ps) = (has p ps ≡ false) × Distinct ps

unfoldable pub erase : Ptr → List Ptr → List Ptr
erase p [] = []
erase p (q ∷ qs) = let rest = erase p qs in if p == q then qs else q ∷ rest

module _ {F : Type 0} where
  abbrev pub Linked : Heap F → Ptr → List Ptr → Ptr → Type 0
  Linked h a [] z = ((h a).next ≡ some z) × ((h z).prev ≡ some a)
  Linked h a (p ∷ ps) z = ((h a).next ≡ some p) × ((h p).prev ≡ some a) × Linked h p ps z

  -- The chain depends on `next` up to its last node, and on `prev` from its first.
  pub Linked-frame :
      (h g : Heap F) (a : Ptr) (ps : List Ptr) (z : Ptr)
      → ((q : Ptr) → has q (a ∷ ps) ≡ true → (g q).next ≡ (h q).next)
      → ((q : Ptr) → has q (z ∷ ps) ≡ true → (g q).prev ≡ (h q).prev)
      → Linked h a ps z
      → Linked g a ps z
  Linked-frame h g a [] z n v l = ground (arith, n a, v z)
  Linked-frame h g a (p ∷ ps) z n v l = (
    ground (arith, n a),
    ground (arith, v p),
    Linked-frame h g p ps z (λ q e. n q (ground arith)) (λ q e. v q (ground arith)) l.2,
  )

  -- The heap after `_remove`: the neighbours point at one another, and the node at nothing.
  abbrev pub unlinked : Heap F → (p before after : Ptr) → Heap F
  unlinked h p before after q = record (h q) {
    prev = if p == q then none else if after == q then some before else (h q).prev;
    next = if p == q then none else if before == q then some after else (h q).next;
  }

  unlink_steps :
      (h : Heap F) (p before after : Ptr)
      → (h p).prev ≡ some before
      → (write_next h before (h p).next p).next ≡ some after
      → unlink h p
        ≡ ok (
            write_next
              (write_prev
                (write_prev
                  (write_next h before (h p).next)
                  after
                  (write_next h before (h p).next p).prev)
                p
                none)
              p
              none)
  unfolding unlink deref
  unlink_steps h p before after hv hn = rw (hv, deref) (rw (hn, deref) refl)

  pub unlink-eq-unlinked :
      (h : Heap F) (p before after : Ptr)
      → (h p).prev ≡ some before
      → (h p).next ≡ some after
      → before ≢ p
      → after ≢ p
      → unlink h p ≡ ok (unlinked h p before after)
  unfolding unlink write_prev write_next deref write
  unlink-eq-unlinked h p b a hv hn nb na =
      unlink_steps h p b a hv next-after_write ∙ ap ok (fun_ext λ q. node_eq q)
    where
      next-after_write : (write_next h b (h p).next p).next ≡ some a
      next-after_write = ground arith

      node_eq :
          (q : Ptr)
          → write_next
              (write_prev
                (write_prev (write_next h b (h p).next) a (write_next h b (h p).next p).prev)
                p
                none)
              p
              none
              q
            ≡ unlinked h p b a q
      node_eq q = ground arith

  -- The heap after `_add_front`: the node stands between `head` and the node that was first.
  abbrev pub fronted : Heap F → (head p first : Ptr) → Heap F
  fronted h head p first q = record (h q) {
    prev = if first == q then some p else if p == q then some head else (h q).prev;
    next = if head == q then some p else if p == q then some first else (h q).next;
  }

  pub add_front-eq-fronted :
      (h : Heap F) (head p first : Ptr)
      → (h head).next ≡ some first
      → head ≢ p
      → add_front h head p ≡ ok (fronted h head p first)
  unfolding add_front write_prev write_next deref write
  add_front-eq-fronted h head p first hn ne =
      rw (next-after_writes, deref) (ap ok (fun_ext λ q. node_eq q))
    where
      next-after_writes :
          (write_prev (write_next h p (h head).next) p (some head) head).next ≡ some first
      next-after_writes = ground arith

      node_eq :
          (q : Ptr)
          → write_next
              (write_prev (write_prev (write_next h p (h head).next) p (some head)) first (some p))
              head
              (some p)
              q
            ≡ fronted h head p first q
      node_eq q = ground arith
