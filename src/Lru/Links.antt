-- ===== src/Lru/Links.antt =====
-- `_remove` takes a node out of a chain, and `_add_front` puts one at its front.
use sd_03_distributed_cache.Prelude.{
  ◌==◌, ==_refl, ◌≡◌, ◌≢◌, true, false, Bool-cases, inl, inr, some, List, [], ◌∷◌, arith,
}
use sd_03_distributed_cache.Lru.Nodes.{Ptr, Heap}
use sd_03_distributed_cache.Lru.Chain.{
  has, Distinct, erase, Linked, Linked-frame, unlinked, fronted,
}

pub has-ne : (x y : Ptr) (ps : List Ptr) → has x ps ≡ true → has y ps ≡ false → x ≢ y
has-ne x y [] h k = cc
has-ne x y (p ∷ ps) h k = ground (arith, has-ne x y ps)

module _ {F : Type 0} where
  pub record Neighbours (h : Heap F) (a : Ptr) (ps : List Ptr) (z p : Ptr) : Type 0 where
    pub before : Ptr
    pub after : Ptr
    pub prev : (h p).prev ≡ some before
    pub next : (h p).next ≡ some after
    pub has_before : has before (a ∷ ps) ≡ true
    pub has_after : has after (z ∷ ps) ≡ true
    pub before_ne : before ≢ p
    pub after_ne : after ≢ p
    pub rest : Linked (unlinked h p before after) a (erase p ps) z

  front-Neighbours :
      (h : Heap F) (a p : Ptr) (ps : List Ptr) (z : Ptr)
      → Distinct (z ∷ a ∷ p ∷ ps)
      → Linked h a (p ∷ ps) z
      → Neighbours h a (p ∷ ps) z p
  unfolding erase
  front-Neighbours h a p [] z d l = record {
    before = a;
    after = z;
    prev = l.1;
    next = l.2.0;
    has_before = ground arith;
    has_after = ground arith;
    before_ne = ground arith;
    after_ne = ground arith;
    rest = ground arith;
  }
  front-Neighbours h a p (q ∷ ps) z d l = record {
    before = a;
    after = q;
    prev = l.1;
    next = l.2.0;
    has_before = ground arith;
    has_after = ground arith;
    before_ne = ground arith;
    after_ne = ground arith;
    rest = rw (==_refl p) (
      ground arith,
      ground arith,
      Linked-frame h (unlinked h p a q) q ps z
          (λ x e. ground (arith, has-ne x a (q ∷ ps), has-ne x p (q ∷ ps)))
          (λ x e. ground (arith, has-ne x q (z ∷ ps), has-ne x p (z ∷ ps))) l.2.2,
    );
  }

  cons-Neighbours :
      (h : Heap F) (a q : Ptr) (ps : List Ptr) (z p : Ptr)
      → Distinct (z ∷ a ∷ q ∷ ps)
      → Linked h a (q ∷ ps) z
      → (p == q) ≡ false
      → has p ps ≡ true
      → Neighbours h q ps z p
      → Neighbours h a (q ∷ ps) z p
  unfolding erase
  cons-Neighbours h a q ps z p d l other m n = record {
    before = n.before;
    after = n.after;
    prev = n.prev;
    next = n.next;
    has_before = ground arith;
    has_after = ground arith;
    before_ne = n.before_ne;
    after_ne = n.after_ne;
    rest = rw other (
      ground (arith, has-ne n.before a (q ∷ ps), has-ne p a (q ∷ ps)),
      ground (arith, has-ne n.after q (z ∷ ps), has-ne p q (z ∷ ps)),
      n.rest,
    );
  }

  pub Linked-Neighbours :
      (h : Heap F) (a : Ptr) (ps : List Ptr) (z p : Ptr)
      → Distinct (z ∷ a ∷ ps)
      → Linked h a ps z
      → has p ps ≡ true
      → Neighbours h a ps z p
  unfolding erase
  Linked-Neighbours h a [] z p d l m = cc
  Linked-Neighbours h a (q ∷ ps) z p d l m = elim (Bool-cases (p == q)) [
    | inl same ↦ let e : p ≡ q = ground arith in rw e (front-Neighbours h a q ps z d l)
    | inr other ↦
        cons-Neighbours h a q ps z p d l other (ground arith)
          (Linked-Neighbours h q ps z p (ground arith) l.2 (ground arith))
  ]

  pub Linked-fronted :
      (h : Heap F) (a : Ptr) (ps : List Ptr) (z p : Ptr)
      → Distinct (z ∷ a ∷ ps)
      → has p (z ∷ a ∷ ps) ≡ false
      → Linked h a ps z
      → (first : Ptr) × ((h a).next ≡ some first) × Linked (fronted h a p first) a (p ∷ ps) z
  Linked-fronted h a [] z p d n l = (z, ground arith, ground arith)
  Linked-fronted h a (q ∷ ps) z p d n l = (
    q,
    l.0,
    (
      ground arith,
      ground arith,
      (
        ground arith,
        ground arith,
        Linked-frame h (fronted h a p q) q ps z
            (λ x e. ground (arith, has-ne x a (q ∷ ps), has-ne x p (q ∷ ps)))
            (λ x e. ground (arith, has-ne x q (z ∷ ps), has-ne x p (z ∷ ps))) l.2,
      ),
    ),
  )
