-- ===== src/Lru/Amend.antt =====
-- What a node holds, changed in place: the cells, the abstract entries and the invariant.
use sd_03_distributed_cache.Prelude.{
  ℕ, ◌≡◌, refl, ap, sym, ◌∙◌, true, some, [], ◌∷◌, if◌then◌else◌, arith, length, Bool-cases, inl,
  inr, Bytes, bytes_eq, bytes_beq, bytes_beq_iff,
}
use sd_03_distributed_cache.Lru.{Mode, LruCache}
use sd_03_distributed_cache.Lru.Nodes.{Ptr, Node, Heap, write}
use sd_03_distributed_cache.Lru.Chain.{has, Distinct, Linked-frame}
use sd_03_distributed_cache.Lru.Links.{has-ne}
use sd_03_distributed_cache.Lru.Spec.{Entry, find, reschedule}
use sd_03_distributed_cache.Lru.Cells.{
  Cells, ptrs, entries, locate, drop_key, UniqueKeys, Holds, Holds-frame, has_of_locate,
}
use sd_03_distributed_cache.Lru.Invariant.{IsCache}

module _ {F : Type 0} where
  -- The entry of the key, replaced.
  unfoldable pub amend : Bytes → Entry F → Cells F → Cells F
  amend k f [] = []
  amend k f ((p, e) ∷ cs) =
      let rest = amend k f cs in if bytes_beq e.key k then (p, f) ∷ cs else (p, e) ∷ rest

  ptrs-amend : (k : Bytes) (f : Entry F) (cs : Cells F) → ptrs (amend k f cs) ≡ ptrs cs
  unfolding amend
  ptrs-amend k f [] = refl
  ptrs-amend k f ((p, e) ∷ cs) = ground (arith, ptrs-amend k f cs)

  length-amend : (k : Bytes) (f : Entry F) (cs : Cells F) → length (amend k f cs) ≡ length cs
  unfolding amend
  length-amend k f [] = refl
  length-amend k f ((p, e) ∷ cs) = ground (arith, length-amend k f cs)

  pub locate-amend :
      (k j : Bytes) (f : Entry F) (cs : Cells F) → f.key ≡ k → locate j (amend k f cs) ≡ locate j cs
  unfolding amend locate
  locate-amend k j f [] h = refl
  locate-amend k j f ((p, e) ∷ cs) h = ground (
    arith,
    locate-amend k j f cs,
    bytes_beq_iff e.key k,
    bytes_beq_iff e.key j,
    bytes_beq_iff f.key j,
  )

  UniqueKeys-amend :
      (k : Bytes) (f : Entry F) (cs : Cells F)
      → f.key ≡ k
      → UniqueKeys cs
      → UniqueKeys (amend k f cs)
  unfolding amend
  UniqueKeys-amend k f [] h u = u
  UniqueKeys-amend k f ((p, e) ∷ cs) h u =
      ground
        (arith, bytes_beq_iff e.key k, locate-amend k e.key f cs h, UniqueKeys-amend k f cs h u.1)

  pub find-amend :
      (k : Bytes) (f : Entry F) (p : Ptr) (cs : Cells F)
      → f.key ≡ k
      → locate k cs ≡ some p
      → find k (entries (amend k f cs)) ≡ some f
  unfolding amend locate find
  find-amend k f p [] h l = absurd (ground arith)
  find-amend k f p ((q, e) ∷ cs) h l =
      ground (arith, find-amend k f p cs, bytes_beq_iff e.key k, bytes_beq_iff f.key k)

  pub drop_key-amend :
      (k : Bytes) (f : Entry F) (cs : Cells F)
      → f.key ≡ k
      → drop_key k (amend k f cs) ≡ drop_key k cs
  unfolding amend drop_key
  drop_key-amend k f [] h = refl
  drop_key-amend k f ((p, e) ∷ cs) h =
      ground (arith, drop_key-amend k f cs, bytes_beq_iff e.key k, bytes_beq_iff f.key k)

  pub entries-amend :
      (k : Bytes) (t : F) (e : Entry F) (cs : Cells F)
      → find k (entries cs) ≡ some e
      → entries (amend k (record e { expire_at = some t }) cs) ≡ reschedule k t (entries cs)
  unfolding amend reschedule find
  entries-amend k t e [] h = refl
  entries-amend k t e ((p, d) ∷ cs) h = ground (arith, entries-amend k t e cs)

  -- The node is given what the entry says, and keeps its key and its links.
  pub record Rewritten (d d' : Node F) (f : Entry F) : Type 0 where
    pub key : d'.key ≡ d.key
    pub value : d'.value ≡ some f.value
    pub expire_at : d'.expire_at ≡ f.expire_at
    pub prev : d'.prev ≡ d.prev
    pub next : d'.next ≡ d.next

  Holds-amend :
      (h : Heap F) (k : Bytes) (f : Entry F) (p : Ptr) (d : Node F) (cs : Cells F)
      → f.key ≡ k
      → Distinct (ptrs cs)
      → locate k cs ≡ some p
      → Rewritten (h p) d f
      → Holds h cs
      → Holds (write h p d) (amend k f cs)
  unfolding amend locate write
  Holds-amend h k f p d [] fk ds l r w = w
  Holds-amend h k f p d ((q, e) ∷ cs) fk ds l r w = elim (Bool-cases (bytes_beq e.key k)) [
    | inl same ↦ rw same (
      ground (arith, bytes_beq_iff e.key k),
      ground arith,
      ground arith,
      Holds-frame h (write h p d) cs (λ x i. ap (λ (z : Node F). z.key) (spared x i same))
          (λ x i. ap (λ (z : Node F). z.value) (spared x i same))
          (λ x i. ap (λ (z : Node F). z.expire_at) (spared x i same)) w.3,
    )
    | inr other ↦ rw other (
      ground (arith, has_of_locate k p cs),
      ground (arith, has_of_locate k p cs),
      ground (arith, has_of_locate k p cs),
      Holds-amend h k f p d cs fk ds.1 (ground arith) r w.3,
    )
  ]
    where
      spared : (x : Ptr) → has x (ptrs cs) ≡ true → bytes_beq e.key k ≡ true → write h p d x ≡ h x
      spared x i same = ground (arith, has-ne x q (ptrs cs))

  pub amend-IsCache :
      {n : ℕ} {m : Mode} {c : LruCache F} {cs : Cells F}
      → IsCache n m c cs
      → (k : Bytes) (p : Ptr) (f : Entry F) (d : Node F) → f.key ≡ k
      → locate k cs ≡ some p
      → Rewritten (c.heap p) d f
      → IsCache n m (record c { heap = write c.heap p d }) (amend k f cs)
  unfolding write
  amend-IsCache {c} {cs} i k p f d fk l r = record {
    maxsize = i.maxsize;
    mode = i.mode;
    linked = rw (ptrs-amend k f cs) (
        Linked-frame c.heap (write c.heap p d) c.head (ptrs cs) c.tail
          (λ q _. ground (arith, r.next)) (λ q _. ground (arith, r.prev)) i.linked);
    distinct = rw (ptrs-amend k f cs) i.distinct;
    holds = Holds-amend c.heap k f p d cs fk i.distinct.1.1 l r i.holds;
    below = rw (ptrs-amend k f cs) i.below;
    unique = UniqueKeys-amend k f cs fk i.unique;
    index = λ j. i.index j ∙ sym (locate-amend k j f cs fk);
    is_dict = i.is_dict;
    count = i.count ∙ sym (length-amend k f cs);
  }
