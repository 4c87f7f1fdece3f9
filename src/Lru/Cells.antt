-- ===== src/Lru/Cells.antt =====
-- Nodes beside the entries that they hold: the link between the heap and the abstract list.
use sd_03_distributed_cache.Prelude.{
  ◌≡◌, refl, ap, suc, true, false, Bool-cases, Option, none, some, List, [], ◌∷◌, inl, inr,
  if◌then◌else◌, arith, length, ◌+◌, Bytes, bytes_beq, bytes_beq_iff,
}
use sd_03_distributed_cache.Lru.Nodes.{Ptr, Heap}
use sd_03_distributed_cache.Lru.Chain.{has, Distinct, erase}
use sd_03_distributed_cache.Lru.Spec.{Entry, find, without}

abbrev pub Cells : Type 0 → Type 0
Cells F = List (Ptr × Entry F)

module _ {F : Type 0} where
  abbrev pub ptrs : Cells F → List Ptr
  ptrs [] = []
  ptrs ((p, e) ∷ cs) = p ∷ ptrs cs

  abbrev pub entries : Cells F → List (Entry F)
  entries [] = []
  entries ((p, e) ∷ cs) = e ∷ entries cs

  unfoldable pub locate : Bytes → Cells F → Option Ptr
  locate k [] = none
  locate k ((p, e) ∷ cs) = if bytes_beq e.key k then some p else locate k cs

  unfoldable pub drop_key : Bytes → Cells F → Cells F
  drop_key k [] = []
  drop_key k ((p, e) ∷ cs) =
      let rest = drop_key k cs in if bytes_beq e.key k then cs else (p, e) ∷ rest

  -- No key twice.
  abbrev pub UniqueKeys : Cells F → Type 0
  UniqueKeys [] = Unit
  UniqueKeys ((p, e) ∷ cs) = (locate e.key cs ≡ none) × UniqueKeys cs

  -- Each node holds its entry.
  abbrev pub Holds : Heap F → Cells F → Type 0
  Holds h [] = Unit
  Holds h ((p, e) ∷ cs) =
      ((h p).key ≡ some e.key)
      × ((h p).value ≡ some e.value)
      × ((h p).expire_at ≡ e.expire_at)
      × Holds h cs

  pub Holds-frame :
      (h g : Heap F) (cs : Cells F)
      → ((q : Ptr) → has q (ptrs cs) ≡ true → (g q).key ≡ (h q).key)
      → ((q : Ptr) → has q (ptrs cs) ≡ true → (g q).value ≡ (h q).value)
      → ((q : Ptr) → has q (ptrs cs) ≡ true → (g q).expire_at ≡ (h q).expire_at)
      → Holds h cs
      → Holds g cs
  Holds-frame h g [] k v x w = w
  Holds-frame h g ((p, e) ∷ cs) k v x w = (
    ground (arith, k p),
    ground (arith, v p),
    ground (arith, x p),
    Holds-frame h g cs (λ q i. k q (ground arith)) (λ q i. v q (ground arith))
        (λ q i. x q (ground arith)) w.3,
  )

  -- What the node of a key holds.
  pub record Located (h : Heap F) (cs : Cells F) (k : Bytes) (p : Ptr) : Type 0 where
    pub entry : Entry F
    pub found : find k (entries cs) ≡ some entry
    pub key_eq : entry.key ≡ k
    pub key : (h p).key ≡ some k
    pub value : (h p).value ≡ some entry.value
    pub expire_at : (h p).expire_at ≡ entry.expire_at
    pub member : has p (ptrs cs) ≡ true

  pub locate-Located :
      (h : Heap F) (cs : Cells F) (k : Bytes) (p : Ptr)
      → Holds h cs
      → locate k cs ≡ some p
      → Located h cs k p
  unfolding locate find
  locate-Located h [] k p w l = absurd (ground arith)
  locate-Located h ((q, e) ∷ cs) k p w l = elim (Bool-cases (bytes_beq e.key k)) [
    | inl same ↦ record {
      entry = e;
      found = rw same refl;
      key_eq = (bytes_beq_iff e.key k).0 same;
      key = ground (arith, bytes_beq_iff e.key k);
      value = ground arith;
      expire_at = ground arith;
      member = ground arith;
    }
    | inr other ↦
        let n = locate-Located h cs k p w.3 (ground arith) in
        record {
          entry = n.entry;
          found = rw other n.found;
          key_eq = n.key_eq;
          key = n.key;
          value = n.value;
          expire_at = n.expire_at;
          member = ground (arith, n.member);
        }
  ]

  pub find-eq_none_of_locate :
      (k : Bytes) (cs : Cells F) → locate k cs ≡ none → find k (entries cs) ≡ none
  unfolding locate find
  find-eq_none_of_locate k [] l = refl
  find-eq_none_of_locate k ((p, e) ∷ cs) l = ground (arith, find-eq_none_of_locate k cs)

  pub entries-drop_key :
      (k : Bytes) (cs : Cells F) → entries (drop_key k cs) ≡ without k (entries cs)
  unfolding drop_key without
  entries-drop_key k [] = refl
  entries-drop_key k ((p, e) ∷ cs) = ground (arith, entries-drop_key k cs)

  pub has_of_locate :
      (k : Bytes) (p : Ptr) (cs : Cells F) → locate k cs ≡ some p → has p (ptrs cs) ≡ true
  unfolding locate
  has_of_locate k p [] l = cc
  has_of_locate k p ((q, e) ∷ cs) l = ground (arith, has_of_locate k p cs)

  pub ptrs-drop_key :
      (k : Bytes) (p : Ptr) (cs : Cells F)
      → Distinct (ptrs cs)
      → locate k cs ≡ some p
      → ptrs (drop_key k cs) ≡ erase p (ptrs cs)
  unfolding locate drop_key erase
  ptrs-drop_key k p [] d l = refl
  ptrs-drop_key k p ((q, e) ∷ cs) d l =
      ground (arith, ptrs-drop_key k p cs d.1, has_of_locate k p cs)

  pub locate-drop_key :
      (k j : Bytes) (cs : Cells F)
      → UniqueKeys cs
      → locate j (drop_key k cs) ≡ (if bytes_beq k j then none else locate j cs)
  unfolding locate drop_key
  locate-drop_key k j [] u = ground arith
  locate-drop_key k j ((p, e) ∷ cs) u = ground (
    arith,
    locate-drop_key k j cs u.1,
    bytes_beq_iff e.key k,
    bytes_beq_iff e.key j,
    bytes_beq_iff k j,
  )

  pub UniqueKeys-drop_key : (k : Bytes) (cs : Cells F) → UniqueKeys cs → UniqueKeys (drop_key k cs)
  unfolding drop_key
  UniqueKeys-drop_key k [] u = u
  UniqueKeys-drop_key k ((p, e) ∷ cs) u =
      ground (arith, UniqueKeys-drop_key k cs u.1, locate-drop_key k e.key cs u.1)

  pub Holds-drop_key :
      (h : Heap F) (k : Bytes) (cs : Cells F) → Holds h cs → Holds h (drop_key k cs)
  unfolding drop_key
  Holds-drop_key h k [] w = w
  Holds-drop_key h k ((p, e) ∷ cs) w = ground (arith, Holds-drop_key h k cs w.3)

  pub length-drop_key :
      (k : Bytes) (p : Ptr) (cs : Cells F)
      → locate k cs ≡ some p
      → length (drop_key k cs) + 1 ≡ length cs
  unfolding locate drop_key
  length-drop_key k p [] l = absurd (ground arith)
  length-drop_key k p ((q, e) ∷ cs) l = ground (arith, length-drop_key k p cs)

  pub has-drop_key :
      (q : Ptr) (k : Bytes) (cs : Cells F)
      → has q (ptrs cs) ≡ false
      → has q (ptrs (drop_key k cs)) ≡ false
  unfolding drop_key
  has-drop_key q k [] h = h
  has-drop_key q k ((p, e) ∷ cs) h = ground (arith, has-drop_key q k cs)

  pub Distinct-drop_key :
      (k : Bytes) (cs : Cells F) → Distinct (ptrs cs) → Distinct (ptrs (drop_key k cs))
  unfolding drop_key
  Distinct-drop_key k [] d = d
  Distinct-drop_key k ((p, e) ∷ cs) d =
      ground (arith, has-drop_key p k cs, Distinct-drop_key k cs d.1)

  -- The node of the key is not among the others.
  pub has-drop_key_self :
      (k : Bytes) (p : Ptr) (cs : Cells F)
      → Distinct (ptrs cs)
      → locate k cs ≡ some p
      → has p (ptrs (drop_key k cs)) ≡ false
  unfolding locate drop_key
  has-drop_key_self k p [] d l = refl
  has-drop_key_self k p ((q, e) ∷ cs) d l =
      ground (arith, has-drop_key_self k p cs d.1, has_of_locate k p cs)

  pub length-entries : (cs : Cells F) → length (entries cs) ≡ length cs
  length-entries [] = refl
  length-entries (c ∷ cs) = ap suc (length-entries cs)
