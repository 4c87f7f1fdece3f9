-- ===== src/Lru/FullCopy.antt =====
-- A snapshot of a cache, loaded into another, gives every key the entry that it had.
use sd_03_distributed_cache.Prelude.{
  ℕ, ◌≡◌, refl, ap, sym, ◌∙◌, Bool-cases, inl, inr, Option, none, some, List, [], ◌∷◌, arith, map,
  Bytes, bytes_eq, bytes_beq, bytes_beq_iff, bytes_beq_refl, ok,
}
use sd_03_distributed_cache.Prelude.Dict.{Dict, lookup, IsDict}
use sd_03_distributed_cache.Lru.{Mode, LruCache, Item, snapshot, load_snapshot}
use sd_03_distributed_cache.Lru.Nodes.{Ptr, Heap}
use sd_03_distributed_cache.Lru.Spec.{Entry, find}
use sd_03_distributed_cache.Lru.Cells.{Cells, entries, Located, locate-Located}
use sd_03_distributed_cache.Lru.Invariant.{IsCache}
use sd_03_distributed_cache.Lru.Refine.{Represents, key_cases}
use sd_03_distributed_cache.Lru.Snapshot.{loaded, AreNew, load_snapshot-loaded}

module _ {F : Type 0} where
  -- What a snapshot's tuple is, where the node has a key and a value.
  abbrev pub item : Bytes × Bytes × Option F → Item F
  item (k, v, x) = record { key = some k; value = some v; expire_at = x }

  -- The nodes of a dict as tuples.
  record Copied (h : Heap F) (cs : Cells F) (d : Dict Bytes Ptr) (es : List (Entry F))
      : Type 0 where
    items : List (Bytes × Bytes × Option F)
    lists :
        map
          (λ (_, p). record { key = (h p).key; value = (h p).value; expire_at = (h p).expire_at })
          d
        ≡ map item items
    new : AreNew items es
    finds :
        (j : Bytes)
        → find j (loaded items es)
          ≡ elim (lookup j d) [ none ↦ find j es | some _ ↦ find j (entries cs) ]

  abbrev entry_at : {h : Heap F} {cs : Cells F} (k : Bytes) {p : Ptr} → Located h cs k p → Entry F
  entry_at k b = record { key = k; value = b.entry.value; expire_at = b.entry.expire_at }

  entry_at-found :
      {h : Heap F} {cs : Cells F} (k : Bytes) {p : Ptr} (b : Located h cs k p)
      → find k (entries cs) ≡ some (entry_at k b)
  entry_at-found k b = ground (arith, b.found, b.key_eq)

  copy_cons :
      {h : Heap F} {cs : Cells F} {d : Dict Bytes Ptr} {es : List (Entry F)} (k : Bytes) (p : Ptr)
      (b : Located h cs k p)
      → lookup k d ≡ none
      → find k es ≡ none
      → Copied h cs d (entry_at k b ∷ es)
      → Copied h cs ((k, p) ∷ d) es
  unfolding lookup find
  copy_cons {cs} {d} {es} k p b u f r = record {
    items = (k, b.entry.value, b.entry.expire_at) ∷ r.items;
    lists = ground (arith, b.key, b.value, b.expire_at, r.lists);
    new = (f, r.new);
    finds = λ j. finds_at j (r.finds j);
  }
    where
      finds_at :
          (j : Bytes)
          → find j (loaded r.items (entry_at k b ∷ es))
            ≡ elim (lookup j d) [ none ↦ find j (entry_at k b ∷ es) | some _ ↦ find j (entries cs) ]
          → find j (loaded r.items (entry_at k b ∷ es))
            ≡ elim (lookup j ((k, p) ∷ d)) [ none ↦ find j es | some _ ↦ find j (entries cs) ]
      finds_at j g = elim (Bool-cases (bytes_beq k j)) [
        | inl same ↦
            let e : k ≡ j = (bytes_beq_iff k j).0 same in
            let gone : lookup j d ≡ none = ap (λ (z : Bytes). lookup z d) (sym e) ∙ u in
            rw same (
              g
              ∙ rw (gone, same)
                  (sym (ap (λ (z : Bytes). find z (entries cs)) (sym e) ∙ entry_at-found k b)))
        | inr other ↦ ground (arith, g)
      ]

  copy :
      (h : Heap F) (cs : Cells F) (d : Dict Bytes Ptr) (es : List (Entry F))
      → IsDict d
      → ((j : Bytes) (p : Ptr) → lookup j d ≡ some p → Located h cs j p)
      → ((j : Bytes) (p : Ptr) → lookup j d ≡ some p → find j es ≡ none)
      → Copied h cs d es
  unfolding lookup find
  copy h cs [] es u l f = record { items = []; lists = refl; new = tt; finds = λ j. refl }
  copy h cs ((k, p) ∷ d) es u l f =
      let here : lookup k ((k, p) ∷ d) ≡ some p = rw (bytes_beq_refl k) refl in
      let b = l k p here in
      copy_cons k p b u.0 (f k p here) (
        copy h cs d (entry_at k b ∷ es) u.1 (λ j q g. l j q (later j q g))
          (λ j q g. ground (arith, later j q g, f j q, bytes_beq_iff k j, u.0)))
    where
      later : (j : Bytes) (q : Ptr) → lookup j d ≡ some q → lookup j ((k, p) ∷ d) ≡ some q
      later j q g = ground (arith, bytes_beq_iff k j, u.0)

  copied :
      {n : ℕ} {m : Mode} {c : LruCache F} {cs : Cells F}
      → IsCache n m c cs
      → Copied c.heap cs c.index []
  copied {c} {cs} i =
      copy c.heap cs c.index [] i.is_dict
        (λ j p l. locate-Located c.heap cs j p i.holds (sym (i.index j) ∙ l))
        (λ j p l. unfold find in refl)

  nothing : (j : Bytes) → find {F = F} j [] ≡ none
  unfolding find
  nothing j = refl

  -- The tuples of a snapshot, with distinct keys, hold the entry of every key.
  pub record Snapped (c : LruCache F) (es : List (Entry F)) : Type 0 where
    pub tuples : List (Bytes × Bytes × Option F)
    pub lists : snapshot c ≡ map item tuples
    pub new : AreNew tuples []
    pub finds : (j : Bytes) → find j (loaded tuples []) ≡ find j es

  pub snapshot-Snapped :
      {n : ℕ} {m : Mode} {c : LruCache F} {es : List (Entry F)} → Represents n m c es → Snapped c es
  unfolding snapshot
  snapshot-Snapped {c} {es} r =
      let k = copied r.is_cache in
      record { tuples = k.items; lists = k.lists; new = k.new; finds = λ j. k.finds j ∙ every j }
    where
      every :
          (j : Bytes)
          → (elim (lookup j c.index) [ none ↦ find j [] | some _ ↦ find j (entries r.cells) ])
            ≡ find j es
      every j = elim (key_cases r.is_cache j) [
        | inl a ↦ rw a.indexed (nothing j ∙ sym a.found ∙ ap (find j) r.entries_eq)
        | inr b ↦ rw (b.indexed, r.entries_eq) refl
      ]

  -- The snapshot of a well-formed cache has a key and a value in every tuple. Loaded into any
  -- well-formed cache, which does not raise, it replaces what was there, and every key has the entry
  -- that it had in the first cache, and no other key has one.
  pub load_snapshot-snapshot :
      {n n' : ℕ} {m m' : Mode} {c d : LruCache F} {es ds : List (Entry F)}
      → Represents n m c es
      → Represents n' m' d ds
      → (items : List (Bytes × Bytes × Option F)) × (d' : LruCache F) × (es' : List (Entry F))
        × (snapshot c ≡ map item items)
        × (load_snapshot d items ≡ ok d')
        × Represents n' m' d' es'
        × ((j : Bytes) → find j es' ≡ find j es)
  load_snapshot-snapshot r s =
      let k = snapshot-Snapped r in
      let (d', runs, s') = load_snapshot-loaded s k.tuples k.new in
      (k.tuples, d', loaded k.tuples [], k.lists, runs, s', k.finds)
