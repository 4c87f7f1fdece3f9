-- ===== src/Lru/Snapshot.antt =====
-- Full copies of the cache: `snapshot` and `load_snapshot`.
use sd_03_distributed_cache.Prelude.{
  ℕ, ◌≡◌, refl, Option, none, some, List, [], ◌∷◌, arith, Bytes, bytes_eq, ok,
}
use sd_03_distributed_cache.Prelude.Dict.{lookup}
use sd_03_distributed_cache.Lru.{Mode, LruCache, load_items, load_snapshot}
use sd_03_distributed_cache.Lru.Nodes.{write_prev, write_next}
use sd_03_distributed_cache.Lru.Spec.{Entry, find}
use sd_03_distributed_cache.Lru.Cells.{Cells, entries, locate}
use sd_03_distributed_cache.Lru.Invariant.{IsCache}
use sd_03_distributed_cache.Lru.Moves.{push_new-IsCache}
use sd_03_distributed_cache.Lru.Refine.{Represents}

module _ {F : Type 0} where
  -- Items as entries, the last one first.
  abbrev pub loaded : List (Bytes × Bytes × Option F) → List (Entry F) → List (Entry F)
  loaded [] es = es
  loaded ((k, v, x) ∷ items) es = loaded items (record { key = k; value = v; expire_at = x } ∷ es)

  -- No key of the items is among the entries, and none occurs twice.
  abbrev pub AreNew : List (Bytes × Bytes × Option F) → List (Entry F) → Type 0
  AreNew [] es = Unit
  AreNew ((k, v, x) ∷ items) es =
      (find k es ≡ none) × AreNew items (record { key = k; value = v; expire_at = x } ∷ es)

  locate-eq_none_of_find :
      (k : Bytes) (cs : Cells F) → find k (entries cs) ≡ none → locate k cs ≡ none
  unfolding locate find
  locate-eq_none_of_find k [] l = refl
  locate-eq_none_of_find k ((p, e) ∷ cs) l = ground (arith, locate-eq_none_of_find k cs)

  load_items_step :
      {n : ℕ} {m : Mode} (items : List (Bytes × Bytes × Option F)) {c : LruCache F} {cs : Cells F}
      → IsCache n m c cs
      → AreNew items (entries cs)
      → (c' : LruCache F) × (load_items c items ≡ ok c')
        × Represents n m c' (loaded items (entries cs))
  unfolding load_items
  load_items_step [] {c} {cs} i h =
      (c, refl, record { cells = cs; is_cache = i; entries_eq = refl })
  load_items_step ((k, v, x) ∷ items) {c} {cs} i h =
      let (c', pushed, i') = push_new-IsCache i k v x (locate-eq_none_of_find k cs h.0) in
      rw pushed (load_items_step items i' h.1)

  cleared :
      {n : ℕ} {m : Mode} {c : LruCache F} {cs : Cells F}
      → IsCache n m c cs
      → IsCache n m
          (record c {
            index = [];
            heap = write_prev (write_next c.heap c.head (some c.tail)) c.tail (some c.head);
          })
          []
  unfolding locate write_prev write_next lookup
  cleared i = record {
    maxsize = i.maxsize;
    mode = i.mode;
    linked = ground (arith, i.distinct);
    distinct = ground (arith, i.distinct);
    holds = tt;
    below = λ q h. ground (arith, i.below q);
    unique = tt;
    index = λ _. refl;
    is_dict = tt;
    count = refl;
  }

  -- On a well-formed cache `load_snapshot` of items with distinct keys does not raise. Whatever was
  -- stored before is gone, and the entries are the items, the last one first.
  pub load_snapshot-loaded :
      {n : ℕ} {m : Mode} {c : LruCache F} {es : List (Entry F)}
      → Represents n m c es
      → (items : List (Bytes × Bytes × Option F)) → AreNew items []
      → (c' : LruCache F) × (load_snapshot c items ≡ ok c') × Represents n m c' (loaded items [])
  unfolding load_snapshot
  load_snapshot-loaded {c} r items h = load_items_step items {cs = []} (cleared r.is_cache) h
