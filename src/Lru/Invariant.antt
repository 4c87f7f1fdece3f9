-- ===== src/Lru/Invariant.antt =====
-- The invariant of the cache, and the steps that keep it: to take a node out, to move one to the
-- front and to add a new one.
use sd_03_distributed_cache.Prelude.{
  ℕ, ◌<◌, ◌≡◌, refl, ◌∙◌, true, some, ◌∷◌, arith, length, Bytes, bytes_eq, ok,
}
use sd_03_distributed_cache.Prelude.Dict.{
  lookup, remove, IsDict, lookup-remove, length-remove, IsDict-remove,
}
use sd_03_distributed_cache.Lru.{Mode, LruCache, unlink, discard}
use sd_03_distributed_cache.Lru.Nodes.{Ptr}
use sd_03_distributed_cache.Lru.Chain.{has, Distinct, Linked, unlinked, unlink-eq-unlinked}
use sd_03_distributed_cache.Lru.Links.{Neighbours, Linked-Neighbours}
use sd_03_distributed_cache.Lru.Cells.{
  Cells, ptrs, locate, drop_key, UniqueKeys, Holds, Holds-frame, ptrs-drop_key, locate-drop_key,
  UniqueKeys-drop_key, Holds-drop_key, length-drop_key, has_of_locate, has-drop_key,
  Distinct-drop_key,
}

module _ {F : Type 0} where
  -- The chain runs through the nodes of `cs`, each holds its entry, and the dict finds them.
  pub record IsCache (n : ℕ) (m : Mode) (c : LruCache F) (cs : Cells F) : Type 0 where
    pub maxsize : c.maxsize ≡ n
    pub mode : c.mode ≡ m
    pub linked : Linked c.heap c.head (ptrs cs) c.tail
    pub distinct : Distinct (c.tail ∷ c.head ∷ ptrs cs)
    pub holds : Holds c.heap cs
    pub below : (q : Ptr) → has q (c.tail ∷ c.head ∷ ptrs cs) ≡ true → q < c.fresh
    pub unique : UniqueKeys cs
    pub index : (k : Bytes) → lookup k c.index ≡ locate k cs
    pub is_dict : IsDict c.index
    pub count : length c.index ≡ length cs

  module _ {n : ℕ} {m : Mode} {c : LruCache F} {cs : Cells F} (i : IsCache n m c cs) (k : Bytes)
      (p : Ptr) (l : locate k cs ≡ some p) where
    pub neighbours : Neighbours c.heap c.head (ptrs cs) c.tail p
    neighbours =
        Linked-Neighbours c.heap c.head (ptrs cs) c.tail p i.distinct i.linked
          (has_of_locate k p cs l)

    module _ (b : Neighbours c.heap c.head (ptrs cs) c.tail p) where
      pub unlink_lem : unlink c.heap p ≡ ok (unlinked c.heap p b.before b.after)
      unlink_lem = unlink-eq-unlinked c.heap p b.before b.after b.prev b.next b.before_ne b.after_ne

      pub others_linked :
          Linked (unlinked c.heap p b.before b.after) c.head (ptrs (drop_key k cs)) c.tail
      others_linked = rw (ptrs-drop_key k p cs i.distinct.1.1 l) b.rest

      pub others_apart : Distinct (c.tail ∷ c.head ∷ ptrs (drop_key k cs))
      others_apart = ground (
        arith,
        i.distinct,
        has-drop_key c.tail k cs,
        has-drop_key c.head k cs,
        Distinct-drop_key k cs i.distinct.1.1,
      )

      pub others_hold : Holds (unlinked c.heap p b.before b.after) (drop_key k cs)
      others_hold =
          Holds-frame c.heap (unlinked c.heap p b.before b.after) (drop_key k cs) (λ _ _. refl)
            (λ _ _. refl) (λ _ _. refl) (Holds-drop_key c.heap k cs i.holds)

      pub others_below :
          (q : Ptr) → has q (c.tail ∷ c.head ∷ ptrs (drop_key k cs)) ≡ true → q < c.fresh
      others_below q h = ground (arith, i.below q, has-drop_key q k cs)

      pub discarded : LruCache F
      discarded = record c { heap = unlinked c.heap p b.before b.after; index = remove k c.index }

      discard_lem : discard c k p ≡ ok discarded
      unfolding discard discarded
      discard_lem = rw (unlink_lem, i.index k, l) refl

      discarded-IsCache : IsCache n m discarded (drop_key k cs)
      unfolding discarded
      discarded-IsCache = record {
        maxsize = i.maxsize;
        mode = i.mode;
        linked = others_linked;
        distinct = others_apart;
        holds = others_hold;
        below = others_below;
        unique = UniqueKeys-drop_key k cs i.unique;
        index = λ j.
            ground (arith, lookup-remove k j c.index, locate-drop_key k j cs i.unique, i.index j);
        is_dict = IsDict-remove k c.index i.is_dict;
        count = omega (
          arith,
          length-remove k p c.index i.is_dict (i.index k ∙ l),
          length-drop_key k p cs l,
          i.count,
        );
      }

    -- `_remove` and `del` keep the invariant; the key is gone.
    pub discard-IsCache :
        (c' : LruCache F) × (discard c k p ≡ ok c') × IsCache n m c' (drop_key k cs)
    discard-IsCache = (discarded neighbours, discard_lem neighbours, discarded-IsCache neighbours)
