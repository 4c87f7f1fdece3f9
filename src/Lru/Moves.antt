-- ===== src/Lru/Moves.antt =====
-- Steps that keep the invariant of the cache: to move a node to the front, to add a new one, and
-- to change what a node holds.
use sd_03_distributed_cache.Prelude.{
  ℕ, ◌+◌, ==_refl, ◌≡◌, refl, ap, ◌∙◌, sym, true, false, Option, none, some, ◌∷◌, arith, Bytes,
  bytes_eq, bytes_beq_iff, ok,
}
use sd_03_distributed_cache.Prelude.Dict.{insert, lookup-insert, length-insert_new, IsDict-insert}
use sd_03_distributed_cache.Lru.{Mode, LruCache, move_to_front, push_new}
use sd_03_distributed_cache.Lru.Nodes.{Ptr, Node, Heap, blank, write}
use sd_03_distributed_cache.Lru.Chain.{
  has, Linked, Linked-frame, unlinked, fronted, add_front-eq-fronted,
}
use sd_03_distributed_cache.Lru.Links.{has-ne, Neighbours, Linked-fronted}
use sd_03_distributed_cache.Lru.Cells.{
  Cells, ptrs, locate, drop_key, Holds-frame, Located, locate-drop_key, UniqueKeys-drop_key,
  length-drop_key, has_of_locate, has-drop_key_self,
}
use sd_03_distributed_cache.Lru.Invariant.{
  IsCache, neighbours, unlink_lem, others_linked, others_apart, others_hold, others_below,
}

module _ {F : Type 0} where
  module _ {n : ℕ} {m : Mode} {c : LruCache F} {cs : Cells F} (i : IsCache n m c cs) (k : Bytes)
      (p : Ptr) (l : locate k cs ≡ some p) (e : Located c.heap cs k p)
      (b : Neighbours c.heap c.head (ptrs cs) c.tail p) where
    away : has p (c.tail ∷ c.head ∷ ptrs (drop_key k cs)) ≡ false
    away = ground (
      arith,
      i.distinct,
      has-drop_key_self k p cs i.distinct.1.1 l,
      has-ne p c.tail (ptrs cs) e.member,
      has-ne p c.head (ptrs cs) e.member,
    )

    abbrev detached : Heap F
    detached = unlinked c.heap p b.before b.after

    front :
        (first : Ptr) × ((detached c.head).next ≡ some first)
        × Linked (fronted detached c.head p first) c.head (p ∷ ptrs (drop_key k cs)) c.tail
    front =
        Linked-fronted (unlinked c.heap p b.before b.after) c.head (ptrs (drop_key k cs)) c.tail p
          (others_apart i k p l b) away (others_linked i k p l b)

    touched : LruCache F
    touched = record c { heap = fronted detached c.head p front.0 }

    move_lem : move_to_front c.heap c.head p ≡ ok touched.heap
    unfolding move_to_front touched
    move_lem =
        rw (unlink_lem i k p l b)
          (add_front-eq-fronted detached c.head p front.0 front.1 (ground (arith, away)))

    touched-IsCache : IsCache n m touched ((p, e.entry) ∷ drop_key k cs)
    unfolding touched locate
    touched-IsCache = record {
      maxsize = i.maxsize;
      mode = i.mode;
      linked = front.2;
      distinct = ground (arith, away, others_apart i k p l b);
      holds = (
        e.key ∙ ap some (sym e.key_eq),
        e.value,
        e.expire_at,
        Holds-frame detached touched.heap (drop_key k cs) (λ _ _. refl) (λ _ _. refl) (λ _ _. refl)
            (others_hold i k p l b),
      );
      below = λ q h. ground (arith, others_below i k p l b q, i.below p, has_of_locate k p cs l);
      unique = (
        ground (
          arith,
          e.key_eq,
          locate-drop_key k e.entry.key cs i.unique,
          bytes_beq_iff k e.entry.key,
        ),
        UniqueKeys-drop_key k cs i.unique,
      );
      index = λ j. ground (
        arith,
        e.key_eq,
        i.index j,
        l,
        locate-drop_key k j cs i.unique,
        bytes_beq_iff k j,
        bytes_beq_iff e.entry.key j,
      );
      is_dict = i.is_dict;
      count = omega (arith, i.count, length-drop_key k p cs l);
    }

  -- `_move_to_front` keeps the invariant; the entry of the key comes first.
  pub move_to_front-IsCache :
      {n : ℕ} {m : Mode} {c : LruCache F} {cs : Cells F} (i : IsCache n m c cs) (k : Bytes)
      (p : Ptr) (l : locate k cs ≡ some p) (e : Located c.heap cs k p)
      → (h : Heap F) × (move_to_front c.heap c.head p ≡ ok h)
        × IsCache n m (record c { heap = h }) ((p, e.entry) ∷ drop_key k cs)
        × ((h p).value ≡ some e.entry.value)
  unfolding touched
  move_to_front-IsCache i k p l e =
      let b = neighbours i k p l in
      ((touched i k p l e b).heap, move_lem i k p l e b, touched-IsCache i k p l e b, e.value)

  module _ {n : ℕ} {m : Mode} {c : LruCache F} {cs : Cells F} (i : IsCache n m c cs) (k v : Bytes)
      (x : Option F) (l : locate k cs ≡ none) where
    abbrev created : Heap F
    created = write c.heap c.fresh (record blank { key = some k; value = some v; expire_at = x })

    unused : has c.fresh (c.tail ∷ c.head ∷ ptrs cs) ≡ false
    unused = ground (arith, i.below c.fresh)

    created_same : (q : Ptr) → has q (c.tail ∷ c.head ∷ ptrs cs) ≡ true → created q ≡ c.heap q
    unfolding write
    created_same q h = ground (arith, unused)

    grown :
        (first : Ptr) × ((created c.head).next ≡ some first)
        × Linked (fronted created c.head c.fresh first) c.head (c.fresh ∷ ptrs cs) c.tail
    grown = Linked-fronted created c.head (ptrs cs) c.tail c.fresh i.distinct unused (
        Linked-frame c.heap created c.head (ptrs cs) c.tail
          (λ q h. ap (λ (d : Node F). d.next) (created_same q (ground arith)))
          (λ q h. ap (λ (d : Node F). d.prev) (created_same q (ground arith))) i.linked)

    pushed : LruCache F
    pushed = record c {
      heap = fronted created c.head c.fresh grown.0;
      index = insert k c.fresh c.index;
      fresh = c.fresh + 1;
    }

    push_lem : push_new c k v x ≡ ok pushed
    unfolding push_new pushed
    push_lem =
        rw (add_front-eq-fronted created c.head c.fresh grown.0 grown.1 (ground (arith, unused)))
          refl

    pushed-IsCache :
        IsCache n m pushed ((c.fresh, record { key = k; value = v; expire_at = x }) ∷ cs)
    unfolding pushed locate write
    pushed-IsCache = record {
      maxsize = i.maxsize;
      mode = i.mode;
      linked = grown.2;
      distinct = ground (arith, unused, i.distinct);
      holds = (
        rw (==_refl c.fresh) refl,
        rw (==_refl c.fresh) refl,
        rw (==_refl c.fresh) refl,
        Holds-frame c.heap pushed.heap cs
            (λ q h. ap (λ (d : Node F). d.key) (created_same q (ground arith)))
            (λ q h. ap (λ (d : Node F). d.value) (created_same q (ground arith)))
            (λ q h. ap (λ (d : Node F). d.expire_at) (created_same q (ground arith))) i.holds,
      );
      below = λ q h. ground (arith, i.below q);
      unique = (l, i.unique);
      index = λ j. ground (arith, i.index j, l, lookup-insert k j c.fresh c.index);
      is_dict = IsDict-insert k c.fresh c.index i.is_dict;
      count = omega (arith, i.count, length-insert_new k c.fresh c.index (i.index k ∙ l));
    }

  -- A new key is added at the front, and keeps the invariant.
  pub push_new-IsCache :
      {n : ℕ} {m : Mode} {c : LruCache F} {cs : Cells F} (i : IsCache n m c cs) (k v : Bytes)
      (x : Option F)
      → locate k cs ≡ none
      → (c' : LruCache F) × (push_new c k v x ≡ ok c')
        × IsCache n m c' ((c.fresh, record { key = k; value = v; expire_at = x }) ∷ cs)
  push_new-IsCache i k v x l = (pushed i k v x l, push_lem i k v x l, pushed-IsCache i k v x l)
