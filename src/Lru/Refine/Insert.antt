-- ===== src/Lru/Refine/Insert.antt =====
-- `_insert` against its specification: overwriting, adding and evicting.
use mathlib.Core.Option.{some-injective}
use sd_03_distributed_cache.Prelude.{
  ℕ, suc, ltb, ◌&&◌, ◌≡◌, refl, ap, sym, ◌∙◌, Bool, Bool-cases, inl, inr, Option, some, ◌∷◌, length,
  Bytes, bytes_eq,
}
use sd_03_distributed_cache.Lru.{Mode, LruCache, insert_node}
use sd_03_distributed_cache.Lru.Nodes.{Node, write}
use sd_03_distributed_cache.Lru.Spec.{Entry, inserted}
use sd_03_distributed_cache.Lru.Cells.{
  Cells, entries, drop_key, locate-Located, entries-drop_key, length-entries,
}
use sd_03_distributed_cache.Lru.Invariant.{IsCache}
use sd_03_distributed_cache.Lru.Moves.{move_to_front-IsCache, push_new-IsCache}
use sd_03_distributed_cache.Lru.Amend.{
  amend, amend-IsCache, locate-amend, find-amend, drop_key-amend,
}
use sd_03_distributed_cache.Lru.Evict.{evict_last-IsCache}
use sd_03_distributed_cache.Lru.Refine.{Refines, Present, Absent, key_cases}

module _ {F : Type 0} {n : ℕ} {m : Mode} {c : LruCache F} {cs : Cells F}
    (i : IsCache n m c cs) where
  overwrite_step :
      (k v : Bytes) (x : Option F) (evict : Bool) (b : Present c cs k)
      → Refines n m (insert_node c k v x evict) (inserted n evict k v x (entries cs))
  unfolding insert_node inserted
  overwrite_step k v x evict b =
      let f : Entry F = record { key = k; value = v; expire_at = x } in
      let d : Node F = record (c.heap b.ptr) { value = some v; expire_at = x } in
      let i1 =
        amend-IsCache i k b.ptr f d refl b.located
          (record { key = refl; value = refl; expire_at = refl; prev = refl; next = refl }) in
      let l1 = locate-amend k k f cs refl ∙ b.located in
      let e1 = locate-Located (write c.heap b.ptr d) (amend k f cs) k b.ptr i1.holds l1 in
      let (h, moved, i2, _) = move_to_front-IsCache i1 k b.ptr l1 e1 in
      rw (b.indexed, insert_node, b.holds.found, inserted)
        (record {
          state = record c { heap = h };
          returns = rw moved refl;
          represents = record {
            cells = (b.ptr, e1.entry) ∷ drop_key k (amend k f cs);
            is_cache = i2;
            entries_eq = cc (
              some-injective e1.entry f (sym e1.found ∙ find-amend k f b.ptr cs refl b.located),
              drop_key-amend k f cs refl,
              entries-drop_key k cs,
            );
          };
        })

  insert_new_step :
      (k v : Bytes) (x : Option F) (evict : Bool) (a : Absent c cs k)
      → Refines n m (insert_node c k v x evict) (inserted n evict k v x (entries cs))
  unfolding insert_node inserted
  insert_new_step k v x evict a =
      let f : Entry F = record { key = k; value = v; expire_at = x } in
      let (c', pushed, i') = push_new-IsCache i k v x a.located in
      let size : length c'.index ≡ length (f ∷ entries cs) =
        i'.count ∙ ap suc (sym (length-entries cs)) in
      let (c'', key, cs'', evicted, i'', kept, last) = evict_last-IsCache i' in
      elim (Bool-cases (evict && ltb n (length (f ∷ entries cs)))) [
        | inl full ↦
            rw (a.indexed, insert_node, a.found, inserted, full)
              (record {
                state = c'';
                returns = rw pushed (rw (i'.maxsize, size, full, evicted, last) refl);
                represents = record { cells = cs''; is_cache = i''; entries_eq = kept };
              })
        | inr room ↦
            rw (a.indexed, insert_node, a.found, inserted, room)
              (record {
                state = c';
                returns = rw pushed (rw (i'.maxsize, size, room) refl);
                represents = record { cells = (c.fresh, f) ∷ cs; is_cache = i'; entries_eq = refl };
              })
      ]

  pub insert_step :
      (k v : Bytes) (x : Option F) (evict : Bool)
      → Refines n m (insert_node c k v x evict) (inserted n evict k v x (entries cs))
  insert_step k v x evict = elim (key_cases i k) [
    | inl a ↦ insert_new_step k v x evict a
    | inr b ↦ overwrite_step k v x evict b
  ]
