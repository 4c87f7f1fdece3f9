-- ===== src/Lru/Refine/Get.antt =====
-- `get` against its specification, on a miss, an expired entry and a hit.
use sd_03_distributed_cache.Prelude.{
  ℕ, ◌≡◌, refl, ap, true, false, Bool-cases, inl, inr, some, ◌∷◌, Bytes, bytes_eq,
}
use sd_03_distributed_cache.Clock.{Clock}
use sd_03_distributed_cache.Lru.{Mode, authoritative, logical, LruCache, is_expired, get}
use sd_03_distributed_cache.Lru.Spec.{gotten}
use sd_03_distributed_cache.Lru.Cells.{Cells, entries, drop_key, entries-drop_key}
use sd_03_distributed_cache.Lru.Invariant.{IsCache, discard-IsCache}
use sd_03_distributed_cache.Lru.Moves.{move_to_front-IsCache}
use sd_03_distributed_cache.Lru.Refine.{Refines, Present, key_cases}

module _ {F : Type 0} ⦃clock : Clock F⦄ {n : ℕ} {c : LruCache F} {cs : Cells F} where
  gone_step :
      {m : Mode} (i : IsCache n m c cs) (k : Bytes) (now : F) (b : Present c cs k)
      → is_expired b.holds.entry.expire_at now ≡ true
      → Refines n m (get c k (some now) now) (gotten m now k (entries cs))
  unfolding get gotten
  gone_step {m = authoritative} i k now b late =
      let (c', gone, i') = discard-IsCache i k b.ptr b.located in
      rw (b.indexed, get, b.holds.found, gotten, b.holds.expire_at, late, i.mode)
        (record {
          state = c';
          returns = rw gone refl;
          represents = record {
            cells = drop_key k cs;
            is_cache = i';
            entries_eq = entries-drop_key k cs;
          };
        })
  gone_step {m = logical} i k now b late =
      rw (b.indexed, get, b.holds.found, gotten, b.holds.expire_at, late, i.mode)
        (record {
          state = c;
          returns = refl;
          represents = record { cells = cs; is_cache = i; entries_eq = refl };
        })

  hit_step :
      {m : Mode} (i : IsCache n m c cs) (k : Bytes) (now : F) (b : Present c cs k)
      → is_expired b.holds.entry.expire_at now ≡ false
      → Refines n m (get c k (some now) now) (gotten m now k (entries cs))
  unfolding get gotten
  hit_step i k now b live =
      let (h, moved, i', value) = move_to_front-IsCache i k b.ptr b.located b.holds in
      rw (b.indexed, get, b.holds.found, gotten, b.holds.expire_at, live)
        (record {
          state = record c { heap = h };
          returns = rw moved (rw value refl);
          represents = record {
            cells = (b.ptr, b.holds.entry) ∷ drop_key k cs;
            is_cache = i';
            entries_eq = ap (◌∷◌ b.holds.entry) (entries-drop_key k cs);
          };
        })

  pub get_step :
      {m : Mode} (i : IsCache n m c cs) (k : Bytes) (now : F)
      → Refines n m (get c k (some now) now) (gotten m now k (entries cs))
  unfolding get gotten
  get_step i k now = elim (key_cases i k) [
    | inl a ↦
        rw (a.indexed, get, a.found, gotten)
          (record {
            state = c;
            returns = refl;
            represents = record { cells = cs; is_cache = i; entries_eq = refl };
          })
    | inr b ↦ elim (Bool-cases (is_expired b.holds.entry.expire_at now)) [
      | inl late ↦ gone_step i k now b late
      | inr live ↦ hit_step i k now b live
    ]
  ]
