-- ===== src/Lru/Refine.antt =====
-- Each method of the cache does to the linked nodes what the specification does to the entries, and
-- never raises.
pub mod Insert
pub mod Get
use mathlib.Core.Option.{some-injective}
use sd_03_distributed_cache.Prelude.{
  ℕ, suc, ltb, ◌&&◌, ◌==◌, ◌≡◌, refl, ap, sym, ◌∙◌, Bool, true, false, Bool-cases, Option-cases,
  inl, inr, ◌⊎◌, Option, none, some, List, [], ◌∷◌, if◌then◌else◌, arith, length, Bytes, bytes_eq,
  bytes_beq, bytes_beq_iff, Result, ok, raise, value_error, ◌>>=◌,
}
use sd_03_distributed_cache.Prelude.Int.{ℤ, pos, negsuc, ◌≤ℤ◌}
use sd_03_distributed_cache.Prelude.Dict.{lookup}
use sd_03_distributed_cache.Clock.{Clock}
use sd_03_distributed_cache.Lru.{
  Mode, authoritative, logical, LruCache, init, discard, delete, set_expire, insert_node, set,
  apply_set, is_expired, now_or, get,
}
use sd_03_distributed_cache.Lru.Nodes.{Ptr, Node, Heap, write, write_next, write_prev}
use sd_03_distributed_cache.Lru.Spec.{
  Entry, find, without, reschedule, but_last, last_key, inserted, gotten, deleted, rescheduled,
}
use sd_03_distributed_cache.Lru.Cells.{
  Cells, ptrs, entries, locate, drop_key, Located, locate-Located, find-eq_none_of_locate,
  entries-drop_key,
}
use sd_03_distributed_cache.Lru.Invariant.{IsCache, discard-IsCache}
use sd_03_distributed_cache.Lru.Moves.{move_to_front-IsCache, push_new-IsCache}
use sd_03_distributed_cache.Lru.Amend.{
  amend, amend-IsCache, locate-amend, find-amend, drop_key-amend, entries-amend,
}
use sd_03_distributed_cache.Lru.Evict.{evict_last-IsCache}

-- The cache is well formed, of size `n` and in mode `m`, and its entries are `es`, most recently used
-- first.
pub record Represents {F : Type 0} (n : ℕ) (m : Mode) (c : LruCache F) (es : List (Entry F))
    : Type 0 where
  pub cells : Cells F
  pub is_cache : IsCache n m c cells
  pub entries_eq : entries cells ≡ es

-- A method that returns: it does not raise, and its state and its result are those specified.
pub record Refines {F A : Type 0} (n : ℕ) (m : Mode) (run : Result (LruCache F × A))
    (spec : List (Entry F) × A) : Type 0 where
  pub state : LruCache F
  pub returns : run ≡ ok (state, spec.1)
  pub represents : Represents n m state spec.0

module _ {F : Type 0} where
  -- A new cache is empty; a size that is not positive is refused.
  pub init-Represents :
      (m : Mode)
      → ((k : ℕ) → (c : LruCache F) × (init (pos (suc k)) m ≡ ok c) × Represents (suc k) m c [])
        × ((z : ℤ) → z ≤ℤ pos 0 → init {F = F} z m ≡ raise value_error)
  unfolding init lookup write_next write_prev locate
  init-Represents m = (
    λ k. (
      _,
      refl,
      record {
        cells = [];
        is_cache = record {
          maxsize = refl;
          mode = refl;
          linked = (refl, refl);
          distinct = (refl, (refl, tt));
          holds = tt;
          below = λ q h. ground arith;
          unique = tt;
          index = λ _. refl;
          is_dict = tt;
          count = refl;
        };
        entries_eq = refl;
      },
    ),
    λ z h. ground arith,
  )

  -- Where a key stands, in the dict and among the entries.
  pub record Present (c : LruCache F) (cs : Cells F) (k : Bytes) : Type 0 where
    pub ptr : Ptr
    pub indexed : lookup k c.index ≡ some ptr
    pub located : locate k cs ≡ some ptr
    pub holds : Located c.heap cs k ptr

  pub record Absent (c : LruCache F) (cs : Cells F) (k : Bytes) : Type 0 where
    pub indexed : lookup k c.index ≡ none
    pub located : locate k cs ≡ none
    pub found : find k (entries cs) ≡ none

  pub key_cases :
      {n : ℕ} {m : Mode} {c : LruCache F} {cs : Cells F}
      → IsCache n m c cs
      → (k : Bytes) → Absent c cs k ⊎ Present c cs k
  key_cases {c} {cs} i k = elim (Option-cases (locate k cs)) [
    | inl a ↦
        inl (record { indexed = i.index k ∙ a; located = a; found = find-eq_none_of_locate k cs a })
    | inr (p, l) ↦ inr (record {
      ptr = p;
      indexed = i.index k ∙ l;
      located = l;
      holds = locate-Located c.heap cs k p i.holds l;
    })
  ]

  module _ {n : ℕ} {m : Mode} {c : LruCache F} {cs : Cells F} (i : IsCache n m c cs) where
    pub delete_step : (k : Bytes) → Refines n m (delete c k) (deleted k (entries cs))
    unfolding delete deleted
    delete_step k = elim (key_cases i k) [
      | inl a ↦
          rw (a.indexed, delete, a.found, deleted)
            (record {
              state = c;
              returns = refl;
              represents = record { cells = cs; is_cache = i; entries_eq = refl };
            })
      | inr b ↦
          let (c', gone, i') = discard-IsCache i k b.ptr b.located in
          rw (b.indexed, delete, b.holds.found, deleted)
            (record {
              state = c';
              returns = rw gone refl;
              represents = record {
                cells = drop_key k cs;
                is_cache = i';
                entries_eq = entries-drop_key k cs;
              };
            })
    ]

    pub set_expire_step :
        (k : Bytes) (t : F) → Refines n m (ok (set_expire c k t)) (rescheduled k t (entries cs))
    unfolding set_expire rescheduled
    set_expire_step k t = elim (key_cases i k) [
      | inl a ↦
          rw (a.indexed, set_expire, a.found, rescheduled)
            (record {
              state = c;
              returns = refl;
              represents = record { cells = cs; is_cache = i; entries_eq = refl };
            })
      | inr b ↦
          let f : Entry F = record (b.holds.entry) { expire_at = some t } in
          let d : Node F = record (c.heap b.ptr) { expire_at = some t } in
          rw (b.indexed, set_expire, b.holds.found, rescheduled)
            (record {
              state = record c { heap = write c.heap b.ptr d };
              returns = refl;
              represents = record {
                cells = amend k f cs;
                is_cache = amend-IsCache i k b.ptr f d b.holds.key_eq b.located (record {
                  key = refl;
                  value = b.holds.value;
                  expire_at = refl;
                  prev = refl;
                  next = refl;
                });
                entries_eq = entries-amend k t b.holds.entry cs b.holds.found;
              };
            })
    ]
