-- ===== src/Lru/Laws.antt =====
-- What a client of distcache/lru.py relies on, over `set`, `apply_set` and `get`.
use sd_03_distributed_cache.Prelude.{
  ℕ, suc, ◌<◌, ◌≤◌, ◌+◌, ◌≡◌, ◌≢◌, refl, ap, sym, ◌∙◌, Bool, true, false, Option-cases, inl, inr,
  Option, none, some, List, [], ◌∷◌, if◌then◌else◌, arith, length, Bytes, bytes_eq, bytes_beq_iff,
  bytes_beq_refl, ok,
}
use sd_03_distributed_cache.Clock.{Clock}
use sd_03_distributed_cache.Lru.{Mode, LruCache, set, apply_set, get, is_expired, len}
use sd_03_distributed_cache.Lru.Spec.{Entry, find, without, but_last, last_key, inserted, gotten}
use sd_03_distributed_cache.Lru.Refine.{Represents}
use sd_03_distributed_cache.Lru.Cells.{length-entries}
use sd_03_distributed_cache.Lru.Contract.{insert_node-inserted, get-gotten}

module _ {F : Type 0} where
  pub find-without_ne :
      (k j : Bytes) (es : List (Entry F)) → j ≢ k → find j (without k es) ≡ find j es
  unfolding find without
  find-without_ne k j [] h = refl
  find-without_ne k j (e ∷ es) h =
      ground (arith, find-without_ne k j es, bytes_beq_iff e.key k, bytes_beq_iff e.key j)

  find-but_last :
      (j : Bytes) (es : List (Entry F)) → last_key es ≢ some j → find j (but_last es) ≡ find j es
  unfolding find but_last last_key
  find-but_last j [] h = refl
  find-but_last j (e ∷ []) h = ground (arith, bytes_beq_iff e.key j)
  find-but_last j (e ∷ f ∷ es) h = ground (arith, find-but_last j (f ∷ es))

  pub length-without :
      (k : Bytes) (e : Entry F) (es : List (Entry F))
      → find k es ≡ some e
      → length (without k es) + 1 ≡ length es
  unfolding find without
  length-without k e [] h = absurd (ground arith)
  length-without k e (d ∷ es) h = ground (arith, length-without k e es)

  length-but_last : (e : Entry F) (es : List (Entry F)) → length (but_last (e ∷ es)) ≡ length es
  unfolding but_last
  length-but_last e [] = refl
  length-but_last e (f ∷ es) = ap suc (length-but_last f es)

  -- Insertion gives the key the new entry.
  pub find-inserted_self :
      (n : ℕ) (evict : Bool) (k v : Bytes) (x : Option F) (es : List (Entry F))
      → 0 < n
      → find k (inserted n evict k v x es).0 ≡ some (record { key = k; value = v; expire_at = x })
  unfolding inserted find but_last
  find-inserted_self n evict k v x [] h = ground (arith, bytes_beq_refl k)
  find-inserted_self n evict k v x (f ∷ es) h = ground (arith, bytes_beq_refl k)

  pub find-inserted_ne :
      (n : ℕ) (evict : Bool) (k j v : Bytes) (x : Option F) (es : List (Entry F))
      → j ≢ k
      → (inserted n evict k v x es).1 ≢ some j
      → find j (inserted n evict k v x es).0 ≡ find j es
  unfolding inserted find
  find-inserted_ne n evict k j v x es h g =
      let e : Entry F = record { key = k; value = v; expire_at = x } in
      ground (arith, find-without_ne k j es h, find-but_last j (e ∷ es), bytes_beq_iff k j)

  length-inserted :
      (n : ℕ) (k v : Bytes) (x : Option F) (es : List (Entry F))
      → length es ≤ n
      → length (inserted n true k v x es).0 ≤ n
  unfolding inserted
  length-inserted n k v x es h =
      let e : Entry F = record { key = k; value = v; expire_at = x } in
      elim (Option-cases (find k es)) [
        | inl new ↦ ground (arith, new, length-but_last e es)
        | inr (d, old) ↦ rw (old, inserted) (omega (arith, length-without k d es old))
      ]

  pub len-entries :
      {n : ℕ} {m : Mode} {c : LruCache F} {es : List (Entry F)}
      → Represents n m c es
      → len c ≡ length es
  unfolding len
  len-entries r = r.is_cache.count ∙ sym (length-entries r.cells) ∙ ap length r.entries_eq

  -- What `set` does on a cache with the entries `es`.
  pub record Stored (n : ℕ) (m : Mode) (c : LruCache F) (es : List (Entry F)) (k v : Bytes)
      (x : Option F) : Type 0 where
    pub state : LruCache F
    pub evicted : Option Bytes
    pub rest : List (Entry F)
    pub returns : set c k v x ≡ ok (state, evicted)
    pub represents : Represents n m state rest
    pub stored : find k rest ≡ some (record { key = k; value = v; expire_at = x })
    pub others : (j : Bytes) → j ≢ k → evicted ≢ some j → find j rest ≡ find j es
    pub bounded : len c ≤ n → len state ≤ n

  -- On a well-formed cache of positive size `set` does not raise. The key then has the new entry, any
  -- other key has the entry that it had, unless it is the key that is returned as evicted, and a cache
  -- within its size stays within it.
  pub set-Stored :
      {n : ℕ} {m : Mode} {c : LruCache F} {es : List (Entry F)}
      → Represents n m c es
      → 0 < n
      → (k v : Bytes) (x : Option F) → Stored n m c es k v x
  unfolding set
  set-Stored {n} {c} {es} r h k v x =
      let s = insert_node-inserted r k v x true in
      record {
        state = s.state;
        evicted = (inserted n true k v x es).1;
        rest = (inserted n true k v x es).0;
        returns = s.returns;
        represents = s.represents;
        stored = find-inserted_self n true k v x es h;
        others = λ j ne kept. find-inserted_ne n true k j v x es ne kept;
        bounded = λ b. omega (
          arith,
          length-inserted n k v x es (omega (arith, len-entries r)),
          len-entries s.represents,
        );
      }

  inserted_apply :
      (n : ℕ) (k v : Bytes) (x : Option F) (es : List (Entry F))
      → ((inserted n false k v x es).1 ≡ none) × (length es ≤ length (inserted n false k v x es).0)
  unfolding inserted
  inserted_apply n k v x es = elim (Option-cases (find k es)) [
    | inl new ↦ ground (arith, new)
    | inr (d, old) ↦ rw (old, inserted) (refl, omega (arith, length-without k d es old))
  ]

  -- On a well-formed cache of positive size `apply_set` does not raise and evicts nothing: the key
  -- has the new entry, every other key has the entry that it had, and the cache does not shrink,
  -- whatever its size.
  pub apply_set-keeps :
      {n : ℕ} {m : Mode} {c : LruCache F} {es : List (Entry F)}
      → Represents n m c es
      → 0 < n
      → (k v : Bytes) (x : Option F)
      → (c' : LruCache F) × (es' : List (Entry F)) × (apply_set c k v x ≡ ok c')
        × Represents n m c' es'
        × (find k es' ≡ some (record { key = k; value = v; expire_at = x }))
        × ((j : Bytes) → j ≢ k → find j es' ≡ find j es)
        × (len c ≤ len c')
  unfolding apply_set
  apply_set-keeps {n} {c} {es} r h k v x =
      let s = insert_node-inserted r k v x false in
      let quiet = inserted_apply n k v x es in
      (
        s.state,
        (inserted n false k v x es).0,
        rw s.returns refl,
        s.represents,
        find-inserted_self n false k v x es h,
        λ j ne. find-inserted_ne n false k j v x es ne (λ e. cc (quiet.0)),
        omega (arith, quiet.1, len-entries r, len-entries s.represents),
      )

module _ {F : Type 0} ⦃clock : Clock F⦄ where
  pub gotten-found :
      (m : Mode) (now : F) (k : Bytes) (es : List (Entry F)) {e : Entry F}
      → find k es ≡ some e
      → (gotten m now k es).1 ≡ (if is_expired e.expire_at now then none else some e.value)
  unfolding gotten
  gotten-found m now k es f = ground arith

  -- On a well-formed cache of positive size, a `get` after a `set` of the same key returns the value
  -- as long as the deadline has not come, and is a miss from then on. Neither raises.
  get-set :
      {n : ℕ} {m : Mode} {c : LruCache F} {es : List (Entry F)}
      → Represents n m c es
      → 0 < n
      → (k v : Bytes) (x : Option F) (now : F)
      → (c' c'' : LruCache F) × (evicted : Option Bytes) × (set c k v x ≡ ok (c', evicted))
        × (get c' k (some now) now ≡ ok (c'', if is_expired x now then none else some v))
  get-set {n} {m} {c} {es} r h k v x now =
      let s = set-Stored r h k v x in
      let g = get-gotten s.represents k (some now) now in
      (
        s.state,
        g.state,
        s.evicted,
        s.returns,
        g.returns
            ∙ ap (λ (o : Option Bytes). ok (g.state, o)) (gotten-found m now k s.rest s.stored),
      )
