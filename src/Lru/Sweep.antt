-- ===== src/Lru/Sweep.antt =====
-- The active expiry of distcache/lru.py: `sample_expired` and its loop.
use sd_03_distributed_cache.Prelude.{
  ℕ, ◌≤◌, ltb, le→ltb, ◌≡◌, refl, ap, sym, subst, ◌∙◌, Bool, true, false, Bool-cases, inl, inr,
  ◌||◌, Option, none, some, List, [], ◌∷◌, if◌then◌else◌, arith, length, map, Bytes, bytes_eq,
  bytes_beq, bytes_beq_iff, Result, ok,
}
use sd_03_distributed_cache.Prelude.Dict.{Dict, lookup}
use sd_03_distributed_cache.Clock.{Clock}
use sd_03_distributed_cache.Lru.{
  Mode, authoritative, LruCache, is_expired, now_or, sweep, keys, sample_expired,
}
use sd_03_distributed_cache.Lru.Nodes.{Ptr}
use sd_03_distributed_cache.Lru.Spec.{Entry, find}
use sd_03_distributed_cache.Lru.Cells.{
  Cells, entries, locate, drop_key, UniqueKeys, find-eq_none_of_locate,
}
use sd_03_distributed_cache.Lru.Invariant.{IsCache, discard-IsCache}
use sd_03_distributed_cache.Lru.Refine.{Represents, key_cases}

abbrev pub mem : Bytes → List Bytes → Bool
mem k [] = false
mem k (j ∷ js) = bytes_beq j k || mem k js

mem-keys :
    (k : Bytes) (d : Dict Bytes Ptr) (p : Ptr)
    → lookup k d ≡ some p
    → mem k (map (λ (j, _). j) d) ≡ true
unfolding lookup
mem-keys k [] p l = absurd (ground arith)
mem-keys k ((j, q) ∷ d) p l = ground (arith, mem-keys k d p)

module _ {F : Type 0} ⦃clock : Clock F⦄ where
  -- What a sweep over the keys `ks` at the time `now` makes of the entries `es`: the removed keys
  -- are those of `ks` that had expired, and the other entries stay.
  pub record Swept (now : F) (es : List (Entry F)) (ks : List Bytes) (es' : List (Entry F))
      (removed : List Bytes) : Type 0 where
    pub kept : (j : Bytes) → find j es' ≡ (if mem j removed then none else find j es)
    pub sound :
        (j : Bytes)
        → mem j removed ≡ true
        → (e : Entry F) × (find j es ≡ some e) × (is_expired e.expire_at now ≡ true)
    pub complete :
        (j : Bytes) (e : Entry F)
        → mem j ks ≡ true
        → find j es ≡ some e
        → is_expired e.expire_at now ≡ true
        → mem j removed ≡ true

  find-drop_key :
      (j k : Bytes) (cs : Cells F)
      → UniqueKeys cs
      → find j (entries (drop_key k cs)) ≡ (if bytes_beq k j then none else find j (entries cs))
  unfolding find drop_key locate
  find-drop_key j k [] u = ground arith
  find-drop_key j k ((p, e) ∷ cs) u = ground (
    arith,
    bytes_beq_iff e.key k,
    bytes_beq_iff e.key j,
    bytes_beq_iff k j,
    find-eq_none_of_locate e.key cs,
    find-drop_key j k cs u.1,
  )

  record SweepRun (n : ℕ) (m : Mode) (now : F) (c : LruCache F) (cs : Cells F) (ks : List Bytes)
      : Type 0 where
    state : LruCache F
    removed : List Bytes
    cells : Cells F
    runs : sweep now c ks ≡ ok (state, removed)
    is_cache : IsCache n m state cells
    swept : Swept now (entries cs) ks (entries cells) removed

  sweep_skip :
      {n : ℕ} {m : Mode} {now : F} {c : LruCache F} {cs : Cells F} {ks : List Bytes} (k : Bytes)
      → sweep now c (k ∷ ks) ≡ sweep now c ks
      → ((e : Entry F) → find k (entries cs) ≡ some e → is_expired e.expire_at now ≡ false)
      → SweepRun n m now c cs ks
      → SweepRun n m now c cs (k ∷ ks)
  sweep_skip k same live r = record {
    state = r.state;
    removed = r.removed;
    cells = r.cells;
    runs = same ∙ r.runs;
    is_cache = r.is_cache;
    swept = record {
      kept = r.swept.kept;
      sound = r.swept.sound;
      complete = λ j e i f x. ground (arith, bytes_beq_iff k j, live e, r.swept.complete j e);
    };
  }

  sweep_drop :
      {n : ℕ} {m : Mode} {now : F} {c c' : LruCache F} {cs : Cells F} {ks : List Bytes} (k : Bytes)
      (e : Entry F)
      → UniqueKeys cs
      → find k (entries cs) ≡ some e
      → is_expired e.expire_at now ≡ true
      → (r : SweepRun n m now c' (drop_key k cs) ks)
      → sweep now c (k ∷ ks) ≡ ok (r.state, k ∷ r.removed)
      → SweepRun n m now c cs (k ∷ ks)
  sweep_drop {now} {cs} k e u f x r runs = record {
    state = r.state;
    removed = k ∷ r.removed;
    cells = r.cells;
    runs = runs;
    is_cache = r.is_cache;
    swept = record {
      kept = λ j. ground (arith, r.swept.kept j, find-drop_key j k cs u);
      sound = λ j i. elim (Bool-cases (bytes_beq k j)) [
        | inl here ↦
            let same : k ≡ j = (bytes_beq_iff k j).0 here in
            (e, ap (λ (z : Bytes). find z (entries cs)) (sym same) ∙ f, x)
        | inr other ↦
            let (d, found, late) = r.swept.sound j (ground arith) in
            (d, ground (arith, found, find-drop_key j k cs u), late)
      ];
      complete = λ j d i g y. ground (arith, find-drop_key j k cs u, r.swept.complete j d);
    };
  }

  sweep_step :
      {n : ℕ} {m : Mode} (now : F) (ks : List Bytes) {c : LruCache F} {cs : Cells F}
      → IsCache n m c cs
      → SweepRun n m now c cs ks
  unfolding sweep
  sweep_step now [] {c} {cs} i = record {
    state = c;
    removed = [];
    cells = cs;
    runs = refl;
    is_cache = i;
    swept = record { kept = λ _. refl; sound = λ j h. cc; complete = λ j e h. cc };
  }
  sweep_step now (k ∷ ks) {c} {cs} i = elim (key_cases i k) [
    | inl a ↦
        sweep_skip k (rw (a.indexed, sweep) refl) (λ e f. ground (arith, a.found))
          (sweep_step now ks i)
    | inr b ↦ elim (Bool-cases (is_expired b.holds.entry.expire_at now)) [
      | inr live ↦
          sweep_skip k (rw (b.indexed, sweep, b.holds.expire_at, live) refl)
            (λ e f. ground (arith, b.holds.found, live)) (sweep_step now ks i)
      | inl late ↦
          let (c', gone, i') = discard-IsCache i k b.ptr b.located in
          let r = sweep_step now ks i' in
          sweep_drop k b.holds.entry i.unique b.holds.found late r
            (rw (b.indexed, sweep, b.holds.expire_at, late) (rw gone (rw r.runs refl)))
    ]
  ]

  -- What `sample_expired` returns, on a cache with the entries `es`.
  pub record Sampled (n : ℕ) (m : Mode) (now : F) (c : LruCache F) (es : List (Entry F))
      (run : Result (LruCache F × List Bytes)) (size : ℕ) : Type 0 where
    pub state : LruCache F
    pub removed : List Bytes
    pub rest : List (Entry F)
    pub returns : run ≡ ok (state, removed)
    pub represents : Represents n m state rest
    pub kept : (j : Bytes) → find j rest ≡ (if mem j removed then none else find j es)
    pub sound :
        (j : Bytes)
        → mem j removed ≡ true
        → (e : Entry F) × (find j es ≡ some e) × (is_expired e.expire_at now ≡ true)
    pub complete :
        length (keys c) ≤ size
        → (j : Bytes) (e : Entry F) → find j es ≡ some e
        → is_expired e.expire_at now ≡ true
        → mem j removed ≡ true

  -- On a well-formed authoritative cache `sample_expired` does not raise, whatever keys are sampled.
  -- It removes only entries that have expired, keeps all the others, and removes every expired entry
  -- if there are no more keys than the sample size.
  pub sample_expired-Sampled :
      {n : ℕ} {c : LruCache F} {es : List (Entry F)}
      → Represents n authoritative c es
      → (sample : List Bytes → ℕ → List Bytes) (now : Option F) (time : F) (size : ℕ)
      → Sampled n authoritative (now_or now time) c es (sample_expired sample c now time size) size
  unfolding sample_expired
  sample_expired-Sampled {n} {c} r sample now time size =
      subst
        (λ es.
          Sampled n authoritative (now_or now time) c es (sample_expired sample c now time size)
            size)
        r.entries_eq sampled
    where
      chosen : List Bytes
      chosen = if ltb size (length (keys c)) then sample (keys c) size else keys c

      run : SweepRun n authoritative (now_or now time) c r.cells chosen
      run = sweep_step (now_or now time) chosen r.is_cache

      all_chosen :
          length (keys c) ≤ size
          → (j : Bytes) (e : Entry F) → find j (entries r.cells) ≡ some e
          → mem j chosen ≡ true
      all_chosen small j e f = elim (key_cases r.is_cache j) [
        | inl a ↦ absurd (ground (arith, a.found))
        | inr b ↦
            rw (le→ltb size (length (keys c)) small)
              (unfold keys in mem-keys j c.index b.ptr b.indexed)
      ]

      sampled :
          Sampled n authoritative
            (now_or now time)
            c
            (entries r.cells)
            (sample_expired sample c now time size)
            size
      sampled = record {
        state = run.state;
        removed = run.removed;
        rest = entries run.cells;
        returns = simp (r.is_cache.mode, sample_expired) run.runs;
        represents = record { cells = run.cells; is_cache = run.is_cache; entries_eq = refl };
        kept = run.swept.kept;
        sound = run.swept.sound;
        complete = λ small j e f x. run.swept.complete j e (all_chosen small j e f) f x;
      }
