-- ===== src/Server/Snapshots.antt =====
-- The tuples of a master's snapshot, and those that a replica reads for them.
use sd_03_distributed_cache.Prelude.{
  ◌≡◌, refl, ap, ◌∙◌, arith, Bool-cases, false, inl, inr, Option, none, some, List, [], ◌∷◌, ◌++◌,
  append_assoc, length, map, All, Bytes, bytes_beq, bytes_beq_iff, bytes_beq_refl, Result, ok,
  ◌>>=◌,
}
use sd_03_distributed_cache.Prelude.Int.{ℤ, pos}
use sd_03_distributed_cache.Clock.{Clock}
use sd_03_distributed_cache.Lru.Spec.{Entry, find}
use sd_03_distributed_cache.Lru.Snapshot.{loaded, AreNew}
use sd_03_distributed_cache.Lru.FullCopy.{item}
use sd_03_distributed_cache.Replication.Effects.{Effect, frame_effect}
use sd_03_distributed_cache.Replication.Master.{deadline_ms, snapshot_effects, frames}
use sd_03_distributed_cache.Replication.Replica.{read_effect, read_items, snapshot_item}
use sd_03_distributed_cache.Replication.RoundTrip.{read_effect-frame_effect}
use sd_03_distributed_cache.Server.Rule.{IsStamp}
use sd_03_distributed_cache.Server.Mirror.{
  IsCarried, ArePaired, Mirrors, AreShort, deadline-IsCarried,
}

abbrev pub Tuple : Type 0 → Type 0
Tuple F = Bytes × Bytes × Option F

module _ {F : Type 0} ⦃clock : Clock F⦄ where
  -- A deadline that has milliseconds.
  abbrev pub HasMillis : Option F → Type 0
  HasMillis none = Unit
  HasMillis (some t) = (ms : ℤ) × (clock.millis t ≡ some ms)

  -- The same keys and values, and the carried deadlines.
  abbrev pub AreCopies : List (Tuple F) → List (Tuple F) → Type 0
  AreCopies [] [] = Unit
  AreCopies [] (_ ∷ _) = ⊥
  AreCopies (_ ∷ _) [] = ⊥
  AreCopies ((k, v, x) ∷ items) ((k', v', x') ∷ copies) =
      (k' ≡ k) × (v' ≡ v) × IsCarried x x' × AreCopies items copies

  abbrev pub NoTime : F → Type 0
  NoTime t = ⊥

  cons-Mirrors :
      (k v : Bytes) (x x' : Option F) (es ds : List (Entry F))
      → IsCarried x x'
      → Mirrors NoTime es ds
      → Mirrors NoTime
          (record { key = k; value = v; expire_at = x } ∷ es)
          (record { key = k; value = v; expire_at = x' } ∷ ds)
  unfolding find
  cons-Mirrors k v x x' es ds carried h j = elim (Bool-cases (bytes_beq k j)) [
    | inl same ↦ rw same (refl, carried)
    | inr other ↦ rw other (h j)
  ]

  absent : (o o' : Option (Entry F)) → ArePaired NoTime o o' → o ≡ none → o' ≡ none
  absent none none p e = refl
  absent none (some d) (t, now, never, expired, carried) e = absurd never
  absent (some e) o' p f = absurd (ground arith)

  -- Copies of tuples with distinct keys have distinct keys, and give each key a copy of its entry.
  pub copies-Mirrors :
      (items copies : List (Tuple F)) (es ds : List (Entry F))
      → AreCopies items copies
      → AreNew items es
      → Mirrors NoTime es ds
      → AreNew copies ds × Mirrors NoTime (loaded items es) (loaded copies ds)
  copies-Mirrors [] [] es ds c n h = (tt, h)
  copies-Mirrors [] (_ ∷ _) es ds c n h = absurd c
  copies-Mirrors (_ ∷ _) [] es ds c n h = absurd c
  copies-Mirrors ((k, v, x) ∷ items) ((k', v', x') ∷ copies) es ds
        (same_key, same_value, carried, c) (u, n) h =
      let e : Entry F = record { key = k; value = v; expire_at = x } in
      let d : Entry F = record { key = k; value = v; expire_at = x' } in
      let (n', h') =
        copies-Mirrors items copies (e ∷ es) (d ∷ ds) c n (cons-Mirrors k v x x' es ds carried h) in
      rw (same_key, same_value) ((absent (find k es) (find k ds) (h k) u, n'), h')

  find-loaded_kept :
      (j : Bytes) (e : Entry F) (items : List (Tuple F)) (es : List (Entry F))
      → AreNew items es
      → find j es ≡ some e
      → find j (loaded items es) ≡ some e
  unfolding find
  find-loaded_kept j e [] es n h = h
  find-loaded_kept j e ((k, v, x) ∷ items) es (u, n) h =
      find-loaded_kept j e items (record { key = k; value = v; expire_at = x } ∷ es) n
        (ground (arith, u, h, bytes_beq_iff k j))

  pub tuples-HasMillis :
      (items : List (Tuple F)) (es : List (Entry F))
      → AreNew items es
      → ((j : Bytes) (e : Entry F) → find j (loaded items es) ≡ some e → HasMillis e.expire_at)
      → All (λ i. HasMillis i.2) items
  unfolding find
  tuples-HasMillis [] es n h = tt
  tuples-HasMillis ((k, v, x) ∷ items) es (u, n) h =
      let e : Entry F = record { key = k; value = v; expire_at = x } in
      (
        h k e (find-loaded_kept k e items (e ∷ es) n (rw (bytes_beq_refl k) refl)),
        tuples-HasMillis items (e ∷ es) n h,
      )

-- `int(t * 1000)` is 0 where `t` counts as false: it is 0.0.
abbrev pub IsZeroFalse : (F : Type 0) → ⦃clock : Clock F⦄ → Type 0
IsZeroFalse F ⦃clock⦄ = (t : F) → clock.truthy t ≡ false → clock.millis t ≡ some (pos 0)

module _ {F : Type 0} ⦃clock : Clock F⦄ (short : AreShort F) (zero_false : IsZeroFalse F) where
  deadline_ms-IsStamp :
      (x : Option F) → HasMillis x → (ms : ℤ) × (deadline_ms x ≡ ok ms) × IsStamp x ms
  unfolding deadline_ms
  deadline_ms-IsStamp none h = (pos 0, refl, refl)
  deadline_ms-IsStamp (some t) (ms, h) = elim (Bool-cases (clock.truthy t)) [
    | inl truthy ↦ (ms, rw (truthy, deadline_ms) (rw h refl), h)
    | inr falsy ↦ (pos 0, rw (falsy, deadline_ms) refl, zero_false t falsy)
  ]

  -- The effects that are written for some tuples, and the tuples that are read for them.
  pub record Sent (items : List (Tuple F)) : Type 0 where
    pub effects : List Effect
    pub copies : List (Tuple F)
    pub writes : snapshot_effects (map item items) ≡ ok effects
    pub reads :
        (rest : Bytes) → read_items (length items) (frames effects ++ rest) ≡ ok (copies, rest)
    pub are_copies : AreCopies items copies

  -- A round of `read_items`, by what it reads.
  abbrev after : List (Tuple F) → Result (Tuple F) → Bytes → Result (List (Tuple F) × Bytes)
  after items read rest = do
    i ← read
    (is, rest) ← read_items (length items) rest
    ok (i ∷ is, rest)

  abbrev next : List (Tuple F) → Result (Effect × Bytes) → Result (List (Tuple F) × Bytes)
  next items read = do (eff, rest) ← read; after items (snapshot_item eff) rest

  pub tuples-Sent : (items : List (Tuple F)) → All (λ i. HasMillis i.2) items → Sent items
  unfolding snapshot_effects read_items frames snapshot_item
  tuples-Sent [] h = record {
    effects = [];
    copies = [];
    writes = refl;
    reads = λ rest. refl;
    are_copies = tt;
  }
  tuples-Sent ((k, v, x) ∷ items) (h, hs) =
      let (ms, d, stamp) = deadline_ms-IsStamp x h in
      let (x', d', carried) = deadline-IsCarried short x ms stamp in
      let s = tuples-Sent items hs in
      record {
        effects = Effect.set k v ms ∷ s.effects;
        copies = (k, v, x') ∷ s.copies;
        writes =
            ap
              (λ o.
                o >>= λ n. snapshot_effects (map item items) >>= λ es. ok (Effect.set k v n ∷ es))
              d
            ∙ ap (λ o. o >>= λ es. ok (Effect.set k v ms ∷ es)) s.writes;
        reads = λ rest.
            ap (λ t. next items (read_effect t))
              (append_assoc (frame_effect (Effect.set k v ms)) (frames s.effects) rest)
            ∙ ap (next items)
                (read_effect-frame_effect (Effect.set k v ms) (frames s.effects ++ rest))
            ∙ ap (λ o. after items (o >>= λ y. ok (k, v, y)) (frames s.effects ++ rest)) d'
            ∙ ap (λ o. o >>= λ p. ok ((k, v, x') ∷ p.0, p.1)) (s.reads rest);
        are_copies = (refl, refl, carried, s.are_copies);
      }
