-- ===== src/Replication/Progress.antt =====
-- The replica's reader takes bytes from the stream in every round, so that it comes to its end.
use sd_03_distributed_cache.Prelude.{
  ℕ, zero, suc, ◌+◌, ◌<◌, ◌≤◌, ltb, ◌≡◌, refl, arith, Bool, true, false, Option, none, some, List,
  [], ◌∷◌, if◌then◌else◌, length, take, drop, Bytes, bytes_beq, Exn, Result, ok, raise, ◌>>=◌,
  incomplete_read, protocol_error,
}
use sd_03_distributed_cache.Prelude.Int.{ℤ, pos, negsuc}
use sd_03_distributed_cache.Bytes.{codes, split, find_byte}
use sd_03_distributed_cache.Clock.{Clock}
use sd_03_distributed_cache.Lru.{LruCache, load_snapshot}
use sd_03_distributed_cache.Replication.Effects.{Effect}
use sd_03_distributed_cache.Replication.Replica.{
  Replica, rounds, read_line, read_exactly, int_part, is_frame, decode_effect, read_frame,
  framed_effect, read_effect, read_effects, snapshot_item, read_items, read_snapshot, numbers,
  later, apply_all, replay, see, snapshot_round, batch_round, dispatch_tag, dispatch_line,
  consume_one, consume,
}

-- What is left of the stream, if anything is returned, is at most `n` bytes.
abbrev Leaves : {A : Type 0} → ℕ → Result (A × Bytes) → Type 0
Leaves n (raise x) = Unit
Leaves n (ok (a, rest)) = length rest ≤ n

module _ {A B : Type 0} (n : ℕ) where
  then-Leaves :
      (m : Result (A × Bytes)) (f : A × Bytes → Result (B × Bytes))
      → Leaves n m
      → ((a : A) (rest : Bytes) → length rest ≤ n → Leaves n (f (a, rest)))
      → Leaves n (m >>= f)
  then-Leaves (raise x) f h k = tt
  then-Leaves (ok (a, rest)) f h k = k a rest h

  value-Leaves :
      (m : Result A) (f : A → Result (B × Bytes)) → ((a : A) → Leaves n (f a)) → Leaves n (m >>= f)
  value-Leaves (raise x) f k = tt
  value-Leaves (ok a) f k = k a

pub length-cut : (n : ℕ) (s : Bytes) → length (take n s) + length (drop n s) ≡ length s
length-cut zero s = omega arith
length-cut (suc n) [] = omega arith
length-cut (suc n) (c ∷ s) = omega (arith, length-cut n s)

read_exactly-Leaves : (n : ℕ) (z : ℤ) (s : Bytes) → length s ≤ n → Leaves n (read_exactly z s)
unfolding read_exactly
read_exactly-Leaves n (negsuc z) s h = tt
read_exactly-Leaves n (pos z) s h = go (ltb (length s) z)
  where
    go : (b : Bool) → Leaves n (if b then raise incomplete_read else ok (take z s, drop z s))
    go true = tt
    go false = omega (arith, h, length-cut z s)

length-read_line : (s : Bytes) → length (read_line s).0 + length (read_line s).1 ≡ length s
unfolding read_line
length-read_line s = go (find_byte 10 s)
  where
    cut : Option ℕ → Bytes × Bytes
    cut o = elim o [ none ↦ (s, []) | some n ↦ (take (suc n) s, drop (suc n) s) ]

    go : (o : Option ℕ) → length (cut o).0 + length (cut o).1 ≡ length s
    go none = omega arith
    go (some n) = length-cut (suc n) s

read_frame-Leaves :
    (n : ℕ) (parts : List Bytes) (s : Bytes) → length s ≤ n → Leaves n (read_frame parts s)
unfolding read_frame
read_frame-Leaves n parts s h = go (is_frame parts)
  where
    framed : Result (Effect × Bytes)
    framed = do
      n ← int_part parts 1
      (payload, rest) ← read_exactly n s
      (_, rest) ← read_exactly (pos 2) rest
      e ← decode_effect payload
      ok (e, rest)

    go : (b : Bool) → Leaves n (if b then framed else raise protocol_error)
    go false = tt
    go true = value-Leaves n (int_part parts 1) _ (λ z.
        then-Leaves n (read_exactly z s) _ (read_exactly-Leaves n z s h) (λ payload rest h.
          then-Leaves n (read_exactly (pos 2) rest) _ (read_exactly-Leaves n (pos 2) rest h)
            (λ end rest h. value-Leaves n (decode_effect payload) _ (λ e. h))))

read_effect-Leaves : (n : ℕ) (s : Bytes) → length s ≤ n → Leaves n (read_effect s)
unfolding read_effect framed_effect
read_effect-Leaves n s h = go (read_line s).0
  where
    shorter : length (read_line s).1 ≤ n
    shorter = omega (arith, length-read_line s, h)

    go : (line : Bytes) → Leaves n (framed_effect line (read_line s).1)
    go [] = tt
    go (c ∷ cs) = read_frame-Leaves n (split (c ∷ cs)) (read_line s).1 shorter

read_effects-Leaves : (k n : ℕ) (s : Bytes) → length s ≤ n → Leaves n (read_effects k s)
unfolding read_effects
read_effects-Leaves zero n s h = h
read_effects-Leaves (suc k) n s h =
    then-Leaves n (read_effect s) _ (read_effect-Leaves n s h) (λ e rest h.
      then-Leaves n (read_effects k rest) _ (read_effects-Leaves k n rest h) (λ es rest h. h))

-- The same for a round, which returns the replica beside the rest.
abbrev RoundLeaves : (F : Type 0) → ℕ → Replica F × Result Bytes → Type 0
RoundLeaves F n (r, raise x) = Unit
RoundLeaves F n (r, ok rest) = length rest ≤ n

module _ (F : Type 0) ⦃clock : Clock F⦄ where
  read_items-Leaves : (k n : ℕ) (s : Bytes) → length s ≤ n → Leaves n (read_items {F = F} k s)
  unfolding read_items
  read_items-Leaves zero n s h = h
  read_items-Leaves (suc k) n s h =
      then-Leaves n (read_effect s) _ (read_effect-Leaves n s h) (λ e rest h.
        value-Leaves n (snapshot_item e) _ (λ i.
          then-Leaves n (read_items k rest) _ (read_items-Leaves k n rest h) (λ items rest h. h)))

module _ {F : Type 0} ⦃clock : Clock F⦄ where
  snapshot_round-RoundLeaves :
      (n : ℕ) (r : Replica F) (parts : List Bytes) (s : Bytes)
      → length s ≤ n
      → RoundLeaves F n (snapshot_round r parts s)
  unfolding snapshot_round read_snapshot
  snapshot_round-RoundLeaves n r parts s h =
      go (numbers parts) (λ count. read_items-Leaves F (rounds count) n s h)
    where
      round : Result (ℤ × LruCache F × Bytes) → Replica F × Result Bytes
      round read = elim read [
        | raise x ↦ (r, raise x)
        | ok (snap_off, store, rest) ↦ (
          record r {
            store = store;
            applied_offset = snap_off;
            last_seen_offset = later r.last_seen_offset snap_off;
            synced = true;
          },
          ok rest,
        )
      ]

      load :
          (off : ℤ) (rest : Bytes)
          → length rest ≤ n
          → (loads : Result (LruCache F))
          → RoundLeaves F n (round (loads >>= λ store. ok (off, store, rest)))
      load off rest h (raise x) = tt
      load off rest h (ok store) = h

      items_read :
          (off : ℤ) (read : Result (List (Bytes × Bytes × Option F) × Bytes))
          → Leaves n read
          → RoundLeaves F n
              (round (read >>= λ p. load_snapshot r.store p.0 >>= λ store. ok (off, store, p.1)))
      items_read off (raise x) h = tt
      items_read off (ok (items, rest)) h = load off rest h (load_snapshot r.store items)

      go :
          (m : Result (ℤ × ℤ))
          → ((count : ℤ) → Leaves n (read_items {F = F} (rounds count) s))
          → RoundLeaves F n (
              round (
                m >>= λ p. read_items (rounds p.1) s >>= λ q.
                load_snapshot r.store q.0 >>= λ store. ok (p.0, store, q.1)))
      go (raise x) h = tt
      go (ok (off, count)) h = items_read off (read_items (rounds count) s) (h count)

  replay-RoundLeaves :
      (n : ℕ) (r : Replica F) (off : ℤ) (effects : List Effect) (rest : Bytes)
      → length rest ≤ n
      → RoundLeaves F n (replay r off effects rest)
  unfolding replay
  replay-RoundLeaves n r off effects rest h = go (apply_all r.store effects)
    where
      go :
          (p : LruCache F × Option Exn)
          → RoundLeaves F n (elim p.1 [
            | some x ↦ (record r { store = p.0 }, raise x)
            | none ↦ (record r { store = p.0; applied_offset = off }, ok rest)
          ])
      go (store, none) = h
      go (store, some x) = tt

  batch_round-RoundLeaves :
      (n : ℕ) (r : Replica F) (parts : List Bytes) (s : Bytes)
      → length s ≤ n
      → RoundLeaves F n (batch_round r parts s)
  unfolding batch_round
  batch_round-RoundLeaves n r parts s h =
      go (numbers parts) (λ count. read_effects-Leaves (rounds count) n s h)
    where
      replays :
          (off : ℤ) (read : Result (List Effect × Bytes))
          → Leaves n read
          → RoundLeaves F n (elim read [
            | raise x ↦ (see r off, raise x)
            | ok (effects, rest) ↦ replay (see r off) off effects rest
          ])
      replays off (raise x) h = tt
      replays off (ok (effects, rest)) h = replay-RoundLeaves n (see r off) off effects rest h

      go :
          (m : Result (ℤ × ℤ))
          → ((count : ℤ) → Leaves n (read_effects (rounds count) s))
          → RoundLeaves F n (elim m [
            | raise x ↦ (r, raise x)
            | ok (off, count) ↦ elim (read_effects (rounds count) s) [
              | raise x ↦ (see r off, raise x)
              | ok (effects, rest) ↦ replay (see r off) off effects rest
            ]
          ])
      go (raise x) h = tt
      go (ok (off, count)) h = replays off (read_effects (rounds count) s) (h count)

  either-RoundLeaves :
      (n : ℕ) (x y : Replica F × Result Bytes) (b : Bool)
      → RoundLeaves F n x
      → RoundLeaves F n y
      → RoundLeaves F n (if b then x else y)
  either-RoundLeaves n x y true h k = h
  either-RoundLeaves n x y false h k = k

  dispatch_tag-RoundLeaves :
      (n : ℕ) (r : Replica F) (parts : List Bytes) (s : Bytes)
      → length s ≤ n
      → RoundLeaves F n (dispatch_tag r parts s)
  unfolding dispatch_tag
  dispatch_tag-RoundLeaves n r [] s h = tt
  dispatch_tag-RoundLeaves n r (tag ∷ parts) s h =
      either-RoundLeaves n _ _ (bytes_beq tag (codes "SNAPSHOT"))
        (snapshot_round-RoundLeaves n r (tag ∷ parts) s h)
        (either-RoundLeaves n _ _ (bytes_beq tag (codes "BATCH"))
          (batch_round-RoundLeaves n r (tag ∷ parts) s h) tt)

  consume_one-RoundLeaves :
      (n : ℕ) (r : Replica F) (s : Bytes) → length s ≤ suc n → RoundLeaves F n (consume_one r s)
  unfolding consume_one dispatch_line
  consume_one-RoundLeaves n r s h = go (read_line s).0 (length-read_line s)
    where
      go :
          (line : Bytes)
          → length line + length (read_line s).1 ≡ length s
          → RoundLeaves F n (dispatch_line r line (read_line s).1)
      go [] e = tt
      go (c ∷ cs) e =
          dispatch_tag-RoundLeaves n r (split (c ∷ cs)) (read_line s).1 (omega (arith, e, h))

  -- Whatever the stream is, and whatever the replica, the loop of `_consume` ends by an exception: with
  -- more rounds than there are bytes it does not run on.
  pub consume-raises :
      (fuel : ℕ) (r : Replica F) (s : Bytes)
      → length s < fuel
      → (r' : Replica F) × (x : Exn) × (consume fuel r s ≡ (r', some x))
  unfolding consume consume_one dispatch_line read_line find_byte
  consume-raises zero r s h = absurd (omega (arith, h))
  consume-raises (suc fuel) r [] h = (r, incomplete_read, refl)
  consume-raises (suc zero) r (c ∷ s) h = absurd (omega (arith, h))
  consume-raises (suc (suc fuel)) r (c ∷ s) h =
      go (λ r' rest k. consume-raises (suc fuel) r' rest k) (consume_one r (c ∷ s))
        (consume_one-RoundLeaves fuel r (c ∷ s) (omega (arith, h)))
    where
      go :
          ((r' : Replica F) (rest : Bytes)
            → length rest < suc fuel
            → (r'' : Replica F) × (x : Exn) × (consume (suc fuel) r' rest ≡ (r'', some x)))
          → (p : Replica F × Result Bytes) → RoundLeaves F fuel p
          → (r'' : Replica F) × (x : Exn) × (elim p.1 [
            | raise x ↦ (p.0, some x)
            | ok rest ↦ consume (suc fuel) p.0 rest
          ]
              ≡ (r'', some x))
      go later_rounds (r', raise x) k = (r', x, refl)
      go later_rounds (r', ok rest) k = later_rounds r' rest (omega (arith, k))
