-- ===== src/Server/Interrupted.antt =====
-- A connection to a master that breaks anywhere: inside the snapshot, or among the batches behind it.
use sd_03_distributed_cache.Prelude.{
  ℕ, zero, suc, ◌<◌, ◌≡◌, refl, ◌⊎◌, ap, sym, ◌∙◌, subst, arith, Bool, true, false, inl, inr, some,
  List, [], ◌∷◌, ◌++◌, if◌then◌else◌, length, length-append, Bytes, bytes_beq, Exn, Result, ok,
  raise, ◌>>=◌, incomplete_read, All,
}
use sd_03_distributed_cache.Prelude.Int.{ℤ}
use sd_03_distributed_cache.Clock.{Clock}
use sd_03_distributed_cache.Bytes.{codes, is_space, split, find_byte}
use sd_03_distributed_cache.Lru.{Item, Mode, LruCache}
use sd_03_distributed_cache.Bytes.Decimal.{show}
use sd_03_distributed_cache.Lru.Snapshot.{load_snapshot-loaded}
use sd_03_distributed_cache.Protocol.Incremental.{split-append}
use sd_03_distributed_cache.Replication.Effects.{Effect}
use sd_03_distributed_cache.Replication.Master.{
  Batch, control, frames, stream, snapshot_effects, snapshot_bytes, deadline_ms, as_bytes,
}
use sd_03_distributed_cache.Replication.Lines.{OneWord}
use sd_03_distributed_cache.Replication.Cut.{
  Raises, first-Raises, then-Raises, cut-OneLine, read_line-cut, read_effects-cut,
  read_effects-empty,
}
use sd_03_distributed_cache.Replication.RoundTrip.{
  line_front, line_front-OneLine, line_front-control, numbers-control,
}
use sd_03_distributed_cache.Replication.Replica.{
  Replica, rounds, numbers, read_effect, read_effects, snapshot_item, read_items, read_snapshot,
  snapshot_round, read_line, batch_round, replay, see, apply_all, dispatch_tag, dispatch_line,
  consume_one, consume,
}
use sd_03_distributed_cache.Replication.Atomic.{Applies, consume-Stopped}
use sd_03_distributed_cache.Server.Stores.{IsWhole, ok-eq, Applies-IsWhole}
use sd_03_distributed_cache.Server.FullSync.{consume_one-control}

plain : OneWord (codes "SNAPSHOT")
unfolding is_space
plain = (refl, (refl, (refl, (refl, (refl, (refl, (refl, (refl, tt))))))))

abbrev the_pair : List Effect → Bytes → List Effect × Bytes
the_pair es s = (es, s)

bound-Raises : {A B : Type 0} (m : Result A) (f : A → B) → Raises (m >>= λ a. ok (f a)) → Raises m
bound-Raises (ok a) f (x, h) = absurd (ground (arith, h))
bound-Raises (raise y) f h = (y, refl)

module _ {F : Type 0} ⦃clock : Clock F⦄ where
  read_items-Raises :
      (n : ℕ) (s : Bytes) → Raises (read_effects n s) → Raises (read_items {F = F} n s)
  unfolding read_items read_effects
  read_items-Raises zero s h = absurd (ground (arith, h.1))
  read_items-Raises (suc n) s h = then-Raises (read_effect s) _ (λ p e.
      then-Raises (snapshot_item {F = F} p.0) _
        (λ item d. first-Raises (read_items {F = F} n p.1) _ (read_items-Raises n p.1 (inner p e))))
    where
      inner : (p : Effect × Bytes) → read_effect s ≡ ok p → Raises (read_effects n p.1)
      inner p e =
          bound-Raises (read_effects n p.1) (λ (q : List Effect × Bytes). the_pair (p.0 ∷ q.0) q.1)
            (subst
              (λ m. Raises (m >>= λ p. read_effects n p.1 >>= λ q. ok (the_pair (p.0 ∷ q.0) q.1))) e
              h)

  read_items-empty : (n : ℕ) → Raises (read_items {F = F} (suc n) [])
  read_items-empty n = read_items-Raises (suc n) [] (read_effects-empty n)

-- A round that leaves the store well formed, and that raises or ends the stream.
abbrev Rounds : {F : Type 0} → ℕ → Mode → Replica F × Result Bytes → Type 0
Rounds room m' p = IsWhole room m' p.0.store × (Raises p.1 ⊎ (p.1 ≡ ok []))

module _ {F : Type 0} ⦃clock : Clock F⦄ {room : ℕ} {m' : Mode} where
  raised : (r : Replica F) (x : Exn) → IsWhole room m' r.store → Rounds room m' (r, raise x)
  raised r x w = (w, inl (x, refl))

  snapshot_round-empty :
      (r : Replica F) (parts : List Bytes)
      → IsWhole room m' r.store
      → Rounds room m' (snapshot_round r parts [])
  unfolding snapshot_round read_snapshot read_items
  snapshot_round-empty r parts w = go (numbers parts) refl
    where
      go : (m : Result (ℤ × ℤ)) → numbers parts ≡ m → Rounds room m' (snapshot_round r parts [])
      go (raise x) e = rw (e, snapshot_round) (raised r x w)
      go (ok (off, count)) e = counted (rounds count) refl
        where
          counted : (k : ℕ) → rounds count ≡ k → Rounds room m' (snapshot_round r parts [])
          counted zero z =
              let (store, loads, s) = load_snapshot-loaded w.1 [] tt in
              rw (e, snapshot_round) (rw z (rw loads ((_, s), inr refl)))
          counted (suc k) z =
              let (x, h) = read_items-empty {F = F} k in
              rw (e, snapshot_round) (rw z (rw h (raised r x w)))

  batch_round-empty :
      (r : Replica F) (parts : List Bytes)
      → IsWhole room m' r.store
      → Rounds room m' (batch_round r parts [])
  unfolding batch_round read_effects replay apply_all see
  batch_round-empty r parts w = go (numbers parts) refl
    where
      go : (m : Result (ℤ × ℤ)) → numbers parts ≡ m → Rounds room m' (batch_round r parts [])
      go (raise x) e = rw (e, batch_round) (raised r x w)
      go (ok (off, count)) e = counted (rounds count) refl
        where
          counted : (k : ℕ) → rounds count ≡ k → Rounds room m' (batch_round r parts [])
          counted zero z = rw (e, batch_round) (rw z (w, inr refl))
          counted (suc k) z =
              let (x, h) = read_effects-empty k in
              rw (e, batch_round) (rw z (rw h (raised (see r off) x w)))

  dispatch_line-empty :
      (r : Replica F) (line : Bytes)
      → IsWhole room m' r.store
      → Rounds room m' (dispatch_line r line [])
  unfolding dispatch_line dispatch_tag
  dispatch_line-empty r [] w = raised r _ w
  dispatch_line-empty r (c ∷ cs) w = tagged (split (c ∷ cs))
    where
      choose :
          (b : Bool) (x y : Replica F × Result Bytes)
          → Rounds room m' x
          → Rounds room m' y
          → Rounds room m' (if b then x else y)
      choose true x y h k = h
      choose false x y h k = k

      tagged : (parts : List Bytes) → Rounds room m' (dispatch_tag r parts [])
      tagged [] = raised r _ w
      tagged (tag ∷ parts) =
          choose (bytes_beq tag (codes "SNAPSHOT")) _ _ (snapshot_round-empty r (tag ∷ parts) w) (
            choose (bytes_beq tag (codes "BATCH")) _ _ (batch_round-empty r (tag ∷ parts) w)
              (raised r _ w))

length-snapshot_effects :
    {F : Type 0} ⦃clock : Clock F⦄
    → (items : List (Item F)) (es : List Effect) → snapshot_effects items ≡ ok es
    → length es ≡ length items
unfolding snapshot_effects
length-snapshot_effects [] es h = ap length (sym (ok-eq [] es h))
length-snapshot_effects (i ∷ items) es h =
    timed (λ fs e. length-snapshot_effects items fs e) (deadline_ms i.expire_at) h
  where
    rest :
        ((fs : List Effect) → snapshot_effects items ≡ ok fs → length fs ≡ length items)
        → (ms : ℤ) (r : Result (List Effect)) → snapshot_effects items ≡ r
        → (r >>= λ es. ok (Effect.set (as_bytes i.key) (as_bytes i.value) ms ∷ es)) ≡ ok es
        → length es ≡ suc (length items)
    rest later ms (raise x) e h = absurd (ground (arith, h))
    rest later ms (ok fs) e h =
        ap length (sym (ok-eq (Effect.set (as_bytes i.key) (as_bytes i.value) ms ∷ fs) es h))
        ∙ ap suc (later fs e)

    timed :
        ((fs : List Effect) → snapshot_effects items ≡ ok fs → length fs ≡ length items)
        → (m : Result ℤ)
        → (m >>= λ ms. snapshot_effects items >>= λ es.
            ok (Effect.set (as_bytes i.key) (as_bytes i.value) ms ∷ es))
          ≡ ok es
        → length es ≡ suc (length items)
    timed later (raise x) h = absurd (ground (arith, h))
    timed later (ok ms) h = rest later ms (snapshot_effects items) refl h

-- The bytes of a snapshot: a control line and the frames.
record IsSnapshot (offset : ℕ) (bytes : Bytes) : Type 0 where
  effects : List Effect
  parts : bytes ≡ control (codes "SNAPSHOT") offset (length effects) ++ frames effects

IsSnapshot-long : (offset : ℕ) (bytes : Bytes) → IsSnapshot offset bytes → 0 < length bytes
unfolding control
IsSnapshot-long offset bytes s = omega (arith, ap length s.parts)

module _ {F : Type 0} ⦃clock : Clock F⦄ where
  snapshot_bytes-IsSnapshot :
      (offset : ℕ) (items : List (Item F)) (bytes : Bytes)
      → snapshot_bytes offset items ≡ ok bytes
      → IsSnapshot offset bytes
  unfolding snapshot_bytes
  snapshot_bytes-IsSnapshot offset items bytes h = go (snapshot_effects items) refl h
    where
      go :
          (r : Result (List Effect))
          → snapshot_effects items ≡ r
          → (r >>= λ es. ok (control (codes "SNAPSHOT") offset (length items) ++ frames es))
            ≡ ok bytes
          → IsSnapshot offset bytes
      go (raise x) e h = absurd (ground (arith, h))
      go (ok es) e h = record {
        effects = es;
        parts =
            sym (ok-eq (control (codes "SNAPSHOT") offset (length items) ++ frames es) bytes h)
            ∙ ap (λ n. control (codes "SNAPSHOT") offset n ++ frames es)
                (sym (length-snapshot_effects items es e));
      }

module _ {F : Type 0} ⦃clock : Clock F⦄ {room : ℕ} {m' : Mode} (r : Replica F)
    (w : IsWhole room m' r.store) where
  -- The snapshot is cut off.
  snapshot-Rounds :
      (offset : ℕ) (effects : List Effect) (p y : Bytes)
      → p ++ y ≡ control (codes "SNAPSHOT") offset (length effects) ++ frames effects
      → 0 < length y
      → Rounds room m' (consume_one r p)
  unfolding consume_one snapshot_round read_snapshot
  snapshot-Rounds offset effects p y h ne =
      elim (split-append p y (control (codes "SNAPSHOT") offset (length effects)) (frames effects)
        h) [
          | inl (y', l, ne', f) ↦
              let one =
                cut-OneLine p y' (line_front b'S' (codes "NAPSHOT") offset (length effects) plain)
                  (l
                    ∙ sym (line_front-control b'S' (codes "NAPSHOT") offset (length effects) plain))
                  ne' (line_front-OneLine b'S' (codes "NAPSHOT") offset (length effects) plain) in
              rw (read_line-cut p one, consume_one) (dispatch_line-empty r p w)
          | inr (q, l, f) ↦
              let parts = codes "SNAPSHOT" ∷ show offset ∷ show (length effects) ∷ [] in
              let (x, e) =
                read_items-Raises {F = F} (length effects) q (read_effects-cut effects q y f ne) in
              let n = numbers-control b'S' (codes "NAPSHOT") offset (length effects) plain in
              subst (Rounds room m')
                (sym (ap (consume_one r) l ∙ consume_one-control r offset (length effects) q))
                (rw (n, snapshot_round) (rw e (raised r x w)))
        ]

module _ {F : Type 0} ⦃clock : Clock F⦄ {room : ℕ} {m' : Mode} (roomy : 0 < room)
    (r r₁ : Replica F) where
  -- A connection that breaks anywhere ends the loop by an exception, and leaves a well-formed store.
  pub consume-interrupted :
      (fuel offset : ℕ) (items : List (Item F)) (bytes : Bytes) (bs : List Batch) (c : LruCache F)
      (p y : Bytes)
      → IsWhole room m' r.store
      → IsWhole room m' r₁.store
      → snapshot_bytes offset items ≡ ok bytes
      → ((rest : Bytes) → consume_one r (bytes ++ rest) ≡ (r₁, ok rest))
      → All (λ (b : Batch). 0 < length b.effects) bs
      → Applies r₁.store bs c
      → p ++ y ≡ bytes ++ stream bs
      → length p < fuel
      → (r' : Replica F) × (x : Exn) × (consume fuel r p ≡ (r', some x)) × IsWhole room m' r'.store
  unfolding consume consume_one dispatch_line read_line find_byte
  consume-interrupted zero offset items bytes bs c p y w w' e reads some_effects a h f =
      absurd (omega (arith, f))
  consume-interrupted (suc fuel) offset items bytes bs c p y w w' e reads some_effects a h f =
      elim (split-append p y bytes (stream bs) h) [
        | inl (y', l, ne', f') ↦ cut y' l ne'
        | inr (q, l, f') ↦ behind q l f'
      ]
    where
      snap : IsSnapshot offset bytes
      snap = snapshot_bytes-IsSnapshot offset items bytes e

      cut :
          (y' : Bytes)
          → p ++ y' ≡ bytes
          → 0 < length y'
          → (r' : Replica F) × (x : Exn) × (consume (suc fuel) r p ≡ (r', some x))
            × IsWhole room m' r'.store
      cut y' l ne = ends p f (snapshot-Rounds r w offset snap.effects p y' (l ∙ snap.parts) ne)
        where
          ends :
              (p : Bytes)
              → length p < suc fuel
              → Rounds room m' (consume_one r p)
              → (r' : Replica F) × (x : Exn) × (consume (suc fuel) r p ≡ (r', some x))
                × IsWhole room m' r'.store
          ends [] f k = (r, incomplete_read, refl, w)
          ends (b ∷ p) f (k, inl (x, e)) = ((consume_one r (b ∷ p)).0, x, rw (e, consume) refl, k)
          ends (b ∷ p) f (k, inr e) = (
            (consume_one r (b ∷ p)).0,
            incomplete_read,
            rw (e, consume) (over fuel (omega (arith, f)) (consume_one r (b ∷ p)).0),
            k,
          )
            where
              over :
                  (fuel : ℕ)
                  → 0 < fuel
                  → (r : Replica F) → consume fuel r [] ≡ (r, some incomplete_read)
              over zero f r = absurd (omega (arith, f))
              over (suc k) f r = refl

      behind :
          (q : Bytes)
          → p ≡ bytes ++ q
          → q ++ y ≡ stream bs
          → (r' : Replica F) × (x : Exn) × (consume (suc fuel) r p ≡ (r', some x))
            × IsWhole room m' r'.store
      behind q l e =
          let t = consume-Stopped fuel r₁ bs c q y some_effects a e (
            omega (
              arith,
              ap length l,
              length-append {0} bytes q,
              f,
              IsSnapshot-long offset bytes snap,
            )) in
          (
            t.replica,
            t.exn,
            ap (consume (suc fuel) r) l
                ∙ ap (λ t. elim t.1 [ raise x ↦ (t.0, some x) | ok rest ↦ consume fuel t.0 rest ])
                    (reads q)
                ∙ t.ends,
            Applies-IsWhole roomy r₁.store t.replica.store t.done t.applies w',
          )
