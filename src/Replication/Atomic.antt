-- ===== src/Replication/Atomic.antt =====
-- `_consume` on a stream of batches that ends anywhere: a batch is applied as a whole or not at all.
use sd_03_distributed_cache.Prelude.{
  ℕ, zero, suc, ◌<◌, ◌≡◌, refl, ap, sym, ◌∙◌, subst, arith, true, false, inl, inr, none, some, List,
  [], ◌∷◌, ◌++◌, length, length-append, Bytes, bytes_beq, Exn, incomplete_read, protocol_error,
  Result, ok, raise, All, if◌then◌else◌, Bool,
}
use sd_03_distributed_cache.Prelude.Int.{ℤ, pos}
use sd_03_distributed_cache.Bytes.{codes, is_space, split, find_byte}
use sd_03_distributed_cache.Bytes.Decimal.{show}
use sd_03_distributed_cache.Clock.{Clock}
use sd_03_distributed_cache.Lru.{LruCache}
use sd_03_distributed_cache.Protocol.Incremental.{split-append}
use sd_03_distributed_cache.Replication.Master.{Batch, control, frames, batch_bytes, stream}
use sd_03_distributed_cache.Replication.Lines.{OneLine, OneWord}
use sd_03_distributed_cache.Replication.Cut.{
  Raises, head_or, cut-OneLine, read_line-cut, read_effects-cut, read_effects-empty,
}
use sd_03_distributed_cache.Replication.CutLine.{IsCounted, control-IsCounted, split_aux-first}
use sd_03_distributed_cache.Replication.RoundTrip.{
  line_front, line_front-OneLine, line_front-control, split-control, read_line-control,
  numbers-control,
}
use sd_03_distributed_cache.Replication.Batches.{replayed, consume-batch}
use sd_03_distributed_cache.Replication.Replica.{
  Replica, rounds, read_line, numbers, read_effects, see, apply_all, batch_round, dispatch_tag,
  dispatch_line, consume_one, consume,
}

batch_word : OneWord (codes "BATCH")
unfolding is_space
batch_word = (refl, (refl, (refl, (refl, (refl, tt)))))

abbrev second : Result (ℤ × ℤ) → ℤ
second (raise x) = pos 0
second (ok p) = p.1

module _ {F : Type 0} ⦃clock : Clock F⦄ (r : Replica F) where
  -- A round that raises and leaves the store and the applied offset alone.
  record Fails (round : Replica F × Result Bytes) : Type 0 where
    replica : Replica F
    exn : Exn
    raises : round ≡ (replica, raise exn)
    store : replica.store ≡ r.store
    offset : replica.applied_offset ≡ r.applied_offset

  same-Fails : (x : Exn) → Fails (r, raise x)
  same-Fails x = record { replica = r; exn = x; raises = refl; store = refl; offset = refl }

  ap-Fails : {x y : Replica F × Result Bytes} → x ≡ y → Fails y → Fails x
  ap-Fails e h = subst Fails (sym e) h

  effects-Fails :
      (parts : List Bytes) (s : Bytes)
      → ((off n : ℤ) → numbers parts ≡ ok (off, n) → Raises (read_effects (rounds n) s))
      → Fails (batch_round r parts s)
  unfolding batch_round see
  effects-Fails parts s h = go (numbers parts) refl
    where
      go : (m : Result (ℤ × ℤ)) → numbers parts ≡ m → Fails (batch_round r parts s)
      go (raise x) e = rw (e, batch_round) (same-Fails x)
      go (ok (off, n)) e =
          let (x, f) = h off n e in
          rw (e, batch_round)
            (rw f
              (record { replica = see r off; exn = x; raises = refl; store = refl; offset = refl }))

  -- The control line is cut off.
  line-Fails :
      (b : Batch) (p y : Bytes)
      → 0 < length b.effects
      → p ++ y ≡ control (codes "BATCH") b.offset (length b.effects)
      → 0 < length y
      → Fails (consume_one r p)
  unfolding consume_one dispatch_line control split is_space dispatch_tag bytes_beq read_line
      find_byte
  line-Fails b [] y some_effects h ne = same-Fails incomplete_read
  line-Fails b (c ∷ cs) y some_effects h ne =
      let one : OneLine (c ∷ cs) =
        cut-OneLine (c ∷ cs) y
          (line_front b'B' (codes "ATCH") b.offset (length b.effects) batch_word)
          (h ∙ sym (line_front-control b'B' (codes "ATCH") b.offset (length b.effects) batch_word))
          ne (line_front-OneLine b'B' (codes "ATCH") b.offset (length b.effects) batch_word) in
      let parts =
        control-IsCounted b'B' (codes "ATCH") b.offset (length b.effects) batch_word some_effects
          (c ∷ cs) y h ne in
      let (v, ws, e) = split_aux-first b'B' [] cs in
      let begins : c ≡ b'B' = ap (head_or 0) h in
      let words : split (c ∷ cs) ≡ (b'B' ∷ v) ∷ ws = ap (λ d. split (d ∷ cs)) begins ∙ e in
      rw (read_line-cut (c ∷ cs) one, consume_one)
        (rw words (tagged v ws (subst IsCounted words parts)))
    where
      tagged :
          (v : Bytes) (ws : List Bytes)
          → IsCounted ((b'B' ∷ v) ∷ ws)
          → Fails (dispatch_tag r ((b'B' ∷ v) ∷ ws) [])
      tagged v ws k = go (bytes_beq (b'B' ∷ v) (codes "BATCH"))
        where
          go :
              (t : Bool)
              → Fails (if t then batch_round r ((b'B' ∷ v) ∷ ws) [] else (r, raise protocol_error))
          go false = same-Fails protocol_error
          go true = effects-Fails ((b'B' ∷ v) ∷ ws) [] (λ off n e.
              let (u, f) = k off n e in
              subst (λ m. Raises (read_effects (rounds m) [])) (sym f) (read_effects-empty u))

  -- The frames are cut off.
  frames-Fails :
      (b : Batch) (q y : Bytes)
      → q ++ y ≡ frames b.effects
      → 0 < length y
      → Fails (consume_one r (control (codes "BATCH") b.offset (length b.effects) ++ q))
  unfolding consume_one dispatch_line control dispatch_tag bytes_beq
  frames-Fails b q y h ne =
      ap-Fails
        (ap (λ p. dispatch_line r p.0 p.1)
            (read_line-control b'B' (codes "ATCH") b.offset (length b.effects) batch_word q)
          ∙ ap (λ ps. dispatch_tag r ps q)
              (split-control b'B' (codes "ATCH") b.offset (length b.effects) batch_word))
        (effects-Fails (codes "BATCH" ∷ show b.offset ∷ show (length b.effects) ∷ []) q (λ off n e.
          let same : n ≡ pos (length b.effects) =
            sym (ap second e)
            ∙ ap second
                (numbers-control b'B' (codes "ATCH") b.offset (length b.effects) batch_word) in
          subst (λ m. Raises (read_effects (rounds m) q)) (sym same)
            (read_effects-cut b.effects q y h ne)))

  -- A batch that is cut off anywhere.
  batch-Fails :
      (b : Batch) (p y : Bytes)
      → 0 < length b.effects
      → p ++ y ≡ batch_bytes b
      → 0 < length y
      → Fails (consume_one r p)
  unfolding batch_bytes
  batch-Fails b p y some_effects h ne =
      elim (split-append p y (control (codes "BATCH") b.offset (length b.effects))
        (frames b.effects) h) [
          | inl (y', l, ne', f) ↦ line-Fails b p y' some_effects l ne'
          | inr (q, l, f) ↦ subst (λ t. Fails (consume_one r t)) (sym l) (frames-Fails b q y f ne)
        ]

abbrev pub offset_after : ℤ → List Batch → ℤ
offset_after off [] = off
offset_after off (b ∷ bs) = offset_after (pos b.offset) bs

batch_bytes-long : (b : Batch) → 0 < length (batch_bytes b)
unfolding batch_bytes control
batch_bytes-long b = omega arith

module _ {F : Type 0} ⦃clock : Clock F⦄ where
  -- Every effect of the batches applies, and gives the store `c'` in the end.
  abbrev pub Applies : LruCache F → List Batch → LruCache F → Type 0
  Applies c [] c' = c ≡ c'
  Applies c (b ∷ bs) c' = (d : LruCache F) × (apply_all c b.effects ≡ (d, none)) × Applies d bs c'

  -- The loop has ended by an exception, and the replica has applied the first batches and no other.
  pub record Stopped (fuel : ℕ) (r : Replica F) (bs : List Batch) (p : Bytes) : Type 0 where
    pub done : List Batch
    pub left : List Batch
    pub order : bs ≡ done ++ left
    pub replica : Replica F
    pub exn : Exn
    pub ends : consume fuel r p ≡ (replica, some exn)
    pub applies : Applies r.store done replica.store
    pub offset : replica.applied_offset ≡ offset_after r.applied_offset done

  failed-Stopped :
      (fuel : ℕ) (r : Replica F) (bs : List Batch) (p : Bytes)
      → Fails r (consume_one r p)
      → Stopped (suc fuel) r bs p
  unfolding consume
  failed-Stopped fuel r bs p f = record {
    done = [];
    left = bs;
    order = refl;
    replica = f.replica;
    exn = f.exn;
    ends =
        ap (λ t. elim t.1 [ raise x ↦ (t.0, some x) | ok rest ↦ consume fuel t.0 rest ]) f.raises;
    applies = sym f.store;
    offset = f.offset;
  }

  -- A replica reads batches, each with an effect and all of whose effects apply, on a connection that
  -- breaks anywhere, inside a line, a frame or between two batches. The loop ends by an exception, within
  -- a round for each byte, and the replica has then applied some of the batches from the first on, each
  -- as a whole, and nothing of the others; its offset is that of the last one.
  pub consume-Stopped :
      (fuel : ℕ) (r : Replica F) (bs : List Batch) (c : LruCache F) (p y : Bytes)
      → All (λ (b : Batch). 0 < length b.effects) bs
      → Applies r.store bs c
      → p ++ y ≡ stream bs
      → length p < fuel
      → Stopped fuel r bs p
  unfolding consume_one dispatch_line read_line find_byte see
  consume-Stopped zero r bs c p y some_effects a h f = absurd (omega (arith, f))
  consume-Stopped (suc fuel) r [] c [] y some_effects a h f =
      failed-Stopped fuel r [] [] (same-Fails r incomplete_read)
  consume-Stopped (suc fuel) r [] c (k ∷ p) y some_effects a h f =
      absurd (omega (arith, ap length h))
  consume-Stopped (suc fuel) r (b ∷ bs) c p y (n, ns) (d, a, later) h f =
      elim (split-append p y (batch_bytes b) (stream bs) h) [
        | inl (y', l, ne, e) ↦ failed-Stopped fuel r (b ∷ bs) p (batch-Fails r b p y' n l ne)
        | inr (q, l, e) ↦
            let s = consume-Stopped fuel (replayed r d b.offset) bs c q y ns later e (
              omega
                (arith, ap length l, length-append {0} (batch_bytes b) q, f, batch_bytes-long b)) in
            record {
              done = b ∷ s.done;
              left = s.left;
              order = ap (◌∷◌ b) s.order;
              replica = s.replica;
              exn = s.exn;
              ends = ap (consume (suc fuel) r) l ∙ consume-batch r d b a fuel q ∙ s.ends;
              applies = (d, a, s.applies);
              offset = s.offset;
            }
      ]
