-- ===== src/Replication/Replica.antt =====
-- `ReplicaClient`: the reader of the replication stream and the replay of effects. The stream is what
-- the master has written until the connection ends.
use sd_03_distributed_cache.Prelude.{
  ℕ, zero, suc, ltb, Bool, true, false, Option, none, some, List, [], ◌∷◌, if◌then◌else◌, length,
  take, drop, Bytes, bytes_beq, Exn, Result, ok, raise, index_error, value_error, overflow_error,
  protocol_error, incomplete_read, ◌>>=◌,
}
use sd_03_distributed_cache.Prelude.Int.{ℤ, pos, negsuc, ltb_ℤ}
use sd_03_distributed_cache.Clock.{Clock}
use sd_03_distributed_cache.Bytes.{codes, split, find_byte}
use sd_03_distributed_cache.Bytes.Decimal.{int}
use sd_03_distributed_cache.Protocol.{decode_resp_array, decoded}
use sd_03_distributed_cache.Protocol
use sd_03_distributed_cache.Lru.{LruCache}
use sd_03_distributed_cache.Lru
use sd_03_distributed_cache.Replication.Effects.{Effect, or_value_error, payload_to_effect}

pub record Replica (F : Type 0) : Type 0 where
  pub store : LruCache F
  pub applied_offset : ℤ
  pub last_seen_offset : ℤ
  pub synced : Bool

-- `reader.readline()`: a line with its end, or what is left.
unfoldable pub read_line : Bytes → Bytes × Bytes
read_line s = elim (find_byte 10 s) [ none ↦ (s, []) | some n ↦ (take (suc n) s, drop (suc n) s) ]

-- `reader.readexactly(n)`
unfoldable pub read_exactly : ℤ → Bytes → Result (Bytes × Bytes)
read_exactly (negsuc _) s = raise value_error
read_exactly (pos n) s = if ltb (length s) n then raise incomplete_read else ok (take n s, drop n s)

-- `parts[i]`, and `int(parts[i])`
unfoldable pub part : List Bytes → ℕ → Result Bytes
part [] i = raise index_error
part (p ∷ ps) zero = ok p
part (p ∷ ps) (suc i) = part ps i

unfoldable pub int_part : List Bytes → ℕ → Result ℤ
unfolding part
int_part parts i = do p ← part parts i; or_value_error (int p)

-- `int(parts[1])` and `int(parts[2])`
unfoldable pub numbers : List Bytes → Result (ℤ × ℤ)
unfolding int_part
numbers parts = do a ← int_part parts 1; b ← int_part parts 2; ok (a, b)

-- `not parts or parts[0] != b"E"`
unfoldable pub is_frame : List Bytes → Bool
is_frame [] = false
is_frame (p ∷ _) = bytes_beq p (codes "E")

unfoldable pub decode_effect : Bytes → Result Effect
decode_effect payload = elim (decode_resp_array payload) [
  | decoded args ↦ payload_to_effect args
  | Protocol.Decoded.protocol_error _ ↦ raise protocol_error
]

-- The frame behind its first line.
unfoldable pub read_frame : List Bytes → Bytes → Result (Effect × Bytes)
unfolding is_frame int_part read_exactly decode_effect
read_frame parts rest =
    if is_frame parts
    then (do
      n ← int_part parts 1
      (payload, rest) ← read_exactly n rest
      (_, rest) ← read_exactly (pos 2) rest
      e ← decode_effect payload
      ok (e, rest))
    else raise protocol_error

-- `_read_effect`, behind its first line, and from the start.
unfoldable pub framed_effect : Bytes → Bytes → Result (Effect × Bytes)
unfolding read_frame
framed_effect [] rest = raise incomplete_read
framed_effect (c ∷ cs) rest = read_frame (split (c ∷ cs)) rest

unfoldable pub read_effect : Bytes → Result (Effect × Bytes)
unfolding read_line framed_effect
read_effect s = let (line, rest) = read_line s in framed_effect line rest

-- `n` times `_read_effect`
unfoldable pub read_effects : ℕ → Bytes → Result (List Effect × Bytes)
unfolding read_effect
read_effects zero s = ok ([], s)
read_effects (suc n) s = do
  (e, rest) ← read_effect s
  (es, rest) ← read_effects n rest
  ok (e ∷ es, rest)

-- The larger of the offset seen so far and a new one.
unfoldable pub later : ℤ → ℤ → ℤ
later seen off = if ltb_ℤ seen off then off else seen

-- The rounds of `range(n)`.
abbrev pub rounds : ℤ → ℕ
rounds (pos n) = n
rounds (negsuc _) = 0

module _ {F : Type 0} ⦃clock : Clock F⦄ where
  -- `ms / 1000.0`
  abbrev pub seconds : ℤ → Result F
  seconds ms = elim (clock.seconds ms) [ none ↦ raise overflow_error | some t ↦ ok t ]

  -- `ms / 1000.0 if ms else None`
  unfoldable pub deadline : ℤ → Result (Option F)
  deadline (pos zero) = ok none
  deadline ms = do t ← seconds ms; ok (some t)

  -- `_apply`
  unfoldable pub apply : LruCache F → Effect → Result (LruCache F)
  unfolding deadline
  apply c (Effect.set key value ms) = do
    expire_at ← deadline ms
    Lru.apply_set c key value expire_at
  apply c (Effect.del key) = do (c', _) ← Lru.delete c key; ok c'
  apply c (Effect.pexpireat key ms) = do t ← seconds ms; ok (Lru.set_expire c key t).0

  -- `for eff in effects: self._apply(eff)`; what was applied before an exception stays.
  unfoldable pub apply_all : LruCache F → List Effect → LruCache F × Option Exn
  unfolding apply
  apply_all c [] = (c, none)
  apply_all c (e ∷ es) = elim (apply c e) [ raise x ↦ (c, some x) | ok c' ↦ apply_all c' es ]

  -- The rounds of the loop over a snapshot: an effect is read and taken apart.
  unfoldable pub snapshot_item : Effect → Result (Bytes × Bytes × Option F)
  unfolding deadline
  snapshot_item (Effect.set key value ms) = do expire_at ← deadline ms; ok (key, value, expire_at)
  snapshot_item _ = raise value_error

  unfoldable pub read_items : ℕ → Bytes → Result (List (Bytes × Bytes × Option F) × Bytes)
  unfolding read_effect snapshot_item
  read_items zero s = ok ([], s)
  read_items (suc n) s = do
    (eff, rest) ← read_effect s
    item ← snapshot_item eff
    (items, rest) ← read_items n rest
    ok (item ∷ items, rest)

  -- What a snapshot's round reads: its offset, the store behind it and the rest of the stream.
  unfoldable pub read_snapshot : LruCache F → List Bytes → Bytes → Result (ℤ × LruCache F × Bytes)
  unfolding numbers read_items
  read_snapshot store parts s = do
    (snap_off, count) ← numbers parts
    (items, rest) ← read_items (rounds count) s
    store ← Lru.load_snapshot store items
    ok (snap_off, store, rest)

  -- A round of `_consume`: the replica behind it, and the rest of the stream or an exception.
  unfoldable pub snapshot_round : Replica F → List Bytes → Bytes → Replica F × Result Bytes
  unfolding read_snapshot later
  snapshot_round r parts s = elim (read_snapshot r.store parts s) [
    | raise x ↦ (r, raise x)
    | ok (snap_off, store, rest) ↦ (
      record r {
        store = store;
        applied_offset = snap_off;
        last_seen_offset = later r.last_seen_offset snap_off;
        synced = true;
      },
      ok rest,
    )
  ]

  -- `self.applied_offset = off` is reached only where every effect was applied.
  unfoldable pub replay : Replica F → ℤ → List Effect → Bytes → Replica F × Result Bytes
  unfolding apply_all
  replay r off effects rest =
      let (store, failed) = apply_all r.store effects in
      elim failed [
        | some x ↦ (record r { store = store }, raise x)
        | none ↦ (record r { store = store; applied_offset = off }, ok rest)
      ]

  unfoldable pub see : Replica F → ℤ → Replica F
  unfolding later
  see r off = record r { last_seen_offset = later r.last_seen_offset off }

  unfoldable pub batch_round : Replica F → List Bytes → Bytes → Replica F × Result Bytes
  unfolding numbers read_effects replay see
  batch_round r parts s = elim (numbers parts) [
    | raise x ↦ (r, raise x)
    | ok (off, n) ↦ elim (read_effects (rounds n) s) [
      | raise x ↦ (see r off, raise x)
      | ok (effects, rest) ↦ replay (see r off) off effects rest
    ]
  ]

  unfoldable pub dispatch_tag : Replica F → List Bytes → Bytes → Replica F × Result Bytes
  unfolding snapshot_round batch_round
  dispatch_tag r [] s = (r, raise index_error)
  dispatch_tag r (tag ∷ parts) s =
      if bytes_beq tag (codes "SNAPSHOT")
      then snapshot_round r (tag ∷ parts) s
      else if bytes_beq tag (codes "BATCH")
      then batch_round r (tag ∷ parts) s
      else (r, raise protocol_error)

  unfoldable pub dispatch_line : Replica F → Bytes → Bytes → Replica F × Result Bytes
  unfolding dispatch_tag
  dispatch_line r [] s = (r, raise incomplete_read)
  dispatch_line r (c ∷ cs) s = dispatch_tag r (split (c ∷ cs)) s

  unfoldable pub consume_one : Replica F → Bytes → Replica F × Result Bytes
  unfolding read_line dispatch_line
  consume_one r s = let (line, rest) = read_line s in dispatch_line r line rest

  -- `_consume`, on fuel, with `_stop` not set: the exception that ends it, if it ends.
  unfoldable pub consume : ℕ → Replica F → Bytes → Replica F × Option Exn
  unfolding consume_one
  consume zero r s = (r, none)
  consume (suc fuel) r s =
      let (r', out) = consume_one r s in
      elim out [ raise x ↦ (r', some x) | ok rest ↦ consume fuel r' rest ]
