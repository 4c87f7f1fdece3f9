-- ===== src/Replication/Cut.antt =====
-- A stream of batches that ends anywhere: the connection broke.
use sd_03_distributed_cache.Prelude.{
  ℕ, zero, suc, ◌+◌, ◌<◌, ◌≤◌, ltb, ◌≡◌, refl, ap, sym, ◌∙◌, subst, arith, Bool, true, false,
  Bool-cases, inl, inr, ◌==◌, none, List, [], ◌∷◌, ◌++◌, append_assoc, length, length-append, take,
  drop, Bytes, Exn, incomplete_read, protocol_error, Result, ok, raise, ◌>>=◌, if◌then◌else◌,
}
use sd_03_distributed_cache.Prelude.Int.{ℤ, pos, negsuc}
use sd_03_distributed_cache.Bytes.{codes, crlf, split, find_byte}
use sd_03_distributed_cache.Bytes.Decimal.{show}
use sd_03_distributed_cache.Protocol.Incremental.{split-append}
use sd_03_distributed_cache.Replication.Effects.{Effect, effect_to_payload, frame_effect}
use sd_03_distributed_cache.Replication.Master.{frames}
use sd_03_distributed_cache.Replication.Lines.{
  OneLine, append-OneLine, show-OneLine, read_line-line,
}
use sd_03_distributed_cache.Replication.RoundTrip.{line-E, int_part-1, read_effect-frame_effect}
use sd_03_distributed_cache.Replication.Progress.{length-cut}
use sd_03_distributed_cache.Replication.Replica.{
  read_line, read_exactly, int_part, is_frame, decode_effect, read_frame, framed_effect,
  read_effect, read_effects,
}

abbrev pub Raises : {A : Type 0} → Result A → Type 0
Raises m = (x : Exn) × (m ≡ raise x)

module _ {A B : Type 0} where
  pub first-Raises : (m : Result A) (f : A → Result B) → Raises m → Raises (m >>= f)
  first-Raises (ok a) f (x, e) = absurd (ground arith)
  first-Raises (raise y) f h = (y, refl)

  pub then-Raises :
      (m : Result A) (f : A → Result B) → ((a : A) → m ≡ ok a → Raises (f a)) → Raises (m >>= f)
  then-Raises (ok a) f h = h a refl
  then-Raises (raise y) f h = (y, refl)

abbrev pub head_or : ℕ → Bytes → ℕ
head_or n [] = n
head_or n (c ∷ _) = c

-- A part of a line has no line feed.
pub cut-OneLine :
    (p y line : Bytes) → p ++ y ≡ line ++ 10 ∷ [] → 0 < length y → OneLine line → OneLine p
cut-OneLine [] y line e h o = tt
cut-OneLine (c ∷ p) y [] e h o = absurd (omega (arith, ap length e, length-append {0} p y, h))
cut-OneLine (c ∷ p) y (d ∷ line) e h (u, o) = (
  subst (λ b. (b == 10) ≡ false) (sym (ap (head_or 0) e)) u,
  cut-OneLine p y line (ap (drop 1) e) h o,
)

pub read_line-cut : (p : Bytes) → OneLine p → read_line p ≡ (p, [])
unfolding read_line find_byte
read_line-cut p o = rw (missing p o, read_line) refl
  where
    missing : (p : Bytes) → OneLine p → find_byte 10 p ≡ none
    missing [] o = refl
    missing (c ∷ p) (u, o) = rw (u, find_byte) (rw (missing p o) refl)

exactly-Raises : (z : ℤ) (s : Bytes) → length s < 2 → Raises (read_exactly (pos 2) s)
unfolding read_exactly
exactly-Raises z s h =
    let few : ltb (length s) 2 ≡ true = ground (arith, h) in
    rw (few, read_exactly) (incomplete_read, refl)

-- The bytes behind the first line of a frame, where the line break at the end has not come in full.
behind-Raises :
    (parts : List Bytes) (s : Bytes)
    → ((z : ℤ)
        → int_part parts 1 ≡ ok z
        → (p : Bytes × Bytes) → read_exactly z s ≡ ok p
        → length p.1 < 2)
    → Raises (read_frame parts s)
unfolding read_frame
behind-Raises parts s few = go (is_frame parts)
  where
    framed : Result (Effect × Bytes)
    framed = do
      n ← int_part parts 1
      (payload, rest) ← read_exactly n s
      (_, rest) ← read_exactly (pos 2) rest
      e ← decode_effect payload
      ok (e, rest)

    go : (b : Bool) → Raises (if b then framed else raise protocol_error)
    go false = (protocol_error, refl)
    go true = then-Raises (int_part parts 1) _ (λ z e.
        then-Raises (read_exactly z s) _
          (λ p d. first-Raises (read_exactly (pos 2) p.1) _ (exactly-Raises z p.1 (few z e p d))))

length-take : (n : ℕ) (s : Bytes) → n ≤ length s → length (take n s) ≡ n
length-take zero s h = refl
length-take (suc n) [] h = absurd (omega (arith, h))
length-take (suc n) (c ∷ s) h = omega (arith, length-take n s (omega (arith, h)))

length-read_exactly :
    (n : ℕ) (s : Bytes) (p : Bytes × Bytes)
    → read_exactly (pos n) s ≡ ok p
    → length p.1 + n ≡ length s
unfolding read_exactly
length-read_exactly n s p d = elim (Bool-cases (ltb (length s) n)) [
  | inl few ↦ absurd (ground (arith, few, d))
  | inr enough ↦
      let e : p ≡ (take n s, drop n s) = ground (arith, enough, d) in
      omega (
        arith,
        ap (λ (q : Bytes × Bytes). length q.1) e,
        length-cut n s,
        length-take n s (ground (arith, enough)),
      )
]

read_frame-empty : (parts : List Bytes) → Raises (read_frame parts [])
unfolding read_exactly
read_frame-empty parts = behind-Raises parts [] (λ z e p d. few z p d)
  where
    few : (z : ℤ) (p : Bytes × Bytes) → read_exactly z [] ≡ ok p → length p.1 < 2
    few (pos n) p d = omega (arith, length-read_exactly n [] p d)
    few (negsuc n) p d = absurd (ground (arith, d))

-- A frame of an effect that is cut off.
module _ (e : Effect) where
  abbrev payload : Bytes
  payload = effect_to_payload e

  abbrev head : Bytes
  head = codes "E " ++ (show (length payload) ++ 13 ∷ [])

  head-OneLine : OneLine head
  head-OneLine = (
    refl,
    (
      refl,
      append-OneLine (show (length payload)) (13 ∷ []) (show-OneLine (length payload)) (refl, tt),
    ),
  )

  split-head : split (head ++ 10 ∷ []) ≡ codes "E" ∷ show (length payload) ∷ []
  split-head = ap split (simp append_assoc) ∙ line-E (length payload)

  framed-empty : (line : Bytes) → Raises (framed_effect line [])
  unfolding framed_effect
  framed-empty [] = (incomplete_read, refl)
  framed-empty (c ∷ cs) = read_frame-empty (split (c ∷ cs))

  framed-cut :
      (q y : Bytes)
      → q ++ y ≡ payload ++ crlf
      → 0 < length y
      → Raises (read_frame (codes "E" ∷ show (length payload) ∷ []) q)
  framed-cut q y h ne = behind-Raises (codes "E" ∷ show (length payload) ∷ []) q (λ z e p d.
      let read : read_exactly (pos (length payload)) q ≡ ok p =
        ap (λ o. o >>= λ i. read_exactly i q) (sym (int_part-1 (codes "E") (length payload) []) ∙ e)
        ∙ d in
      omega (
        arith,
        length-read_exactly (length payload) q p read,
        ap length h,
        length-append {0} q y,
        length-append {0} payload crlf,
        ne,
      ))

  read_effect-cut : (p y : Bytes) → p ++ y ≡ frame_effect e → 0 < length y → Raises (read_effect p)
  unfolding read_effect framed_effect frame_effect
  read_effect-cut p y h ne =
      elim (split-append p y (head ++ 10 ∷ []) (payload ++ crlf) (h ∙ simp append_assoc)) [
        | inl (y', l, ne', f) ↦
            rw (read_line-cut p (cut-OneLine p y' head l ne' head-OneLine), read_effect)
              (framed-empty p)
        | inr (q, l, f) ↦
            let whole =
              ap read_line (l ∙ append_assoc head (10 ∷ []) q)
              ∙ read_line-line head q head-OneLine in
            rw (whole, read_effect) (rw (split-head) (framed-cut q y f ne))
      ]

-- The frames of a batch that are cut off.
pub read_effects-cut :
    (es : List Effect) (p y : Bytes)
    → p ++ y ≡ frames es
    → 0 < length y
    → Raises (read_effects (length es) p)
unfolding read_effects frames
read_effects-cut [] p y h ne = absurd (omega (arith, ap length h, length-append {0} p y, ne))
read_effects-cut (e ∷ es) p y h ne = elim (split-append p y (frame_effect e) (frames es) h) [
  | inl (y', l, ne', f) ↦ first-Raises (read_effect p) _ (read_effect-cut e p y' l ne')
  | inr (q, l, f) ↦
      let read : read_effect p ≡ ok (e, q) = ap read_effect l ∙ read_effect-frame_effect e q in
      rw (read, read_effects)
        (first-Raises (read_effects (length es) q) _ (read_effects-cut es q y f ne))
]

pub read_effects-empty : (n : ℕ) → Raises (read_effects (suc n) [])
unfolding read_effects read_effect framed_effect read_line find_byte
read_effects-empty n = (incomplete_read, refl)
