-- ===== src/Replication/CutLine.antt =====
-- The control line of a batch that is cut off: the words that `split` gives for it.
use sd_03_distributed_cache.Prelude.{
  ℕ, suc, ◌<◌, ◌≡◌, refl, ap, sym, ◌∙◌, subst, arith, false, Bool-cases, inl, inr, Option, none,
  some, List, [], ◌∷◌, ◌++◌, append_assoc, append-nil, length, length-append, drop, Bytes, Result,
  ok, ◌>>=◌,
}
use sd_03_distributed_cache.Prelude.Int.{ℤ, pos}
use sd_03_distributed_cache.Bytes.{crlf, is_space, flush, split, split_aux}
use sd_03_distributed_cache.Bytes.Decimal.{show, int, IsLed, show-IsLed, int-IsLed}
use sd_03_distributed_cache.Protocol.Incremental.{split-append}
use sd_03_distributed_cache.Replication.Effects.{or_value_error}
use sd_03_distributed_cache.Replication.Master.{control}
use sd_03_distributed_cache.Replication.Lines.{OneWord, show-OneWord, split-word, split-show}
use sd_03_distributed_cache.Replication.Cut.{head_or}
use sd_03_distributed_cache.Replication.Replica.{part, int_part, numbers}

-- A part of a word and one byte.
cut-OneWord :
    (p y word : Bytes) (c : ℕ) → p ++ y ≡ word ++ c ∷ [] → 0 < length y → OneWord word → OneWord p
cut-OneWord [] y word c e h o = tt
cut-OneWord (d ∷ p) y [] c e h o = absurd (omega (arith, ap length e, length-append {0} p y, h))
cut-OneWord (d ∷ p) y (b ∷ word) c e h (u, o) = (
  subst (λ b. is_space b ≡ false) (sym (ap (head_or 0) e)) u,
  cut-OneWord p y word c (ap (drop 1) e) h o,
)

pub split_aux-word : (w s : Bytes) → OneWord s → split_aux w s ≡ flush (w ++ s) []
unfolding split_aux
split_aux-word w [] o = ap (λ t. flush t []) (sym (append-nil w))
split_aux-word w (c ∷ s) (u, o) =
    rw (u, split_aux)
      (split_aux-word (w ++ c ∷ []) s o ∙ ap (λ t. flush t []) (append_assoc w (c ∷ []) s))

-- A line begins with a word that begins as the line does.
pub split_aux-first :
    (c : ℕ) (w s : Bytes) → (v : Bytes) × (ws : List Bytes) × (split_aux (c ∷ w) s ≡ (c ∷ v) ∷ ws)
unfolding split_aux
split_aux-first c w [] = (w, [], refl)
split_aux-first c w (d ∷ s) = elim (Bool-cases (is_space d)) [
  | inl space ↦ (w, split_aux [] s, rw (space, split_aux) refl)
  | inr black ↦
      let (v, ws, e) = split_aux-first c (w ++ d ∷ []) s in (v, ws, rw (black, split_aux) e)
]

-- The number of effects is not read as 0.
abbrev pub IsCounted : List Bytes → Type 0
IsCounted parts = (off n : ℤ) → numbers parts ≡ ok (off, n) → (v : ℕ) × (n ≡ pos (suc v))

abbrev both : ℤ → ℤ → Result (ℤ × ℤ)
both a b = ok (a, b)

two-IsCounted : (word first : Bytes) → IsCounted (word ∷ first ∷ [])
unfolding numbers int_part part
two-IsCounted word first off n h = go (int first) h
  where
    go :
        (o : Option ℤ)
        → (or_value_error o >>= λ a. int_part (word ∷ first ∷ []) 2 >>= λ b. both a b) ≡ ok (off, n)
        → (v : ℕ) × (n ≡ pos (suc v))
    go none h = absurd (ground (arith, h))
    go (some z) h = absurd (ground (arith, h))

few-IsCounted : (word rest : Bytes) → IsCounted (word ∷ flush rest [])
unfolding numbers int_part part
few-IsCounted word [] off n h = absurd (ground (arith, h))
few-IsCounted word (c ∷ cs) off n h = two-IsCounted word (c ∷ cs) off n h

one-IsCounted : (s : Bytes) → IsCounted (flush s [])
unfolding numbers int_part part
one-IsCounted [] off n h = absurd (ground (arith, h))
one-IsCounted (c ∷ cs) off n h = absurd (ground (arith, h))

counted :
    (word first second : Bytes)
    → ((z : ℤ) → int second ≡ some z → (v : ℕ) × (z ≡ pos (suc v)))
    → IsCounted (word ∷ first ∷ second ∷ [])
unfolding numbers int_part part
counted word first second k off n h = go (int first) (int second) refl h
  where
    go :
        (o q : Option ℤ)
        → int second ≡ q
        → (or_value_error o >>= λ a. or_value_error q >>= λ b. both a b) ≡ ok (off, n)
        → (v : ℕ) × (n ≡ pos (suc v))
    go none q e h = absurd (ground (arith, h))
    go (some z) none e h = absurd (ground (arith, h))
    go (some z) (some w) e h = k n (e ∙ ground (arith, h))

led-IsCounted : (word first second : Bytes) → IsLed second → IsCounted (word ∷ first ∷ second ∷ [])
led-IsCounted word first second l = counted word first second (λ z e. int-IsLed second z l e)

IsLed-append : (s t : Bytes) → IsLed s → IsLed (s ++ t)
IsLed-append [] t l = absurd l
IsLed-append (c ∷ s) t l = l

-- The last number, cut off inside its line.
last-IsCounted :
    (word first q y : Bytes) (b : ℕ)
    → q ++ y ≡ show b ++ crlf
    → 0 < length y
    → 0 < b
    → IsCounted (word ∷ first ∷ split_aux [] q)
unfolding is_space split_aux
last-IsCounted word first [] y b h ne big = two-IsCounted word first
last-IsCounted word first (c ∷ q) y b h ne big =
    elim (split-append (c ∷ q) y (show b ++ 13 ∷ []) (10 ∷ []) (h ∙ simp append_assoc)) [
      | inl (y', l, ne', f) ↦
          rw (split_aux-word [] (c ∷ q) (cut-OneWord (c ∷ q) y' (show b) 13 l ne' (show-OneWord b)))
            (led-IsCounted word first (c ∷ q)
              (subst IsLed (sym l) (IsLed-append (show b) (13 ∷ []) (show-IsLed b big))))
      | inr ([], l, f) ↦
          rw (l, append-nil (show b ++ 13 ∷ []), split-show b 13 [] refl)
            (led-IsCounted word first (show b) (show-IsLed b big))
      | inr (d ∷ q', l, f) ↦ absurd (omega (arith, ap length f, length-append {0} q' y, ne))
    ]

module _ (c : ℕ) (cs : Bytes) (a b : ℕ) (word : OneWord (c ∷ cs)) (big : 0 < b) where
  abbrev tag : Bytes
  tag = c ∷ cs

  -- The words of a control line that is cut off anywhere.
  pub control-IsCounted :
      (p y : Bytes) → p ++ y ≡ control tag a b → 0 < length y → IsCounted (split p)
  unfolding split control is_space
  control-IsCounted p y h ne =
      elim (split-append p y (tag ++ 32 ∷ []) (show a ++ (32 ∷ (show b ++ crlf)))
        (h ∙ simp append_assoc)) [
          | inl (y', l, ne', f) ↦
              rw (split_aux-word [] p (cut-OneWord p y' tag 32 l ne' word)) (one-IsCounted p)
          | inr (q, l, f) ↦
              let first : split_aux [] p ≡ tag ∷ split_aux [] q =
                ap (split_aux []) (l ∙ append_assoc tag (32 ∷ []) q)
                ∙ split-word [] tag 32 q word refl in
              rw first (behind q f)
        ]
    where
      behind :
          (q : Bytes)
          → q ++ y ≡ show a ++ (32 ∷ (show b ++ crlf))
          → IsCounted (tag ∷ split_aux [] q)
      behind q f =
          elim (split-append q y (show a ++ 32 ∷ []) (show b ++ crlf) (f ∙ simp append_assoc)) [
            | inl (y', l, ne', g) ↦
                rw (split_aux-word [] q (cut-OneWord q y' (show a) 32 l ne' (show-OneWord a)))
                  (few-IsCounted tag q)
            | inr (q', l, g) ↦
                let second : split_aux [] q ≡ show a ∷ split_aux [] q' =
                  ap (split_aux []) (l ∙ append_assoc (show a) (32 ∷ []) q')
                  ∙ split-show a 32 q' refl in
                rw second (last-IsCounted tag (show a) q' y b g ne big)
          ]
