-- ===== src/Bytes/Slices.antt =====
-- Slices of a buffer that falls into a front part and a back part.
use native.Mathlib.Nat.{suc-add}
use sd_03_distributed_cache.Prelude.{
  ℕ, zero, suc, ◌+◌, min, ◌≡◌, refl, ap, ◌∙◌, arith, false, ◌==◌, some, [], ◌∷◌, ◌++◌, length, take,
  drop, length-append, drop-length_append, Bytes, All, ◌≤◌,
}
use sd_03_distributed_cache.Prelude.Int.{pos, ◌+ℤ◌}
use sd_03_distributed_cache.Bytes.{find_crlf, place, slice, is_digit}
use sd_03_distributed_cache.Bytes.Decimal.{AreDigits}

pub pos-add : (a b : ℕ) → pos a +ℤ pos b ≡ pos (a + b)
unfolding ◌+ℤ◌
pos-add a b = ground arith

suc-min : (a b : ℕ) → min (suc a) (suc b) ≡ suc (min a b)
suc-min a b = omega arith

take-nil : (n : ℕ) → take {A = ℕ} n [] ≡ []
take-nil zero = refl
take-nil (suc n) = refl

take-min : (n : ℕ) (s : Bytes) → take (min n (length s)) s ≡ take n s
take-min zero s = ap (λ (t : ℕ). take t s) {y = 0} (omega arith)
take-min (suc n) [] = take-nil (min (suc n) 0)
take-min (suc n) (c ∷ s) =
    ap (λ (t : ℕ). take t (c ∷ s)) (suc-min n (length s)) ∙ ap (◌∷◌ c) (take-min n s)

take-append :
    (front back : Bytes) (k : ℕ) → take (length front + k) (front ++ back) ≡ front ++ take k back
take-append [] back k = ap (λ (t : ℕ). take t back) (omega arith)
take-append (c ∷ front) back k =
    ap (λ (t : ℕ). take t (c ∷ (front ++ back))) (suc-add (length front) k)
    ∙ ap (◌∷◌ c) (take-append front back k)

-- A slice that begins where the back part begins.
pub slice-back :
    (buf front back : Bytes) (i j k : ℕ)
    → buf ≡ front ++ back
    → i ≡ length front
    → j ≡ i + k
    → slice buf (pos i) (pos j) ≡ take k back
unfolding slice
slice-back buf front back i j k e ei ej =
    ap (drop (min i (length buf))) (take-min j buf)
    ∙ ap (λ (t : ℕ). drop t (take j buf)) at_front
    ∙ ap (λ (t : Bytes). drop (length front) t) shorter
    ∙ drop-length_append front (take k back)
  where
    at_front : min i (length buf) ≡ length front
    at_front = omega (arith, ei, ap length e, length-append {0} front back)

    shorter : take j buf ≡ front ++ take k back
    shorter =
        ap (take j) e
        ∙ ap (λ (t : ℕ). take t (front ++ back)) (omega (arith, ei, ej))
        ∙ take-append front back k

pub drop-back :
    (buf front back : Bytes) (i : ℕ)
    → buf ≡ front ++ back
    → i ≡ length front
    → drop (place (length buf) (pos i)) buf ≡ back
drop-back buf front back i e ei =
    ap (λ (t : ℕ). drop t buf) (omega (arith, ei, ap length e, length-append {0} front back))
    ∙ ap (drop (length front)) e
    ∙ drop-length_append front back

-- The first line break behind bytes with no carriage return.
pub find_crlf-line :
    (line rest : Bytes)
    → All (λ c. (c == 13) ≡ false) line
    → find_crlf (line ++ 13 ∷ 10 ∷ rest) ≡ some (length line)
unfolding find_crlf
find_crlf-line [] rest h = refl
find_crlf-line (c ∷ []) rest h = ground arith
find_crlf-line (c ∷ d ∷ line) rest h = ground (arith, find_crlf-line (d ∷ line) rest h.1)

pub AreDigits-line : (s : Bytes) → AreDigits s → All (λ c. (c == 13) ≡ false) s
unfolding is_digit
AreDigits-line [] h = h
AreDigits-line (c ∷ s) h = (ground arith, AreDigits-line s h.1)

pub take-front : (n : ℕ) (s x : Bytes) → n ≤ length s → take n (s ++ x) ≡ take n s
take-front zero s x h = refl
take-front (suc n) [] x h = absurd (omega (arith, h))
take-front (suc n) (c ∷ s) x h = ap (◌∷◌ c) (take-front n s x (omega (arith, h)))

pub drop-front : (n : ℕ) (s x : Bytes) → n ≤ length s → drop n (s ++ x) ≡ drop n s ++ x
drop-front zero s x h = refl
drop-front (suc n) [] x h = absurd (omega (arith, h))
drop-front (suc n) (c ∷ s) x h = drop-front n s x (omega (arith, h))

pub find_crlf-append : (s x : Bytes) (n : ℕ) → find_crlf s ≡ some n → find_crlf (s ++ x) ≡ some n
unfolding find_crlf
find_crlf-append [] x n h = ground arith
find_crlf-append (c ∷ []) x n h = ground arith
find_crlf-append (c ∷ d ∷ s) x zero h = ground arith
find_crlf-append (c ∷ d ∷ s) x (suc n) h = ground (arith, find_crlf-append (d ∷ s) x n)

pub find_crlf-le : (s : Bytes) (n : ℕ) → find_crlf s ≡ some n → n + 2 ≤ length s
unfolding find_crlf
find_crlf-le [] n h = ground arith
find_crlf-le (c ∷ []) n h = ground arith
find_crlf-le (c ∷ d ∷ s) zero h = omega arith
find_crlf-le (c ∷ d ∷ s) (suc n) h = ground (arith, find_crlf-le (d ∷ s) n)
