-- ===== src/HashRing/Order.antt =====
-- Sorted lists of hashes, and the place that `bisect` finds.
use sd_03_distributed_cache.Prelude.{
  ℕ, suc, ◌<◌, ◌≤◌, ◌≡◌, refl, ap, arith, false, ltb, ◌==◌, some, List, [], ◌∷◌, length, All, ◌⊎◌,
  Bool-cases, inl, inr, ltb→lt,
}
use sd_03_distributed_cache.HashRing.{bisect, insort, at}

abbrev pub AtLeast : ℕ → List ℕ → Type 0
AtLeast x = All (λ y. x ≤ y)

abbrev pub AtMost : ℕ → List ℕ → Type 0
AtMost x = All (λ y. y ≤ x)

abbrev pub Ascending : List ℕ → Type 0
Ascending [] = Unit
Ascending (x ∷ xs) = AtLeast x xs × Ascending xs

-- From `x` clockwise, the next of `xs` is `h`: the least above `x`, or the least of all where none is
-- above.
abbrev pub IsNext : ℕ → ℕ → List ℕ → Type 0
IsNext x h xs = ((x < h) × All (λ y. (y ≤ x) ⊎ (h ≤ y)) xs) ⊎ (AtMost x xs × AtLeast h xs)

insort-AtLeast : (m x : ℕ) (xs : List ℕ) → m ≤ x → AtLeast m xs → AtLeast m (insort x xs)
unfolding insort
insort-AtLeast m x [] h a = (h, tt)
insort-AtLeast m x (y ∷ ys) h (a, more) = ground (arith, insort-AtLeast m x ys h more)

AtLeast-le : (m n : ℕ) (xs : List ℕ) → m ≤ n → AtLeast n xs → AtLeast m xs
AtLeast-le m n [] h a = a
AtLeast-le m n (y ∷ ys) h (a, more) = (omega (arith, h, a), AtLeast-le m n ys h more)

pub insort-Ascending : (x : ℕ) (xs : List ℕ) → Ascending xs → Ascending (insort x xs)
unfolding insort
insort-Ascending x [] h = (tt, tt)
insort-Ascending x (y ∷ ys) (a, h) = elim (Bool-cases (ltb x y)) [
  | inl lt ↦
      rw lt
        ((omega (arith, ltb→lt x y lt), AtLeast-le x y ys (omega (arith, ltb→lt x y lt)) a), (a, h))
  | inr ge ↦ rw ge (insort-AtLeast y x ys (ground arith) a, insort-Ascending x ys h)
]

pub insort-All : (P : ℕ → Type 0) (x : ℕ) (xs : List ℕ) → P x → All P xs → All P (insort x xs)
unfolding insort
insort-All P x [] h a = (h, tt)
insort-All P x (y ∷ ys) h (a, more) = elim (Bool-cases (ltb x y)) [
  | inl lt ↦ rw lt (h, (a, more))
  | inr ge ↦ rw ge (a, insort-All P x ys h more)
]

above : (x y : ℕ) (ys : List ℕ) → AtLeast y ys → All (λ z. (z ≤ x) ⊎ (y ≤ z)) ys
above x y [] a = a
above x y (z ∷ zs) (a, more) = (inr a, above x y zs more)

-- The place that `bisect` gives is behind the last element, where none is above `x`, or that of the
-- least element above.
pub bisect-IsNext :
    (x : ℕ) (xs : List ℕ)
    → Ascending xs
    → ((bisect x xs ≡ length xs) × AtMost x xs)
      ⊎ ((h : ℕ) × (at xs (bisect x xs) ≡ some h)
          × ((bisect x xs == length xs) ≡ false)
          × (x < h)
          × All (λ y. (y ≤ x) ⊎ (h ≤ y)) xs)
unfolding bisect at
bisect-IsNext x [] h = inl (refl, tt)
bisect-IsNext x (y ∷ ys) (a, h) = elim (Bool-cases (ltb x y)) [
  | inl lt ↦
      inr (y, rw lt refl, rw lt (ground arith), ltb→lt x y lt, (inr (omega arith), above x y ys a))
  | inr ge ↦ elim (bisect-IsNext x ys h) [
    | inl (e, all) ↦ inl (rw ge (ap suc e), (ground arith, all))
    | inr (z, found, inside, lt, all) ↦
        inr (z, rw ge found, rw ge (ground arith), lt, (inl (ground arith), all))
  ]
]
