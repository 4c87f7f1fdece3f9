-- ===== src/Bytes/Decimal.antt =====
-- `str(n)` of a number, and Python's `int` of a byte string.
use sd_03_distributed_cache.Prelude.{
  ℕ, zero, suc, ◌+◌, ◌-◌, ◌*◌, ◌/◌, ◌%◌, ◌<◌, ◌≤◌, ltb, ◌==◌, ◌≡◌, refl, ap, ◌∙◌, Bool-cases, inl,
  inr, Bool, true, false, ◌&&◌, Option, none, some, [], ◌∷◌, if◌then◌else◌, arith, Bytes, All,
}
use sd_03_distributed_cache.Prelude.Int.{ℤ, pos, negsuc, sub_ℕ}
use sd_03_distributed_cache.Bytes.{is_space, is_digit}

-- `str(n).encode()`: the decimal digits, the last one first; `fuel` is more than the number.
show_aux : ℕ → ℕ → Bytes → Bytes
show_aux zero n acc = acc
show_aux (suc fuel) n acc =
    let rest = show_aux fuel (n / 10) ((48 + n % 10) ∷ acc) in
    if ltb n 10 then (48 + n) ∷ acc else rest

unfoldable pub show : ℕ → Bytes
unfolding show_aux
show n = show_aux (suc n) n []

all_space : Bytes → Bool
all_space [] = true
all_space (c ∷ cs) = is_space c && all_space cs

-- The digits of a number, with single underscores between them and whitespace behind. `last` says
-- that the byte before is a digit.
digits_from : Bool → ℕ → Bytes → Option ℕ
unfolding all_space is_space is_digit
digits_from last n [] = if last then some n else none
digits_from last n (c ∷ cs) = elim (is_digit c) [
  | true ↦ digits_from true (n * 10 + (c - 48)) cs
  | false ↦ elim (c == b'_' && last) [
    | true ↦ digits_from false n cs
    | false ↦ if last && is_space c && all_space cs then some n else none
  ]
]

drop_space : Bytes → Bytes
drop_space [] = []
drop_space (c ∷ cs) = let rest = drop_space cs in if is_space c then rest else c ∷ cs

abbrev signed : Bytes → Option ℤ
signed [] = none
signed (c ∷ cs) =
    if c == b'-'
    then elim (digits_from false 0 cs) [ none ↦ none | some n ↦ some (sub_ℕ 0 n) ]
    else elim (digits_from false 0 (if c == b'+' then cs else c ∷ cs)) [
      | none ↦ none
      | some n ↦ some (pos n)
    ]

-- `int(s)`; none is ValueError
unfoldable pub int : Bytes → Option ℤ
unfolding drop_space digits_from
int s = signed (drop_space s)

digits_from-digit :
    (last : Bool) (m d : ℕ) (acc : Bytes)
    → d < 10
    → digits_from last m ((48 + d) ∷ acc) ≡ digits_from true (m * 10 + d) acc
unfolding digits_from is_digit
digits_from-digit last m d acc h =
    let e : is_digit (48 + d) ≡ true = ground arith in
    rw (e, digits_from) (ap (λ (t : ℕ). digits_from true (m * 10 + t) acc) (omega arith))

digits_from-show_aux :
    (last : Bool) (fuel n : ℕ) (acc : Bytes)
    → n < fuel
    → digits_from last 0 (show_aux fuel n acc) ≡ digits_from true n acc
unfolding digits_from show_aux
digits_from-show_aux last zero n acc h = elim h [ ]
digits_from-show_aux last (suc fuel) n acc h = elim (Bool-cases (ltb n 10)) [
  | inl small ↦ rw small (
      digits_from-digit last 0 n acc (ground arith)
      ∙ ap (λ (t : ℕ). digits_from true t acc) (omega arith))
  | inr big ↦ rw big (
      digits_from-show_aux last fuel (n / 10) ((48 + n % 10) ∷ acc) (ground arith)
      ∙ digits_from-digit true (n / 10) (n % 10) acc (omega arith)
      ∙ ap (λ (t : ℕ). digits_from true t acc) (omega arith))
]

abbrev pub AreDigits : Bytes → Type 0
AreDigits = All (λ c. is_digit c ≡ true)

show_aux-AreDigits : (fuel n : ℕ) (acc : Bytes) → AreDigits acc → AreDigits (show_aux fuel n acc)
unfolding show_aux is_digit
show_aux-AreDigits zero n acc a = a
show_aux-AreDigits (suc fuel) n acc a = elim (Bool-cases (ltb n 10)) [
  | inl small ↦ rw small (ground arith, a)
  | inr big ↦ rw big (show_aux-AreDigits fuel (n / 10) ((48 + n % 10) ∷ acc) (ground arith, a))
]

-- Only digits are printed.
pub show-AreDigits : (n : ℕ) → AreDigits (show n)
unfolding show
show-AreDigits n = show_aux-AreDigits (suc n) n [] tt

digits_from-show : (n : ℕ) → digits_from false 0 (show n) ≡ some n
unfolding show digits_from
digits_from-show n = digits_from-show_aux false (suc n) n [] (omega arith)

int_of_digits :
    (s : Bytes) (n : ℕ) → AreDigits s → digits_from false 0 s ≡ some n → int s ≡ some (pos n)
unfolding int is_digit is_space
int_of_digits [] n a h = absurd (ground arith)
int_of_digits (c ∷ cs) n a h =
    let visible : is_space c ≡ false = ground arith in
    let plain : (c == b'-') ≡ false = ground arith in
    let bare : (c == b'+') ≡ false = ground arith in rw (visible, drop_space, plain, bare, h)

-- What `str` prints, `int` reads back.
pub int-show : (n : ℕ) → int (show n) ≡ some (pos n)
int-show n = int_of_digits (show n) n (show-AreDigits n) (digits_from-show n)

-- The first digit of a number that is not 0 is not 0 either.
abbrev pub IsLed : Bytes → Type 0
IsLed [] = ⊥
IsLed (c ∷ _) = (48 < c) × (c < 58)

show_aux-IsLed : (fuel n : ℕ) (acc : Bytes) → 0 < n → n < fuel → IsLed (show_aux fuel n acc)
unfolding show_aux
show_aux-IsLed zero n acc h f = absurd (omega (arith, f))
show_aux-IsLed (suc fuel) n acc h f = elim (Bool-cases (ltb n 10)) [
  | inl small ↦ rw small (omega (arith, h), ground arith)
  | inr big ↦
      rw big
        (show_aux-IsLed fuel (n / 10) ((48 + n % 10) ∷ acc) (ground arith) (ground (arith, f, h)))
]

pub show-IsLed : (n : ℕ) → 0 < n → IsLed (show n)
unfolding show
show-IsLed n h = show_aux-IsLed (suc n) n [] h (omega arith)

digits_from-le : (last : Bool) (m v : ℕ) (s : Bytes) → digits_from last m s ≡ some v → m ≤ v
unfolding digits_from
digits_from-le last m v [] h = ground arith
digits_from-le last m v (c ∷ cs) h =
    ground (arith, digits_from-le true (m * 10 + (c - 48)) v cs, digits_from-le false m v cs)

-- So is what `int` reads from the front of it.
pub int-IsLed : (s : Bytes) (z : ℤ) → IsLed s → int s ≡ some z → (n : ℕ) × (z ≡ pos (suc n))
unfolding int is_digit is_space digits_from
int-IsLed [] z l h = absurd l
int-IsLed (c ∷ cs) z (lo, hi) h = go (digits_from true (0 * 10 + (c - 48)) cs) refl
  where
    visible : is_space c ≡ false
    visible = ground (arith, lo, hi)

    plain : (c == b'-') ≡ false
    plain = ground (arith, lo)

    bare : (c == b'+') ≡ false
    bare = ground (arith, lo)

    digit : is_digit c ≡ true
    digit = ground (arith, lo, hi)

    whole :
        (o : Option ℕ)
        → digits_from true (0 * 10 + (c - 48)) cs ≡ o
        → int (c ∷ cs) ≡ elim o [ none ↦ none | some n ↦ some (pos n) ]
    whole o e = rw (visible, drop_space, plain, bare) (rw digit (rw e refl))

    go : (o : Option ℕ) → digits_from true (0 * 10 + (c - 48)) cs ≡ o → (n : ℕ) × (z ≡ pos (suc n))
    go none e = absurd (ground (arith, whole none e, h))
    go (some zero) e = absurd (omega (arith, lo, digits_from-le true (0 * 10 + (c - 48)) zero cs e))
    go (some (suc n)) e = (n, ground (arith, whole (some (suc n)) e, h))

-- `str(n)` of any integer.
unfoldable pub show_ℤ : ℤ → Bytes
show_ℤ (pos n) = show n
show_ℤ (negsuc n) = b'-' ∷ show (suc n)

pub int-show_ℤ : (z : ℤ) → int (show_ℤ z) ≡ some z
unfolding show_ℤ int is_space
int-show_ℤ (pos n) = unfold int in int-show n
int-show_ℤ (negsuc n) = rw (digits_from-show (suc n), signed) (ground arith)

int_tests :
    (int (48 ∷ 49 ∷ 95 ∷ 50 ∷ 32 ∷ []) ≡ some (pos 12))
    × (int (32 ∷ 45 ∷ 53 ∷ []) ≡ some (negsuc 4))
    × (int (49 ∷ 95 ∷ 95 ∷ 50 ∷ []) ≡ none)
    × (int [] ≡ none)
unfolding int
int_tests = (refl, refl, refl, refl)
