-- ===== src/Bytes.antt =====
-- Python's `bytes` and `bytearray` as far as the program uses them: lists of byte values.
pub mod Decimal
pub mod Slices
use sd_03_distributed_cache.Prelude.{
  ℕ, zero, suc, ◌+◌, ◌-◌, min, ltb, leb, ◌==◌, Bool, true, false, ◌&&◌, ◌||◌, Option, none, some,
  List, [], ◌∷◌, ◌++◌, if◌then◌else◌, length, take, drop, map, Bytes,
}
use sd_03_distributed_cache.Prelude.Int.{ℤ, pos, negsuc}
use Prim.Native.Char.{code}
use Prim.Native.String.{String}

-- The bytes of an ASCII literal.
abbrev pub codes : String → Bytes
codes String.[] = []
codes (String.◌∷◌ c s) = code c ∷ codes s

-- b"\r\n"
abbrev pub crlf : Bytes
crlf = 13 ∷ 10 ∷ []

-- The whitespace of `bytes.split` and of `int`: space, \t, \n, \r, \v and \f.
unfoldable pub is_space : ℕ → Bool
is_space c = c == 32 || (leb 9 c && leb c 13)

unfoldable pub is_digit : ℕ → Bool
is_digit c = leb b'0' c && leb c b'9'

-- `upper` of one byte, and of a string.
unfoldable pub upper_byte : ℕ → ℕ
upper_byte c = if leb b'a' c && leb c b'z' then c - 32 else c

unfoldable pub upper : Bytes → Bytes
unfolding upper_byte
upper = map upper_byte

-- `s.split()`: the maximal runs with no whitespace. `word` is the run so far, backwards.
abbrev pub flush : Bytes → List Bytes → List Bytes
flush [] ws = ws
flush (c ∷ cs) ws = (c ∷ cs) ∷ ws

unfoldable pub split_aux : Bytes → Bytes → List Bytes
unfolding is_space
split_aux word [] = flush word []
split_aux word (c ∷ cs) = elim (is_space c) [
  | true ↦ flush word (split_aux [] cs)
  | false ↦ split_aux (word ++ c ∷ []) cs
]

unfoldable pub split : Bytes → List Bytes
unfolding split_aux
split = split_aux []

-- The place of the first b"\r\n", and of the first b"\n".
unfoldable pub find_crlf : Bytes → Option ℕ
find_crlf [] = none
find_crlf (c ∷ []) = none
find_crlf (c ∷ d ∷ cs) =
    let rest = find_crlf (d ∷ cs) in
    if c == 13 && d == 10 then some 0 else elim rest [ none ↦ none | some n ↦ some (suc n) ]

unfoldable pub find_byte : ℕ → Bytes → Option ℕ
find_byte b [] = none
find_byte b (c ∷ cs) =
    let rest = find_byte b cs in
    if c == b then some 0 else elim rest [ none ↦ none | some n ↦ some (suc n) ]

-- An index of a slice, as Python reads it on a sequence of `n` elements: from the end if it is
-- negative, and cut off at both ends.
abbrev pub place : ℕ → ℤ → ℕ
place n (pos i) = min i n
place n (negsuc i) = n - suc i

-- `s[i:j]`
unfoldable pub slice : Bytes → ℤ → ℤ → Bytes
slice s i j = drop (place (length s) i) (take (place (length s) j) s)

-- `s.endswith(b"\r")`, and `s[:-1]`
unfoldable pub strip_cr : Bytes → Bytes
strip_cr [] = []
strip_cr (c ∷ []) = if c == 13 then [] else c ∷ []
strip_cr (c ∷ d ∷ cs) = c ∷ strip_cr (d ∷ cs)

-- `s.startswith(prefix)`
unfoldable pub starts_with : Bytes → Bytes → Bool
starts_with [] s = true
starts_with (c ∷ cs) [] = false
starts_with (c ∷ cs) (d ∷ ds) = let rest = starts_with cs ds in if c == d then rest else false
