-- ===== src/Client/Reading.antt =====
-- `_Conn`: the reader of replies. What the server sends comes in chunks, as `recv` returns them; an
-- empty chunk, or none left, is the end of the connection.
use sd_03_distributed_cache.Prelude.{
  ℕ, zero, ◌+◌, ◌==◌, ◌≡◌, Bool, true, false, not, Option, none, some, List, [], ◌∷◌, ◌++◌,
  if◌then◌else◌, length, Bytes, Result, ok, raise, value_error, protocol_error, connection_error,
  cache_error,
}
use sd_03_distributed_cache.Prelude.Int.{ℤ, pos, negsuc, ltb_ℤ}
use sd_03_distributed_cache.Bytes.{find_crlf, slice}
use sd_03_distributed_cache.Bytes.Decimal.{int}
use sd_03_distributed_cache.Protocol.{delete_to}

pub record Stream : Type 0 where
  pub buf : Bytes
  pub chunks : List Bytes

-- `while not enough(self._buf): chunk = self._sock.recv(4096); ...`, with whether it was enough.
unfoldable pub fill : (Bytes → Bool) → Bytes → List Bytes → Stream × Bool
fill enough buf [] = (record { buf = buf; chunks = [] }, enough buf)
fill enough buf ([] ∷ cs) =
    if enough buf
    then (record { buf = buf; chunks = [] ∷ cs }, true)
    else (record { buf = buf; chunks = cs }, false)
fill enough buf ((c ∷ chunk) ∷ cs) =
    let rest = fill enough (buf ++ c ∷ chunk) cs in
    if enough buf then (record { buf = buf; chunks = (c ∷ chunk) ∷ cs }, true) else rest

abbrev pub is_some : Option ℕ → Bool
is_some none = false
is_some (some _) = true

-- `b"\r\n" in buf`
abbrev pub has_line : Bytes → Bool
has_line buf = is_some (find_crlf buf)

unfoldable pub cut_line : Stream → ℕ → Stream × Bytes
cut_line s idx = (record s { buf = delete_to s.buf (pos (idx + 2)) }, slice s.buf (pos 0) (pos idx))

unfoldable pub read_line : Stream → Stream × Result Bytes
unfolding fill cut_line
read_line s =
    let (t, _) = fill has_line s.buf s.chunks in
    elim (find_crlf t.buf) [
      | none ↦ (t, raise connection_error)
      | some idx ↦ ((cut_line t idx).0, ok (cut_line t idx).1)
    ]

abbrev pub has_bytes : ℤ → Bytes → Bool
has_bytes n buf = not (ltb_ℤ (pos (length buf)) n)

unfoldable pub read_exact : ℤ → Stream → Stream × Result Bytes
unfolding fill
read_exact n s =
    let (t, full) = fill (has_bytes n) s.buf s.chunks in
    if full
    then (record t { buf = delete_to t.buf n }, ok (slice t.buf (pos 0) n))
    else (t, raise connection_error)

-- The value of a bulk reply of `n` bytes, and the line break behind it.
unfoldable pub read_bulk : ℤ → Stream → Stream × Result (Option Bytes)
unfolding read_exact
read_bulk n s =
    let (t, value) = read_exact n s in
    elim value [
      | raise x ↦ (t, raise x)
      | ok v ↦
          let (u, end) = read_exact (pos 2) t in
          elim end [ raise x ↦ (u, raise x) | ok _ ↦ (u, ok (some v)) ]
    ]

unfoldable pub read_length : Bytes → Stream → Stream × Result (Option Bytes)
unfolding read_bulk
read_length body s = elim (int body) [
  | none ↦ (s, raise value_error)
  | some (negsuc zero) ↦ (s, ok none)
  | some n ↦ read_bulk n s
]

-- The reply, by its tag and the rest of its line. Where the server answers with an error, the message
-- of the exception is that rest.
unfoldable pub read_tagged : Bytes → Stream → Stream × Result (Option Bytes)
unfolding read_length
read_tagged [] s = (s, raise protocol_error)
read_tagged (tag ∷ body) s =
    if tag == b'+'
    then (s, ok (some body))
    else if tag == b'-'
    then (s, raise cache_error)
    else if tag == b'$'
    then read_length body s
    else (s, raise protocol_error)

unfoldable pub read_reply : Stream → Stream × Result (Option Bytes)
unfolding read_line read_tagged
read_reply s =
    let (t, line) = read_line s in elim line [ raise x ↦ (t, raise x) | ok l ↦ read_tagged l t ]

-- The bytes that are still to be read.
abbrev pub concat : List Bytes → Bytes
concat [] = []
concat (chunk ∷ cs) = chunk ++ concat cs

abbrev pub pending : Stream → Bytes
pending s = s.buf ++ concat s.chunks

-- The connection is not closed.
abbrev pub IsOpen : List Bytes → Type 0
IsOpen [] = Unit
IsOpen ([] ∷ cs) = ⊥
IsOpen ((c ∷ chunk) ∷ cs) = IsOpen cs

-- A read gives the outcome, and leaves the rest to be read.
pub record Reads {A : Type 0} (r : Stream × Result A) (outcome : Result A) (rest : Bytes)
    : Type 0 where
  pub returned : r.1 ≡ outcome
  pub left : pending r.0 ≡ rest
  pub open_still : IsOpen r.0.chunks
