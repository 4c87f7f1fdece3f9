-- ===== src/Protocol.antt =====
-- distcache/protocol.py: the encoding of replies and commands, and the incremental parser. The
-- parser's state is its buffer.
pub mod RoundTrip
pub mod Negative
pub mod Incremental
use sd_03_distributed_cache.Prelude.{
  ℕ, zero, suc, ◌+◌, ltb, ◌==◌, Bool, true, false, Option, none, some, List, [], ◌∷◌, ◌++◌,
  if◌then◌else◌, length, take, drop, map, Bytes, bytes_beq,
}
use sd_03_distributed_cache.Prelude.Int.{ℤ, pos, negsuc, ◌+ℤ◌, ltb_ℤ}
use sd_03_distributed_cache.Bytes.{codes, crlf, split, find_crlf, find_byte, place, slice, strip_cr}
use sd_03_distributed_cache.Bytes.Decimal.{show, int}

unfoldable pub encode_simple : Bytes → Bytes
encode_simple s = b'+' ∷ (s ++ crlf)

unfoldable pub encode_error : Bytes → Bytes
encode_error msg = b'-' ∷ (msg ++ crlf)

unfoldable pub encode_bulk : Option Bytes → Bytes
encode_bulk none = codes "$-1" ++ crlf
encode_bulk (some value) = b'$' ∷ (show (length value) ++ (crlf ++ (value ++ crlf)))

unfoldable pub encode_args : List Bytes → Bytes
encode_args [] = []
encode_args (a ∷ args) = b'$' ∷ (show (length a) ++ (crlf ++ (a ++ (crlf ++ encode_args args))))

unfoldable pub encode_command : List Bytes → Bytes
unfolding encode_args
encode_command args = b'*' ∷ (show (length args) ++ (crlf ++ encode_args args))

-- What `parse_one` makes of the buffer: it waits for more bytes and leaves the buffer alone, it
-- returns a command and leaves the rest of the buffer, or it raises ProtocolError, which leaves the
-- buffer alone too.
pub data Parsed : Type 0 where
  more : Parsed
  command : List Bytes → Bytes → Parsed
  error : Bytes → Parsed

-- `_find_crlf`
unfoldable pub find_crlf_from : Bytes → ℤ → Option ℕ
find_crlf_from buf start =
    let i = place (length buf) start in
    elim (find_crlf (drop i buf)) [ none ↦ none | some n ↦ some (i + n) ]

-- `del self.buf[:pos]`
abbrev pub delete_to : Bytes → ℤ → Bytes
delete_to buf p = drop (place (length buf) p) buf

-- The loop of `_parse_resp`, with the rounds left, the position and the arguments so far.
unfoldable pub parse_args : ℕ → Bytes → ℤ → List Bytes → Parsed
unfolding find_crlf_from
parse_args zero buf p args = command args (delete_to buf p)
parse_args (suc n) buf p args = elim (ltb_ℤ p (pos (length buf))) [
  | false ↦ more
  | true ↦ elim (bytes_beq (slice buf p (p +ℤ pos 1)) (codes "$")) [
    | false ↦ error (codes "expected bulk string")
    | true ↦ elim (find_crlf_from buf p) [
      | none ↦ more
      | some lidx ↦ elim (int (slice buf (p +ℤ pos 1) (pos lidx))) [
        | none ↦ error (codes "invalid bulk length")
        | some blen ↦
            let start = pos (lidx + 2) in
            let end = start +ℤ blen in
            elim (ltb_ℤ (pos (length buf)) (end +ℤ pos 2)) [
              | true ↦ more
              | false ↦ parse_args n buf (end +ℤ pos 2) (args ++ slice buf start end ∷ [])
            ]
      ]
    ]
  ]
]

-- `_parse_resp`
unfoldable pub parse_resp : Bytes → Parsed
unfolding parse_args
parse_resp buf = elim (find_crlf_from buf (pos 0)) [
  | none ↦ more
  | some idx ↦ elim (int (slice buf (pos 1) (pos idx))) [
    | none ↦ error (codes "invalid multibulk length")
    | some (negsuc _) ↦ command [] (delete_to buf (pos (idx + 2)))
    | some (pos n) ↦ parse_args n buf (pos (idx + 2)) []
  ]
]

-- `_parse_inline`
unfoldable pub parse_inline : Bytes → Parsed
parse_inline buf = elim (find_byte 10 buf) [
  | none ↦ more
  | some idx ↦ command (split (strip_cr (take idx buf))) (drop (idx + 1) buf)
]

unfoldable pub parse_one : Bytes → Parsed
unfolding parse_resp parse_inline
parse_one [] = more
parse_one (c ∷ cs) = if c == b'*' then parse_resp (c ∷ cs) else parse_inline (c ∷ cs)

-- `feed`
abbrev pub feed : Bytes → Bytes → Bytes
feed buf received = buf ++ received

pub data Decoded : Type 0 where
  decoded : List Bytes → Decoded
  protocol_error : Bytes → Decoded

unfoldable pub decode_resp_array : Bytes → Decoded
unfolding parse_one
decode_resp_array payload = elim (parse_one (feed [] payload)) [
  | more ↦ protocol_error (codes "incomplete RESP array payload")
  | command args _ ↦ decoded args
  | error msg ↦ protocol_error msg
]
