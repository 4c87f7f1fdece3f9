-- ===== src/Client/Replies.antt =====
-- The replies that the server encodes, read back in whatever chunks they come.
use sd_03_distributed_cache.Prelude.{
  ◌≡◌, refl, ◌∙◌, ◌==◌, false, Option, none, some, ◌∷◌, ◌++◌, append_assoc, length, Bytes, All,
  Result, ok, raise, cache_error,
}
use sd_03_distributed_cache.Bytes.{codes, crlf}
use sd_03_distributed_cache.Bytes.Decimal.{show, int, show-AreDigits}
use sd_03_distributed_cache.Bytes.Slices.{AreDigits-line}
use sd_03_distributed_cache.Protocol.{encode_simple, encode_error, encode_bulk}
use sd_03_distributed_cache.Client.Reading.{
  Stream, read_line, read_length, read_tagged, read_reply, pending, IsOpen, Reads,
}
use sd_03_distributed_cache.Client.Filling.{
  IsLine, read_line-Reads, read_length-show, read_bulk-Reads,
}

-- What a server may answer, its bytes, and what the client makes of it.
pub data Reply : Type 0 where
  simple failure : Bytes → Reply
  bulk : Option Bytes → Reply

abbrev pub encoded : Reply → Bytes
encoded (simple text) = encode_simple text
encoded (failure text) = encode_error text
encoded (bulk value) = encode_bulk value

abbrev pub outcome : Reply → Result (Option Bytes)
outcome (simple text) = ok (some text)
outcome (failure text) = raise cache_error
outcome (bulk value) = ok value

-- The text of a reply has no carriage return; a value may have any bytes.
abbrev pub OnOneLine : Reply → Type 0
OnOneLine (simple text) = All (λ c. (c == 13) ≡ false) text
OnOneLine (failure text) = All (λ c. (c == 13) ≡ false) text
OnOneLine (bulk _) = Unit

read_reply-line :
    (s : Stream) (line rest : Bytes) (result : Result (Option Bytes)) (left : Bytes)
    → IsOpen s.chunks
    → IsLine line
    → pending s ≡ line ++ 13 ∷ 10 ∷ left
    → Reads (read_tagged line (read_line s).0) result rest
    → Reads (read_reply s) result rest
unfolding read_reply
read_reply-line s line rest result left o l e r =
    rw ((read_line-Reads s line left o l e).returned, read_reply) r

-- On a socket that has not ended, a reply of any bulk value, or of a status or an error whose text has no
-- carriage return, is read as what it means, in whatever chunks its bytes come, and the bytes behind it
-- stay to be read.
pub read_reply-encoded :
    (reply : Reply) (s : Stream) (rest : Bytes)
    → IsOpen s.chunks
    → OnOneLine reply
    → pending s ≡ encoded reply ++ rest
    → Reads (read_reply s) (outcome reply) rest
unfolding encode_simple encode_error encode_bulk read_tagged
read_reply-encoded (simple text) s rest o l e =
    let e' = e ∙ append_assoc (b'+' ∷ text) crlf rest in
    let r = read_line-Reads s (b'+' ∷ text) rest o (refl, l) e' in
    read_reply-line s (b'+' ∷ text) rest _ rest o (refl, l) e'
      (record { returned = refl; left = r.left; open_still = r.open_still })
read_reply-encoded (failure text) s rest o l e =
    let e' = e ∙ append_assoc (b'-' ∷ text) crlf rest in
    let r = read_line-Reads s (b'-' ∷ text) rest o (refl, l) e' in
    read_reply-line s (b'-' ∷ text) rest _ rest o (refl, l) e'
      (record { returned = refl; left = r.left; open_still = r.open_still })
read_reply-encoded (bulk none) s rest o l e =
    let r = read_line-Reads s (codes "$-1") rest o (refl, (refl, (refl, tt))) e in
    read_reply-line s (codes "$-1") rest _ rest o (refl, (refl, (refl, tt))) e
      (unfold read_length in
        unfold int in record { returned = refl; left = r.left; open_still = r.open_still })
read_reply-encoded (bulk (some value)) s rest o l e =
    let digits = show (length value) in
    let plain : IsLine (b'$' ∷ digits) =
      (refl, AreDigits-line digits (show-AreDigits (length value))) in
    let back = value ++ (13 ∷ 10 ∷ rest) in
    let e' : pending s ≡ (b'$' ∷ digits) ++ 13 ∷ 10 ∷ back = e ∙ simp append_assoc in
    let r = read_line-Reads s (b'$' ∷ digits) back o plain e' in
    read_reply-line s (b'$' ∷ digits) rest _ back o plain e' (
      rw (read_length-show (length value) (read_line s).0)
        (read_bulk-Reads (read_line s).0 value rest r.open_still r.left))
