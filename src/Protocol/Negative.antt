-- ===== src/Protocol/Negative.antt =====
-- A negative bulk length inside a request.
use sd_03_distributed_cache.Prelude.{
  ℕ, ◌+◌, ◌≡◌, refl, ap, ◌∙◌, arith, ltb, true, false, some, [], ◌∷◌, ◌++◌, length, Bytes,
  bytes_beq, bytes_beq_refl,
}
use sd_03_distributed_cache.Prelude.Int.{pos, negsuc, ◌+ℤ◌}
use sd_03_distributed_cache.Bytes.{codes, find_crlf, slice}
use sd_03_distributed_cache.Bytes.Decimal.{show, int}
use sd_03_distributed_cache.Bytes.Slices.{slice-back, drop-back}
use sd_03_distributed_cache.Protocol.{command, find_crlf_from, parse_args, parse_resp, parse_one}
use sd_03_distributed_cache.Protocol.RoundTrip.{parse_resp-header}

-- "*1\r\n$-12\r\n"
abbrev pub negative_request : Bytes
negative_request = b'*' ∷ b'1' ∷ 13 ∷ 10 ∷ b'$' ∷ b'-' ∷ b'1' ∷ b'2' ∷ 13 ∷ 10 ∷ []

module _ (rest : Bytes) where
  abbrev buf : Bytes
  buf = negative_request ++ rest

  header : parse_resp buf ≡ parse_args 1 buf (pos 4) []
  unfolding show
  header = parse_resp-header buf (b'$' ∷ b'-' ∷ b'1' ∷ b'2' ∷ 13 ∷ 10 ∷ rest) 1 refl

  dollar : slice buf (pos 4) (pos 5) ≡ b'$' ∷ []
  dollar =
      slice-back buf (b'*' ∷ b'1' ∷ 13 ∷ 10 ∷ []) (b'$' ∷ b'-' ∷ b'1' ∷ b'2' ∷ 13 ∷ 10 ∷ rest) 4 5 1
        refl refl refl

  number : slice buf (pos 5) (pos 8) ≡ b'-' ∷ b'1' ∷ b'2' ∷ []
  number =
      slice-back buf (b'*' ∷ b'1' ∷ 13 ∷ 10 ∷ b'$' ∷ []) (b'-' ∷ b'1' ∷ b'2' ∷ 13 ∷ 10 ∷ rest) 5 8 3
        refl refl refl

  line : find_crlf_from buf (pos 4) ≡ some 8
  unfolding find_crlf_from
  line =
      rw
        (
          drop-back buf (b'*' ∷ b'1' ∷ 13 ∷ 10 ∷ []) (b'$' ∷ b'-' ∷ b'1' ∷ b'2' ∷ 13 ∷ 10 ∷ rest) 4
              refl refl,
          find_crlf_from,
        )
        (unfold find_crlf in ap (λ (t : ℕ). some (t + 4)) {y = 4} (omega arith))

  minus_twelve : int (b'-' ∷ b'1' ∷ b'2' ∷ []) ≡ some (negsuc 11)
  unfolding int
  minus_twelve = refl

  dollar_test : bytes_beq (slice buf (pos 4) (pos 4 +ℤ pos 1)) (codes "$") ≡ true
  unfolding ◌+ℤ◌
  dollar_test = rw dollar (bytes_beq_refl (codes "$"))

  number_read : int (slice buf (pos 4 +ℤ pos 1) (pos 8)) ≡ some (negsuc 11)
  unfolding ◌+ℤ◌
  number_read = rw number minus_twelve

  step : parse_args 1 buf (pos 4) [] ≡ command (slice buf (pos 10) (negsuc 1) ∷ []) buf
  unfolding parse_args ◌+ℤ◌
  step =
      let inside : ltb (4 + 0) (length buf + 0) ≡ true = ground arith in
      let fits : ltb (length buf + 0) (0 + 0) ≡ false = ground arith in
      rw (inside, parse_args)
        (rw dollar_test (
          rw line (
            rw number_read (
              rw fits (
                ap (command (slice buf (pos 10) (negsuc 1) ∷ []))
                  (drop-back buf [] buf 0 refl refl))))))

  -- Before any further bytes this request is read as a command of one argument, which ends two bytes
  -- before the end of the buffer, and the buffer is left as it was.
  pub parse_one-negative_request :
      parse_one (negative_request ++ rest)
      ≡ command
          (slice (negative_request ++ rest) (pos 10) (negsuc 1) ∷ [])
          (negative_request ++ rest)
  unfolding parse_one
  parse_one-negative_request = header ∙ step
