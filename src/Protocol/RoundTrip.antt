-- ===== src/Protocol/RoundTrip.antt =====
-- The parser reads back what the encoder writes, and leaves what follows in the buffer.
use sd_03_distributed_cache.Prelude.{
  ltb, ℕ, suc, ◌+◌, ◌≡◌, refl, ap, sym, ◌∙◌, arith, true, false, some, List, [], ◌∷◌, ◌++◌,
  append_assoc, append-nil, length, length-append, take-length_append, Bytes, bytes_beq,
  bytes_beq_refl,
}
use sd_03_distributed_cache.Prelude.Int.{pos, ◌+ℤ◌}
use sd_03_distributed_cache.Bytes.{codes, slice}
use sd_03_distributed_cache.Bytes.Decimal.{show, int, show-AreDigits, int-show}
use sd_03_distributed_cache.Bytes.Slices.{
  pos-add, slice-back, drop-back, find_crlf-line, AreDigits-line,
}
use sd_03_distributed_cache.Protocol.{
  encode_args, encode_command, command, find_crlf_from, parse_args, parse_resp, parse_one, decoded,
  decode_resp_array,
}

-- One argument, read at the place `p` of the buffer, behind `front`.
module _ (buf front a back : Bytes) (p : ℕ) (n : ℕ) (args : List Bytes) where
  abbrev pub digits : Bytes
  digits = show (length a)

  abbrev pub tail : Bytes
  tail = b'$' ∷ (digits ++ (13 ∷ 10 ∷ (a ++ (13 ∷ 10 ∷ back))))

  abbrev pub line_end : ℕ
  line_end = p + suc (length digits)

  abbrev pub next : ℕ
  next = line_end + 2 + length a + 2

  module _ (e : buf ≡ front ++ tail) (ep : p ≡ length front) where
    size : length buf ≡ next + length back
    size = omega (
      arith,
      ap length e,
      length-append {0} front tail,
      length-append {0} digits (13 ∷ 10 ∷ (a ++ (13 ∷ 10 ∷ back))),
      length-append {0} a (13 ∷ 10 ∷ back),
    )

    dollar : slice buf (pos p) (pos p +ℤ pos 1) ≡ b'$' ∷ []
    dollar = rw pos-add (slice-back buf front tail p (p + 1) 1 e ep refl)

    dollar_test : bytes_beq (slice buf (pos p) (pos p +ℤ pos 1)) (codes "$") ≡ true
    dollar_test = rw dollar (bytes_beq_refl (b'$' ∷ []))

    line : find_crlf_from buf (pos p) ≡ some line_end
    unfolding find_crlf_from
    line =
        rw (drop-back buf front tail p e ep, find_crlf_from)
          (rw
            (find_crlf-line (b'$' ∷ digits) (a ++ (13 ∷ 10 ∷ back))
              (refl, AreDigits-line digits (show-AreDigits (length a))))
            (ap (λ (t : ℕ). some (t + suc (length digits))) (omega (arith, size))))

    number : int (slice buf (pos p +ℤ pos 1) (pos line_end)) ≡ some (pos (length a))
    number =
        rw
          (
            pos-add,
            slice-back buf (front ++ (b'$' ∷ [])) (digits ++ (13 ∷ 10 ∷ (a ++ (13 ∷ 10 ∷ back))))
                (p + 1) line_end (length digits) (e ∙ sym (append_assoc front (b'$' ∷ []) _))
                (omega (arith, ep, length-append {0} front (b'$' ∷ []))) (omega arith),
            take-length_append,
          )
          (int-show (length a))

    value : slice buf (pos (line_end + 2)) (pos (line_end + 2 + length a)) ≡ a
    value =
        slice-back buf before (a ++ (13 ∷ 10 ∷ back)) (line_end + 2) (line_end + 2 + length a)
          (length a) split (omega (arith, ep, lengths)) refl
        ∙ take-length_append a (13 ∷ 10 ∷ back)
      where
        before : Bytes
        before = front ++ (b'$' ∷ (digits ++ (13 ∷ 10 ∷ [])))

        split : buf ≡ before ++ (a ++ (13 ∷ 10 ∷ back))
        split = rw e (simp append_assoc)

        lengths : length before ≡ length front + suc (length digits + 2)
        lengths = omega (
          arith,
          length-append {0} front (b'$' ∷ (digits ++ (13 ∷ 10 ∷ []))),
          length-append {0} digits (13 ∷ 10 ∷ []),
        )

    pub parse_args-step :
        parse_args (suc n) buf (pos p) args ≡ parse_args n buf (pos next) (args ++ a ∷ [])
    unfolding parse_args
    parse_args-step =
        let inside : ltb (p + 0) (length buf + 0) ≡ true = ground (arith, size) in
        let fits : ltb (length buf + 0) (next + 0) ≡ false = ground (arith, size) in
        rw (inside, parse_args)
          (rw dollar_test (
            rw line (
              rw number (
                rw (pos-add, pos-add)
                  (rw fits (
                    cc (
                      pos-add (line_end + 2) (length a),
                      pos-add (line_end + 2 + length a) 2,
                      value,
                    )))))))

    abbrev pub consumed : Bytes
    consumed = front ++ (b'$' ∷ (digits ++ (13 ∷ 10 ∷ (a ++ (13 ∷ 10 ∷ [])))))

    pub consumed_back : buf ≡ consumed ++ back
    consumed_back = rw e (simp append_assoc)

    pub length-consumed : next ≡ length consumed
    length-consumed = omega (arith, size, ap length consumed_back, length-append {0} consumed back)

parse_args-encode_args :
    (buf front rest : Bytes) (p : ℕ) (args done : List Bytes)
    → buf ≡ front ++ (encode_args args ++ rest)
    → p ≡ length front
    → parse_args (length args) buf (pos p) done ≡ command (done ++ args) rest
unfolding parse_args encode_args
parse_args-encode_args buf front rest p [] done e ep =
    ap (command done) (drop-back buf front rest p e ep)
    ∙ ap (λ (t : List Bytes). command t rest) (sym (append-nil done))
parse_args-encode_args buf front rest p (a ∷ args) done e ep =
    let back = encode_args args ++ rest in
    let e' : buf ≡ front ++ tail buf front a back p (length args) done =
      e ∙ ap (◌++◌ front) (simp append_assoc) in
    parse_args-step buf front a back p (length args) done e' ep
    ∙ parse_args-encode_args buf (consumed buf front a back p (length args) done e' ep) rest
        (next buf front a back p (length args) done) args (done ++ a ∷ [])
        (consumed_back buf front a back p (length args) done e' ep)
        (length-consumed buf front a back p (length args) done e' ep)
    ∙ ap (λ (t : List Bytes). command t rest) (append_assoc done (a ∷ []) args)

-- The header line with the number of arguments.
module _ (buf back : Bytes) (n : ℕ) (e : buf ≡ b'*' ∷ (show n ++ (13 ∷ 10 ∷ back))) where
  header_line : find_crlf_from buf (pos 0) ≡ some (suc (length (show n)))
  unfolding find_crlf_from
  header_line =
      rw (drop-back buf [] (b'*' ∷ (show n ++ (13 ∷ 10 ∷ back))) 0 e refl, find_crlf_from)
        (rw (find_crlf-line (b'*' ∷ show n) back (refl, AreDigits-line (show n) (show-AreDigits n)))
          (ap (λ (t : ℕ). some (t + suc (length (show n)))) {y = 0} (omega arith)
            ∙ ap some (omega arith)))

  header_number : int (slice buf (pos 1) (pos (suc (length (show n))))) ≡ some (pos n)
  header_number =
      rw
        (
          slice-back buf (b'*' ∷ []) (show n ++ (13 ∷ 10 ∷ back)) 1 (suc (length (show n)))
              (length (show n)) e refl (omega arith),
          take-length_append,
        )
        (int-show n)

  pub parse_resp-header : parse_resp buf ≡ parse_args n buf (pos (suc (length (show n)) + 2)) []
  unfolding parse_resp
  parse_resp-header = rw (header_line, parse_resp) (rw header_number refl)

-- A whole command is read back, and what follows it stays in the buffer, whatever it is.
pub parse_one-encode_command :
    (args : List Bytes) (rest : Bytes) → parse_one (encode_command args ++ rest) ≡ command args rest
unfolding parse_one encode_command
parse_one-encode_command args rest =
    parse_resp-header buf (encode_args args ++ rest) (length args) (simp append_assoc)
    ∙ parse_args-encode_args buf (b'*' ∷ (show (length args) ++ (13 ∷ 10 ∷ []))) rest _ args []
        (simp append_assoc) (omega (arith, length-append {0} (show (length args)) (13 ∷ 10 ∷ [])))
  where
    buf : Bytes
    buf = encode_command args ++ rest

-- `decode_resp_array` reads back one encoded command.
pub decode-encode_command :
    (args : List Bytes) → decode_resp_array (encode_command args) ≡ decoded args
unfolding decode_resp_array
decode-encode_command args = rw (whole, decode_resp_array) refl
  where
    whole : parse_one (encode_command args) ≡ command args []
    whole = ap parse_one (sym (append-nil (encode_command args))) ∙ parse_one-encode_command args []
