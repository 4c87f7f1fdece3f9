-- ===== src/Protocol/Incremental.antt =====
-- A command that has come in part.
use sd_03_distributed_cache.Prelude.{
  ℕ, suc, ◌+◌, ◌<◌, ◌≡◌, refl, ap, sym, ◌∙◌, arith, ltb, true, false, ◌⊎◌, inl, inr, Option, none,
  some, List, [], ◌∷◌, ◌++◌, append_assoc, length, take, drop, length-append, take-length_append,
  Bytes, bytes_beq, bytes_beq_refl, ◌==◌,
}
use sd_03_distributed_cache.Prelude.Int.{pos, ◌+ℤ◌}
use sd_03_distributed_cache.Bytes.{codes, slice, find_crlf}
use sd_03_distributed_cache.Bytes.Decimal.{show, int, show-AreDigits, int-show}
use sd_03_distributed_cache.Bytes.Slices.{
  pos-add, slice-back, drop-back, find_crlf-line, AreDigits-line, find_crlf-append, find_crlf-le,
  take-front,
}
use sd_03_distributed_cache.Protocol.{
  encode_args, encode_command, more, find_crlf_from, parse_args, parse_resp, parse_one,
}
use sd_03_distributed_cache.Protocol.RoundTrip.{
  tail, next, consumed, parse_args-step, consumed_back, length-consumed, parse_resp-header,
}

-- Of two splits of the same bytes, one's first part ends inside the other's.
abbrev pub Short : Bytes → Bytes → Type 0
Short p e = (y : Bytes) × (p ++ y ≡ e) × (0 < length y)

abbrev head_or : ℕ → Bytes → ℕ
head_or n [] = n
head_or n (c ∷ _) = c

pub split-append :
    (p x e t : Bytes)
    → p ++ x ≡ e ++ t
    → ((y : Bytes) × (p ++ y ≡ e) × (0 < length y) × (x ≡ y ++ t))
      ⊎ ((b : Bytes) × (p ≡ e ++ b) × (b ++ x ≡ t))
split-append p x [] t h = inr (p, refl, h)
split-append [] x (c ∷ e) t h = inl (c ∷ e, refl, omega arith, h)
split-append (d ∷ p) x (c ∷ e) t h = elim (split-append p x e t (ap (drop 1) h)) [
  | inl (y, l, ne, f) ↦ inl (y, ap (◌∷◌ d) l ∙ ap (λ (k : ℕ). k ∷ e) (ap (head_or 0) h), ne, f)
  | inr (b, l, f) ↦ inr (b, ap (◌∷◌ d) l ∙ ap (λ (k : ℕ). k ∷ (e ++ b)) (ap (head_or 0) h), f)
]

abbrev argument : Bytes → Bytes
argument a = b'$' ∷ (show (length a) ++ (13 ∷ 10 ∷ (a ++ (13 ∷ 10 ∷ []))))

-- One argument that has come in part, at the place `p` of the buffer.
module _ (buf front a : Bytes) (p n : ℕ) (args : List Bytes) where
  abbrev digits : Bytes
  digits = show (length a)

  module _ (c : ℕ) (s y : Bytes) (e : buf ≡ front ++ c ∷ s) (ep : p ≡ length front)
      (es : (c ∷ s) ++ y ≡ argument a) (ey : 0 < length y) where
    sizes : (length buf ≡ p + suc (length s)) × (length s + length y ≡ length digits + length a + 4)
    sizes = (
      omega (arith, ap length e, length-append {0} front (c ∷ s), ep),
      omega (
        arith,
        ap length es,
        length-append {0} s y,
        length-append {0} digits (13 ∷ 10 ∷ (a ++ (13 ∷ 10 ∷ []))),
        length-append {0} a (13 ∷ 10 ∷ []),
      ),
    )

    inside : ltb (p + 0) (length buf + 0) ≡ true
    inside = ground (arith, sizes.0)

    dollar_test : bytes_beq (slice buf (pos p) (pos p +ℤ pos 1)) (codes "$") ≡ true
    dollar_test =
        ap (λ z. bytes_beq (slice buf (pos p) z) (codes "$")) (pos-add p 1)
        ∙ ap (λ t. bytes_beq t (codes "$"))
            (slice-back buf front (c ∷ s) p (p + 1) 1 e ep refl ∙ ap (take 1) es)
        ∙ bytes_beq_refl (codes "$")

    find_none : find_crlf (c ∷ s) ≡ none → find_crlf_from buf (pos p) ≡ none
    unfolding find_crlf_from
    find_none f = rw (drop-back buf front (c ∷ s) p e ep, find_crlf_from) (rw f refl)

    module _ (k : ℕ) (f : find_crlf (c ∷ s) ≡ some k) where
      at_end : k ≡ suc (length digits)
      at_end =
          let same : ◌≡◌ {A = Option ℕ} (some k) (some (suc (length digits))) =
            sym (find_crlf-append (c ∷ s) y k f)
            ∙ ap find_crlf es
            ∙ find_crlf-line (b'$' ∷ digits) (a ++ (13 ∷ 10 ∷ []))
                (refl, AreDigits-line digits (show-AreDigits (length a))) in
          ground (arith, same)

      found : find_crlf_from buf (pos p) ≡ some (p + k)
      unfolding find_crlf_from
      found =
          rw (drop-back buf front (c ∷ s) p e ep, find_crlf_from)
            (rw f (ap (λ (t : ℕ). some (t + k)) (omega (arith, sizes.0))))

      number : int (slice buf (pos p +ℤ pos 1) (pos (p + k))) ≡ some (pos (length a))
      number =
          ap (λ z. int (slice buf z (pos (p + k)))) (pos-add p 1)
          ∙ ap int (
              slice-back buf (front ++ c ∷ []) s (p + 1) (p + k) (length digits)
                (e ∙ sym (append_assoc front (c ∷ []) s))
                (omega (arith, ep, length-append {0} front (c ∷ []))) (omega (arith, at_end))
              ∙ sym
                  (take-front (length digits) s y (omega (arith, at_end, find_crlf-le (c ∷ s) k f)))
              ∙ ap (λ t. take (length digits) (drop 1 t)) es
              ∙ take-length_append digits (13 ∷ 10 ∷ (a ++ (13 ∷ 10 ∷ []))))
          ∙ int-show (length a)

      too_long : ltb (length buf + 0) (p + k + 2 + length a + 2 + 0) ≡ true
      too_long = ground (arith, sizes.0, sizes.1, at_end)

    parse_args-cut_at : parse_args (suc n) buf (pos p) args ≡ more
    unfolding parse_args
    parse_args-cut_at = go (find_crlf (c ∷ s)) refl
      where
        go : (o : Option ℕ) → find_crlf (c ∷ s) ≡ o → parse_args (suc n) buf (pos p) args ≡ more
        go none f = rw (inside, parse_args) (rw dollar_test (rw (find_none f) refl))
        go (some k) f =
            rw (inside, parse_args)
              (rw dollar_test
                (rw (found k f) (rw (number k f) (rw (pos-add, pos-add) (rw (too_long k f) refl)))))

parse_args-cut :
    (buf front a s : Bytes) (p n : ℕ) (args : List Bytes)
    → buf ≡ front ++ s
    → p ≡ length front
    → Short s (argument a)
    → parse_args (suc n) buf (pos p) args ≡ more
unfolding parse_args
parse_args-cut buf front a [] p n args e ep (y, es, ey) =
    let nothing : ltb (p + 0) (length buf + 0) ≡ false =
      ground (arith, ap length e, length-append {0} front [], ep) in
    rw (nothing, parse_args) refl
parse_args-cut buf front a (c ∷ s) p n args e ep (y, es, ey) =
    parse_args-cut_at buf front a p n args c s y e ep es ey

parse_args-Short :
    (buf front s : Bytes) (p : ℕ) (args done : List Bytes)
    → buf ≡ front ++ s
    → p ≡ length front
    → Short s (encode_args args)
    → parse_args (length args) buf (pos p) done ≡ more
unfolding encode_args
parse_args-Short buf front s p [] done e ep (y, es, ey) =
    absurd (omega (arith, ap length es, length-append {0} s y, ey))
parse_args-Short buf front s p (a ∷ args) done e ep (y, es, ey) =
    elim (split-append s y (argument a) (encode_args args) (es ∙ simp append_assoc)) [
      | inl (y', l, ne, f) ↦ parse_args-cut buf front a s p (length args) done e ep (y', l, ne)
      | inr (b, l, f) ↦
          let e' : buf ≡ front ++ tail buf front a b p (length args) done =
            e ∙ ap (◌++◌ front) (l ∙ simp append_assoc) in
          parse_args-step buf front a b p (length args) done e' ep
          ∙ parse_args-Short buf (consumed buf front a b p (length args) done e' ep) b
              (next buf front a b p (length args) done) args (done ++ a ∷ [])
              (consumed_back buf front a b p (length args) done e' ep)
              (length-consumed buf front a b p (length args) done e' ep) (y, f, ey)
    ]

-- The header line that has come in part.
abbrev header : ℕ → Bytes
header n = b'*' ∷ (show n ++ (13 ∷ 10 ∷ []))

line_missing : (s : Bytes) → find_crlf s ≡ none → find_crlf_from s (pos 0) ≡ none
unfolding find_crlf_from
line_missing s f = rw (drop-back s [] s 0 refl refl, find_crlf_from) (rw f refl)

parse_one-header : (n : ℕ) (s : Bytes) → Short s (header n) → parse_one s ≡ more
unfolding parse_one parse_resp
parse_one-header n [] h = refl
parse_one-header n (c ∷ s) (y, es, ey) = go (find_crlf (c ∷ s)) refl
  where
    star : c ≡ b'*'
    star = ap (head_or 0) es

    go : (o : Option ℕ) → find_crlf (c ∷ s) ≡ o → parse_one (c ∷ s) ≡ more
    go none f =
        let is_star : (c == b'*') ≡ true = ground (arith, star) in
        rw is_star (rw (line_missing (c ∷ s) f, parse_resp) refl)
    go (some k) f =
        let same : ◌≡◌ {A = Option ℕ} (some k) (some (suc (length (show n)))) =
          sym (find_crlf-append (c ∷ s) y k f)
          ∙ ap find_crlf es
          ∙ find_crlf-line (b'*' ∷ show n) [] (refl, AreDigits-line (show n) (show-AreDigits n)) in
        let at_end : k ≡ suc (length (show n)) = ground (arith, same) in
        absurd (
          omega (
            arith,
            at_end,
            find_crlf-le (c ∷ s) k f,
            ap length es,
            length-append {0} s y,
            length-append {0} (show n) (13 ∷ 10 ∷ []),
            ey,
          ))

-- A command that has come in part, and nothing else, is waited for: the parser neither fails nor
-- returns a command.
pub parse_one-Short :
    (args : List Bytes) (s : Bytes) → Short s (encode_command args) → parse_one s ≡ more
unfolding encode_command parse_one
parse_one-Short args s (y, es, ey) =
    elim (split-append s y (header (length args)) (encode_args args) (es ∙ simp append_assoc)) [
      | inl (y', l, ne, f) ↦ parse_one-header (length args) s (y', l, ne)
      | inr (b, l, f) ↦
          let buf = b'*' ∷ (show (length args) ++ (13 ∷ 10 ∷ b)) in
          let e : s ≡ buf = l ∙ simp append_assoc in
          ap parse_one e
          ∙ parse_resp-header buf b (length args) refl
          ∙ parse_args-Short buf (header (length args)) b _ args [] (simp append_assoc)
              (omega (arith, length-append {0} (show (length args)) (13 ∷ 10 ∷ []))) (y, f, ey)
    ]
