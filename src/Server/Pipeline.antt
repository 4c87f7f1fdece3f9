-- ===== src/Server/Pipeline.antt =====
-- Requests that come one behind the other, in whatever chunks.
use sd_03_distributed_cache.Prelude.{
  ℕ, zero, suc, ◌≤◌, ◌<◌, ◌≡◌, refl, ap, ◌∙◌, arith, ◌⊎◌, inl, inr, List, [], ◌∷◌, ◌++◌,
  append_assoc, length, length-append, Bytes,
}
use sd_03_distributed_cache.Clock.{Clock}
use sd_03_distributed_cache.Protocol.{encode_command, more, command, parse_one}
use sd_03_distributed_cache.Protocol.RoundTrip.{parse_one-encode_command}
use sd_03_distributed_cache.Protocol.Incremental.{Short, split-append, parse_one-Short}
use sd_03_distributed_cache.Client.Reading.{concat, IsOpen}
use sd_03_distributed_cache.Server.Session.{
  Session, Turn, goes, waits, handed_over, spent, failed, handle, drain, serve,
}
use sd_03_distributed_cache.Server.Requests.{
  encoded_all, handle_all, SameButBuf, same_run, chained, Ends, next_requests, handle_all-next,
  handle_all-SameButBuf, handle-Handled,
}

module _ {F : Type 0} ⦃clock : Clock F⦄ (printable : Bytes → Bytes) (time : ℕ → F) where
  -- The buffer holds part of the next request at most.
  abbrev pub Stuck : Bytes → List (List Bytes) → Type 0
  Stuck buf [] = buf ≡ []
  Stuck buf (r ∷ rs) = Short buf (encode_command r)

  -- What the inner loop makes of the requests of which the first have come: it ends as they do, or it
  -- waits for those that are left.
  data Drained (s : Session F) (rs : List (List Bytes)) (x : Bytes) (d : Session F × Turn)
      : Type 0 where
    ended : Ends d.1 → SameButBuf d (handle_all printable time s rs) → Drained s rs x d
    waiting :
        (left : List (List Bytes))
        → d.1 ≡ waits
        → d.0.buf ++ x ≡ encoded_all left
        → Stuck d.0.buf left
        → length left ≤ length rs
        → SameButBuf (handle_all printable time d.0 left) (handle_all printable time s rs)
        → Drained s rs x d

  -- What the inner loop does behind a request.
  abbrev pub next_drain : ℕ → Session F × Turn → Session F × Turn
  next_drain fuel (s, goes) = drain printable time fuel s
  next_drain fuel (s, waits) = (s, waits)
  next_drain fuel (s, handed_over) = (s, handed_over)
  next_drain fuel (s, spent) = (s, spent)
  next_drain fuel (s, failed x) = (s, failed x)

  pub drain-next :
      (fuel : ℕ) (s : Session F) (r : List Bytes) (b : Bytes)
      → parse_one s.buf ≡ command r b
      → drain printable time (suc fuel) s
        ≡ next_drain fuel (handle printable time (record s { buf = b }) r)
  unfolding drain
  drain-next fuel s r b e =
      rw (e, drain)
        (go (handle printable time (record s { buf = b }) r).0
          (handle printable time (record s { buf = b }) r).1)
    where
      go :
          (s' : Session F) (t : Turn)
          → elim t [ goes ↦ drain printable time fuel s' | other ↦ (s', other) ]
            ≡ next_drain fuel (s', t)
      go s' goes = refl
      go s' waits = refl
      go s' handed_over = refl
      go s' spent = refl
      go s' (failed x) = refl

  nothing_before : (a x : Bytes) → a ++ x ≡ [] → a ≡ []
  nothing_before [] x h = refl
  nothing_before (c ∷ a) x h = absurd (omega (arith, ap length h))

  -- Behind a request that was handled.
  module _ (s : Session F) (r : List Bytes) (rs : List (List Bytes)) (b x : Bytes) (fuel : ℕ) where
    abbrev h0 : Session F
    h0 = (handle printable time s r).0

    behind-Drained :
        (t : Turn)
        → handle_all printable time s (r ∷ rs) ≡ next_requests printable time (h0, t) rs
        → (t ≡ goes) ⊎ Ends t
        → Drained (record h0 { buf = b }) rs x (drain printable time fuel (record h0 { buf = b }))
        → Drained s (r ∷ rs) x (next_drain fuel (record h0 { buf = b }, t))
    behind-Drained goes e g (ended z q) =
        ended z (chained q (rw e (handle_all-SameButBuf printable time h0 b rs)))
    behind-Drained goes e g (waiting left w whole stuck less q) =
        waiting left w whole stuck (omega (arith, less))
          (chained q (rw e (handle_all-SameButBuf printable time h0 b rs)))
    behind-Drained waits e (inl g) ih = absurd (cc g)
    behind-Drained waits e (inr g) ih = absurd g
    behind-Drained handed_over e g ih =
        ended tt (rw e (record { turn = refl; node = refl; out = refl; commands = refl }))
    behind-Drained spent e g ih =
        ended tt (rw e (record { turn = refl; node = refl; out = refl; commands = refl }))
    behind-Drained (failed y) e g ih =
        ended tt (rw e (record { turn = refl; node = refl; out = refl; commands = refl }))

  drain-Drained :
      (fuel : ℕ) (s : Session F) (rs : List (List Bytes)) (x : Bytes)
      → s.buf ++ x ≡ encoded_all rs
      → length rs < fuel
      → Drained s rs x (drain printable time fuel s)
  unfolding drain parse_one
  drain-Drained zero s rs x h f = absurd (omega (arith, f))
  drain-Drained (suc fuel) s [] x h f =
      let empty = nothing_before s.buf x h in
      let nothing : parse_one s.buf ≡ more = ap parse_one empty in
      rw (nothing, drain) (waiting [] refl h empty (omega arith) (same_run _))
  drain-Drained (suc fuel) s (r ∷ rs) x h f =
      elim (split-append s.buf x (encode_command r) (encoded_all rs) h) [
        | inl (y, l, ne, e) ↦
            let short : parse_one s.buf ≡ more = parse_one-Short r s.buf (y, l, ne) in
            rw (short, drain) (waiting (r ∷ rs) refl h (y, l, ne) (omega arith) (same_run _))
        | inr (b, l, e) ↦
            let parsed : parse_one s.buf ≡ command r b =
              ap parse_one l ∙ parse_one-encode_command r b in
            let v = handle-Handled printable time s b r in
            let whole = drain-next fuel s r b parsed ∙ ap (next_drain fuel) v.shape in
            rw whole (
              behind-Drained s r rs b x fuel (handle printable time s r).1
                (handle_all-next printable time s r rs) v.turns
                (drain-Drained fuel (record (handle printable time s r).0 { buf = b }) rs x e
                  (omega (arith, f))))
      ]

  serve-ended :
      (fuel : ℕ) (s' : Session F) (t : Turn) (chunks : List Bytes)
      → Ends t
      → ◌≡◌ {A = Session F × Turn}
          (elim t [ waits ↦ serve printable time fuel s' chunks | other ↦ (s', other) ])
          (s', t)
  serve-ended fuel s' goes chunks e = absurd e
  serve-ended fuel s' waits chunks e = absurd e
  serve-ended fuel s' handed_over chunks e = refl
  serve-ended fuel s' spent chunks e = refl
  serve-ended fuel s' (failed x) chunks e = refl

  serve-resumed :
      (fuel : ℕ) (s : Session F) (rs : List (List Bytes)) (chunks : List Bytes)
      → IsOpen chunks
      → s.buf ++ concat chunks ≡ encoded_all rs
      → Stuck s.buf rs
      → length rs < fuel
      → SameButBuf (serve printable time fuel s chunks) (handle_all printable time s rs)
  unfolding serve
  serve-resumed fuel s [] [] o h k f = same_run _
  serve-resumed fuel s (r ∷ rs) [] o h (y, l, ne) f = absurd (
      omega (
        arith,
        ap length h,
        ap length l,
        length-append {0} s.buf [],
        length-append {0} s.buf y,
        length-append {0} (encode_command r) (encoded_all rs),
        ne,
      ))
  serve-resumed fuel s rs ([] ∷ chunks) o h k f = absurd o
  serve-resumed fuel s rs ((c ∷ chunk) ∷ chunks) o h k f =
      elim (drain-Drained fuel s1 rs (concat chunks)
        (append_assoc s.buf (c ∷ chunk) (concat chunks) ∙ h) f) [
          | ended z q ↦
              rw (serve-ended fuel d.0 d.1 chunks z)
                (chained q (handle_all-SameButBuf printable time s (s.buf ++ c ∷ chunk) rs))
          | waiting left w whole stuck less q ↦
              let on : Turn → Session F × Turn = λ t. elim t [
                | waits ↦ serve printable time fuel d.0 chunks
                | other ↦ (d.0, other)
              ] in
              let back = ap on w in
              rw back (
                chained (serve-resumed fuel d.0 left chunks o whole stuck (omega (arith, less, f)))
                  (chained q (handle_all-SameButBuf printable time s (s.buf ++ c ∷ chunk) rs)))
        ]
    where
      s1 : Session F
      s1 = record s { buf = s.buf ++ c ∷ chunk }

      d : Session F × Turn
      d = drain printable time fuel s1

  -- Requests that come one behind the other on a new connection, in whatever chunks that are not empty,
  -- also where a chunk ends inside a request, are handled in order, each once, as without a parser: the same node, the same
  -- bytes written, and the same end. More rounds for each chunk than there are requests are enough.
  pub serve-SameButBuf :
      (fuel : ℕ) (s : Session F) (rs : List (List Bytes)) (chunks : List Bytes)
      → s.buf ≡ []
      → IsOpen chunks
      → concat chunks ≡ encoded_all rs
      → length rs < fuel
      → SameButBuf (serve printable time fuel s chunks) (handle_all printable time s rs)
  unfolding encode_command
  serve-SameButBuf fuel s rs chunks e o h f =
      serve-resumed fuel s rs chunks o (ap (λ t. t ++ concat chunks) e ∙ h) (empty rs) f
    where
      nonempty : (r : List Bytes) → 0 < length (encode_command r)
      nonempty r = omega arith

      empty : (rs : List (List Bytes)) → Stuck s.buf rs
      empty [] = e
      empty (r ∷ rs) = (encode_command r, ap (λ t. t ++ encode_command r) e, nonempty r)
