-- ===== src/Replication/RoundTrip.antt =====
-- What the replica reads is what the master wrote.
use sd_03_distributed_cache.Prelude.{
  ℕ, ◌≡◌, refl, ap, sym, ◌∙◌, arith, false, ltb, List, [], ◌∷◌, ◌++◌, append_assoc, length,
  length-append, take-length_append, drop-length_append, Bytes, bytes_beq, ok, ◌>>=◌, Result,
}
use sd_03_distributed_cache.Prelude.Int.{pos}
use sd_03_distributed_cache.Bytes.{codes, crlf, is_space, split_aux, split, upper, upper_byte}
use sd_03_distributed_cache.Bytes.Decimal.{show, int-show, show_ℤ, int-show_ℤ}
use sd_03_distributed_cache.Clock.{Clock}
use sd_03_distributed_cache.Protocol.RoundTrip.{decode-encode_command}
use sd_03_distributed_cache.Replication.Effects.{
  Effect, or_value_error, effect_to_payload, payload_to_effect, set_of_args, pexpireat_of_args,
  frame_effect,
}
use sd_03_distributed_cache.Replication.Master.{Batch, control, frames, batch_bytes}
use sd_03_distributed_cache.Replication.Replica.{
  Replica, read_line, read_exactly, part, int_part, numbers, is_frame, decode_effect, read_frame,
  framed_effect, read_effect, read_effects, replay, see, dispatch_tag, dispatch_line, batch_round,
  consume_one,
}
use sd_03_distributed_cache.Replication.Lines.{
  OneWord-OneLine, OneLine, append-OneLine, show-OneLine, OneWord, read_line-line, split-word,
  split-show,
}

-- An effect survives its encoding as a command.
pub decode_effect-effect_to_payload : (e : Effect) → decode_effect (effect_to_payload e) ≡ ok e
unfolding decode_effect effect_to_payload payload_to_effect upper upper_byte bytes_beq set_of_args
    pexpireat_of_args
decode_effect-effect_to_payload (Effect.set key value ms) =
    rw (decode-encode_command (codes "SET" ∷ key ∷ value ∷ show_ℤ ms ∷ []), decode_effect)
      (ap (λ x. or_value_error x >>= λ n. ok (Effect.set key value n)) (int-show_ℤ ms))
decode_effect-effect_to_payload (Effect.del key) =
    rw (decode-encode_command (codes "DEL" ∷ key ∷ []), decode_effect) refl
decode_effect-effect_to_payload (Effect.pexpireat key ms) =
    rw (decode-encode_command (codes "PEXPIREAT" ∷ key ∷ show_ℤ ms ∷ []), decode_effect)
      (ap (λ x. or_value_error x >>= λ n. ok (Effect.pexpireat key n)) (int-show_ℤ ms))

read_exactly-append : (s rest : Bytes) → read_exactly (pos (length s)) (s ++ rest) ≡ ok (s, rest)
unfolding read_exactly
read_exactly-append s rest =
    let enough : ltb (length (s ++ rest)) (length s) ≡ false =
      ground (arith, length-append {0} s rest) in
    rw (enough, take-length_append s rest, drop-length_append s rest) refl

pub int_part-1 :
    (tag : Bytes) (n : ℕ) (ps : List Bytes) → int_part (tag ∷ show n ∷ ps) 1 ≡ ok (pos n)
unfolding int_part part
int_part-1 tag n ps = ap or_value_error (int-show n)

pub line-E : (n : ℕ) → split (codes "E " ++ (show n ++ crlf)) ≡ codes "E" ∷ show n ∷ []
unfolding split split_aux is_space
line-E n = ap (◌∷◌ (codes "E")) (split-show n 13 (10 ∷ []) refl)

read_frame-back :
    (e : Effect) (s rest : Bytes)
    → decode_effect s ≡ ok e
    → read_frame (codes "E" ∷ show (length s) ∷ []) (s ++ (crlf ++ rest)) ≡ ok (e, rest)
unfolding read_frame is_frame bytes_beq
read_frame-back e s rest d =
    ap (λ x. x >>= λ n. framed (read_exactly n (s ++ (crlf ++ rest))))
      (int_part-1 (codes "E") (length s) [])
    ∙ ap framed (read_exactly-append s (crlf ++ rest))
    ∙ ap (λ x. x >>= λ y. decode_effect s >>= λ e'. ok (e', y.1)) (read_exactly-append crlf rest)
    ∙ ap (λ x. x >>= λ e'. ok (e', rest)) d
  where
    framed : Result (Bytes × Bytes) → Result (Effect × Bytes)
    framed m = do
      (payload, rest) ← m
      (_, rest) ← read_exactly (pos 2) rest
      e ← decode_effect payload
      ok (e, rest)

-- The frame of an effect is read as that effect, and what follows it is left.
pub read_effect-frame_effect :
    (e : Effect) (rest : Bytes) → read_effect (frame_effect e ++ rest) ≡ ok (e, rest)
unfolding read_effect frame_effect framed_effect
read_effect-frame_effect e rest =
    ap read_effect joined
    ∙ ap (λ p. framed_effect p.0 p.1) (read_line-line head behind one_line)
    ∙ ap (λ l. framed_effect l behind) whole
    ∙ ap (λ ps. read_frame ps behind) (line-E n)
    ∙ read_frame-back e payload rest (decode_effect-effect_to_payload e)
  where
    payload : Bytes
    payload = effect_to_payload e

    n : ℕ
    n = length payload

    head : Bytes
    head = codes "E " ++ (show n ++ 13 ∷ [])

    behind : Bytes
    behind = payload ++ (crlf ++ rest)

    one_line : OneLine head
    one_line = (refl, (refl, append-OneLine (show n) (13 ∷ []) (show-OneLine n) (refl, tt)))

    whole : head ++ 10 ∷ [] ≡ codes "E " ++ (show n ++ crlf)
    whole = simp append_assoc

    joined : frame_effect e ++ rest ≡ head ++ 10 ∷ behind
    joined = simp append_assoc

-- All frames of a batch.
read_effects-frames :
    (es : List Effect) (rest : Bytes) → read_effects (length es) (frames es ++ rest) ≡ ok (es, rest)
unfolding read_effects frames
read_effects-frames [] rest = refl
read_effects-frames (e ∷ es) rest =
    rw
      (
        append_assoc (frame_effect e) (frames es) rest,
        read_effect-frame_effect e (frames es ++ rest),
        read_effects-frames es rest,
      )
      refl

-- A control line is split into its tag and its two numbers.
module _ (c : ℕ) (cs : Bytes) (a b : ℕ) (plain : OneWord (c ∷ cs)) where
  abbrev tag : Bytes
  tag = c ∷ cs

  pub numbers-control : numbers (tag ∷ show a ∷ show b ∷ []) ≡ ok (pos a, pos b)
  unfolding numbers int_part part
  numbers-control =
      ap (λ x. x >>= λ n. int_part (tag ∷ show a ∷ show b ∷ []) 2 >>= λ m. ok (n, m))
        (int_part-1 tag a (show b ∷ []))
      ∙ ap (λ x. or_value_error x >>= λ m. ok (pos a, m)) (int-show b)

  pub split-control : split (control tag a b) ≡ tag ∷ show a ∷ show b ∷ []
  unfolding split control is_space split_aux
  split-control =
      split-word [] tag 32 (show a ++ (32 ∷ (show b ++ crlf))) plain refl
      ∙ ap (◌∷◌ tag) (split-show a 32 (show b ++ crlf) refl)
      ∙ ap (λ ws. tag ∷ show a ∷ ws) (split-show b 13 (10 ∷ []) refl)

  -- The line without its line feed.
  abbrev pub line_front : Bytes
  line_front = tag ++ (32 ∷ (show a ++ (32 ∷ (show b ++ 13 ∷ []))))

  pub line_front-OneLine : OneLine line_front
  line_front-OneLine =
      append-OneLine tag (32 ∷ (show a ++ (32 ∷ (show b ++ 13 ∷ [])))) (OneWord-OneLine tag plain) (
        refl,
        append-OneLine (show a) (32 ∷ (show b ++ 13 ∷ [])) (show-OneLine a)
            (refl, append-OneLine (show b) (13 ∷ []) (show-OneLine b) (refl, tt)),
      )

  pub line_front-control : line_front ++ 10 ∷ [] ≡ control tag a b
  unfolding control
  line_front-control = simp append_assoc

  pub read_line-control :
      (rest : Bytes) → read_line (control tag a b ++ rest) ≡ (control tag a b, rest)
  read_line-control rest =
      ap read_line joined
      ∙ read_line-line line_front rest line_front-OneLine
      ∙ ap (λ l. (l, rest)) line_front-control
    where
      joined : control tag a b ++ rest ≡ line_front ++ 10 ∷ rest
      joined = ap (λ l. l ++ rest) (sym line_front-control) ∙ append_assoc line_front (10 ∷ []) rest

module _ {F : Type 0} ⦃clock : Clock F⦄ (r : Replica F) (b : Batch) (rest : Bytes) where
  plain : OneWord (codes "BATCH")
  unfolding is_space
  plain = (refl, (refl, (refl, (refl, (refl, tt)))))

  abbrev line : Bytes
  line = control (codes "BATCH") b.offset (length b.effects)

  round :
      batch_round r
        (codes "BATCH" ∷ show b.offset ∷ show (length b.effects) ∷ [])
        (frames b.effects ++ rest)
      ≡ replay (see r (pos b.offset)) (pos b.offset) b.effects rest
  unfolding batch_round
  round =
      rw (numbers-control b'B' (codes "ATCH") b.offset (length b.effects) plain, batch_round)
        (rw (read_effects-frames b.effects rest) refl)

  -- The bytes of a batch make one round of the replica: the batch's offset is seen, its effects are
  -- applied in order, and what follows is left.
  pub consume_one-batch_bytes :
      consume_one r (batch_bytes b ++ rest)
      ≡ replay (see r (pos b.offset)) (pos b.offset) b.effects rest
  unfolding consume_one batch_bytes control dispatch_line dispatch_tag bytes_beq
  consume_one-batch_bytes =
      ap (consume_one r) (append_assoc line (frames b.effects) rest)
      ∙ ap (λ p. dispatch_line r p.0 p.1)
          (read_line-control b'B' (codes "ATCH") b.offset (length b.effects) plain
            (frames b.effects ++ rest))
      ∙ ap (λ ps. dispatch_tag r ps (frames b.effects ++ rest))
          (split-control b'B' (codes "ATCH") b.offset (length b.effects) plain)
      ∙ round
