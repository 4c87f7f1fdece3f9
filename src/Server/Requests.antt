-- ===== src/Server/Requests.antt =====
-- Requests, one after the other, with no parser.
use sd_03_distributed_cache.Prelude.{
  ℕ, ◌≡◌, refl, ap, ◌∙◌, ◌⊎◌, inl, inr, Bool-cases, List, [], ◌∷◌, ◌++◌, Bytes, bytes_beq, ok,
  raise,
}
use sd_03_distributed_cache.Clock.{Clock}
use sd_03_distributed_cache.Bytes.{codes, upper}
use sd_03_distributed_cache.Protocol.{encode_command}
use sd_03_distributed_cache.Server.{Step, dispatch}
use sd_03_distributed_cache.Server.Session.{
  Session, Turn, goes, waits, handed_over, spent, failed, answer, handle,
}

abbrev pub encoded_all : List (List Bytes) → Bytes
encoded_all [] = []
encoded_all (r ∷ rs) = encode_command r ++ encoded_all rs

-- Two runs that differ at most in what is left in the buffer.
pub record SameButBuf {F : Type 0} (r t : Session F × Turn) : Type 0 where
  pub turn : r.1 ≡ t.1
  pub node : r.0.node ≡ t.0.node
  pub out : r.0.out ≡ t.0.out
  pub commands : r.0.commands ≡ t.0.commands

pub same_run : {F : Type 0} (r : Session F × Turn) → SameButBuf r r
same_run r = record { turn = refl; node = refl; out = refl; commands = refl }

pub chained :
    {F : Type 0} {r s t : Session F × Turn} → SameButBuf r s → SameButBuf s t → SameButBuf r t
chained h k = record {
  turn = h.turn ∙ k.turn;
  node = h.node ∙ k.node;
  out = h.out ∙ k.out;
  commands = h.commands ∙ k.commands;
}

abbrev pub Ends : Turn → Type 0
Ends goes = ⊥
Ends waits = ⊥
Ends handed_over = Unit
Ends spent = Unit
Ends (failed _) = Unit

module _ {F : Type 0} ⦃clock : Clock F⦄ (printable : Bytes → Bytes) (time : ℕ → F) where
  -- The requests, one after the other, with no parser: until one of them ends the loop.
  abbrev pub handle_all : Session F → List (List Bytes) → Session F × Turn
  handle_all s [] = (s, waits)
  handle_all s (r ∷ rs) =
      let (s', turn) = handle printable time s r in
      elim turn [ goes ↦ handle_all s' rs | other ↦ (s', other) ]

  -- A request is handled whatever the buffer is, which it leaves alone.
  pub record Handled (s : Session F) (b : Bytes) (r : List Bytes) : Type 0 where
    pub shape :
        handle printable time (record s { buf = b }) r
        ≡ (record (handle printable time s r).0 { buf = b }, (handle printable time s r).1)
    pub turns : ((handle printable time s r).1 ≡ goes) ⊎ Ends (handle printable time s r).1

  answer-Handled :
      (s : Session F) (b : Bytes) (d : Step F)
      → (answer printable time (record s { buf = b }) d
          ≡ (record (answer printable time s d).0 { buf = b }, (answer printable time s d).1))
        × (((answer printable time s d).1 ≡ goes) ⊎ Ends (answer printable time s d).1)
  unfolding answer
  answer-Handled s b (n, raise x) = (refl, inr tt)
  answer-Handled s b (n, ok reply) = (refl, inl refl)

  pub handle-Handled : (s : Session F) (b : Bytes) (r : List Bytes) → Handled s b r
  unfolding handle
  handle-Handled s b [] = record { shape = refl; turns = inl refl }
  handle-Handled s b (name ∷ args) = elim (Bool-cases (bytes_beq (upper name) (codes "SYNC"))) [
    | inl sync ↦ record { shape = rw (sync, handle) refl; turns = rw (sync, handle) (inr tt) }
    | inr other ↦
        let d = dispatch printable s.node (time s.commands) (name ∷ args) in
        record {
          shape = rw (other, handle) (answer-Handled s b d).0;
          turns = rw (other, handle) (answer-Handled s b d).1;
        }
  ]

  -- What the loop makes of a request, by how the request ends.
  abbrev pub next_requests : Session F × Turn → List (List Bytes) → Session F × Turn
  next_requests (s, goes) rs = handle_all s rs
  next_requests (s, waits) rs = (s, waits)
  next_requests (s, handed_over) rs = (s, handed_over)
  next_requests (s, spent) rs = (s, spent)
  next_requests (s, failed x) rs = (s, failed x)

  pub handle_all-next :
      (s : Session F) (r : List Bytes) (rs : List (List Bytes))
      → handle_all s (r ∷ rs) ≡ next_requests (handle printable time s r) rs
  handle_all-next s r rs = go (handle printable time s r).0 (handle printable time s r).1
    where
      go :
          (s' : Session F) (t : Turn)
          → elim t [ goes ↦ handle_all s' rs | other ↦ (s', other) ] ≡ next_requests (s', t) rs
      go s' goes = refl
      go s' waits = refl
      go s' handed_over = refl
      go s' spent = refl
      go s' (failed x) = refl

  pub handle_all-SameButBuf :
      (s : Session F) (b : Bytes) (rs : List (List Bytes))
      → SameButBuf (handle_all (record s { buf = b }) rs) (handle_all s rs)
  handle_all-SameButBuf s b [] = record { turn = refl; node = refl; out = refl; commands = refl }
  handle_all-SameButBuf s b (r ∷ rs) =
      let same : handle_all (record s { buf = b }) (r ∷ rs)
          ≡ next_requests
              (record (handle printable time s r).0 { buf = b }, (handle printable time s r).1) rs =
        handle_all-next (record s { buf = b }) r rs
        ∙ ap (λ t. next_requests t rs) (handle-Handled s b r).shape in
      rw (same, handle_all-next s r rs)
        (go (handle printable time s r).1
          (handle_all-SameButBuf (handle printable time s r).0 b rs))
    where
      go :
          (t : Turn)
          → SameButBuf
              (handle_all (record (handle printable time s r).0 { buf = b }) rs)
              (handle_all (handle printable time s r).0 rs)
          → SameButBuf
              (next_requests (record (handle printable time s r).0 { buf = b }, t) rs)
              (next_requests ((handle printable time s r).0, t) rs)
      go goes ih = ih
      go waits ih = record { turn = refl; node = refl; out = refl; commands = refl }
      go handed_over ih = record { turn = refl; node = refl; out = refl; commands = refl }
      go spent ih = record { turn = refl; node = refl; out = refl; commands = refl }
      go (failed x) ih = record { turn = refl; node = refl; out = refl; commands = refl }
