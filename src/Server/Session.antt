-- ===== src/Server/Session.antt =====
-- `_handle_client`: the loop over what a connection receives. What comes is a list of chunks, as `read`
-- returns them; an empty chunk, or none left, ends the loop.
use sd_03_distributed_cache.Prelude.{
  ℕ, zero, suc, ◌+◌, List, [], ◌∷◌, ◌++◌, if◌then◌else◌, Bytes, bytes_beq, Exn, ok, raise,
}
use sd_03_distributed_cache.Clock.{Clock}
use sd_03_distributed_cache.Bytes.{codes, upper}
use sd_03_distributed_cache.Protocol.{more, command, error, encode_error, parse_one, feed}
use sd_03_distributed_cache.Server.{Node, Step, dispatch}

-- `out` is what was written, `commands` how many commands were dispatched.
pub record Session (F : Type 0) : Type 0 where
  pub node : Node F
  pub buf : Bytes
  pub out : Bytes
  pub commands : ℕ

-- How a round ends: the loop goes on, it waits for more bytes, the connection is handed over to the
-- replication, an exception ends it, or the fuel is spent.
pub data Turn : Type 0 where
  goes waits handed_over spent : Turn
  failed : Exn → Turn

-- `time n` is what `time.time()` returns to the `n`-th command.
module _ {F : Type 0} ⦃clock : Clock F⦄ (printable : Bytes → Bytes) (time : ℕ → F) where
  unfoldable pub answer : Session F → Step F → Session F × Turn
  answer s (n, raise x) = (record s { node = n; commands = s.commands + 1 }, failed x)
  answer s (n, ok reply) =
      (record s { node = n; out = s.out ++ reply; commands = s.commands + 1 }, goes)

  -- What one parsed request does.
  unfoldable pub handle : Session F → List Bytes → Session F × Turn
  unfolding answer
  handle s [] = (s, goes)
  handle s (name ∷ args) =
      if bytes_beq (upper name) (codes "SYNC")
      then (s, handed_over)
      else answer s (dispatch printable s.node (time s.commands) (name ∷ args))

  -- The inner loop, on fuel.
  unfoldable pub drain : ℕ → Session F → Session F × Turn
  unfolding handle
  drain zero s = (s, spent)
  drain (suc fuel) s = elim (parse_one s.buf) [
    | more ↦ (s, waits)
    | error msg ↦ (record s { buf = []; out = s.out ++ encode_error (codes "ERR " ++ msg) }, waits)
    | command args rest ↦
        let (s', turn) = handle (record s { buf = rest }) args in
        elim turn [ goes ↦ drain fuel s' | other ↦ (s', other) ]
  ]

  -- The outer loop, with fuel for each chunk.
  unfoldable pub serve : ℕ → Session F → List Bytes → Session F × Turn
  unfolding drain
  serve fuel s [] = (s, waits)
  serve fuel s ([] ∷ chunks) = (s, waits)
  serve fuel s ((c ∷ chunk) ∷ chunks) =
      let (s', turn) = drain fuel (record s { buf = feed s.buf (c ∷ chunk) }) in
      elim turn [ waits ↦ serve fuel s' chunks | other ↦ (s', other) ]
