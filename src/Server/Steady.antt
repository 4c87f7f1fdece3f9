-- ===== src/Server/Steady.antt =====
-- `_handle_client`, on whatever bytes a client sends.
use sd_03_distributed_cache.Prelude.{
  ℕ, zero, suc, ◌<◌, ◌≡◌, refl, ◌⊎◌, inl, inr, Bool-cases, List, [], ◌∷◌, ◌++◌, Bytes, bytes_beq,
  ok, raise, overflow_error,
}
use sd_03_distributed_cache.Clock.{Clock}
use sd_03_distributed_cache.Bytes.{codes, upper}
use sd_03_distributed_cache.Server.Pipeline.{next_drain, drain-next}
use sd_03_distributed_cache.Protocol.{Parsed, more, command, error, parse_one}
use sd_03_distributed_cache.Lru.{Mode}
use sd_03_distributed_cache.Server.{Step, dispatch}
use sd_03_distributed_cache.Server.Bounded.{InSize, dispatch-Sound}
use sd_03_distributed_cache.Server.Session.{
  Session, Turn, goes, waits, handed_over, spent, failed, answer, handle, drain, serve,
}

-- No exception but that of a deadline out of range ends the loop.
abbrev pub IsOrderly : Turn → Type 0
IsOrderly (failed x) = x ≡ overflow_error
IsOrderly goes = Unit
IsOrderly waits = Unit
IsOrderly handed_over = Unit
IsOrderly spent = Unit

abbrev Fine : {F : Type 0} → ℕ → Mode → Session F × Turn → Type 0
Fine {F} size m r = InSize F size m r.0.node.store × IsOrderly r.1

module _ {F : Type 0} ⦃clock : Clock F⦄ {size : ℕ} {m : Mode} (positive : 0 < size)
    (printable : Bytes → Bytes) (time : ℕ → F) where
  answer-Fine :
      (s : Session F) (d : Step F)
      → InSize F size m d.0.store
        × (((reply : Bytes) × (d.1 ≡ ok reply)) ⊎ (d.1 ≡ raise overflow_error))
      → Fine size m (answer printable time s d)
  unfolding answer
  answer-Fine s (n, raise x) (i, inl (reply, e)) = (i, cc e)
  answer-Fine s (n, raise x) (i, inr e) = (i, cc e)
  answer-Fine s (n, ok reply) (i, a) = (i, tt)

  handle-Fine :
      (s : Session F) (r : List Bytes)
      → InSize F size m s.node.store
      → Fine size m (handle printable time s r)
  unfolding handle
  handle-Fine s [] i = (i, tt)
  handle-Fine s (name ∷ args) i = elim (Bool-cases (bytes_beq (upper name) (codes "SYNC"))) [
    | inl sync ↦ rw (sync, handle) (i, tt)
    | inr other ↦
        rw (other, handle)
          (answer-Fine s (dispatch printable s.node (time s.commands) (name ∷ args))
            (dispatch-Sound positive printable s.node (time s.commands) name args i))
  ]

  drain-Fine :
      (fuel : ℕ) (s : Session F)
      → InSize F size m s.node.store
      → Fine size m (drain printable time fuel s)
  unfolding drain
  drain-Fine zero s i = (i, tt)
  drain-Fine (suc fuel) s i = go (λ s' j. drain-Fine fuel s' j) (parse_one s.buf) refl
    where
      After : Type 0
      After =
          (s' : Session F)
          → InSize F size m s'.node.store
          → Fine size m (drain printable time fuel s')

      next :
          After
          → (t : Session F × Turn) → Fine size m t
          → Fine size m (next_drain printable time fuel t)
      next after (s', goes) f = after s' f.0
      next after (s', waits) f = f
      next after (s', handed_over) f = f
      next after (s', spent) f = f
      next after (s', failed x) f = f

      go :
          After
          → (p : Parsed) → parse_one s.buf ≡ p
          → Fine size m (drain printable time (suc fuel) s)
      go after more e = rw (e, drain) (i, tt)
      go after (error msg) e = rw (e, drain) (i, tt)
      go after (command args rest) e = rw (drain-next printable time fuel s args rest e) (
          next after (handle printable time (record s { buf = rest }) args)
            (handle-Fine (record s { buf = rest }) args i))

  -- On a node with a well-formed store of positive size that is within its size, a connection leaves
  -- the store so, whatever bytes it sends, in whatever chunks, for any number of rounds. The only
  -- exception that ends it is the OverflowError of a deadline out of range.
  pub serve-InSize :
      (fuel : ℕ) (s : Session F) (chunks : List Bytes)
      → InSize F size m s.node.store
      → InSize F size m (serve printable time fuel s chunks).0.node.store
        × IsOrderly (serve printable time fuel s chunks).1
  unfolding serve
  serve-InSize fuel s [] i = (i, tt)
  serve-InSize fuel s ([] ∷ chunks) i = (i, tt)
  serve-InSize fuel s ((c ∷ chunk) ∷ chunks) i =
      next (λ s' j. serve-InSize fuel s' chunks j) d.0 d.1
        (drain-Fine fuel (record s { buf = s.buf ++ c ∷ chunk }) i)
    where
      d : Session F × Turn
      d = drain printable time fuel (record s { buf = s.buf ++ c ∷ chunk })

      next :
          ((s' : Session F)
            → InSize F size m s'.node.store
            → Fine {F = F} size m (serve printable time fuel s' chunks))
          → (s' : Session F) (t : Turn) → Fine {F = F} size m (s', t)
          → Fine {F = F} size m
              (elim t [ waits ↦ serve printable time fuel s' chunks | other ↦ (s', other) ])
      next after s' goes f = f
      next after s' waits f = after s' f.0
      next after s' handed_over f = f
      next after s' spent f = f
      next after s' (failed x) f = f
