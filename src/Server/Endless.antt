-- ===== src/Server/Endless.antt =====
-- `_handle_client` on a request with a negative bulk length.
use sd_03_distributed_cache.Prelude.{
  ℕ, zero, suc, ◌+◌, ◌≡◌, refl, ap, ◌∙◌, arith, [], ◌∷◌, Bytes, bytes_beq,
}
use sd_03_distributed_cache.Clock.{Clock}
use sd_03_distributed_cache.Bytes.{slice, upper}
use sd_03_distributed_cache.Protocol.{command, parse_one}
use sd_03_distributed_cache.Protocol.Negative.{negative_request, parse_one-negative_request}
use sd_03_distributed_cache.Server.Session.{Session, spent, drain, handle, answer}
use sd_03_distributed_cache.Server.{dispatch}

-- It is read as a command with an empty name, and stays in the buffer.
parse_one-endless : parse_one negative_request ≡ command ([] ∷ []) negative_request
unfolding slice
parse_one-endless = parse_one-negative_request []

module _ {F : Type 0} ⦃clock : Clock F⦄ (printable : Bytes → Bytes) (time : ℕ → F) where
  -- The bytes of this request alone, `*1` and `$-12` on two lines, keep the inner loop of a connection
  -- going: whatever the number of rounds, it answers a command in every one of them, and has
  -- neither ended nor come to wait for more bytes.
  pub drain-endless :
      (fuel : ℕ) (s : Session F)
      → s.buf ≡ negative_request
      → ((drain printable time fuel s).1 ≡ spent)
        × ((drain printable time fuel s).0.commands ≡ s.commands + fuel)
        × ((drain printable time fuel s).0.buf ≡ negative_request)
  unfolding drain handle answer dispatch upper bytes_beq
  drain-endless zero s h = (refl, omega arith, h)
  drain-endless (suc fuel) s h =
      let e : parse_one s.buf ≡ command ([] ∷ []) negative_request =
        ap parse_one h ∙ parse_one-endless in
      let (turn, count, left) =
        drain-endless fuel (handle printable time (record s { buf = negative_request }) ([] ∷ [])).0
          refl in
      rw (e, drain) (turn, count ∙ omega arith, left)
