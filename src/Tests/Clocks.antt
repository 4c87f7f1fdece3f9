-- ===== src/Tests/Clocks.antt =====
-- A clock for the tests: a time is a whole number of milliseconds.
use sd_03_distributed_cache.Prelude.{zero, ◌+◌, ◌*◌, Bool, true, false, not, some}
use sd_03_distributed_cache.Prelude.Int.{ℤ, pos, negsuc, ◌+ℤ◌, ltb_ℤ}
use sd_03_distributed_cache.Clock.{Clock}

abbrev thousand : ℤ → ℤ
thousand (pos n) = pos (n * 1000)
thousand (negsuc n) = negsuc (n * 1000 + 999)

abbrev is_zero : ℤ → Bool
is_zero (pos zero) = true
is_zero _ = false

instance abbrev pub ticking : Clock ℤ
ticking = record {
  le = λ a b. not (ltb_ℤ b a);
  plus = λ t n. some (t +ℤ thousand n);
  millis = λ t. some t;
  seconds = λ ms. some ms;
  truthy = λ t. not (is_zero t);
}
