-- ===== src/Clock.antt =====
-- Python's floats as far as the program uses them: seconds since the epoch, as `time.time()`
-- returns them. antt has no floats, so the type and its operations are a parameter. An operation
-- that raises OverflowError has no value.
use sd_03_distributed_cache.Prelude.{Bool, Option}
use sd_03_distributed_cache.Prelude.Int.{ℤ}

pub record Clock (F : Type 0) : Type 0 where
  -- a <= b
  pub le : F → F → Bool
  -- t + n, for an int n
  pub plus : F → ℤ → Option F
  -- int(t * 1000)
  pub millis : F → Option ℤ
  -- ms / 1000.0
  pub seconds : ℤ → Option F
  -- bool(t), which is false at 0.0
  pub truthy : F → Bool
