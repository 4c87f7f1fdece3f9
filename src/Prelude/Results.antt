-- ===== src/Prelude/Results.antt =====
-- Python exceptions as values.

pub data Exn : Type 0 where
  attribute_error key_error index_error value_error overflow_error : Exn
  protocol_error incomplete_read : Exn
  runtime_error import_error connection_error cache_error other_error : Exn

pub data Result {ℓ} (A : Type ℓ) : Type ℓ where
  ok : A → Result A
  raise : Exn → Result A

infixl 5 ◌>>=◌
abbrev pub ◌>>=◌ {ℓ κ} : {A : Type ℓ} {B : Type κ} → Result A → (A → Result B) → Result B
ok a >>= f = f a
raise e >>= f = raise e
