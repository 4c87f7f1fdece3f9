-- ===== src/Replication/Effects.antt =====
-- Effects, their encoding as commands, and the frames that carry them.
use sd_03_distributed_cache.Prelude.{
  Option, none, some, List, [], ◌∷◌, ◌++◌, if◌then◌else◌, length, Bytes, bytes_beq, Result, ok,
  raise, index_error, value_error, ◌>>=◌,
}
use sd_03_distributed_cache.Prelude.Int.{ℤ, pos}
use sd_03_distributed_cache.Bytes.{codes, crlf, upper}
use sd_03_distributed_cache.Bytes.Decimal.{show, show_ℤ, int}
use sd_03_distributed_cache.Protocol.{encode_command}

-- ("SET", key, value, ms), ("DEL", key) and ("PEXPIREAT", key, ms); ms = 0 in a SET is no deadline.
pub data Effect : Type 0 where
  set : Bytes → Bytes → ℤ → Effect
  del : Bytes → Effect
  pexpireat : Bytes → ℤ → Effect

unfoldable pub effect_to_payload : Effect → Bytes
effect_to_payload (set key value ms) = encode_command (codes "SET" ∷ key ∷ value ∷ show_ℤ ms ∷ [])
effect_to_payload (del key) = encode_command (codes "DEL" ∷ key ∷ [])
effect_to_payload (pexpireat key ms) = encode_command (codes "PEXPIREAT" ∷ key ∷ show_ℤ ms ∷ [])

-- A number that `int` has read, or its exception.
abbrev pub or_value_error : Option ℤ → Result ℤ
or_value_error none = raise value_error
or_value_error (some n) = ok n

-- The three branches, on what stands behind the name.
unfoldable pub set_of_args : List Bytes → Result Effect
set_of_args (key ∷ value ∷ ms ∷ _) = do n ← or_value_error (int ms); ok (set key value n)
set_of_args (key ∷ value ∷ []) = ok (set key value (pos 0))
set_of_args _ = raise index_error

unfoldable pub del_of_args : List Bytes → Result Effect
del_of_args (key ∷ _) = ok (del key)
del_of_args [] = raise index_error

unfoldable pub pexpireat_of_args : List Bytes → Result Effect
pexpireat_of_args (key ∷ ms ∷ _) = do n ← or_value_error (int ms); ok (pexpireat key n)
pexpireat_of_args _ = raise index_error

unfoldable pub payload_to_effect : List Bytes → Result Effect
unfolding set_of_args del_of_args pexpireat_of_args
payload_to_effect [] = raise index_error
payload_to_effect (op ∷ args) =
    if bytes_beq (upper op) (codes "SET")
    then set_of_args args
    else if bytes_beq (upper op) (codes "DEL")
    then del_of_args args
    else if bytes_beq (upper op) (codes "PEXPIREAT")
    then pexpireat_of_args args
    else raise value_error

-- `_frame_effect`
unfoldable pub frame_effect : Effect → Bytes
frame_effect e =
    codes "E " ++ (show (length (effect_to_payload e)) ++ (crlf ++ (effect_to_payload e ++ crlf)))
