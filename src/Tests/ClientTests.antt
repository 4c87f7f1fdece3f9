-- ===== src/Tests/ClientTests.antt =====
-- Replies that come in chunks.
use sd_03_distributed_cache.Prelude.{refl, some, [], ◌∷◌}
use sd_03_distributed_cache.Bytes.{codes}
use sd_03_distributed_cache.Bytes.Decimal.{show}
use sd_03_distributed_cache.Protocol.{encode_bulk}
use sd_03_distributed_cache.Client.Reading.{Stream, Reads, read_reply}
use sd_03_distributed_cache.Client.Replies.{bulk, outcome, read_reply-encoded}

-- "$3", "\r", "\na\r\n", "\r\n+OK"
abbrev in_parts : Stream
in_parts = record {
  buf = codes "$3";
  chunks = (13 ∷ []) ∷ (10 ∷ b'a' ∷ 13 ∷ 10 ∷ []) ∷ (13 ∷ 10 ∷ b'+' ∷ b'O' ∷ b'K' ∷ []) ∷ [];
}

read_reply-encoded_example :
    Reads (read_reply in_parts) (outcome (bulk (some (b'a' ∷ 13 ∷ 10 ∷ [])))) (codes "+OK")
unfolding encode_bulk show
read_reply-encoded_example =
    read_reply-encoded (bulk (some (b'a' ∷ 13 ∷ 10 ∷ []))) in_parts (codes "+OK") tt tt refl
