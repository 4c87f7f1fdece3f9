-- ===== src/Tests/ProtocolTests.antt =====
-- Runs of the parser, and its theorems at one command.
use sd_03_distributed_cache.Bytes.Decimal.{show}
use sd_03_distributed_cache.Protocol.{encode_args, more, encode_command, command, parse_one}
use sd_03_distributed_cache.Protocol.Incremental.{parse_one-Short}
use sd_03_distributed_cache.Prelude.{refl, arith, take, drop, ◌≡◌, [], ◌∷◌, ◌++◌, List, Bytes}
use sd_03_distributed_cache.Bytes.{codes}
use sd_03_distributed_cache.Protocol.RoundTrip.{parse_one-encode_command}

abbrev get_a : List Bytes
get_a = codes "GET" ∷ codes "a" ∷ []

parse_one-encode_command_example :
    parse_one (encode_command get_a ++ codes "PING") ≡ command get_a (codes "PING")
parse_one-encode_command_example = parse_one-encode_command get_a (codes "PING")

parse_one-Short_example : parse_one (take 9 (encode_command get_a)) ≡ more
unfolding encode_command encode_args show
parse_one-Short_example =
    parse_one-Short get_a (take 9 (encode_command get_a))
      (drop 9 (encode_command get_a), refl, omega arith)
