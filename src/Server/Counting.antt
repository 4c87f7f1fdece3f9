-- ===== src/Server/Counting.antt =====
-- distcache/server.py: what a node tells its metrics of its commands and of its state.
use sd_03_distributed_cache.Prelude.{
  ℕ, zero, suc, ◌≡◌, refl, arith, false, Option, none, some, List, [], ◌∷◌, ◌++◌, if◌then◌else◌,
  length, Bytes, Result, ok, raise,
}
use sd_03_distributed_cache.Prelude.Int.{ℤ, pos, negsuc, ◌-ℤ◌}
use sd_03_distributed_cache.Clock.{Clock}
use sd_03_distributed_cache.Bytes.{codes, upper, starts_with, crlf}
use sd_03_distributed_cache.Bytes.Decimal.{show, show-IsLed, IsLed}
use sd_03_distributed_cache.Protocol.{encode_bulk}
use sd_03_distributed_cache.Lru.{Mode, len}
use sd_03_distributed_cache.Lru.Spec.{Entry, gotten}
use sd_03_distributed_cache.Lru.Refine.{Represents}
use sd_03_distributed_cache.Metrics.{
  Call, inc, time, set, ops_total, op_latency, cache_size, cache_maxsize, repl_offset, repl_lag,
  role_gauge,
}
use sd_03_distributed_cache.Server.{Node, is_master, dispatch, classify_result}
use sd_03_distributed_cache.Server.Failover.{get-reply}
use sd_03_distributed_cache.Server.Lifecycle.{ReplicaClient, Host}

-- `_cmd_label`, where `ascii` is `decode("ascii", errors="replace")`.
unfoldable pub cmd_label : (Bytes → Bytes) → List Bytes → Bytes
cmd_label ascii [] = codes "UNKNOWN"
cmd_label ascii (name ∷ args) = ascii (upper name)

-- `applied_offset` and `last_seen_offset`, or 0 where there is no replica client.
abbrev pub applied : Option ReplicaClient → ℤ
applied none = pos 0
applied (some c) = c.applied_offset

abbrev pub seen : Option ReplicaClient → ℤ
seen none = pos 0
seen (some c) = c.last_seen_offset

-- `max(n, 0)`
abbrev pub max_zero : ℤ → ℤ
max_zero (pos n) = pos n
max_zero (negsuc n) = pos 0

unfoldable pub promote_calls : List Call
promote_calls = set role_gauge [] (pos 1) ∷ []

module _ {F : Type 0} where
  -- `role_gauge.set(1 if self.is_master else 0)`
  abbrev pub role_call : Node F → Call
  role_call n = set role_gauge [] (if is_master n then pos 1 else pos 0)

  -- What `__init__` sets; `promote_calls` is what `promote` does.
  unfoldable pub init_calls : ℤ → Node F → List Call
  init_calls maxsize n = set cache_maxsize [] maxsize ∷ role_call n ∷ []

  -- A round of `_metrics_sample_loop`.
  unfoldable pub metrics_sample : Host F → List Call
  unfolding len is_master
  metrics_sample h =
      set cache_size [] (pos (len h.node.store))
      ∷ role_call h.node
      ∷ (if is_master h.node
          then set repl_offset (codes "master" ∷ []) (pos h.node.replicator.offset)
            ∷ set repl_lag [] (pos 0)
            ∷ []
          else set repl_offset (codes "slave" ∷ []) (applied h.replica_client)
            ∷ set repl_lag [] (max_zero (seen h.replica_client -ℤ applied h.replica_client))
            ∷ [])

module _ {F : Type 0} ⦃clock : Clock F⦄ where
  -- `_dispatch`. The evictions that `_do_set` and `_do_setex` count are left out.
  unfoldable pub counted :
      (Bytes → Bytes)
      → (Bytes → Bytes)
      → Node F
      → F
      → List Bytes
      → Node F × Result Bytes × List Call
  unfolding dispatch cmd_label classify_result
  counted ascii printable n now args =
      let (n', resp) = dispatch printable n now args in
      elim resp [
        | raise x ↦ (n', raise x, time op_latency (cmd_label ascii args ∷ []) ∷ [])
        | ok reply ↦ (
          n',
          ok reply,
          time op_latency (cmd_label ascii args ∷ [])
              ∷ inc ops_total (cmd_label ascii args ∷ classify_result reply ∷ [])
              ∷ [],
        )
      ]

abbrev pub get_result : Option Bytes → Bytes
get_result none = codes "miss"
get_result (some v) = codes "hit"

led-starts_with : (s rest : Bytes) → IsLed s → starts_with (codes "-1") (s ++ rest) ≡ false
unfolding starts_with
led-starts_with [] rest l = absurd l
led-starts_with (c ∷ s) rest l = ground (arith, l)

-- A number does not begin with a minus.
show-starts_with : (n : ℕ) (rest : Bytes) → starts_with (codes "-1") (show n ++ rest) ≡ false
unfolding starts_with show
show-starts_with zero rest = refl
show-starts_with (suc n) rest =
    led-starts_with (show (suc n)) rest (show-IsLed (suc n) (omega arith))

classify-bulk : (o : Option Bytes) → classify_result (encode_bulk o) ≡ get_result o
unfolding classify_result encode_bulk starts_with
classify-bulk none = refl
classify-bulk (some v) = rw (show-starts_with (length v) (crlf ++ (v ++ crlf))) refl

module _ {F : Type 0} ⦃clock : Clock F⦄ where
  -- A GET on a well-formed store is counted under its name, once, as a hit where the entries have a live
  -- value for the key and as a miss where they have none, and the counting changes neither the node nor the
  -- reply.
  pub counted-gotten :
      {size : ℕ} {m : Mode} {es : List (Entry F)} (n : Node F)
      → Represents size m n.store es
      → (ascii printable : Bytes → Bytes) (now : F) (name k : Bytes) → upper name ≡ codes "GET"
      → counted ascii printable n now (name ∷ k ∷ []) ≡ (
        (dispatch printable n now (name ∷ k ∷ [])).0,
        ok (encode_bulk (gotten m now k es).1),
        time op_latency (ascii (codes "GET") ∷ [])
            ∷ inc ops_total (ascii (codes "GET") ∷ get_result (gotten m now k es).1 ∷ [])
            ∷ [],
      )
  unfolding counted cmd_label
  counted-gotten n r ascii printable now name k is_get =
      let e = get-reply printable name is_get n now k r in
      rw (e, counted) (rw is_get (rw (classify-bulk (gotten _ now k _).1) refl))
