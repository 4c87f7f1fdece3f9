-- ===== src/Discovery.antt =====
-- distcache/discovery.py: how nodes are named in etcd, and the two users of it. Text is its UTF-8 bytes.
pub mod Names
pub mod Register
pub mod Leases
pub mod Watcher
pub mod Tracking
use sd_03_distributed_cache.Prelude.{
  ℕ, ◌+◌, ◌==◌, Bool, true, false, ◌||◌, Option, none, some, List, [], ◌∷◌, ◌++◌, if◌then◌else◌,
  length, drop, Bytes, bytes_eq, Exn, Result, ok, raise, value_error, runtime_error, import_error,
}
use sd_03_distributed_cache.Prelude.Int.{ℤ, pos, ltb_ℤ}
use sd_03_distributed_cache.Prelude.Dict.{Dict, insert}
use sd_03_distributed_cache.Bytes.{codes, starts_with}
use sd_03_distributed_cache.Bytes.Decimal.{show_ℤ, int}

-- The two parts around the first `c`, and around the last one.
unfoldable pub partition : ℕ → Bytes → Option (Bytes × Bytes)
partition c [] = none
partition c (x ∷ xs) =
    let rest = partition c xs in
    if x == c then some ([], xs) else elim rest [ none ↦ none | some (a, b) ↦ some (x ∷ a, b) ]

unfoldable pub rpartition : ℕ → Bytes → Option (Bytes × Bytes)
rpartition c [] = none
rpartition c (x ∷ xs) = elim (rpartition c xs) [
  | some (a, b) ↦ some (x ∷ a, b)
  | none ↦ if x == c then some ([], xs) else none
]

abbrev pub is_empty : Bytes → Bool
is_empty [] = true
is_empty (_ ∷ _) = false

-- `_parse_endpoint`; where there is no colon the port is empty.
unfoldable pub parse_endpoint : Bytes → Result (Bytes × ℤ)
unfolding partition
parse_endpoint ep = elim (partition b':' ep) [
  | none ↦ raise value_error
  | some (host, port) ↦
      if is_empty host || is_empty port
      then raise value_error
      else elim (int port) [ none ↦ raise value_error | some n ↦ ok (host, n) ]
]

-- `_node_key`
unfoldable pub node_key : Bytes → Bytes → ℤ → Bytes
node_key prefix host port = prefix ++ (host ++ (codes ":" ++ show_ℤ port))

-- `_key_to_host_port`; where there is no colon the host is empty.
unfoldable pub host_port : Bytes → Option (Bytes × ℤ)
unfolding rpartition
host_port suffix = elim (rpartition b':' suffix) [
  | none ↦ none
  | some (host, port) ↦
      if is_empty host || is_empty port
      then none
      else elim (int port) [ none ↦ none | some n ↦ some (host, n) ]
]

unfoldable pub key_to_host_port : Bytes → Bytes → Option (Bytes × ℤ)
unfolding host_port
key_to_host_port key prefix =
    if starts_with prefix key then host_port (drop (length prefix) key) else none

-- The client of etcd, which the program gets from a library: what each call makes of the world, and
-- what it returns or raises.
pub record Etcd (W Handle Lease : Type 0) : Type 0 where
  pub client : W → Bytes → ℤ → W × Result Handle
  pub lease : W → Handle → ℤ → W × Result Lease
  pub put : W → Handle → Bytes → Bytes → Lease → W × Option Exn
  pub refresh : W → Lease → W × Option Exn
  pub revoke : W → Lease → W × Option Exn
  pub close : W → Handle → W × Option Exn
  pub get_prefix : W → Handle → Bytes → W × Result (List Bytes)
  pub add_watch : W → Handle → Bytes → W × Result ℕ
  pub cancel_watch : W → Handle → ℕ → W × Option Exn

-- A value of the registered JSON object.
pub data Value : Type 0 where
  text : Bytes → Value
  number : ℤ → Value

-- `keepalive` is whether the thread was started and not joined, `stopping` is the event.
pub record EtcdRegistry (Handle Lease : Type 0) : Type 0 where
  pub endpoints : List Bytes
  pub prefix : Bytes
  pub handle : Option Handle
  pub held : Option Lease
  pub key : Option Bytes
  pub keepalive : Bool
  pub stopping : Bool

-- `if v is not None: body[k] = v`
unfoldable pub add_meta : Dict Bytes Value → List (Bytes × Option Value) → Dict Bytes Value
add_meta body [] = body
add_meta body ((k, none) ∷ meta) = add_meta body meta
add_meta body ((k, some v) ∷ meta) = add_meta (insert k v body) meta

module _ {W Handle Lease : Type 0} (etcd : Etcd W Handle Lease) (enabled : Bool) where
  -- `_connect`; `enabled` is whether the library is installed.
  unfoldable pub connect : W → List Bytes → W × Result Handle
  unfolding parse_endpoint
  connect w endpoints =
      if enabled
      then elim endpoints [
        | [] ↦ (w, raise value_error)
        | ep ∷ _ ↦ elim (parse_endpoint ep) [
          | raise x ↦ (w, raise x)
          | ok (host, port) ↦ etcd.client w host port
        ]
      ]
      else (w, raise import_error)

  unfoldable pub new_registry : List Bytes → Bytes → Result (EtcdRegistry Handle Lease)
  new_registry endpoints prefix =
      if enabled
      then ok (record {
        endpoints = endpoints;
        prefix = prefix;
        handle = none;
        held = none;
        key = none;
        keepalive = false;
        stopping = false;
      })
      else raise import_error
