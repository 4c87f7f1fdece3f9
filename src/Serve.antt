-- ===== src/Serve.antt =====
-- serve.py: a node with its master, its metrics and its entry in etcd. What argparse makes of the command
-- line is a value, and printing is left out. Text is its UTF-8 bytes.
pub mod Published
pub mod Starting
pub mod Entry
use sd_03_distributed_cache.Prelude.{
  ℕ, Bool, true, false, not, Option, none, some, List, [], ◌∷◌, ◌++◌, ◌==◌, if◌then◌else◌, Bytes,
  Exn, Result, ok, raise, value_error,
}
use sd_03_distributed_cache.Prelude.Int.{ℤ}
use sd_03_distributed_cache.Prelude.Dict.{Dict}
use sd_03_distributed_cache.Bytes.{codes, is_space}
use sd_03_distributed_cache.Bytes.Decimal.{int}
use sd_03_distributed_cache.Metrics
use sd_03_distributed_cache.Discovery.{
  Etcd, EtcdRegistry, Value, text, number, rpartition, is_empty, new_registry,
}
use sd_03_distributed_cache.Discovery.Register.{body, register, deregister}
use sd_03_distributed_cache.Server
use sd_03_distributed_cache.Server.Lifecycle.{Host, new_host, follow, start, stop}

pub record Args : Type 0 where
  pub host : Bytes
  pub port : ℤ
  pub maxsize : ℤ
  pub role : Bytes
  pub master : Option Bytes
  pub metrics_port : ℤ
  pub etcd : Option Bytes
  pub shard : Option Bytes
  pub lease_ttl : ℤ

-- `s.split(c)` of one character.
unfoldable pub split_on : ℕ → Bytes → List Bytes
split_on c [] = [] ∷ []
split_on c (x ∷ xs) =
    let rest = split_on c xs in
    if x == c then [] ∷ rest else elim rest [ [] ↦ (x ∷ []) ∷ [] | w ∷ ws ↦ (x ∷ w) ∷ ws ]

-- `s.strip()`, from the left and from the right.
unfoldable pub lstrip : Bytes → Bytes
unfolding is_space
lstrip [] = []
lstrip (x ∷ xs) = let rest = lstrip xs in if is_space x then rest else x ∷ xs

unfoldable pub rstrip : Bytes → Bytes
unfolding is_space
rstrip [] = []
rstrip (x ∷ xs) = elim (rstrip xs) [ [] ↦ if is_space x then [] else x ∷ [] | y ∷ ys ↦ x ∷ y ∷ ys ]

-- `[e.strip() for e in s.split(",") if e.strip()]`
unfoldable pub stripped : List Bytes → List Bytes
unfolding lstrip rstrip
stripped [] = []
stripped (e ∷ es) =
    let rest = stripped es in let e' = rstrip (lstrip e) in if is_empty e' then rest else e' ∷ rest

unfoldable pub endpoints_of : Bytes → List Bytes
unfolding split_on stripped
endpoints_of s = stripped (split_on b',' s)

-- `if args.master`, and what `rsplit(":", 1)` and `int` make of it.
unfoldable pub with_master : {F : Type 0} → Host F → Option Bytes → Result (Host F)
unfolding follow rpartition
with_master h none = ok h
with_master h (some []) = ok h
with_master h (some (x ∷ xs)) = elim (rpartition b':' (x ∷ xs)) [
  | none ↦ raise value_error
  | some (mh, mp) ↦ elim (int mp) [ none ↦ raise value_error | some n ↦ ok (follow h mh n) ]
]

-- A value of `meta` that may be `None`.
abbrev pub optional_text : Option Bytes → Option Value
optional_text none = none
optional_text (some t) = some (text t)

abbrev pub meta_of : Args → List (Bytes × Option Value)
meta_of args =
    (codes "role", some (text args.role))
    ∷ (codes "shard", optional_text args.shard)
    ∷ (codes "metrics_port", some (number args.metrics_port))
    ∷ []

-- `_DEFAULT_PREFIX`
abbrev pub default_prefix : Bytes
default_prefix = codes "/distcache/nodes/"

-- What the libraries do: `start_server` with `getsockname`, `start_http_server`, `json.dumps`, and
-- whether the two optional libraries are installed.
pub record Libraries : Type 0 where
  pub bind : Bytes → ℤ → Result {0} ℤ
  pub start_http_server : ℤ → Result {0} Unit
  pub dumps : Dict Bytes Value → Bytes
  pub prometheus : Bool
  pub etcd3 : Bool

-- The node that runs, with its entry in etcd.
pub record Started (F Handle Lease : Type 0) : Type 0 where
  pub host : Host F
  pub registry : Option (EtcdRegistry Handle Lease)

-- The node, its master and its start.
unfoldable pub start_node : {F : Type 0} → Libraries → Args → Result (Host F)
unfolding Server.init new_host with_master start
start_node libraries args = elim (Server.init args.maxsize args.role) [
  | raise x ↦ raise x
  | ok node ↦ elim (with_master (new_host args.host args.port node) args.master) [
    | raise x ↦ raise x
    | ok h ↦
        let (h', failed) = start libraries.bind h in elim failed [ none ↦ ok h' | some x ↦ raise x ]
  ]
]

module _ {W Handle Lease : Type 0} (etcd : Etcd W Handle Lease) (libraries : Libraries)
    {F : Type 0} where
  -- `if args.etcd`, for a node that has started; `ts` is `int(time.time())`.
  unfoldable pub enter_node : W → Args → Host F → ℤ → W × Result (Started F Handle Lease)
  unfolding endpoints_of new_registry register body
  enter_node w args h ts = elim args.etcd [
    | none ↦ (w, ok (record { host = h; registry = none }))
    | some [] ↦ (w, ok (record { host = h; registry = none }))
    | some (x ∷ xs) ↦
        elim (new_registry etcd libraries.etcd3 (endpoints_of (x ∷ xs)) default_prefix) [
          | raise x ↦ (w, raise x)
          | ok g ↦
              let value = libraries.dumps (body h.host h.port ts (meta_of args)) in
              let (w', g', entered) =
                register etcd libraries.etcd3 w g h.host h.port args.lease_ttl value in
              elim entered [
                | raise x ↦ (w', raise x)
                | ok key ↦ (w', ok (record { host = h; registry = some g' }))
              ]
        ]
  ]

  -- `main`, up to where it waits.
  unfoldable pub main : W → Args → ℤ → W × Result (Started F Handle Lease)
  unfolding Metrics.start start_node enter_node
  main w args ts =
      elim (Metrics.start libraries.prometheus libraries.start_http_server args.metrics_port) [
        | raise x ↦ (w, raise x)
        | ok _ ↦ elim (start_node libraries args) [
          | raise x ↦ (w, raise x)
          | ok h ↦ enter_node w args h ts
        ]
      ]

  -- The `finally` of `main`: `deregister` drops the exceptions of the library.
  unfoldable pub finish : W → Started F Handle Lease → W × Host F × Option Exn
  unfolding deregister stop
  finish w s =
      let w' : W = elim s.registry [
        | none ↦ w
        | some g ↦ (deregister etcd libraries.etcd3 w g).0
      ] in
      let (h, raised) = stop s.host in (w', h, raised)
