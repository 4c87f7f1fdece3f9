-- ===== src/Server.antt =====
-- distcache/server.py: the commands of a node. A command runs with no wait inside, so that it is one
-- step from a node to a node with a reply, or an exception. What goes to the metrics is in `Counting`.
-- `time.time()` is read at most once by a command: its value is the argument `now`.
use sd_03_distributed_cache.Prelude.{
  ℕ, zero, suc, ◌+◌, Bool, true, false, Option, none, some, List, [], ◌∷◌, ◌++◌, if◌then◌else◌,
  Bytes, bytes_beq, Result, ok, raise, overflow_error, index_error, ◌>>=◌, ◌==◌, Exn,
}
use sd_03_distributed_cache.Prelude.Int.{ℤ, pos}
use sd_03_distributed_cache.Clock.{Clock}
use sd_03_distributed_cache.Bytes.{codes, upper, starts_with}
use sd_03_distributed_cache.Bytes.Decimal.{int}
use sd_03_distributed_cache.Protocol.{encode_simple, encode_error, encode_bulk}
use sd_03_distributed_cache.Lru.{LruCache, Mode, authoritative, logical, sample_expired}
use sd_03_distributed_cache.Lru
use sd_03_distributed_cache.Replication.Effects.{Effect}
use sd_03_distributed_cache.Replication.Effects
use sd_03_distributed_cache.Replication.Master.{Replicator, append_batch}
use sd_03_distributed_cache.Replication.Master
pub mod Roles
pub mod Rule
pub mod Bounded
pub mod Logged
pub mod Session
pub mod Endless
pub mod Broken
pub mod Requests
pub mod Pipeline
pub mod Steady
pub mod Mirror
pub mod Pairs
pub mod Follow
pub mod CatchUp
pub mod Expiry
pub mod Convergence
pub mod Failover
pub mod FirstRound
pub mod Interrupted
pub mod Stores
pub mod Recovery
pub mod Whole
pub mod Lifecycle
pub mod States
pub mod Reached
pub mod Stopping
pub mod Counting
pub mod Snapshots
pub mod FullSync

-- What the commands use of a node. `Server.Lifecycle` has its tasks and its connection to a master.
pub record Node (F : Type 0) : Type 0 where
  pub role : Bytes
  pub store : LruCache F
  pub replicator : Replicator

unfoldable pub is_master : {F : Type 0} → Node F → Bool
is_master n = bytes_beq n.role (codes "master")

unfoldable pub init : {F : Type 0} → ℤ → Bytes → Result (Node F)
init maxsize role = do
  store ← Lru.init maxsize (if bytes_beq role (codes "master") then authoritative else logical)
  ok (record { role = role; store = store; replicator = Master.init })

unfoldable pub promote : {F : Type 0} → Node F → Node F
promote n = record n { role = codes "master"; store = record n.store { mode = authoritative } }

-- A command's node and reply.
abbrev pub Step : Type 0 → Type 0
Step F = Node F × Result Bytes

abbrev pub wrong_args : Bytes → Bytes
wrong_args name = encode_error (codes "ERR wrong number of arguments for '" ++ (name ++ codes "'"))

abbrev pub not_integer : Bytes
not_integer = encode_error (codes "ERR value is not an integer or out of range")

abbrev pub no_such_key : Bytes
no_such_key = encode_error (codes "ERR no such key")

abbrev pub ok_reply : Bytes
ok_reply = encode_simple (codes "OK")

unfoldable pub readonly : Bytes
readonly = encode_error (codes "ERR READONLY this node is a replica")

-- `effects.append(("DEL", _b(evicted)))`
abbrev pub eviction : Option Bytes → List Effect
eviction none = []
eviction (some key) = Effect.del key ∷ []

module _ {F : Type 0} ⦃clock : Clock F⦄ where
  unfoldable pub replicate : Node F → List Effect → Node F
  replicate n effects = record n { replicator = (append_batch n.replicator effects).0 }

  -- `expire_at = self.time() + secs; ms = int(expire_at * 1000)`
  unfoldable pub deadline : F → ℤ → Result (F × ℤ)
  deadline now secs = elim (clock.plus now secs) [
    | none ↦ raise overflow_error
    | some t ↦ elim (clock.millis t) [ none ↦ raise overflow_error | some ms ↦ ok (t, ms) ]
  ]

  -- The critical section of SET and SETEX: the store, and the batch with the eviction.
  unfoldable pub store_set : Node F → Bytes → Bytes → Option F → ℤ → Step F
  unfolding replicate
  store_set n key value expire_at ms = elim (Lru.set n.store key value expire_at) [
    | raise x ↦ (n, raise x)
    | ok (store, evicted) ↦ (
      replicate (record n { store = store }) (Effect.set key value ms ∷ eviction evicted),
      ok ok_reply,
    )
  ]

  unfoldable pub store_set_for : Node F → F → Bytes → Bytes → Bytes → Step F
  unfolding deadline store_set
  store_set_for n now key value seconds = elim (int seconds) [
    | none ↦ (n, ok not_integer)
    | some secs ↦ elim (deadline now secs) [
      | raise x ↦ (n, raise x)
      | ok (t, ms) ↦ store_set n key value (some t) ms
    ]
  ]

  -- `_do_set`, `_do_setex`, `_do_expire` and `_do_del`, on the arguments behind the name.
  unfoldable pub set_opts : Node F → F → Bytes → Bytes → List Bytes → Step F
  unfolding store_set store_set_for
  set_opts n now key value (option ∷ seconds ∷ _) =
      if bytes_beq (upper option) (codes "EX")
      then store_set_for n now key value seconds
      else store_set n key value none (pos 0)
  set_opts n now key value _ = store_set n key value none (pos 0)

  unfoldable pub do_set : Node F → F → List Bytes → Step F
  unfolding is_master set_opts
  do_set n now (key ∷ value ∷ opts) =
      if is_master n then set_opts n now key value opts else (n, ok readonly)
  do_set n now _ = (n, ok (wrong_args (codes "SET")))

  unfoldable pub do_setex : Node F → F → List Bytes → Step F
  unfolding is_master store_set_for
  do_setex n now (key ∷ seconds ∷ value ∷ []) =
      if is_master n then store_set_for n now key value seconds else (n, ok readonly)
  do_setex n now _ = (n, ok (wrong_args (codes "SETEX")))

  unfoldable pub store_expire : Node F → Bytes → F → ℤ → Step F
  unfolding replicate
  store_expire n key t ms =
      let (store, found) = Lru.set_expire n.store key t in
      if found
      then (replicate (record n { store = store }) (Effect.pexpireat key ms ∷ []), ok ok_reply)
      else (record n { store = store }, ok no_such_key)

  unfoldable pub do_expire : Node F → F → List Bytes → Step F
  unfolding is_master deadline store_expire
  do_expire n now (key ∷ seconds ∷ []) =
      if is_master n
      then elim (int seconds) [
        | none ↦ (n, ok not_integer)
        | some secs ↦ elim (deadline now secs) [
          | raise x ↦ (n, raise x)
          | ok (t, ms) ↦ store_expire n key t ms
        ]
      ]
      else (n, ok readonly)
  do_expire n now _ = (n, ok (wrong_args (codes "EXPIRE")))

  unfoldable pub store_del : Node F → Bytes → Step F
  unfolding replicate
  store_del n key = elim (Lru.delete n.store key) [
    | raise x ↦ (n, raise x)
    | ok (store, existed) ↦ (
      if existed
          then replicate (record n { store = store }) (Effect.del key ∷ [])
          else record n { store = store },
      ok ok_reply,
    )
  ]

  unfoldable pub do_del : Node F → List Bytes → Step F
  unfolding is_master store_del
  do_del n (key ∷ []) = if is_master n then store_del n key else (n, ok readonly)
  do_del n _ = (n, ok (wrong_args (codes "DEL")))

  unfoldable pub store_get : Node F → F → Bytes → Step F
  store_get n now key = elim (Lru.get n.store key (some now) now) [
    | raise x ↦ (n, raise x)
    | ok (store, value) ↦ (record n { store = store }, ok (encode_bulk value))
  ]

  unfoldable pub do_get : Node F → F → List Bytes → Step F
  unfolding store_get
  do_get n now (key ∷ []) = store_get n now key
  do_get n now _ = (n, ok (wrong_args (codes "GET")))

  -- One round of the expiry loop, where `sample` is `random.sample`: a DEL of its own for each key.
  unfoldable pub replicate_dels : Node F → List Bytes → Node F
  unfolding replicate
  replicate_dels n [] = n
  replicate_dels n (k ∷ ks) = replicate_dels (replicate n (Effect.del k ∷ [])) ks

  unfoldable pub expire_round : (List Bytes → ℕ → List Bytes) → Node F → F → Node F × Option Exn
  unfolding replicate_dels
  expire_round sample n now = elim (sample_expired sample n.store (some now) now 20) [
    | raise x ↦ (n, some x)
    | ok (store, removed) ↦ (replicate_dels (record n { store = store }) removed, none)
  ]

  -- `_dispatch_inner`, where `printable` is `decode(errors="replace")`, encoded again.
  unfoldable pub dispatch : (Bytes → Bytes) → Node F → F → List Bytes → Step F
  unfolding do_get do_set do_setex do_expire do_del
  dispatch printable n now [] = (n, raise index_error)
  dispatch printable n now (name ∷ args) =
      let cmd = upper name in
      if bytes_beq cmd (codes "GET")
      then do_get n now args
      else if bytes_beq cmd (codes "SET")
      then do_set n now args
      else if bytes_beq cmd (codes "SETEX")
      then do_setex n now args
      else if bytes_beq cmd (codes "EXPIRE")
      then do_expire n now args
      else if bytes_beq cmd (codes "DEL")
      then do_del n args
      else if bytes_beq cmd (codes "PING")
      then (n, ok (encode_simple (codes "PONG")))
      else if bytes_beq cmd (codes "ROLE")
      then (n, ok (encode_simple (upper n.role)))
      else (n, ok (encode_error (codes "ERR unknown command '" ++ (printable name ++ codes "'"))))

unfoldable pub classify_result : Bytes → Bytes
unfolding starts_with
classify_result [] = codes "error"
classify_result (first ∷ rest) =
    if first == b'+'
    then codes "ok"
    else if first == b'-'
    then (if starts_with (codes "-ERR READONLY") (first ∷ rest)
        then codes "readonly"
        else codes "error")
    else if first == b'$'
    then (if starts_with (codes "$-1") (first ∷ rest) then codes "miss" else codes "hit")
    else codes "ok"
