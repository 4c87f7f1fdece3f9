-- ===== src/Tests/ServerTests.antt =====
-- Commands on a replica and on a master.
use sd_03_distributed_cache.Lru.Laws.{len-entries, Stored, set-Stored}
use sd_03_distributed_cache.Server.Session.{Session, spent, drain, serve}
use sd_03_distributed_cache.Server.Endless.{drain-endless}
use sd_03_distributed_cache.Protocol.Negative.{negative_request}
use sd_03_distributed_cache.Server.Requests.{SameButBuf, handle_all}
use sd_03_distributed_cache.Server.Pipeline.{serve-SameButBuf}
use sd_03_distributed_cache.Server.Bounded.{InSize}
use sd_03_distributed_cache.Server.Follow.{Followed, dispatch-Followed}
use sd_03_distributed_cache.Lru.Spec.{find}
use sd_03_distributed_cache.Server.CatchUp.{CatchesUp}
use sd_03_distributed_cache.Server.Convergence.{
  Command, request, expiry, run_commands, run_commands-CatchesUp,
}
use sd_03_distributed_cache.Server.Failover.{HavePassed, IsAnswer, promote-IsAnswer}
use sd_03_distributed_cache.Replication.Master.{Batch, stream, snapshot_bytes, append_batch}
use sd_03_distributed_cache.Prelude.{
  ◌+◌, ℕ, zero, suc, Option, none, some, arith, ap, take, drop, ◌++◌, ◌≡◌, refl, true, List, [],
  ◌∷◌, ◌⊎◌, inl, inr, Bytes, bytes_beq, ok,
}
use sd_03_distributed_cache.Replication.Replica.{Replica, consume, consume_one}
use sd_03_distributed_cache.Prelude.Dict.{lookup}
use sd_03_distributed_cache.Server.FullSync.{joined, register-CatchesUp}
use sd_03_distributed_cache.Server.Snapshots.{IsZeroFalse, HasMillis}
use sd_03_distributed_cache.Lru.{is_expired, snapshot, authoritative, logical}
use sd_03_distributed_cache.Server.Steady.{IsOrderly, serve-InSize}
use sd_03_distributed_cache.Protocol.{encode_command, encode_args}
use sd_03_distributed_cache.Bytes.Decimal.{show}
use sd_03_distributed_cache.Prelude.Int.{ℤ, pos, negsuc}
use sd_03_distributed_cache.Bytes.{codes, upper, upper_byte}
use sd_03_distributed_cache.Lru.Refine.{Represents, init-Represents}
use sd_03_distributed_cache.Replication.Effects.{Effect}
use sd_03_distributed_cache.Replication.Master
use sd_03_distributed_cache.Server.{Node, dispatch, is_master, ok_reply, promote}
use sd_03_distributed_cache.Server.Roles.{dispatch-replica}
use sd_03_distributed_cache.Server.Logged.{dispatch-log}
use sd_03_distributed_cache.Tests.Clocks.{ticking}

abbrev plain : Bytes → Bytes
plain s = s

abbrev slave : Node ℤ
slave = record {
  role = codes "slave";
  store = ((init-Represents logical).0 1).0;
  replicator = Master.init;
}

abbrev set_a : List Bytes
set_a = codes "set" ∷ codes "a" ∷ codes "1" ∷ []

abbrev pub master : Node ℤ
master = record {
  role = codes "master";
  store = ((init-Represents authoritative).0 1).0;
  replicator = Master.init;
}

dispatch-replica_example : (dispatch plain slave (pos 0) set_a).0 ≡ slave
unfolding is_master bytes_beq upper upper_byte
dispatch-replica_example =
    dispatch-replica slave refl plain (pos 0) (codes "set") (codes "a" ∷ codes "1" ∷ []) refl

dispatch-log_example :
    ((dispatch plain master (pos 0) set_a).0.replicator ≡ master.replicator)
    ⊎ ((effects : List Effect) × ((dispatch plain master (pos 0) set_a).0.replicator
          ≡ (append_batch master.replicator effects).0)
        × ((dispatch plain master (pos 0) set_a).1 ≡ ok ok_reply))
dispatch-log_example = dispatch-log master plain (pos 0) set_a

-- A connection that sends PING and SET a 1, where the first chunk ends inside the second request.
abbrev ping : List Bytes
ping = codes "PING" ∷ []

abbrev connected : Session ℤ
connected = record { node = master; buf = []; out = []; commands = 0 }

abbrev sent : Bytes
sent = encode_command ping ++ encode_command set_a

abbrev clock_of : ℕ → ℤ
clock_of n = pos n

abbrev broken : List Bytes
broken = take 20 sent ∷ drop 20 sent ∷ []

serve-SameButBuf_example :
    SameButBuf
      (serve plain clock_of 3 connected broken)
      (handle_all plain clock_of connected (ping ∷ set_a ∷ []))
unfolding encode_command encode_args show
serve-SameButBuf_example =
    serve-SameButBuf plain clock_of 3 connected (ping ∷ set_a ∷ []) broken refl tt refl
      (omega arith)

serve-InSize_example :
    InSize ℤ 2 authoritative (serve plain clock_of 9 connected broken).0.node.store
    × IsOrderly (serve plain clock_of 9 connected broken).1
serve-InSize_example =
    serve-InSize {m = authoritative} (omega arith) plain clock_of 9 connected broken empty_store
  where
    empty_store : InSize ℤ 2 authoritative connected.node.store
    empty_store = record {
      entries = [];
      represents = ((init-Represents authoritative).0 1).2;
      fits = omega (arith, len-entries ((init-Represents authoritative).0 1).2);
    }

-- A connection that sends a request with a negative bulk length.
abbrev caught : Session ℤ
caught = record connected { buf = negative_request }

drain-endless_example :
    ((drain plain clock_of 7 caught).1 ≡ spent)
    × ((drain plain clock_of 7 caught).0.commands ≡ caught.commands + 7)
    × ((drain plain clock_of 7 caught).0.buf ≡ negative_request)
drain-endless_example = drain-endless plain clock_of 7 caught refl

-- A replica with an empty store beside a master with an empty store.
dispatch-Followed_example :
    Followed 2 2 authoritative logical
      (λ t. t ≡ pos 0)
      master
      slave.store
      (dispatch plain master (pos 0) set_a)
unfolding find
dispatch-Followed_example =
    dispatch-Followed {m = authoritative} {m' = logical} (λ t ms h. (ms, refl)) (λ t. t ≡ pos 0)
      master slave.store [] [] (omega arith) (omega arith) ((init-Represents authoritative).0 1).2
      ((init-Represents logical).0 1).2 (λ j. tt) plain (pos 0) refl (codes "set")
      (codes "a" ∷ codes "1" ∷ [])

-- A master with one slave, whose queue is empty, and the replica at its other end.
abbrev leading : Node ℤ
leading = record master { replicator = (Master.join Master.init).0 }

abbrev following : Replica ℤ
following = record {
  store = slave.store;
  applied_offset = pos 0;
  last_seen_offset = pos 0;
  synced = true;
}

abbrev busy : List (Command ℤ)
busy =
    request (pos 0) (codes "set") (codes "a" ∷ codes "1" ∷ [])
    ∷ expiry (pos 1) (λ keys k. take k keys)
    ∷ request (pos 1) (codes "del") (codes "a" ∷ [])
    ∷ []

abbrev IsEarly : ℤ → Type 0
IsEarly t = (t ≡ pos 0) ⊎ (t ≡ pos 1)

start : CatchesUp 2 2 authoritative logical IsEarly 0 leading following
unfolding find Master.join lookup
start = record {
  batches = [];
  queued = refl;
  target = following;
  reads = λ fuel rest. ap (λ t. consume t following rest) {y = fuel} (omega arith);
  offset = refl;
  entries = [];
  represents = ((init-Represents authoritative).0 1).2;
  copied = [];
  represents_copy = ((init-Represents logical).0 1).2;
  mirrors = λ j. tt;
}

run_commands-CatchesUp_example :
    CatchesUp 2 2 authoritative logical IsEarly 0 (run_commands plain leading busy) following
run_commands-CatchesUp_example =
    run_commands-CatchesUp (λ t ms h. (ms, refl)) IsEarly (omega arith) (omega arith) 0 following
      plain leading busy (inl refl, (inr refl, (inr refl, tt))) start

-- The replica reads one SET and is promoted.
abbrev one_set : List (Command ℤ)
one_set = request (pos 0) (codes "set") (codes "a" ∷ codes "1" ∷ []) ∷ []

written :
    CatchesUp 2 2 authoritative logical IsEarly 0 (run_commands plain leading one_set) following
written =
    run_commands-CatchesUp (λ t ms h. (ms, refl)) IsEarly (omega arith) (omega arith) 0 following
      plain leading one_set (inl refl, tt) start

abbrev heir : Node ℤ
heir = record slave { store = written.target.store }

IsEarly-HavePassed : HavePassed IsEarly (pos 2)
unfolding is_expired
IsEarly-HavePassed t s x ms (inl e) expired millis seconds =
    ground (arith, e, expired, millis, seconds)
IsEarly-HavePassed t s x ms (inr e) expired millis seconds =
    ground (arith, e, expired, millis, seconds)

promote-IsAnswer_example :
    (is_master (promote heir) ≡ true)
    × Represents 2 authoritative (promote heir).store written.copied
    × IsAnswer
        (pos 2)
        (find (codes "a") written.entries)
        (find (codes "a") written.copied)
        (dispatch plain (promote heir) (pos 2) (codes "get" ∷ codes "a" ∷ [])).1
unfolding upper upper_byte
promote-IsAnswer_example =
    promote-IsAnswer written heir refl plain (pos 2) (codes "get") (codes "a") refl
      IsEarly-HavePassed

-- A master that holds one key, and a slave that sends SYNC.
abbrev pub one_key : Stored 2 authoritative master.store [] (codes "a") (codes "1") (some (pos 5))
one_key =
    set-Stored ((init-Represents authoritative).0 1).2 (omega arith) (codes "a") (codes "1")
      (some (pos 5))

abbrev pub holding : Node ℤ
holding = record master { store = one_key.state }

pub zero_false : IsZeroFalse ℤ
zero_false (pos zero) h = refl
zero_false (pos (suc n)) h = absurd (ground arith)
zero_false (negsuc n) h = absurd (ground arith)

pub all-HasMillis : (x : Option ℤ) → HasMillis x
all-HasMillis none = tt
all-HasMillis (some t) = (t, refl)

register-CatchesUp_example :
    (bytes : Bytes) × (r' : Replica ℤ) × (snapshot_bytes holding.replicator.offset
        (snapshot holding.store)
      ≡ ok bytes)
    × ((rest : Bytes) → consume_one following (bytes ++ rest) ≡ (r', ok rest))
    × CatchesUp 2 2 authoritative logical
        (λ t. Unit)
        (Master.register holding.replicator holding.store).1
        (joined holding)
        r'
register-CatchesUp_example =
    register-CatchesUp {m = authoritative} {m' = logical} (λ t ms h. (ms, refl)) zero_false
      (λ t. Unit) holding following one_key.rest [] tt one_key.represents
      ((init-Represents logical).0 1).2 (λ j e f. all-HasMillis e.expire_at)
