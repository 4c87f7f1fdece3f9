-- ===== src/Server/FullSync.antt =====
-- A slave that has just sent SYNC: the snapshot that is written for it, and the queue behind it.
use sd_03_distributed_cache.Prelude.{
  ℕ, suc, ◌≡◌, refl, ap, sym, ◌∙◌, arith, subst, Option, none, some, List, [], ◌∷◌, ◌++◌,
  append_assoc, length, map, Bytes, bytes_beq, ok, raise, true, ◌>>=◌, nat_eq, All, ◌<◌,
}
use sd_03_distributed_cache.Prelude.Int.{pos}
use sd_03_distributed_cache.Prelude.Dict.{Dict, lookup}
use sd_03_distributed_cache.Bytes.{codes, is_space}
use sd_03_distributed_cache.Bytes.Decimal.{show}
use sd_03_distributed_cache.Clock.{Clock}
use sd_03_distributed_cache.Lru.{Mode, LruCache, snapshot, load_snapshot}
use sd_03_distributed_cache.Lru.Spec.{Entry, find}
use sd_03_distributed_cache.Lru.Refine.{Represents}
use sd_03_distributed_cache.Lru.Snapshot.{loaded, load_snapshot-loaded}
use sd_03_distributed_cache.Lru.FullCopy.{item, snapshot-Snapped}
use sd_03_distributed_cache.Replication.Master.{
  Batch, Replicator, register, join, control, frames, snapshot_bytes, snapshot_effects,
}
use sd_03_distributed_cache.Replication.Lines.{OneWord}
use sd_03_distributed_cache.Replication.Replica.{
  Replica, rounds, later, read_snapshot, snapshot_round, read_items, dispatch_tag, dispatch_line,
  consume_one, consume,
}
use sd_03_distributed_cache.Replication.RoundTrip.{
  numbers-control, split-control, read_line-control,
}
use sd_03_distributed_cache.Replication.Queues.{IsReplicator}
use sd_03_distributed_cache.Server.{Node}
use sd_03_distributed_cache.Server.Mirror.{AreShort, ArePaired, Mirrors}
use sd_03_distributed_cache.Server.CatchUp.{CatchesUp}
use sd_03_distributed_cache.Server.Snapshots.{
  Tuple, HasMillis, NoTime, copies-Mirrors, tuples-HasMillis, IsZeroFalse, tuples-Sent,
}

plain : OneWord (codes "SNAPSHOT")
unfolding is_space
plain = (refl, (refl, (refl, (refl, (refl, (refl, (refl, (refl, tt))))))))

module _ {F : Type 0} ⦃clock : Clock F⦄ where
  -- The replica behind a snapshot.
  abbrev pub synced : Replica F → ℕ → LruCache F → Replica F
  synced r off store = record r {
    store = store;
    applied_offset = pos off;
    last_seen_offset = later r.last_seen_offset (pos off);
    synced = true;
  }

  snapshot_round-reads :
      (r : Replica F) (off count : ℕ) (s rest : Bytes) (copies : List (Tuple F))
      (store : LruCache F)
      → read_items count s ≡ ok (copies, rest)
      → load_snapshot r.store copies ≡ ok store
      → snapshot_round r (codes "SNAPSHOT" ∷ show off ∷ show count ∷ []) s
        ≡ (synced r off store, ok rest)
  unfolding snapshot_round read_snapshot
  snapshot_round-reads r off count s rest copies store reads loads =
      ap
        (λ p. elim p [
          | raise x ↦ (r, raise x)
          | ok (snap_off, store, rest) ↦ (
            record r {
              store = store;
              applied_offset = snap_off;
              last_seen_offset = later r.last_seen_offset snap_off;
              synced = true;
            },
            ok rest,
          )
        ])
        whole
    where
      parts : List Bytes
      parts = codes "SNAPSHOT" ∷ show off ∷ show count ∷ []

      whole : read_snapshot r.store parts s ≡ ok (pos off, store, rest)
      whole =
          ap
            (λ o. o >>= λ p. read_items (rounds p.1) s >>= λ q.
              load_snapshot r.store q.0 >>= λ store. ok (p.0, store, q.1))
            (numbers-control b'S' (codes "NAPSHOT") off count plain)
          ∙ ap (λ o. o >>= λ q. load_snapshot r.store q.0 >>= λ store. ok (pos off, store, q.1))
              reads
          ∙ ap (λ o. o >>= λ store. ok (pos off, store, rest)) loads

  pub consume_one-control :
      (r : Replica F) (off count : ℕ) (s : Bytes)
      → consume_one r (control (codes "SNAPSHOT") off count ++ s)
        ≡ snapshot_round r (codes "SNAPSHOT" ∷ show off ∷ show count ∷ []) s
  unfolding consume_one dispatch_line dispatch_tag bytes_beq control
  consume_one-control r off count s =
      ap (λ p. dispatch_line r p.0 p.1) (read_line-control b'S' (codes "NAPSHOT") off count plain s)
      ∙ ap (λ ps. dispatch_tag r ps s) (split-control b'S' (codes "NAPSHOT") off count plain)

  any_time :
      (past : F → Type 0) (o o' : Option (Entry F)) → ArePaired NoTime o o' → ArePaired past o o'
  any_time past none none h = tt
  any_time past none (some d) (t, now, never, expired, carried) = absurd never
  any_time past (some e) none h = h
  any_time past (some e) (some d) h = h

length-map-item : {F : Type 0} (items : List (Tuple F)) → length (map item items) ≡ length items
length-map-item [] = refl
length-map-item (i ∷ items) = ap suc (length-map-item items)

lookup-join : (r : Replicator) → IsReplicator r → lookup r.next_queue (join r).0.slaves ≡ some []
unfolding join lookup
lookup-join r h = go r.slaves h
  where
    go :
        (d : Dict ℕ (List Batch))
        → All (λ (p : ℕ × List Batch). p.0 < r.next_queue) d
        → lookup r.next_queue (d ++ (r.next_queue, []) ∷ []) ≡ some []
    go [] h = ground arith
    go ((p, bs) ∷ d) (h, hs) = ground (arith, go d hs)

-- The master behind the critical section of a SYNC.
abbrev pub joined : {F : Type 0} → Node F → Node F
joined n = record n { replicator = (register n.replicator n.store).0 }

-- What a slave makes of a SYNC: the bytes that are written, and the store that it builds from them.
pub record Synced {F : Type 0} ⦃clock : Clock F⦄ (room : ℕ) (m' : Mode) (past : F → Type 0)
    (n : Node F) (r : Replica F) (es : List (Entry F)) : Type 0 where
  pub bytes : Bytes
  pub written : snapshot_bytes n.replicator.offset (snapshot n.store) ≡ ok bytes
  pub store : LruCache F
  pub reads :
      (rest : Bytes) → consume_one r (bytes ++ rest) ≡ (synced r n.replicator.offset store, ok rest)
  pub copied : List (Entry F)
  pub represents : Represents room m' store copied
  pub mirrors : Mirrors past es copied

module _ {F : Type 0} ⦃clock : Clock F⦄ {size room : ℕ} {m m' : Mode} (short : AreShort F)
    (zero_false : IsZeroFalse F) (past : F → Type 0) where
  pub register-Synced :
      (n : Node F) (r : Replica F) (es ds : List (Entry F))
      → Represents size m n.store es
      → Represents room m' r.store ds
      → ((j : Bytes) (e : Entry F) → find j es ≡ some e → HasMillis e.expire_at)
      → Synced room m' past n r es
  unfolding snapshot_bytes find
  register-Synced n r es ds s s' millis =
      let k = snapshot-Snapped s in
      let t =
        tuples-Sent short zero_false k.tuples
          (tuples-HasMillis k.tuples [] k.new (λ j e f. millis j e (sym (k.finds j) ∙ f))) in
      let (new, pairs) = copies-Mirrors k.tuples t.copies [] [] t.are_copies k.new (λ j. tt) in
      let (store, loads, s'') = load_snapshot-loaded s' t.copies new in
      let off = n.replicator.offset in
      let count = length k.tuples in
      record {
        bytes = control (codes "SNAPSHOT") off count ++ frames t.effects;
        written =
            ap
              (λ items. snapshot_effects items >>= λ es.
                ok (control (codes "SNAPSHOT") off (length items) ++ frames es))
              k.lists
            ∙ ap
                (λ o. o >>= λ es.
                  ok (control (codes "SNAPSHOT") off (length (map item k.tuples)) ++ frames es))
                t.writes
            ∙ ap (λ c. ok (control (codes "SNAPSHOT") off c ++ frames t.effects))
                (length-map-item k.tuples);
        store = store;
        reads = λ rest.
            ap (consume_one r)
              (append_assoc (control (codes "SNAPSHOT") off count) (frames t.effects) rest)
            ∙ consume_one-control r off count (frames t.effects ++ rest)
            ∙ snapshot_round-reads r off count (frames t.effects ++ rest) rest t.copies store
                (t.reads rest) loads;
        copied = loaded t.copies [];
        represents = s'';
        mirrors = λ j.
            any_time past (find j es) (find j (loaded t.copies []))
              (subst (λ o. ArePaired NoTime o (find j (loaded t.copies []))) (k.finds j) (pairs j));
      }

  -- A SYNC, where both caches are well formed, the names of the queues are below the next one, every
  -- deadline of the master has milliseconds, these have seconds, and a time that counts as false has 0
  -- of them. The snapshot can be written, and a replica that reads it, whatever its store held, does not
  -- raise and leaves what follows. It is then at the master's offset with what the master has, and the
  -- new queue is empty, so that it catches up.
  pub register-CatchesUp :
      (n : Node F) (r : Replica F) (es ds : List (Entry F))
      → IsReplicator n.replicator
      → Represents size m n.store es
      → Represents room m' r.store ds
      → ((j : Bytes) (e : Entry F) → find j es ≡ some e → HasMillis e.expire_at)
      → (bytes : Bytes) × (r' : Replica F) × (snapshot_bytes n.replicator.offset (snapshot n.store)
          ≡ ok bytes)
        × ((rest : Bytes) → consume_one r (bytes ++ rest) ≡ (r', ok rest))
        × CatchesUp size room m m' past (register n.replicator n.store).1 (joined n) r'
  unfolding register
  register-CatchesUp n r es ds names s s' millis =
      let y = register-Synced n r es ds s s' millis in
      let r' = synced r n.replicator.offset y.store in
      (
        y.bytes,
        r',
        y.written,
        y.reads,
        record {
          batches = [];
          queued = lookup-join n.replicator names;
          target = r';
          reads = λ fuel rest. ap (λ u. consume u r' rest) {y = fuel} (omega arith);
          offset = refl;
          entries = es;
          represents = s;
          copied = y.copied;
          represents_copy = y.represents;
          mirrors = y.mirrors;
        },
      )
