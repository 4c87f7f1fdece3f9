-- ===== src/Server/Follow.antt =====
-- A replica that applies what its master replicates has what the master has.
use sd_03_distributed_cache.Prelude.{
  ℕ, ◌<◌, ◌≡◌, ◌≢◌, refl, ap, sym, subst, true, false, ◌⊎◌, inl, inr, Option, none, some, List, [],
  ◌∷◌, Bytes, Result, ok, raise, overflow_error,
}
use sd_03_distributed_cache.Prelude.Int.{ℤ}
use sd_03_distributed_cache.Clock.{Clock}
use sd_03_distributed_cache.Lru.{Mode, LruCache, is_expired}
use sd_03_distributed_cache.Lru
use sd_03_distributed_cache.Lru.Spec.{
  Entry, find, without, reschedule, deleted, rescheduled, inserted, gotten,
}
use sd_03_distributed_cache.Lru.Refine.{Represents}
use sd_03_distributed_cache.Lru.Contract.{
  insert_node-inserted, delete-deleted, set_expire-rescheduled, get-gotten,
}
use sd_03_distributed_cache.Lru.Laws.{find-inserted_self, find-inserted_ne}
use sd_03_distributed_cache.Lru.Unique.{
  Represents-HasUniqueKeys, find-inserted_evicted, find-deleted_self, find-deleted_ne,
  gotten-Touched, bytes_cases,
}
use sd_03_distributed_cache.Replication.Effects.{Effect}
use sd_03_distributed_cache.Replication.Master.{append_batch}
use sd_03_distributed_cache.Replication.Replica.{apply_all}
use sd_03_distributed_cache.Server.{
  Node, Step, replicate, store_set, store_expire, store_del, store_get, dispatch, ok_reply,
  no_such_key,
}
use sd_03_distributed_cache.Server.Rule.{IsStamp, dispatch-rule}
use sd_03_distributed_cache.Server.Pairs.{read-ArePaired, deleted-Mirrors, rescheduled-Mirrors}
use sd_03_distributed_cache.Server.Mirror.{
  IsCarried, ArePaired, Mirrors, AreShort, apply-set, apply-del, apply-pexpireat, apply_all-one,
  apply_all-two,
}

-- What a command of the master, with the node `n` before it, does to a replica whose store is `c`: the
-- effects that it replicates, and the two stores behind them.
pub record Followed {F : Type 0} ⦃clock : Clock F⦄ (size room : ℕ) (m m' : Mode) (past : F → Type 0)
    (n : Node F) (c : LruCache F) (s : Step F) : Type 0 where
  pub effects : List Effect
  pub logged :
      ((s.0.replicator ≡ n.replicator) × (effects ≡ []))
      ⊎ (s.0.replicator ≡ (append_batch n.replicator effects).0)
  pub entries : List (Entry F)
  pub represents : Represents size m s.0.store entries
  pub copy : LruCache F
  pub copied : List (Entry F)
  pub applied : apply_all c effects ≡ (copy, none)
  pub represents_copy : Represents room m' copy copied
  pub mirrors : Mirrors past entries copied

module _ {F : Type 0} ⦃clock : Clock F⦄ (short : AreShort F) (past : F → Type 0) {size room : ℕ}
    {m m' : Mode} (positive : 0 < size) (roomy : 0 < room) (n : Node F) (c : LruCache F)
    (es ds : List (Entry F)) (r : Represents size m n.store es) (r' : Represents room m' c ds)
    (h : Mirrors past es ds) where
  abbrev Follows : Step F → Type 0
  Follows = Followed size room m m' past n c

  quiet-Follows :
      (store : LruCache F) (entries : List (Entry F)) (reply : Result Bytes)
      → Represents size m store entries
      → Mirrors past entries ds
      → Follows (record n { store = store }, reply)
  unfolding apply_all
  quiet-Follows store entries reply s k = record {
    effects = [];
    logged = inl (refl, refl);
    entries = entries;
    represents = s;
    copy = c;
    copied = ds;
    applied = refl;
    represents_copy = r';
    mirrors = k;
  }

  batch-Follows :
      (store : LruCache F) (entries : List (Entry F)) (reply : Result Bytes)
      → Represents size m store entries
      → (effects : List Effect) (copy : LruCache F) (copied : List (Entry F))
      → apply_all c effects ≡ (copy, none)
      → Represents room m' copy copied
      → Mirrors past entries copied
      → Follows (replicate (record n { store = store }) effects, reply)
  unfolding replicate
  batch-Follows store entries reply s effects copy copied a s' k = record {
    effects = effects;
    logged = inr refl;
    entries = entries;
    represents = s;
    copy = copy;
    copied = copied;
    applied = a;
    represents_copy = s';
    mirrors = k;
  }

  gets-Follows : (now : F) → past now → (k : Bytes) → Follows (store_get n now k)
  unfolding store_get
  gets-Follows now p k =
      let g = get-gotten r k (some now) now in
      rw (g.returns, store_get)
        (quiet-Follows g.state (gotten m now k es).0 _ g.represents (λ j.
          read-ArePaired past now p (find j es) (find j (gotten m now k es).0) (find j ds)
            (gotten-Touched m now k j es (Represents-HasUniqueKeys r)) (h j)))

  deletes-Follows : (k : Bytes) → Follows (store_del n k)
  unfolding store_del deleted
  deletes-Follows k = go (find k es) refl
    where
      go : (o : Option (Entry F)) → find k es ≡ o → Follows (store_del n k)
      go none e =
          let d = delete-deleted r k in
          let spec : deleted k es ≡ (es, false) = rw (e, deleted) refl in
          rw (d.returns, store_del)
            (rw (ap (λ q. q.1) spec) (
              quiet-Follows d.state (deleted k es).0 (ok ok_reply) d.represents
                (rw (ap (λ q. q.0) spec) h)))
      go (some e) f =
          let d = delete-deleted r k in
          let spec : deleted k es ≡ (without k es, true) = rw (f, deleted) refl in
          let (a, rest) = apply-del short r' k in
          rw (d.returns, store_del)
            (rw (ap (λ q. q.1) spec) (
              batch-Follows d.state (deleted k es).0 (ok ok_reply) d.represents (Effect.del k ∷ [])
                a.state a.rest (apply_all-one short c a.state (Effect.del k) a.returns) a.represents
                (rw rest (
                  deleted-Mirrors past k es ds (Represents-HasUniqueKeys r)
                    (Represents-HasUniqueKeys r') h))))

  expires-Follows :
      (k : Bytes) (t : F) (ms : ℤ) → IsStamp (some t) ms → Follows (store_expire n k t ms)
  unfolding store_expire rescheduled
  expires-Follows k t ms stamp = go (find k es) refl
    where
      pair :
          Lru.set_expire n.store k t
          ≡ ((set_expire-rescheduled r k t).state, (rescheduled k t es).1)
      pair = cc ((set_expire-rescheduled r k t).returns)

      go : (o : Option (Entry F)) → find k es ≡ o → Follows (store_expire n k t ms)
      go none e =
          let d = set_expire-rescheduled r k t in
          let spec : rescheduled k t es ≡ (es, false) = rw (e, rescheduled) refl in
          rw (pair, store_expire)
            (rw (ap (λ q. q.1) spec) (
              quiet-Follows d.state (rescheduled k t es).0 (ok no_such_key) d.represents
                (rw (ap (λ q. q.0) spec) h)))
      go (some e) f =
          let d = set_expire-rescheduled r k t in
          let spec : rescheduled k t es ≡ (reschedule k t es, true) = rw (f, rescheduled) refl in
          let (a, s, carried, rest) = apply-pexpireat short r' k t ms stamp in
          rw (pair, store_expire)
            (rw (ap (λ q. q.1) spec) (
              batch-Follows d.state (rescheduled k t es).0 (ok ok_reply) d.represents
                (Effect.pexpireat k ms ∷ []) a.state a.rest
                (apply_all-one short c a.state (Effect.pexpireat k ms) a.returns) a.represents
                (rw rest (rescheduled-Mirrors past k t s e es ds f carried h))))

  -- A key that is not evicted, where the replica has the new entry of `k`.
  put-ArePaired :
      (k v : Bytes) (t x : Option F) (rest : List (Entry F))
      → IsCarried t x
      → find k rest ≡ some (record { key = k; value = v; expire_at = x })
      → ((j : Bytes) → j ≢ k → find j rest ≡ find j ds)
      → (j : Bytes) → (inserted size true k v t es).1 ≢ some j
      → ArePaired past (find j (inserted size true k v t es).0) (find j rest)
  put-ArePaired k v t x rest carried self others j kept = elim (bytes_cases j k) [
    | inl same ↦
        subst (λ i. ArePaired past (find i (inserted size true k v t es).0) (find i rest))
          (sym same) (rw (find-inserted_self size true k v t es positive, self) (refl, carried))
    | inr ne ↦ rw (find-inserted_ne size true k j v t es ne kept, others j ne) (h j)
  ]

  sets-Follows :
      (k v : Bytes) (t : Option F) (ms : ℤ) → IsStamp t ms → Follows (store_set n k v t ms)
  unfolding store_set Lru.set
  sets-Follows k v t ms stamp = go (inserted size true k v t es).1 refl
    where
      after : List (Entry F)
      after = (inserted size true k v t es).0

      go : (o : Option Bytes) → (inserted size true k v t es).1 ≡ o → Follows (store_set n k v t ms)
      go none e =
          let s = insert_node-inserted r k v t true in
          let (a, x, carried, self, others) = apply-set short r' roomy k v t ms stamp in
          rw (s.returns, store_set)
            (rw e (
              batch-Follows s.state after (ok ok_reply) s.represents (Effect.set k v ms ∷ [])
                a.state a.rest (apply_all-one short c a.state (Effect.set k v ms) a.returns)
                a.represents
                (λ j. put-ArePaired k v t x a.rest carried self others j (λ g. cc (e, g)))))
      go (some ev) e =
          let s = insert_node-inserted r k v t true in
          let (a, x, carried, self, others) = apply-set short r' roomy k v t ms stamp in
          let (b, rest) = apply-del short a.represents ev in
          rw (s.returns, store_set)
            (rw e (
              batch-Follows s.state after (ok ok_reply) s.represents
                (Effect.set k v ms ∷ Effect.del ev ∷ []) b.state b.rest
                (apply_all-two short c a.state b.state (Effect.set k v ms) (Effect.del ev) a.returns
                  b.returns)
                b.represents
                (rw rest (λ j. elim (bytes_cases j ev) [
                  | inl same ↦
                      subst (λ i. ArePaired past (find i after) (find i (deleted ev a.rest).0))
                        (sym same)
                        (rw
                          (
                            find-inserted_evicted size k ev v t es (Represents-HasUniqueKeys r) e,
                            find-deleted_self ev a.rest (Represents-HasUniqueKeys a.represents),
                          )
                          tt)
                  | inr ne ↦
                      rw (find-deleted_ne ev j a.rest ne)
                        (put-ArePaired k v t x a.rest carried self others j (λ g. ne (cc (e, g))))
                ]))))

-- Both caches are well formed and of positive size, the time of the command is in `past`, and a
-- deadline's milliseconds have seconds. Where the two have the same keys with the same values and carried
-- deadlines, but for entries that the master found expired, they do so again after any command of the
-- master and the effects that it replicates, evictions included: the replica does not raise, and both
-- caches stay well formed.
pub dispatch-Followed :
    {F : Type 0} ⦃clock : Clock F⦄ {size room : ℕ} {m m' : Mode} (short : AreShort F)
    (past : F → Type 0) (n : Node F) (c : LruCache F) (es ds : List (Entry F))
    → 0 < size
    → 0 < room
    → Represents size m n.store es
    → Represents room m' c ds
    → Mirrors past es ds
    → (printable : Bytes → Bytes) (now : F) → past now
    → (name : Bytes) (args : List Bytes)
    → Followed size room m m' past n c (dispatch printable n now (name ∷ args))
dispatch-Followed {F} {size} {room} {m} {m'} short past n c es ds positive roomy r r' h printable
      now p name args =
    dispatch-rule n now (Followed size room m m' past n c)
      (record {
        replies = λ reply. quiet n.store es (ok reply) r h;
        overflows = quiet n.store es (raise overflow_error) r h;
        sets = λ master k v t ms stamp.
            sets-Follows short past positive roomy n c es ds r r' h k v t ms stamp;
        expires = λ master k t ms stamp.
            expires-Follows short past positive roomy n c es ds r r' h k t ms stamp;
        deletes = λ master k. deletes-Follows short past positive roomy n c es ds r r' h k;
        gets = λ k. gets-Follows short past positive roomy n c es ds r r' h now p k;
      })
      printable name args
  where
    quiet :
        (store : LruCache F) (entries : List (Entry F)) (reply : Result Bytes)
        → Represents size m store entries
        → Mirrors past entries ds
        → Followed size room m m' past n c (record n { store = store }, reply)
    quiet store entries reply s k =
        quiet-Follows short past positive roomy n c es ds r r' h store entries reply s k
