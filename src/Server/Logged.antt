-- ===== src/Server/Logged.antt =====
-- What a command puts into the replication stream.
use sd_03_distributed_cache.Prelude.{
  ◌≡◌, refl, Bool, true, false, Option, some, List, [], ◌∷◌, ◌⊎◌, inl, inr, if◌then◌else◌, Bytes,
  Result, ok, raise, overflow_error,
}
use sd_03_distributed_cache.Prelude.Int.{ℤ}
use sd_03_distributed_cache.Clock.{Clock}
use sd_03_distributed_cache.Protocol.{encode_bulk}
use sd_03_distributed_cache.Lru.{LruCache}
use sd_03_distributed_cache.Lru
use sd_03_distributed_cache.Replication.Effects.{Effect}
use sd_03_distributed_cache.Replication.Master.{append_batch}
use sd_03_distributed_cache.Server.Rule.{Cases, dispatch-rule, if-rule}
use sd_03_distributed_cache.Server.{
  store_get, Node, Step, ok_reply, no_such_key, eviction, replicate, store_set, store_expire,
  store_del, dispatch,
}

module _ {F : Type 0} ⦃clock : Clock F⦄ (n : Node F) where
  -- Either nothing is replicated, or one batch is, on a master that answers OK.
  record Logged (s : Step F) : Type 0 where
    log :
        (s.0.replicator ≡ n.replicator)
        ⊎ ((effects : List Effect) × (s.0.replicator ≡ (append_batch n.replicator effects).0)
            × (s.1 ≡ ok ok_reply))

  quiet : (store : LruCache F) (reply : Result Bytes) → Logged (record n { store = store }, reply)
  quiet store reply = record { log = inl refl }

  same : (reply : Result Bytes) → Logged (n, reply)
  same reply = record { log = inl refl }

  batch :
      (store : LruCache F) (effects : List Effect)
      → Logged (replicate (record n { store = store }) effects, ok ok_reply)
  unfolding replicate
  batch store effects = record { log = inr (effects, refl, refl) }

  store_set-Logged :
      (key value : Bytes) (t : Option F) (ms : ℤ) → Logged (store_set n key value t ms)
  unfolding store_set
  store_set-Logged key value t ms =
      elim (Lru.set n.store key value t)
        as (λ r. Logged (elim r [
          | raise x ↦ (n, raise x)
          | ok (store, evicted) ↦ (
            replicate (record n { store = store }) (Effect.set key value ms ∷ eviction evicted),
            ok ok_reply,
          )
        ])) [ raise x ↦ same (raise x) | ok (store, evicted) ↦ batch store _ ]

  store_expire-Logged : (key : Bytes) (t : F) (ms : ℤ) → Logged (store_expire n key t ms)
  unfolding store_expire
  store_expire-Logged key t ms =
      let (store, found) = Lru.set_expire n.store key t in
      if-rule n t Logged found (batch store _) (quiet store (ok no_such_key))

  deleted-Logged :
      (key : Bytes) (store : LruCache F) (existed : Bool)
      → Logged (
        if existed
            then replicate (record n { store = store }) (Effect.del key ∷ [])
            else record n { store = store },
        ok ok_reply,
      )
  deleted-Logged key store true = batch store _
  deleted-Logged key store false = quiet store _

  store_del-Logged : (key : Bytes) → Logged (store_del n key)
  unfolding store_del
  store_del-Logged key =
      elim (Lru.delete n.store key)
        as (λ r. Logged (elim r [
          | raise x ↦ (n, raise x)
          | ok (store, existed) ↦ (
            if existed
                then replicate (record n { store = store }) (Effect.del key ∷ [])
                else record n { store = store },
            ok ok_reply,
          )
        ])) [ raise x ↦ same (raise x) | ok (store, existed) ↦ deleted-Logged key store existed ]

  store_get-Logged : (now : F) (key : Bytes) → Logged (store_get n now key)
  unfolding store_get
  store_get-Logged now key =
      elim (Lru.get n.store key (some now) now)
        as (λ r. Logged (elim r [
          | raise x ↦ (n, raise x)
          | ok (store, value) ↦ (record n { store = store }, ok (encode_bulk value))
        ])) [ raise x ↦ same (raise x) | ok (store, value) ↦ quiet store _ ]

  command-Logged : (now : F) → Cases n now Logged
  command-Logged now = record {
    replies = λ reply. same (ok reply);
    overflows = same (raise overflow_error);
    sets = λ m key value t ms stamp. store_set-Logged key value t ms;
    expires = λ m key t ms stamp. store_expire-Logged key t ms;
    deletes = λ m key. store_del-Logged key;
    gets = store_get-Logged now;
  }

  -- Every command, on every branch, either replicates nothing, or replicates one batch and answers OK.
  pub dispatch-log :
      (printable : Bytes → Bytes) (now : F) (args : List Bytes)
      → ((dispatch printable n now args).0.replicator ≡ n.replicator)
        ⊎ ((effects : List Effect) × ((dispatch printable n now args).0.replicator
              ≡ (append_batch n.replicator effects).0)
            × ((dispatch printable n now args).1 ≡ ok ok_reply))
  unfolding dispatch
  dispatch-log printable now [] = inl refl
  dispatch-log printable now (name ∷ args) =
      (dispatch-rule n now Logged (command-Logged now) printable name args).log
