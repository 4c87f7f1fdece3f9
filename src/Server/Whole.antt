-- ===== src/Server/Whole.antt =====
-- What every command and every round of the expiry loop keep of a node.
use sd_03_distributed_cache.Prelude.{
  ℕ, ◌<◌, ◌≡◌, refl, true, false, none, some, List, [], ◌∷◌, if◌then◌else◌, Bytes, ok,
}
use sd_03_distributed_cache.Prelude.Int.{ℤ}
use sd_03_distributed_cache.Clock.{Clock}
use sd_03_distributed_cache.Lru.{Mode, LruCache, authoritative}
use sd_03_distributed_cache.Lru
use sd_03_distributed_cache.Lru.Spec.{rescheduled, deleted}
use sd_03_distributed_cache.Lru.Contract.{get-gotten, delete-deleted, set_expire-rescheduled}
use sd_03_distributed_cache.Lru.Laws.{set-Stored}
use sd_03_distributed_cache.Lru.Sweep.{sample_expired-Sampled}
use sd_03_distributed_cache.Replication.Effects.{Effect}
use sd_03_distributed_cache.Server.{
  Node, Step, replicate, replicate_dels, expire_round, store_set, store_expire, store_del,
  store_get, dispatch, ok_reply, no_such_key,
}
use sd_03_distributed_cache.Server.Stores.{IsWhole}
use sd_03_distributed_cache.Server.Rule.{Cases, dispatch-rule}

-- The node `n'` has the role of `n`, and a well-formed store.
pub record Keeps {F : Type 0} (size : ℕ) (m : Mode) (n n' : Node F) : Type 0 where
  pub role : n'.role ≡ n.role
  pub whole : IsWhole size m n'.store

module _ {F : Type 0} ⦃clock : Clock F⦄ {size : ℕ} {m : Mode} (n : Node F) where
  module _ (positive : 0 < size) (i : IsWhole size m n.store) where
    expires-Keeps : (key : Bytes) (t : F) (ms : ℤ) → Keeps size m n (store_expire n key t ms).0
    unfolding store_expire replicate
    expires-Keeps key t ms =
        let e = set_expire-rescheduled i.1 key t in
        let pair : Lru.set_expire n.store key t ≡ (e.state, (rescheduled key t i.0).1) =
          cc (e.returns) in
        rw (pair, store_expire)
          (elim (rescheduled key t i.0).1
            as (λ b.
              let s : Step F =
                if b
                then (
                  replicate (record n { store = e.state }) (Effect.pexpireat key ms ∷ []),
                  ok ok_reply,
                )
                else (record n { store = e.state }, ok no_such_key) in
              Keeps size m n s.0) [
                | true ↦ record { role = refl; whole = (_, e.represents) }
                | false ↦ record { role = refl; whole = (_, e.represents) }
              ])

    deletes-Keeps : (key : Bytes) → Keeps size m n (store_del n key).0
    unfolding store_del replicate
    deletes-Keeps key =
        let d = delete-deleted i.1 key in
        rw (d.returns, store_del)
          (elim (deleted key i.0).1
            as (λ b. Keeps size m n (
              if b
              then replicate (record n { store = d.state }) (Effect.del key ∷ [])
              else record n { store = d.state })) [
                | true ↦ record { role = refl; whole = (_, d.represents) }
                | false ↦ record { role = refl; whole = (_, d.represents) }
              ])

    command-Keeps : (now : F) → Cases n now (λ s. Keeps size m n s.0)
    unfolding store_set store_get replicate
    command-Keeps now = record {
      replies = λ reply. record { role = refl; whole = i };
      overflows = record { role = refl; whole = i };
      sets = λ master key value t ms stamp.
          let s = set-Stored i.1 positive key value t in
          rw (s.returns, store_set) (record { role = refl; whole = (s.rest, s.represents) });
      expires = λ master key t ms stamp. expires-Keeps key t ms;
      deletes = λ master key. deletes-Keeps key;
      gets = λ key.
          let g = get-gotten i.1 key (some now) now in
          rw (g.returns, store_get) (record { role = refl; whole = (_, g.represents) });
    }

    pub dispatch-Keeps :
        (printable : Bytes → Bytes) (now : F) (name : Bytes) (args : List Bytes)
        → Keeps size m n (dispatch printable n now (name ∷ args)).0
    dispatch-Keeps printable now name args =
        dispatch-rule n now (λ s. Keeps size m n s.0) (command-Keeps now) printable name args

module _ {F : Type 0} ⦃clock : Clock F⦄ {size : ℕ} (n : Node F) where
  replicate_dels-Keeps :
      (n' : Node F) (ks : List Bytes)
      → Keeps size authoritative n n'
      → Keeps size authoritative n (replicate_dels n' ks)
  unfolding replicate_dels replicate
  replicate_dels-Keeps n' [] k = k
  replicate_dels-Keeps n' (key ∷ ks) k =
      replicate_dels-Keeps (replicate n' (Effect.del key ∷ [])) ks
        (record { role = k.role; whole = k.whole })

  -- A round does not raise.
  pub expire_round-Keeps :
      (sample : List Bytes → ℕ → List Bytes) (now : F)
      → IsWhole size authoritative n.store
      → Keeps size authoritative n (expire_round sample n now).0
        × ((expire_round sample n now).1 ≡ none)
  unfolding expire_round
  expire_round-Keeps sample now i =
      let s = sample_expired-Sampled i.1 sample (some now) now 20 in
      rw (s.returns, expire_round)
        (
          replicate_dels-Keeps (record n { store = s.state }) s.removed
              (record { role = refl; whole = (s.rest, s.represents) }),
          refl,
        )
