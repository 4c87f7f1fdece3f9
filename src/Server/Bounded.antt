-- ===== src/Server/Bounded.antt =====
-- The store of a node, under its commands.
use sd_03_distributed_cache.Prelude.{
  ℕ, ◌<◌, ◌≤◌, ◌≡◌, refl, true, false, Option, some, Option-cases, List, [], ◌∷◌, ◌⊎◌, inl, inr,
  if◌then◌else◌, arith, length, Bytes, Result, ok, raise, overflow_error,
}
use sd_03_distributed_cache.Prelude.Int.{ℤ}
use sd_03_distributed_cache.Clock.{Clock}
use sd_03_distributed_cache.Lru.{Mode, LruCache, authoritative, logical, is_expired, len}
use sd_03_distributed_cache.Lru
use sd_03_distributed_cache.Replication.Effects.{Effect}
use sd_03_distributed_cache.Lru.Spec.{Entry, find, reschedule, deleted, rescheduled, gotten}
use sd_03_distributed_cache.Lru.Refine.{Represents, Refines}
use sd_03_distributed_cache.Lru.Contract.{get-gotten, delete-deleted, set_expire-rescheduled}
use sd_03_distributed_cache.Lru.Laws.{set-Stored, length-without, len-entries}
use sd_03_distributed_cache.Server.{
  Node, Step, replicate, store_set, store_expire, store_del, store_get, dispatch, ok_reply,
  no_such_key,
}
use sd_03_distributed_cache.Server.Rule.{Cases, dispatch-rule}

-- A well-formed store of the size `size`, with no more keys than that.
pub record InSize (F : Type 0) (size : ℕ) (m : Mode) (c : LruCache F) : Type 0 where
  pub entries : List (Entry F)
  pub represents : Represents size m c entries
  pub fits : len c ≤ size

-- A reply, or the exception of a deadline that is out of range.
abbrev pub Answers : Result Bytes → Type 0
Answers r = ((reply : Bytes) × (r ≡ ok reply)) ⊎ (r ≡ raise overflow_error)

module _ {F : Type 0} where
  length-deleted : (k : Bytes) (es : List (Entry F)) → length (deleted k es).0 ≤ length es
  unfolding deleted
  length-deleted k es = elim (Option-cases (find k es)) [
    | inl e ↦ ground (arith, e)
    | inr (d, e) ↦ ground (arith, e, length-without k d es e)
  ]

  length-reschedule :
      (k : Bytes) (t : F) (es : List (Entry F)) → length (reschedule k t es) ≡ length es
  unfolding reschedule
  length-reschedule k t [] = refl
  length-reschedule k t (e ∷ es) = ground (arith, length-reschedule k t es)

  length-rescheduled :
      (k : Bytes) (t : F) (es : List (Entry F)) → length (rescheduled k t es).0 ≡ length es
  unfolding rescheduled
  length-rescheduled k t es = elim (Option-cases (find k es)) [
    | inl e ↦ ground (arith, e)
    | inr (d, e) ↦ ground (arith, e, length-reschedule k t es)
  ]

module _ {F : Type 0} ⦃clock : Clock F⦄ where
  length-gotten :
      (m : Mode) (now : F) (k : Bytes) (es : List (Entry F))
      → length (gotten m now k es).0 ≤ length es
  unfolding gotten
  length-gotten authoritative now k es = elim (Option-cases (find k es)) [
    | inl e ↦ ground (arith, e)
    | inr (d, e) ↦ ground (arith, e, length-without k d es e)
  ]
  length-gotten logical now k es = elim (Option-cases (find k es)) [
    | inl e ↦ ground (arith, e)
    | inr (d, e) ↦ ground (arith, e, length-without k d es e)
  ]

module _ {F A : Type 0} {size : ℕ} {m : Mode} {c : LruCache F} (i : InSize F size m c) where
  refined-InSize :
      {run : Result (LruCache F × A)} {spec : List (Entry F) × A}
      → (r : Refines size m run spec) → length spec.0 ≤ length i.entries
      → InSize F size m r.state
  refined-InSize {spec} r h = record {
    entries = spec.0;
    represents = r.represents;
    fits = omega (arith, h, len-entries i.represents, len-entries r.represents, i.fits);
  }

record Sound {F : Type 0} (size : ℕ) (m : Mode) (s : Step F) : Type 0 where
  store : InSize F size m s.0.store
  answers : Answers s.1

module _ {F : Type 0} ⦃clock : Clock F⦄ {size : ℕ} {m : Mode} (positive : 0 < size) where
  module _ (n : Node F) (i : InSize F size m n.store) where
    sets-Sound :
        (key value : Bytes) (t : Option F) (ms : ℤ) → Sound size m (store_set n key value t ms)
    unfolding store_set replicate
    sets-Sound key value t ms =
        let s = set-Stored i.represents positive key value t in
        rw (s.returns, store_set)
          (record {
            store = record { entries = s.rest; represents = s.represents; fits = s.bounded i.fits };
            answers = inl (ok_reply, refl);
          })

    expires-Sound : (key : Bytes) (t : F) (ms : ℤ) → Sound size m (store_expire n key t ms)
    unfolding store_expire replicate
    expires-Sound key t ms =
        let e = set_expire-rescheduled i.represents key t in
        let kept = refined-InSize i e (ground (arith, length-rescheduled key t i.entries)) in
        let pair : Lru.set_expire n.store key t ≡ (e.state, (rescheduled key t i.entries).1) =
          cc (e.returns) in
        rw (pair, store_expire)
          (elim (rescheduled key t i.entries).1
            as (λ b. Sound size m (
              if b
              then (
                replicate (record n { store = e.state }) (Effect.pexpireat key ms ∷ []),
                ok ok_reply,
              )
              else (record n { store = e.state }, ok no_such_key))) [
                | true ↦ record { store = kept; answers = inl (_, refl) }
                | false ↦ record { store = kept; answers = inl (_, refl) }
              ])

    deletes-Sound : (key : Bytes) → Sound size m (store_del n key)
    unfolding store_del replicate
    deletes-Sound key =
        let d = delete-deleted i.represents key in
        let kept = refined-InSize i d (length-deleted key i.entries) in
        rw (d.returns, store_del)
          (elim (deleted key i.entries).1
            as (λ b. Sound size m (
              if b
                  then replicate (record n { store = d.state }) (Effect.del key ∷ [])
                  else record n { store = d.state },
              ok ok_reply,
            )) [
              | true ↦ record { store = kept; answers = inl (_, refl) }
              | false ↦ record { store = kept; answers = inl (_, refl) }
            ])

    gets-Sound : (now : F) (key : Bytes) → Sound size m (store_get n now key)
    unfolding store_get
    gets-Sound now key =
        let g = get-gotten i.represents key (some now) now in
        rw (g.returns, store_get)
          (record {
            store = refined-InSize i g (length-gotten m now key i.entries);
            answers = inl (_, refl);
          })

    command-Sound : (now : F) → Cases n now (Sound size m)
    command-Sound now = record {
      replies = λ reply. record { store = i; answers = inl (reply, refl) };
      overflows = record { store = i; answers = inr refl };
      sets = λ master key value t ms stamp. sets-Sound key value t ms;
      expires = λ master key t ms stamp. expires-Sound key t ms;
      deletes = λ master key. deletes-Sound key;
      gets = gets-Sound now;
    }

  pub dispatch-Sound :
      (printable : Bytes → Bytes) (n : Node F) (now : F) (name : Bytes) (args : List Bytes)
      → InSize F size m n.store
      → InSize F size m (dispatch printable n now (name ∷ args)).0.store
        × Answers (dispatch printable n now (name ∷ args)).1
  dispatch-Sound printable n now name args i =
      let s = dispatch-rule n now (Sound size m) (command-Sound n i now) printable name args in
      (s.store, s.answers)
