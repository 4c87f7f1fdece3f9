-- ===== src/Server/Stores.antt =====
-- Stores that stay well formed under the effects that a replica applies.
use sd_03_distributed_cache.Prelude.{
  ℕ, ◌<◌, ◌≡◌, refl, ap, sym, ◌∙◌, subst, Option, none, some, List, [], ◌∷◌, Exn, Result, ok, raise,
  overflow_error, ◌>>=◌, arith,
}
use sd_03_distributed_cache.Clock.{Clock}
use sd_03_distributed_cache.Lru.{Mode, LruCache, snapshot}
use sd_03_distributed_cache.Lru
use sd_03_distributed_cache.Lru.Spec.{Entry, deleted, rescheduled}
use sd_03_distributed_cache.Lru.Refine.{Represents}
use sd_03_distributed_cache.Lru.Contract.{delete-deleted, set_expire-rescheduled}
use sd_03_distributed_cache.Lru.Laws.{apply_set-keeps}
use sd_03_distributed_cache.Replication.Effects.{Effect}
use sd_03_distributed_cache.Replication.Master.{Batch}
use sd_03_distributed_cache.Replication.Replica.{deadline, apply, apply_all}
use sd_03_distributed_cache.Replication.Atomic.{Applies}

-- Well formed, whatever the entries are.
abbrev pub IsWhole : {F : Type 0} → ℕ → Mode → LruCache F → Type 0
IsWhole {F} room m' c = (ds : List (Entry F)) × Represents room m' c ds

ok_value : {A : Type 0} → A → Result A → A
ok_value a (ok b) = b
ok_value a (raise x) = a

pub ok-eq : {A : Type 0} (a b : A) → ◌≡◌ {A = Result A} (ok a) (ok b) → a ≡ b
unfolding ok_value
ok-eq a b h = ap (ok_value a) h

module _ {F : Type 0} ⦃clock : Clock F⦄ {room : ℕ} {m' : Mode} (roomy : 0 < room) where
  -- An effect that applies keeps the cache well formed.
  pub apply-IsWhole :
      (c c' : LruCache F) (e : Effect) → apply c e ≡ ok c' → IsWhole room m' c → IsWhole room m' c'
  unfolding apply
  apply-IsWhole c c' (Effect.set key value ms) h (ds, r) = go (deadline ms) h
    where
      go :
          (x : Result (Option F))
          → (x >>= λ t. Lru.apply_set c key value t) ≡ ok c'
          → IsWhole room m' c'
      go (raise x) h = absurd (ground (arith, h))
      go (ok t) h =
          let (d, es, returns, s, self, others, grows) = apply_set-keeps r roomy key value t in
          (es, subst (λ c. Represents room m' c es) (ok-eq d c' (sym returns ∙ h)) s)
  apply-IsWhole c c' (Effect.del key) h (ds, r) =
      let d = delete-deleted r key in
      (
        (deleted key ds).0,
        subst (λ c. Represents room m' c (deleted key ds).0)
            (ok-eq d.state c' (ap (λ x. x >>= λ p. ok p.0) (sym d.returns) ∙ h)) d.represents,
      )
  apply-IsWhole c c' (Effect.pexpireat key ms) h (ds, r) = go (clock.seconds ms) h
    where
      go :
          (o : Option F)
          → (elim o [ none ↦ raise overflow_error | some t ↦ ok t ] >>= λ t.
              ok (Lru.set_expire c key t).0)
            ≡ ok c'
          → IsWhole room m' c'
      go none h = absurd (ground (arith, h))
      go (some t) h =
          let d = set_expire-rescheduled r key t in
          (
            (rescheduled key t ds).0,
            subst (λ c. Represents room m' c (rescheduled key t ds).0)
                (ap (λ p. p.0)
                    (ok-eq (d.state, (rescheduled key t ds).1) (Lru.set_expire c key t)
                      (sym d.returns))
                  ∙ ok-eq (Lru.set_expire c key t).0 c' h)
                d.represents,
          )

  apply_all-IsWhole :
      (c c' : LruCache F) (es : List Effect)
      → apply_all c es ≡ (c', none)
      → IsWhole room m' c
      → IsWhole room m' c'
  unfolding apply_all
  apply_all-IsWhole c c' [] h w = subst (IsWhole room m') (ap (λ p. p.0) h) w
  apply_all-IsWhole c c' (e ∷ es) h w = go (λ d. apply_all-IsWhole d c' es) (apply c e) refl h
    where
      go :
          ((d : LruCache F) → apply_all d es ≡ (c', none) → IsWhole room m' d → IsWhole room m' c')
          → (x : Result (LruCache F)) → apply c e ≡ x
          → ◌≡◌ {A = LruCache F × Option Exn}
              (elim x [ raise y ↦ (c, some y) | ok d ↦ apply_all d es ])
              (c', none)
          → IsWhole room m' c'
      go later (raise y) i h = absurd (ground (arith, ap (λ p. p.1) h))
      go later (ok d) i h = later d h (apply-IsWhole c d e i w)

  pub Applies-IsWhole :
      (c c' : LruCache F) (bs : List Batch)
      → Applies c bs c'
      → IsWhole room m' c
      → IsWhole room m' c'
  Applies-IsWhole c c' [] h w = subst (IsWhole room m') h w
  Applies-IsWhole c c' (b ∷ bs) (d, h, later) w =
      Applies-IsWhole d c' bs later (apply_all-IsWhole c d b.effects h w)
