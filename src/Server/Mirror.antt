-- ===== src/Server/Mirror.antt =====
-- A replica's store beside its master's, key by key, and what an effect does to it.
use sd_03_distributed_cache.Prelude.{
  ℕ, zero, suc, ◌<◌, ◌≡◌, ◌≢◌, refl, ap, sym, ◌∙◌, true, ◌⊎◌, inl, inr, Option, none, some, List,
  [], ◌∷◌, Bytes, ok, raise, overflow_error, Result, ◌>>=◌,
}
use sd_03_distributed_cache.Prelude.Int.{ℤ, pos, negsuc}
use sd_03_distributed_cache.Clock.{Clock}
use sd_03_distributed_cache.Lru.{Mode, LruCache, is_expired}
use sd_03_distributed_cache.Lru
use sd_03_distributed_cache.Lru.Spec.{Entry, find, deleted, rescheduled}
use sd_03_distributed_cache.Lru.Refine.{Represents}
use sd_03_distributed_cache.Lru.Contract.{delete-deleted, set_expire-rescheduled}
use sd_03_distributed_cache.Lru.Laws.{apply_set-keeps}
use sd_03_distributed_cache.Replication.Effects.{Effect}
use sd_03_distributed_cache.Replication.Replica.{deadline, apply, apply_all}
use sd_03_distributed_cache.Server.Rule.{IsStamp}

module _ {F : Type 0} ⦃clock : Clock F⦄ where
  -- A deadline on the master, and what a replica has for it: whole milliseconds, and none for zero.
  abbrev pub IsCarried : Option F → Option F → Type 0
  IsCarried none x = x ≡ none
  IsCarried (some t) x =
      (ms : ℤ) × (clock.millis t ≡ some ms) × ((x ≡ clock.seconds ms) ⊎ ((ms ≡ pos 0) × (x ≡ none)))

  -- The deadline of an entry that the master found expired at one of the times in `past`.
  abbrev pub IsGhost : (F → Type 0) → Option F → Type 0
  IsGhost past x =
      (t : F) × (now : F) × past now × (is_expired (some t) now ≡ true) × IsCarried (some t) x

  -- What the master and the replica have for one key.
  abbrev pub ArePaired : (F → Type 0) → Option (Entry F) → Option (Entry F) → Type 0
  ArePaired past none none = Unit
  ArePaired past none (some e) = IsGhost past e.expire_at
  ArePaired past (some e) none = ⊥
  ArePaired past (some e) (some d) = (d.value ≡ e.value) × IsCarried e.expire_at d.expire_at

  -- The same keys with the same values, but for entries that the master found expired.
  abbrev pub Mirrors : (F → Type 0) → List (Entry F) → List (Entry F) → Type 0
  Mirrors past es ds = (j : Bytes) → ArePaired past (find j es) (find j ds)

-- `ms / 1000.0` has a value where `ms` is `int(t * 1000)` for a float `t`.
abbrev pub AreShort : (F : Type 0) → ⦃clock : Clock F⦄ → Type 0
AreShort F ⦃clock⦄ =
    (t : F) (ms : ℤ) → clock.millis t ≡ some ms → (s : F) × (clock.seconds ms ≡ some s)

module _ {F : Type 0} ⦃clock : Clock F⦄ (short : AreShort F) where
  abbrev kept_seconds : Option F → Result (Option F)
  kept_seconds o = elim o [ none ↦ raise overflow_error | some t ↦ ok t ] >>= λ t. ok (some t)

  pub deadline-IsCarried :
      (t : Option F) (ms : ℤ) → IsStamp t ms → (x : Option F) × (deadline ms ≡ ok x) × IsCarried t x
  unfolding deadline
  deadline-IsCarried none ms h = (none, ap deadline h, refl)
  deadline-IsCarried (some t) (pos zero) h = (none, refl, (pos 0, h, inr (refl, refl)))
  deadline-IsCarried (some t) (pos (suc n)) h =
      let (s, e) = short t (pos (suc n)) h in
      (some s, ap kept_seconds e, (pos (suc n), h, inl (sym e)))
  deadline-IsCarried (some t) (negsuc n) h =
      let (s, e) = short t (negsuc n) h in (some s, ap kept_seconds e, (negsuc n, h, inl (sym e)))

  -- What applying an effect gives.
  pub record Applied (n : ℕ) (m : Mode) (c : LruCache F) (e : Effect) : Type 0 where
    pub state : LruCache F
    pub rest : List (Entry F)
    pub returns : apply c e ≡ ok state
    pub represents : Represents n m state rest

  module _ {n : ℕ} {m : Mode} {c : LruCache F} {ds : List (Entry F)} (r : Represents n m c ds) where
    pub apply-set :
        0 < n
        → (k v : Bytes) (t : Option F) (ms : ℤ) → IsStamp t ms
        → (a : Applied n m c (Effect.set k v ms)) × (x : Option F) × IsCarried t x
          × (find k a.rest ≡ some (record { key = k; value = v; expire_at = x }))
          × ((j : Bytes) → j ≢ k → find j a.rest ≡ find j ds)
    unfolding apply
    apply-set positive k v t ms stamp =
        let (x, d, carried) = deadline-IsCarried t ms stamp in
        let (state, rest, returns, represents, self, others, grows) =
          apply_set-keeps r positive k v x in
        (
          record {
            state = state;
            rest = rest;
            returns = rw (d, apply) returns;
            represents = represents;
          },
          x,
          carried,
          self,
          others,
        )

    pub apply-del : (k : Bytes) → (a : Applied n m c (Effect.del k)) × (a.rest ≡ (deleted k ds).0)
    unfolding apply
    apply-del k =
        let d = delete-deleted r k in
        (
          record {
            state = d.state;
            rest = (deleted k ds).0;
            returns = rw (d.returns, apply) refl;
            represents = d.represents;
          },
          refl,
        )

    pub apply-pexpireat :
        (k : Bytes) (t : F) (ms : ℤ)
        → clock.millis t ≡ some ms
        → (a : Applied n m c (Effect.pexpireat k ms)) × (s : F) × IsCarried (some t) (some s)
          × (a.rest ≡ (rescheduled k s ds).0)
    unfolding apply
    apply-pexpireat k t ms h =
        let (s, e) = short t ms h in
        let d = set_expire-rescheduled r k s in
        (
          record {
            state = d.state;
            rest = (rescheduled k s ds).0;
            returns =
                ap
                  (λ o. elim o [ none ↦ raise overflow_error | some t ↦ ok t ] >>= λ t.
                    ok (Lru.set_expire c k t).0)
                  e
                ∙ ap (λ p. p >>= λ q. ok q.0) d.returns;
            represents = d.represents;
          },
          s,
          (ms, h, inl (sym e)),
          refl,
        )

  pub apply_all-one :
      (c c' : LruCache F) (e : Effect) → apply c e ≡ ok c' → apply_all c (e ∷ []) ≡ (c', none)
  unfolding apply_all
  apply_all-one c c' e h = rw (h, apply_all) refl

  pub apply_all-two :
      (c c' c'' : LruCache F) (e f : Effect)
      → apply c e ≡ ok c'
      → apply c' f ≡ ok c''
      → apply_all c (e ∷ f ∷ []) ≡ (c'', none)
  unfolding apply_all
  apply_all-two c c' c'' e f h g = rw (h, apply_all) (rw (g, apply_all) refl)
