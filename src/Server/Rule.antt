-- ===== src/Server/Rule.antt =====
-- A rule for what every command makes of a node: it is enough to look at the four things that a command
-- may do with the store, and at the answers that leave the node alone.
use sd_03_distributed_cache.Prelude.{
  ◌≡◌, refl, Bool, true, false, Option, none, some, List, [], ◌∷◌, ◌⊎◌, inl, inr, if◌then◌else◌,
  Bytes, bytes_beq, ok, raise, overflow_error, Option-cases,
}
use sd_03_distributed_cache.Prelude.Int.{ℤ, pos}
use sd_03_distributed_cache.Clock.{Clock}
use sd_03_distributed_cache.Bytes.{codes, upper}
use sd_03_distributed_cache.Bytes.Decimal.{int}
use sd_03_distributed_cache.Server.{
  Node, Step, not_integer, is_master, deadline, store_set, store_set_for, set_opts, do_set,
  do_setex, store_expire, do_expire, store_del, do_del, store_get, do_get, dispatch, readonly,
}

-- The deadline that is kept, and the milliseconds that are replicated.
abbrev pub IsStamp : {F : Type 0} → ⦃clock : Clock F⦄ → Option F → ℤ → Type 0
IsStamp none ms = ms ≡ pos 0
IsStamp ⦃clock⦄ (some t) ms = clock.millis t ≡ some ms

module _ {F : Type 0} ⦃clock : Clock F⦄ (n : Node F) (now : F) (P : Step F → Type 0) where
  -- What is to be shown.
  pub record Cases : Type 0 where
    pub replies : (reply : Bytes) → P (n, ok reply)
    pub overflows : P (n, raise overflow_error)
    pub sets :
        is_master n ≡ true
        → (key value : Bytes) (t : Option F) (ms : ℤ) → IsStamp t ms
        → P (store_set n key value t ms)
    pub expires :
        is_master n ≡ true
        → (key : Bytes) (t : F) (ms : ℤ) → IsStamp (some t) ms
        → P (store_expire n key t ms)
    pub deletes : is_master n ≡ true → (key : Bytes) → P (store_del n key)
    pub gets : (key : Bytes) → P (store_get n now key)

  pub if-rule : {x y : Step F} (b : Bool) → P x → P y → P (if b then x else y)
  if-rule true h k = h
  if-rule false h k = k

  guard-rule : {x y : Step F} (b : Bool) → (b ≡ true → P x) → P y → P (if b then x else y)
  guard-rule true h k = h refl
  guard-rule false h k = k

  deadline-cases :
      (secs : ℤ)
      → (deadline now secs ≡ raise overflow_error)
        ⊎ ((t : F) × (ms : ℤ) × (deadline now secs ≡ ok (t, ms)) × IsStamp (some t) ms)
  unfolding deadline
  deadline-cases secs = elim (Option-cases (clock.plus now secs)) [
    | inl e ↦ inl (rw (e, deadline) refl)
    | inr (t, e) ↦ elim (Option-cases (clock.millis t)) [
      | inl f ↦ inl (rw (e, f, deadline) refl)
      | inr (ms, f) ↦ inr (t, ms, rw (e, f, deadline) refl, f)
    ]
  ]

  module _ (c : Cases) where
    deadline-rule :
        (secs : ℤ) (go : F → ℤ → Step F)
        → ((t : F) (ms : ℤ) → IsStamp (some t) ms → P (go t ms))
        → P (elim (deadline now secs) [ raise x ↦ (n, raise x) | ok (t, ms) ↦ go t ms ])
    deadline-rule secs go h = elim (deadline-cases secs) [
      | inl e ↦ rw e c.overflows
      | inr (t, ms, e, f) ↦ rw e (h t ms f)
    ]

    seconds-rule :
        (seconds : Bytes) (go : F → ℤ → Step F)
        → ((t : F) (ms : ℤ) → IsStamp (some t) ms → P (go t ms))
        → P (elim (int seconds) [
          | none ↦ (n, ok not_integer)
          | some secs ↦ elim (deadline now secs) [ raise x ↦ (n, raise x) | ok (t, ms) ↦ go t ms ]
        ])
    seconds-rule seconds go h = elim (Option-cases (int seconds)) [
      | inl e ↦ rw e (c.replies not_integer)
      | inr (secs, e) ↦ rw e (deadline-rule secs go h)
    ]

    store_set_for-rule :
        is_master n ≡ true → (key value seconds : Bytes) → P (store_set_for n now key value seconds)
    unfolding store_set_for
    store_set_for-rule m key value seconds =
        seconds-rule seconds (λ t ms. store_set n key value (some t) ms)
          (λ t ms f. c.sets m key value (some t) ms f)

    set_opts-rule :
        is_master n ≡ true
        → (key value : Bytes) (opts : List Bytes) → P (set_opts n now key value opts)
    unfolding set_opts
    set_opts-rule m key value [] = c.sets m key value none (pos 0) refl
    set_opts-rule m key value (o ∷ []) = c.sets m key value none (pos 0) refl
    set_opts-rule m key value (o ∷ seconds ∷ rest) =
        if-rule (bytes_beq (upper o) (codes "EX")) (store_set_for-rule m key value seconds)
          (c.sets m key value none (pos 0) refl)

    do_set-rule : (args : List Bytes) → P (do_set n now args)
    unfolding do_set
    do_set-rule [] = c.replies _
    do_set-rule (key ∷ []) = c.replies _
    do_set-rule (key ∷ value ∷ opts) =
        guard-rule (is_master n) (λ m. set_opts-rule m key value opts) (c.replies readonly)

    do_setex-rule : (args : List Bytes) → P (do_setex n now args)
    unfolding do_setex
    do_setex-rule [] = c.replies _
    do_setex-rule (key ∷ []) = c.replies _
    do_setex-rule (key ∷ seconds ∷ []) = c.replies _
    do_setex-rule (key ∷ seconds ∷ value ∷ []) =
        guard-rule (is_master n) (λ m. store_set_for-rule m key value seconds) (c.replies readonly)
    do_setex-rule (key ∷ seconds ∷ value ∷ more ∷ rest) = c.replies _

    do_expire-rule : (args : List Bytes) → P (do_expire n now args)
    unfolding do_expire
    do_expire-rule [] = c.replies _
    do_expire-rule (key ∷ []) = c.replies _
    do_expire-rule (key ∷ seconds ∷ []) =
        guard-rule (is_master n)
          (λ m.
            seconds-rule seconds (λ t ms. store_expire n key t ms)
              (λ t ms f. c.expires m key t ms f))
          (c.replies readonly)
    do_expire-rule (key ∷ seconds ∷ more ∷ rest) = c.replies _

    do_del-rule : (args : List Bytes) → P (do_del n args)
    unfolding do_del
    do_del-rule [] = c.replies _
    do_del-rule (key ∷ []) = guard-rule (is_master n) (λ m. c.deletes m key) (c.replies readonly)
    do_del-rule (key ∷ more ∷ rest) = c.replies _

    do_get-rule : (args : List Bytes) → P (do_get n now args)
    unfolding do_get
    do_get-rule [] = c.replies _
    do_get-rule (key ∷ []) = c.gets key
    do_get-rule (key ∷ more ∷ rest) = c.replies _

    pub dispatch-rule :
        (printable : Bytes → Bytes) (name : Bytes) (args : List Bytes)
        → P (dispatch printable n now (name ∷ args))
    unfolding dispatch
    dispatch-rule printable name args =
        let is : Bytes → Bool = λ cmd. bytes_beq (upper name) cmd in
        if-rule (is (codes "GET")) (do_get-rule args) (
          if-rule (is (codes "SET")) (do_set-rule args) (
            if-rule (is (codes "SETEX")) (do_setex-rule args) (
              if-rule (is (codes "EXPIRE")) (do_expire-rule args) (
                if-rule (is (codes "DEL")) (do_del-rule args) (
                  if-rule (is (codes "PING")) (c.replies _)
                    (if-rule (is (codes "ROLE")) (c.replies _) (c.replies _)))))))
