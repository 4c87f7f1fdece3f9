-- ===== src/Lru/Unique.antt =====
-- What each operation of distcache/lru.py makes of the entry of any one key.
use sd_03_distributed_cache.Prelude.{
  ℕ, ◌≡◌, ◌≢◌, refl, ap, ◌∙◌, arith, Bool-cases, Option-cases, inl, inr, true, Option, none, some,
  List, [], ◌∷◌, Bytes, bytes_eq, bytes_beq, bytes_beq_iff, bytes_beq_refl, subst, ◌⊎◌,
}
use sd_03_distributed_cache.Clock.{Clock}
use sd_03_distributed_cache.Lru.{Mode, authoritative, logical, LruCache, is_expired}
use sd_03_distributed_cache.Lru.Spec.{
  Entry, find, without, reschedule, but_last, last_key, inserted, gotten, deleted, rescheduled,
}
use sd_03_distributed_cache.Lru.Cells.{Cells, entries, UniqueKeys, find-eq_none_of_locate}
use sd_03_distributed_cache.Lru.Refine.{Represents}
use sd_03_distributed_cache.Lru.Laws.{find-without_ne}

-- No two entries have the same key.
abbrev pub HasUniqueKeys : {F : Type 0} → List (Entry F) → Type 0
HasUniqueKeys [] = Unit
HasUniqueKeys (e ∷ es) = (find e.key es ≡ none) × HasUniqueKeys es

module _ {F : Type 0} where
  entries-HasUniqueKeys : (cs : Cells F) → UniqueKeys cs → HasUniqueKeys (entries cs)
  entries-HasUniqueKeys [] u = tt
  entries-HasUniqueKeys ((p, e) ∷ cs) (h, u) =
      (find-eq_none_of_locate e.key cs h, entries-HasUniqueKeys cs u)

  pub Represents-HasUniqueKeys :
      {n : ℕ} {m : Mode} {c : LruCache F} {es : List (Entry F)}
      → Represents n m c es
      → HasUniqueKeys es
  Represents-HasUniqueKeys r =
      subst HasUniqueKeys r.entries_eq (entries-HasUniqueKeys r.cells r.is_cache.unique)

  find-without_self :
      (k : Bytes) (es : List (Entry F)) → HasUniqueKeys es → find k (without k es) ≡ none
  unfolding find without
  find-without_self k [] u = refl
  find-without_self k (e ∷ es) (h, u) =
      ground (arith, find-without_self k es u, bytes_beq_iff e.key k)

  find_key : (k : Bytes) (e : Entry F) (es : List (Entry F)) → find k es ≡ some e → e.key ≡ k
  unfolding find
  find_key k e [] h = ground arith
  find_key k e (d ∷ es) h = ground (arith, find_key k e es, bytes_beq_iff d.key k)

  find-last_key : (j : Bytes) (es : List (Entry F)) → last_key es ≡ some j → find j es ≢ none
  unfolding find last_key
  find-last_key j [] h g = ground arith
  find-last_key j (e ∷ []) h g = ground (arith, bytes_beq_refl j)
  find-last_key j (e ∷ f ∷ es) h g = ground (arith, find-last_key j (f ∷ es) h)

  find-but_last_self :
      (j : Bytes) (es : List (Entry F))
      → HasUniqueKeys es
      → last_key es ≡ some j
      → find j (but_last es) ≡ none
  unfolding find but_last last_key
  find-but_last_self j [] u h = refl
  find-but_last_self j (e ∷ []) u h = refl
  find-but_last_self j (e ∷ f ∷ es) (a, u) h =
      ground (
        arith,
        find-but_last_self j (f ∷ es) u h,
        find-last_key j (f ∷ es) h,
        bytes_beq_iff e.key j,
      )

  -- The key that an insertion evicts is gone.
  pub find-inserted_evicted :
      (n : ℕ) (k j v : Bytes) (x : Option F) (es : List (Entry F))
      → HasUniqueKeys es
      → (inserted n true k v x es).1 ≡ some j
      → find j (inserted n true k v x es).0 ≡ none
  unfolding inserted
  find-inserted_evicted n k j v x es u h =
      let e : Entry F = record { key = k; value = v; expire_at = x } in
      elim (Option-cases (find k es)) [
        | inl new ↦ ground (arith, new, find-but_last_self j (e ∷ es) (new, u))
        | inr (d, old) ↦ ground (arith, old)
      ]

  pub find-deleted_self :
      (k : Bytes) (es : List (Entry F)) → HasUniqueKeys es → find k (deleted k es).0 ≡ none
  unfolding deleted
  find-deleted_self k es u = elim (Option-cases (find k es)) [
    | inl new ↦ ground (arith, new)
    | inr (d, old) ↦ ground (arith, old, find-without_self k es u)
  ]

  pub find-deleted_ne :
      (k j : Bytes) (es : List (Entry F)) → j ≢ k → find j (deleted k es).0 ≡ find j es
  unfolding deleted
  find-deleted_ne k j es ne = elim (Option-cases (find k es)) [
    | inl new ↦ ground (arith, new)
    | inr (d, old) ↦ ground (arith, old, find-without_ne k j es ne)
  ]

  find-reschedule_self :
      (k : Bytes) (t : F) (e : Entry F) (es : List (Entry F))
      → find k es ≡ some e
      → find k (reschedule k t es) ≡ some (record e { expire_at = some t })
  unfolding find reschedule
  find-reschedule_self k t e [] h = ground arith
  find-reschedule_self k t e (d ∷ es) h = ground (arith, find-reschedule_self k t e es)

  find-reschedule_ne :
      (k j : Bytes) (t : F) (es : List (Entry F)) → j ≢ k → find j (reschedule k t es) ≡ find j es
  unfolding find reschedule
  find-reschedule_ne k j t [] ne = refl
  find-reschedule_ne k j t (e ∷ es) ne =
      ground (arith, find-reschedule_ne k j t es ne, bytes_beq_iff e.key k, bytes_beq_iff e.key j)

  pub find-rescheduled_self :
      (k : Bytes) (t : F) (e : Entry F) (es : List (Entry F))
      → find k es ≡ some e
      → find k (rescheduled k t es).0 ≡ some (record e { expire_at = some t })
  unfolding rescheduled
  find-rescheduled_self k t e es h = ground (arith, h, find-reschedule_self k t e es h)

  pub find-rescheduled_ne :
      (k j : Bytes) (t : F) (es : List (Entry F))
      → j ≢ k
      → find j (rescheduled k t es).0 ≡ find j es
  unfolding rescheduled
  find-rescheduled_ne k j t es ne = elim (Option-cases (find k es)) [
    | inl new ↦ ground (arith, new)
    | inr (d, old) ↦ ground (arith, old, find-reschedule_ne k j t es ne)
  ]

-- What a read makes of the entry of a key: nothing, or it was expired and is gone.
abbrev pub Touched :
    {F : Type 0} → ⦃clock : Clock F⦄ → F → Option (Entry F) → Option (Entry F) → Type 0
Touched {F} now before after =
    (after ≡ before)
    ⊎ ((e : Entry F) × (before ≡ some e) × (is_expired e.expire_at now ≡ true) × (after ≡ none))

pub bytes_cases : (j k : Bytes) → (j ≡ k) ⊎ (j ≢ k)
bytes_cases j k = elim (Bool-cases (bytes_beq j k)) [
  | inl t ↦ inl ((bytes_beq_iff j k).0 t)
  | inr f ↦ inr (λ e. ground (arith, bytes_beq_iff j k, e))
]

module _ {F : Type 0} ⦃clock : Clock F⦄ where
  front-same :
      (k j : Bytes) (e : Entry F) (es : List (Entry F))
      → find k es ≡ some e
      → find j (e ∷ without k es) ≡ find j es
  unfolding find
  front-same k j e es h =
      ground (arith, h, find_key k e es h, find-without_ne k j es, bytes_beq_iff e.key j)

  without-Touched :
      (now : F) (k j : Bytes) (e : Entry F) (es : List (Entry F))
      → HasUniqueKeys es
      → find k es ≡ some e
      → is_expired e.expire_at now ≡ true
      → Touched now (find j es) (find j (without k es))
  without-Touched now k j e es u h x = elim (bytes_cases j k) [
    | inl same ↦ inr (
      e,
      ap (λ i. find i es) same ∙ h,
      x,
      ap (λ i. find i (without k es)) same ∙ find-without_self k es u,
    )
    | inr ne ↦ inl (find-without_ne k j es ne)
  ]

  expired-Touched :
      (m : Mode) (now : F) (k j : Bytes) (e : Entry F) (es : List (Entry F))
      → HasUniqueKeys es
      → find k es ≡ some e
      → is_expired e.expire_at now ≡ true
      → Touched now (find j es) (find j (gotten m now k es).0)
  unfolding gotten
  expired-Touched authoritative now k j e es u old x =
      rw (old, gotten) (rw x (without-Touched now k j e es u old x))
  expired-Touched logical now k j e es u old x = rw (old, gotten) (rw x (inl refl))

  pub gotten-Touched :
      (m : Mode) (now : F) (k j : Bytes) (es : List (Entry F))
      → HasUniqueKeys es
      → Touched now (find j es) (find j (gotten m now k es).0)
  unfolding gotten
  gotten-Touched m now k j es u = elim (Option-cases (find k es)) [
    | inl new ↦ rw (new, gotten) (inl refl)
    | inr (e, old) ↦ elim (Bool-cases (is_expired e.expire_at now)) [
      | inl x ↦ expired-Touched m now k j e es u old x
      | inr x ↦ rw (old, gotten) (rw x (inl (front-same k j e es old)))
    ]
  ]
