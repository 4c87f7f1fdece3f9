-- ===== src/Lru/Spec.antt =====
-- What distcache/lru.py promises, with no pointers: the entries as a list, most recently used first.
use sd_03_distributed_cache.Prelude.{
  ℕ, ltb, Bool, true, false, ◌&&◌, Option, none, some, List, [], ◌∷◌, if◌then◌else◌, length, Bytes,
  bytes_beq,
}
use sd_03_distributed_cache.Clock.{Clock}
use sd_03_distributed_cache.Lru.{Mode, authoritative, logical, is_expired}

pub record Entry (F : Type 0) : Type 0 where
  pub key : Bytes
  pub value : Bytes
  pub expire_at : Option F

module _ {F : Type 0} where
  unfoldable pub find : Bytes → List (Entry F) → Option (Entry F)
  find k [] = none
  find k (e ∷ es) = if bytes_beq e.key k then some e else find k es

  -- Without the entry of the key.
  unfoldable pub without : Bytes → List (Entry F) → List (Entry F)
  without k [] = []
  without k (e ∷ es) = let rest = without k es in if bytes_beq e.key k then es else e ∷ rest

  -- The entry of the key, with another deadline, in its place.
  unfoldable pub reschedule : Bytes → F → List (Entry F) → List (Entry F)
  reschedule k t [] = []
  reschedule k t (e ∷ es) =
      let rest = reschedule k t es in
      if bytes_beq e.key k then record e { expire_at = some t } ∷ es else e ∷ rest

  -- All but the least recently used entry, and that entry's key.
  unfoldable pub but_last : List (Entry F) → List (Entry F)
  but_last [] = []
  but_last (e ∷ []) = []
  but_last (e ∷ f ∷ es) = e ∷ but_last (f ∷ es)

  unfoldable pub last_key : List (Entry F) → Option Bytes
  last_key [] = none
  last_key (e ∷ []) = some e.key
  last_key (e ∷ f ∷ es) = last_key (f ∷ es)

  -- The new entries, and whether the key was there.
  unfoldable pub deleted : Bytes → List (Entry F) → List (Entry F) × Bool
  deleted k es = elim (find k es) [ none ↦ (es, false) | some _ ↦ (without k es, true) ]

  unfoldable pub rescheduled : Bytes → F → List (Entry F) → List (Entry F) × Bool
  rescheduled k t es = elim (find k es) [ none ↦ (es, false) | some _ ↦ (reschedule k t es, true) ]

  -- The new entries and the key that is evicted.
  unfoldable pub inserted :
      ℕ → Bool → Bytes → Bytes → Option F → List (Entry F) → List (Entry F) × Option Bytes
  inserted maxsize evict k v x es =
      let e : Entry F = record { key = k; value = v; expire_at = x } in
      elim (find k es) [
        | some _ ↦ (e ∷ without k es, none)
        | none ↦
            if evict && ltb maxsize (length (e ∷ es))
            then (but_last (e ∷ es), last_key (e ∷ es))
            else (e ∷ es, none)
      ]

module _ {F : Type 0} ⦃clock : Clock F⦄ where
  -- The new entries and the value read.
  unfoldable pub gotten : Mode → F → Bytes → List (Entry F) → List (Entry F) × Option Bytes
  gotten mode now k es = elim (find k es) [
    | none ↦ (es, none)
    | some e ↦
        if is_expired e.expire_at now
        then elim mode [ authoritative ↦ (without k es, none) | logical ↦ (es, none) ]
        else (e ∷ without k es, some e.value)
  ]
