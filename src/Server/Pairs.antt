-- ===== src/Server/Pairs.antt =====
-- A replica's store beside its master's, where one key changes on both.
use sd_03_distributed_cache.Prelude.{
  ◌≡◌, ◌≢◌, refl, sym, subst, true, inl, inr, Option, none, some, List, Bytes, arith,
}
use sd_03_distributed_cache.Clock.{Clock}
use sd_03_distributed_cache.Lru.{is_expired}
use sd_03_distributed_cache.Lru.Spec.{Entry, find, deleted, rescheduled}
use sd_03_distributed_cache.Lru.Unique.{
  HasUniqueKeys, find-deleted_self, find-deleted_ne, find-rescheduled_self, find-rescheduled_ne,
  Touched, bytes_cases,
}
use sd_03_distributed_cache.Server.Mirror.{IsCarried, IsGhost, ArePaired, Mirrors}

module _ {F : Type 0} ⦃clock : Clock F⦄ (past : F → Type 0) where
  -- The key `k` has changed, and no other.
  pub changed-Mirrors :
      (k : Bytes) (es es' ds ds' : List (Entry F))
      → Mirrors past es ds
      → ArePaired past (find k es') (find k ds')
      → ((j : Bytes) → j ≢ k → find j es' ≡ find j es)
      → ((j : Bytes) → j ≢ k → find j ds' ≡ find j ds)
      → Mirrors past es' ds'
  changed-Mirrors k es es' ds ds' h at_k es_same ds_same j = elim (bytes_cases j k) [
    | inl same ↦ subst (λ i. ArePaired past (find i es') (find i ds')) (sym same) at_k
    | inr ne ↦ rw (es_same j ne, ds_same j ne) (h j)
  ]

  expired-IsGhost :
      (now : F)
      → past now
      → (x y : Option F) → is_expired x now ≡ true
      → IsCarried x y
      → IsGhost past y
  unfolding is_expired
  expired-IsGhost now p none y e carried = absurd (ground arith)
  expired-IsGhost now p (some t) y e carried = (t, now, p, e, carried)

  gone-ArePaired :
      (now : F)
      → past now
      → (e : Entry F) (d : Option (Entry F)) → is_expired e.expire_at now ≡ true
      → ArePaired past (some e) d
      → ArePaired past none d
  gone-ArePaired now p e none x h = absurd h
  gone-ArePaired now p e (some d) x h = expired-IsGhost now p e.expire_at d.expire_at x h.1

  pub read-ArePaired :
      (now : F)
      → past now
      → (o o' d : Option (Entry F)) → Touched now o o'
      → ArePaired past o d
      → ArePaired past o' d
  read-ArePaired now p o o' d (inl same) h = rw same h
  read-ArePaired now p o o' d (inr (e, before, x, after)) h =
      rw after (gone-ArePaired now p e d x (subst (λ q. ArePaired past q d) before h))

  pub deleted-Mirrors :
      (k : Bytes) (es ds : List (Entry F))
      → HasUniqueKeys es
      → HasUniqueKeys ds
      → Mirrors past es ds
      → Mirrors past (deleted k es).0 (deleted k ds).0
  deleted-Mirrors k es ds u u' h =
      changed-Mirrors k es (deleted k es).0 ds (deleted k ds).0 h
        (rw (find-deleted_self k es u, find-deleted_self k ds u') tt)
        (λ j ne. find-deleted_ne k j es ne) (λ j ne. find-deleted_ne k j ds ne)

  pub rescheduled-Mirrors :
      (k : Bytes) (t s : F) (e : Entry F) (es ds : List (Entry F))
      → find k es ≡ some e
      → IsCarried (some t) (some s)
      → Mirrors past es ds
      → Mirrors past (rescheduled k t es).0 (rescheduled k s ds).0
  rescheduled-Mirrors k t s e es ds f carried h =
      changed-Mirrors k es (rescheduled k t es).0 ds (rescheduled k s ds).0 h
        (go (find k ds) refl (subst (λ q. ArePaired past q (find k ds)) f (h k)))
        (λ j ne. find-rescheduled_ne k j t es ne) (λ j ne. find-rescheduled_ne k j s ds ne)
    where
      go :
          (o : Option (Entry F))
          → find k ds ≡ o
          → ArePaired past (some e) (find k ds)
          → ArePaired past (find k (rescheduled k t es).0) (find k (rescheduled k s ds).0)
      go none g p = absurd (subst (ArePaired past (some e)) g p)
      go (some d) g p =
          rw (find-rescheduled_self k t e es f, find-rescheduled_self k s d ds g)
            ((subst (ArePaired past (some e)) g p).0, carried)
