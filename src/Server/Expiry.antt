-- ===== src/Server/Expiry.antt =====
-- `_active_expire_loop`, as a replica sees it.
use sd_03_distributed_cache.Prelude.{
  ℕ, ◌≡◌, refl, ap, ◌∙◌, inl, inr, none, some, List, [], ◌∷◌, Bytes, arith, All, nat_eq, true,
  Bool-cases, bytes_beq_refl,
}
use sd_03_distributed_cache.Clock.{Clock}
use sd_03_distributed_cache.Lru.{Mode, authoritative}
use sd_03_distributed_cache.Lru.Spec.{Entry, find, deleted}
use sd_03_distributed_cache.Replication.Effects.{Effect}
use sd_03_distributed_cache.Replication.Replica.{Replica, apply_all}
use sd_03_distributed_cache.Server.{Node, replicate, replicate_dels, expire_round}
use sd_03_distributed_cache.Server.Mirror.{Mirrors, AreShort, apply-del, apply_all-one}
use sd_03_distributed_cache.Server.CatchUp.{CatchesUp, followed-CatchesUp, entries-followed}
use sd_03_distributed_cache.Lru.Sweep.{mem, sample_expired-Sampled}
use sd_03_distributed_cache.Lru.Unique.{
  Touched, Represents-HasUniqueKeys, find-deleted_self, find-deleted_ne,
}
use sd_03_distributed_cache.Server.Pairs.{changed-Mirrors, read-ArePaired}

module _ {F : Type 0} ⦃clock : Clock F⦄ (size room : ℕ) (m m' : Mode) (short : AreShort F)
    (past : F → Type 0) (q : ℕ) (r : Replica F) where
  -- It catches up, with these entries at the master.
  abbrev CatchesUpTo : Node F → List (Entry F) → Type 0
  CatchesUpTo n es = (u : CatchesUp size room m m' past q n r) × (u.entries ≡ es)

  -- A DEL of a key that the master does not have.
  del-CatchesUpTo :
      (n : Node F) (es : List (Entry F)) (k : Bytes)
      → find k es ≡ none
      → CatchesUpTo n es
      → CatchesUpTo (replicate n (Effect.del k ∷ [])) es
  unfolding replicate
  del-CatchesUpTo n es k gone (u, e) =
      let (a, rest) = apply-del short u.represents_copy k in
      let ran = apply_all-one short u.target.store a.state (Effect.del k) a.returns in
      let missing : find k u.entries ≡ none = ap (find k) e ∙ gone in
      let mirrors : Mirrors past u.entries a.rest = rw rest (
        changed-Mirrors past k u.entries u.entries u.copied (deleted k u.copied).0 u.mirrors
          (rw (missing, find-deleted_self k u.copied (Represents-HasUniqueKeys u.represents_copy))
            tt)
          (λ j ne. refl) (λ j ne. find-deleted_ne k j u.copied ne)) in
      (
        followed-CatchesUp past q r n (replicate n (Effect.del k ∷ [])) u u.entries u.represents
            (Effect.del k ∷ []) a.state a.rest ran a.represents mirrors (inr refl),
        entries-followed past q r n (replicate n (Effect.del k ∷ [])) u u.entries u.represents
              (Effect.del k ∷ []) a.state a.rest ran a.represents mirrors (inr refl)
            ∙ e,
      )

  dels-CatchesUpTo :
      (n : Node F) (es : List (Entry F)) (ks : List Bytes)
      → All (λ k. find k es ≡ none) ks
      → CatchesUpTo n es
      → CatchesUpTo (replicate_dels n ks) es
  unfolding replicate_dels
  dels-CatchesUpTo n es [] gone u = u
  dels-CatchesUpTo n es (k ∷ ks) (g, gone) u =
      dels-CatchesUpTo (replicate n (Effect.del k ∷ [])) es ks gone (del-CatchesUpTo n es k g u)

mem-All : (P : Bytes → Type 0) (ks : List Bytes) → ((k : Bytes) → mem k ks ≡ true → P k) → All P ks
mem-All P [] h = tt
mem-All P (k ∷ ks) h =
    (h k (rw (bytes_beq_refl k) refl), mem-All P ks (λ j e. h j (ground (arith, e))))

module _ {F : Type 0} ⦃clock : Clock F⦄ {size room : ℕ} {m' : Mode} (short : AreShort F)
    (past : F → Type 0) (q : ℕ) (r : Replica F) where
  -- A round of the expiry loop, whatever keys are sampled.
  pub expire_round-CatchesUp :
      (sample : List Bytes → ℕ → List Bytes) (n : Node F) (now : F)
      → past now
      → CatchesUp size room authoritative m' past q n r
      → CatchesUp size room authoritative m' past q (expire_round sample n now).0 r
  unfolding expire_round apply_all
  expire_round-CatchesUp sample n now p u =
      let s = sample_expired-Sampled u.represents sample (some now) now 20 in
      let touched : (j : Bytes) → Touched now (find j u.entries) (find j s.rest) = λ j.
        elim (Bool-cases (mem j s.removed)) [
          | inl out ↦ let (e, f, x) = s.sound j out in inr (e, f, x, s.kept j ∙ rw out refl)
          | inr stays ↦ inl (s.kept j ∙ rw stays refl)
        ] in
      let mirrors : Mirrors past s.rest u.copied = λ j.
        read-ArePaired past now p (find j u.entries) (find j s.rest) (find j u.copied) (touched j)
          (u.mirrors j) in
      let n' : Node F = record n { store = s.state } in
      let v =
        followed-CatchesUp past q r n n' u s.rest s.represents [] u.target.store u.copied refl
          u.represents_copy mirrors (inl (refl, refl)) in
      let e =
        entries-followed past q r n n' u s.rest s.represents [] u.target.store u.copied refl
          u.represents_copy mirrors (inl (refl, refl)) in
      let w =
        dels-CatchesUpTo size room authoritative m' short past q r n' s.rest s.removed
          (mem-All (λ k. find k s.rest ≡ none) s.removed (λ k out. s.kept k ∙ rw out refl))
          (v, e) in
      rw (s.returns, expire_round) w.0
