-- ===== src/Server/Reached.antt =====
-- What holds of a node in every state that it reaches.
use sd_03_distributed_cache.Prelude.{
  ℕ, suc, ◌<◌, ◌≡◌, refl, ap, sym, ◌∙◌, subst, arith, true, ◌⊎◌, inl, inr, none, List, [], ◌∷◌,
  if◌then◌else◌, Bytes, bytes_beq, Result, ok, ◌>>=◌,
}
use sd_03_distributed_cache.Prelude.Int.{ℤ, pos}
use sd_03_distributed_cache.Clock.{Clock}
use sd_03_distributed_cache.Bytes.{codes}
use sd_03_distributed_cache.Lru.{Mode, authoritative, logical}
use sd_03_distributed_cache.Lru.Refine.{Represents, init-Represents}
use sd_03_distributed_cache.Lru.Snapshot.{loaded, load_snapshot-loaded}
use sd_03_distributed_cache.Server.{Node, is_master, dispatch, expire_round}
use sd_03_distributed_cache.Server
use sd_03_distributed_cache.Replication.Master
use sd_03_distributed_cache.Server.Stores.{IsWhole, apply-IsWhole, ok-eq}
use sd_03_distributed_cache.Server.Failover.{promote-Represents}
use sd_03_distributed_cache.Server.Whole.{Keeps, dispatch-Keeps, expire_round-Keeps}
use sd_03_distributed_cache.Server.Lifecycle.{
  absent, running, Host, new_host, follow, start, start_client, stop, stop_metrics, stop_replica,
  stop_client, close_server, awaited, cancel, promote,
}
use sd_03_distributed_cache.Server.States.{
  Moves, Reaches, follows, starts, stops, promotes, answers, expires, serves, replays, loads,
  breaks, retires, here, and_then,
}

abbrev pub mode_of : {F : Type 0} → Node F → Mode
mode_of n = if is_master n then authoritative else logical

-- The store is well formed and has the mode of the role, and the expiry loop was started on a master only.
pub record IsSound {F : Type 0} (size : ℕ) (h : Host F) : Type 0 where
  pub whole : IsWhole size (mode_of h.node) h.node.store
  pub masters : (h.expire_task ≡ absent) ⊎ (is_master h.node ≡ true)

module _ {F : Type 0} where
  stop-node : (h : Host F) → (stop h).0.node ≡ h.node
  unfolding stop stop_metrics stop_replica stop_client close_server cancel awaited
  stop-node h = ground arith

  stop-expire_task :
      (h : Host F) → ((stop h).0.expire_task ≡ absent) ⊎ ((stop h).0.expire_task ≡ h.expire_task)
  unfolding stop stop_metrics stop_replica stop_client close_server cancel awaited
  stop-expire_task h = ground arith

  start-node : (bind : Bytes → ℤ → Result ℤ) (h : Host F) → (start bind h).0.node ≡ h.node
  unfolding start start_client
  start-node bind h = ground arith

  start-expire_task :
      (bind : Bytes → ℤ → Result ℤ) (h : Host F)
      → ((start bind h).0.expire_task ≡ h.expire_task) ⊎ (is_master h.node ≡ true)
  unfolding start start_client
  start-expire_task bind h = ground arith

module _ {F : Type 0} ⦃clock : Clock F⦄ {size : ℕ} (positive : 0 < size) where
  stays-IsSound :
      (h h' : Host F)
      → h'.node ≡ h.node
      → (h'.expire_task ≡ absent) ⊎ (is_master h.node ≡ true)
      → IsSound size h
      → IsSound size h'
  stays-IsSound h h' same task i = record {
    whole = subst (λ (n : Node F). IsWhole size (mode_of n) n.store) (sym same) i.whole;
    masters = elim task [ inl e ↦ inl e | inr m ↦ inr (ap is_master same ∙ m) ];
  }

  -- The node changes, and keeps its role.
  Keeps-IsSound :
      (h : Host F) (n : Node F)
      → Keeps size (mode_of h.node) h.node n
      → IsSound size h
      → IsSound size (record h { node = n })
  unfolding is_master
  Keeps-IsSound h n k i = record {
    whole =
        subst
          (λ r.
            IsWhole size (if bytes_beq r (codes "master") then authoritative else logical) n.store)
          (sym k.role) k.whole;
    masters = elim i.masters [
      | inl e ↦ inl e
      | inr m ↦ inr (ap (λ r. bytes_beq r (codes "master")) k.role ∙ m)
    ];
  }

  new_host-IsSound :
      (role host : Bytes) (port : ℤ) (k : ℕ) (n : Node F)
      → suc k ≡ size
      → Server.init (pos (suc k)) role ≡ ok n
      → IsSound size (new_host host port n)
  unfolding Server.init is_master new_host
  new_host-IsSound role host port k n e h =
      let m : Mode = if bytes_beq role (codes "master") then authoritative else logical in
      let (c, made, r) = (init-Represents {F = F} m).0 k in
      let made_node : Node F = record { role = role; store = c; replicator = Master.init } in
      let same : made_node ≡ n = ok-eq made_node n (
        sym (
          ap (λ x. x >>= λ c. ok (record { role = role; store = c; replicator = Master.init }))
            made)
        ∙ h) in
      let whole : IsWhole size (mode_of made_node) made_node.store =
        subst (λ s. IsWhole s m c) e ([], r) in
      record {
        whole = subst (λ (n : Node F). IsWhole size (mode_of n) n.store) same whole;
        masters = inl refl;
      }

  runs-master : (h : Host F) → IsSound size h → h.expire_task ≡ running → is_master h.node ≡ true
  runs-master h i runs = elim i.masters [
    | inl gone ↦ absurd (ground (arith, runs, gone))
    | inr m ↦ m
  ]

  expiry-Keeps :
      (h : Host F) (sample : List Bytes → ℕ → List Bytes) (now : F)
      → is_master h.node ≡ true
      → IsSound size h
      → Keeps size (mode_of h.node) h.node (expire_round sample h.node now).0
  expiry-Keeps h sample now master i =
      let mode : mode_of h.node ≡ authoritative =
        ap (λ b. if b then authoritative else logical) master in
      subst (λ m. Keeps size m h.node (expire_round sample h.node now).0) (sym mode)
        (expire_round-Keeps h.node sample now
          (subst (λ m. IsWhole size m h.node.store) mode i.whole)).0

  Moves-IsSound : (h h' : Host F) → Moves h h' → IsSound size h → IsSound size h'
  unfolding promote follow is_master Server.promote bytes_beq
  Moves-IsSound h h' (follows host port) i = stays-IsSound h (follow h host port) refl i.masters i
  Moves-IsSound h h' (starts bind) i =
      stays-IsSound h (start bind h).0 (start-node bind h)
        (elim (start-expire_task bind h) [
          | inl e ↦ elim i.masters [ inl a ↦ inl (e ∙ a) | inr m ↦ inr m ]
          | inr m ↦ inr m
        ])
        i
  Moves-IsSound h h' stops i =
      stays-IsSound h (stop h).0 (stop-node h)
        (elim (stop-expire_task h) [
          | inl e ↦ inl e
          | inr e ↦ elim i.masters [ inl a ↦ inl (e ∙ a) | inr m ↦ inr m ]
        ])
        i
  Moves-IsSound h h' promotes i = record {
    whole = (i.whole.0, promote-Represents h.node i.whole.1);
    masters = inr refl;
  }
  Moves-IsSound h h' (answers printable now name args) i =
      Keeps-IsSound h (dispatch printable h.node now (name ∷ args)).0
        (dispatch-Keeps h.node positive i.whole printable now name args) i
  Moves-IsSound h h' (expires runs sample now) i =
      Keeps-IsSound h (expire_round sample h.node now).0
        (expiry-Keeps h sample now (runs-master h i runs) i) i
  Moves-IsSound h h' (serves e) i = record { whole = i.whole; masters = i.masters }
  Moves-IsSound h h' (replays f e c a) i = record {
    whole = apply-IsWhole positive h.node.store c e a i.whole;
    masters = i.masters;
  }
  Moves-IsSound h h' (loads f items new c a) i =
      let (c', returns, r) = load_snapshot-loaded i.whole.1 items new in
      record {
        whole = (
          loaded items [],
          subst (λ d. Represents size (mode_of h.node) d (loaded items []))
              (ok-eq c' c (sym returns ∙ a)) r,
        );
        masters = i.masters;
      }
  Moves-IsSound h h' (breaks c e x) i = record { whole = i.whole; masters = i.masters }
  Moves-IsSound h h' (retires before behind c e) i = record { whole = i.whole; masters = i.masters }

  Reaches-IsSound : (h h' : Host F) → Reaches h h' → IsSound size h → IsSound size h'
  Reaches-IsSound h h' here i = i
  Reaches-IsSound h h' (and_then {h' = mid} r m) i =
      Moves-IsSound mid h' m (Reaches-IsSound h mid r i)

module _ {F : Type 0} ⦃clock : Clock F⦄ where
  -- In every state that a new node of a positive size reaches, by whatever requests, rounds of the expiry
  -- loop, steps of the tasks that serve slaves, replayed effects, loaded snapshots with distinct keys, ends
  -- of the replica client, `follow`, `start`, `stop` and `promote`, the store is well formed and
  -- authoritative exactly where the node is a master, and the expiry loop was started on a master only.
  -- While it runs, a round of it does not raise.
  pub init-IsSound :
      (k : ℕ) (role host : Bytes) (port : ℤ) (n : Node F) (h : Host F)
      → Server.init (pos (suc k)) role ≡ ok n
      → Reaches (new_host host port n) h
      → IsSound (suc k) h
        × (h.expire_task ≡ running
            → (sample : List Bytes → ℕ → List Bytes) (now : F)
            → (expire_round sample h.node now).1 ≡ none)
  init-IsSound k role host port n h made r =
      let positive : 0 < suc k = omega arith in
      let i =
        Reaches-IsSound positive (new_host host port n) h r
          (new_host-IsSound positive role host port k n refl made) in
      (
        i,
        λ runs sample now.
            let mode : mode_of h.node ≡ authoritative =
              ap (λ b. if b then authoritative else logical) (runs-master positive h i runs) in
            (expire_round-Keeps h.node sample now
              (subst (λ m. IsWhole (suc k) m h.node.store) mode i.whole)).1,
      )
