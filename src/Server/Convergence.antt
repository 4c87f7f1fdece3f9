-- ===== src/Server/Convergence.antt =====
-- What happens at a master.
use sd_03_distributed_cache.Prelude.{ℕ, ◌<◌, List, [], ◌∷◌, Bytes, All, nat_eq}
use sd_03_distributed_cache.Clock.{Clock}
use sd_03_distributed_cache.Lru.{Mode, authoritative}
use sd_03_distributed_cache.Replication.Replica.{Replica}
use sd_03_distributed_cache.Server.{Node, dispatch, expire_round}
use sd_03_distributed_cache.Server.Mirror.{AreShort}
use sd_03_distributed_cache.Server.CatchUp.{CatchesUp, followed-CatchesUp}
use sd_03_distributed_cache.Server.Expiry.{expire_round-CatchesUp}
use sd_03_distributed_cache.Server.Follow.{dispatch-Followed}

-- What a master does between two waits: a request with its time, its name and its arguments, or a round
-- of the expiry loop with its time and its `random.sample`.
pub data Command (F : Type 0) : Type 0 where
  request : F → Bytes → List Bytes → Command F
  expiry : F → (List Bytes → ℕ → List Bytes) → Command F

abbrev pub time_of : {F : Type 0} → Command F → F
time_of (request now name args) = now
time_of (expiry now sample) = now

module _ {F : Type 0} ⦃clock : Clock F⦄ (printable : Bytes → Bytes) where
  abbrev pub run_command : Node F → Command F → Node F
  run_command n (request now name args) = (dispatch printable n now (name ∷ args)).0
  run_command n (expiry now sample) = (expire_round sample n now).0

  abbrev pub run_commands : Node F → List (Command F) → Node F
  run_commands n [] = n
  run_commands n (c ∷ commands) = run_commands (run_command n c) commands

module _ {F : Type 0} ⦃clock : Clock F⦄ {size room : ℕ} {m' : Mode} (short : AreShort F)
    (past : F → Type 0) (positive : 0 < size) (roomy : 0 < room) (q : ℕ) (r : Replica F)
    (printable : Bytes → Bytes) where
  run_command-CatchesUp :
      (n : Node F) (c : Command F)
      → past (time_of c)
      → CatchesUp size room authoritative m' past q n r
      → CatchesUp size room authoritative m' past q (run_command printable n c) r
  run_command-CatchesUp n (request now name args) p u =
      let f =
        dispatch-Followed short past n u.target.store u.entries u.copied positive roomy u.represents
          u.represents_copy u.mirrors printable now p name args in
      followed-CatchesUp past q r n (dispatch printable n now (name ∷ args)).0 u f.entries
        f.represents f.effects f.copy f.copied f.applied f.represents_copy f.mirrors f.logged
  run_command-CatchesUp n (expiry now sample) p u =
      expire_round-CatchesUp short past q r sample n now p u

  -- Both caches have a positive size, the times are in `past`, the master is authoritative, and a
  -- deadline's milliseconds have seconds. Where a replica catches up with its master by reading what is in
  -- its queue, it does so after any requests to the master and any rounds of its expiry loop as well:
  -- reading the queue does not raise, takes one round for each batch, and leaves the replica at the
  -- master's offset with the same keys, the same values and the carried deadlines, but for entries that
  -- the master found expired.
  pub run_commands-CatchesUp :
      (n : Node F) (commands : List (Command F))
      → All (λ c. past (time_of c)) commands
      → CatchesUp size room authoritative m' past q n r
      → CatchesUp size room authoritative m' past q (run_commands printable n commands) r
  run_commands-CatchesUp n [] p u = u
  run_commands-CatchesUp n (c ∷ commands) p u =
      run_commands-CatchesUp (run_command printable n c) commands p.1
        (run_command-CatchesUp n c p.0 u)
