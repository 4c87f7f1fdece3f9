-- ===== src/Server/Stopping.antt =====
-- `stop` of distcache/server.py.
use sd_03_distributed_cache.Prelude.{
  ◌≡◌, ◌≢◌, arith, sym, subst, ◌⊎◌, inl, inr, Option, none, some, Exn, true, All, List, [], ◌∷◌,
}
use sd_03_distributed_cache.Server.Lifecycle.{
  Task, absent, running, cancel, ReplicaClient, Host, listening, stop, stop_metrics, stop_replica,
  stop_client, close_server, awaited, settled,
}

-- The exception by which a task, or the task of the replica client, has ended.
abbrev pub exn_of : Task → Option Exn
exn_of t = (cancel t).1

abbrev pub client_exn : Option ReplicaClient → Option Exn
client_exn none = none
client_exn (some c) = exn_of c.task

-- Nothing that the node still knows of is left running, but for clients that a second `follow` dropped.
pub record IsStopped {F : Type 0} (h : Host F) : Type 0 where
  pub expire_task : h.expire_task ≡ absent
  pub metrics_task : h.metrics_task ≡ absent
  pub retiring : All (λ (c : ReplicaClient). (c.stopped ≡ true) × (c.task ≢ running)) h.retiring
  pub server : h.server ≢ listening
  pub client :
      (c : ReplicaClient) → h.replica_client ≡ some c → (c.stopped ≡ true) × (c.task ≢ running)

abbrev IsOver : ReplicaClient → Type 0
IsOver c = (c.stopped ≡ true) × (c.task ≢ running)

settled-IsOver : (cs : List ReplicaClient) → All IsOver (settled cs)
unfolding settled stop_client cancel
settled-IsOver [] = tt
settled-IsOver (c ∷ cs) = (ground arith, settled-IsOver cs)

module _ {F : Type 0} where
  stop-settled :
      (h : Host F)
      → exn_of h.expire_task ≡ none
      → h.metrics_task ≡ running
      → ((stop h).0.retiring ≡ settled h.retiring)
        ⊎ ((stop h).0.retiring ≡ settled (settled h.retiring))
        ⊎ ((stop h).0.retiring ≡ settled (settled (settled h.retiring)))
  unfolding stop stop_metrics stop_replica stop_client close_server cancel awaited
  stop-settled h e m = ground (arith, e, m)

  stop-IsOver :
      (h : Host F)
      → exn_of h.expire_task ≡ none
      → h.metrics_task ≡ running
      → All IsOver (stop h).0.retiring
  stop-IsOver h e m = elim (stop-settled h e m) [
    | inl q ↦ subst (All IsOver) (sym q) (settled-IsOver h.retiring)
    | inr q ↦ elim q [
      | inl q ↦ subst (All IsOver) (sym q) (settled-IsOver (settled h.retiring))
      | inr q ↦ subst (All IsOver) (sym q) (settled-IsOver (settled (settled h.retiring)))
    ]
  ]

  -- On a started node, whose metrics loop runs and whose expiry loop has not ended by an exception: either
  -- the task of the replica client has not either, and `stop` returns with no loop and no replica client
  -- left running, those that `promote` let go included, and the server closed; or it has, and `stop` raises
  -- that exception again and leaves the server as it was. Clients that a second `follow` dropped are not
  -- touched.
  pub stop-IsStopped :
      (h : Host F)
      → exn_of h.expire_task ≡ none
      → h.metrics_task ≡ running
      → ((stop h).0.dropped ≡ h.dropped)
        × (((client_exn h.replica_client ≡ none) × ((stop h).1 ≡ none) × IsStopped (stop h).0)
            ⊎ ((x : Exn) × (client_exn h.replica_client ≡ some x)
                × ((stop h).1 ≡ some x)
                × ((stop h).0.server ≡ h.server)))
  unfolding stop stop_metrics stop_replica stop_client close_server cancel awaited
  stop-IsStopped h e m = ground (arith, e, m, stop-IsOver h e m)
