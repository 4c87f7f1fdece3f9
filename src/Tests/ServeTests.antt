-- ===== src/Tests/ServeTests.antt =====
-- A node that serve.py starts on a port that the system chooses, with its entry in etcd.
use sd_03_distributed_cache.Prelude.{ℕ, ◌≡◌, refl, true, none, some, [], ◌∷◌, Result, ok, raise}
use sd_03_distributed_cache.Prelude.Int.{ℤ, pos}
use sd_03_distributed_cache.Bytes.{codes}
use sd_03_distributed_cache.Lru
use sd_03_distributed_cache.Lru.Refine.{init-Represents}
use sd_03_distributed_cache.Bytes.Decimal.{int}
use sd_03_distributed_cache.Server.Lifecycle.{new_host}
use sd_03_distributed_cache.Replication.Master
use sd_03_distributed_cache.Serve.{Args, Libraries, Started, main, endpoints_of}
use sd_03_distributed_cache.Serve.Entry.{IsFound, main-IsFound}
use sd_03_distributed_cache.Tests.Clocks.{ticking}
use sd_03_distributed_cache.Tests.Calls.{counting}

-- Two endpoints.
two_endpoints : endpoints_of (codes " a:1 , ,b:2") ≡ codes "a:1" ∷ codes "b:2" ∷ []
unfolding endpoints_of
two_endpoints = refl

abbrev args : Args
args = record {
  host = codes "10.0.0.1";
  port = pos 0;
  maxsize = pos 2;
  role = codes "slave";
  master = some (codes "10.0.0.2:7000");
  metrics_port = pos 0;
  etcd = some (codes "etcd:2379");
  shard = none;
  lease_ttl = pos 10;
}

abbrev libraries : Libraries
libraries = record {
  bind = λ host port. ok (pos 7001);
  start_http_server = λ port. ok tt;
  dumps = λ body. codes "{}";
  prometheus = true;
  etcd3 = true;
}

abbrev started_of : Started ℤ ℕ ℕ → Result (Started ℤ ℕ ℕ) → Started ℤ ℕ ℕ
started_of s (ok t) = t
started_of s (raise x) = s

abbrev nothing : Started ℤ ℕ ℕ
nothing = record {
  host = new_host [] (pos 0) (record {
    role = [];
    store = ((init-Represents Lru.logical).0 1).0;
    replicator = Master.init;
  });
  registry = none;
}

abbrev outcome : ℕ × Result (Started ℤ ℕ ℕ)
outcome = main counting libraries 0 args (pos 0)

main-IsFound_example :
    IsFound counting libraries 0 outcome.0 args (pos 0) (started_of nothing outcome.1)
unfolding main Lru.init int
main-IsFound_example =
    main-IsFound counting libraries 0 outcome.0 args (pos 0) (started_of nothing outcome.1) refl
      refl
