-- ===== src/Tests/DiscoveryTests.antt =====
-- Service discovery, with an etcd that counts the calls that were made of it.
use sd_03_distributed_cache.Prelude.{
  ℕ, ◌+◌, ◌≡◌, refl, true, false, none, some, List, [], ◌∷◌, Bytes, ok, bytes_beq,
}
use sd_03_distributed_cache.Prelude.Int.{pos}
use sd_03_distributed_cache.Prelude.Dict.{lookup, insert}
use sd_03_distributed_cache.Bytes.{codes}
use sd_03_distributed_cache.Bytes.Decimal.{show, show_ℤ}
use sd_03_distributed_cache.HashRing.{has_node}
use sd_03_distributed_cache.HashRing
use sd_03_distributed_cache.Client.{Client, node_name, Network}
use sd_03_distributed_cache.Client
use sd_03_distributed_cache.Client.Registry.{
  IsClient, Connects, conn_for-Connects, add_node-IsClient, empty-IsClient,
}
use sd_03_distributed_cache.Client.History.{
  Call, performs, adds, removes, closes, run_calls, init-IsClient,
}
use sd_03_distributed_cache.Tests.Calls.{counting}
use sd_03_distributed_cache.Discovery.{EtcdRegistry, node_key, new_registry}
use sd_03_distributed_cache.Discovery.Register.{register, deregister}
use sd_03_distributed_cache.Discovery.Leases.{
  IsRegistry, SameRun, register-deregister, register-IsRegistry,
}
use sd_03_distributed_cache.Discovery.Watcher.{Event, callback}
use sd_03_distributed_cache.Discovery.Tracking.{on_add, on_remove, registered, callback-registered}

abbrev host : Bytes
host = codes "10.0.0.1"

abbrev prefix : Bytes
prefix = codes "/distcache/nodes/"

abbrev registry : EtcdRegistry ℕ ℕ
registry = record {
  endpoints = codes "etcd:2379" ∷ [];
  prefix = prefix;
  handle = none;
  held = none;
  key = none;
  keepalive = false;
  stopping = false;
}

registry-IsRegistry : IsRegistry registry
registry-IsRegistry = record { alive = λ t. absurd (cc t); opened = λ t. absurd (t refl) }

abbrev entered : EtcdRegistry ℕ ℕ
entered = record registry { handle = some 0; held = some 1; key = some host; keepalive = true }

register-deregister_example :
    SameRun
      (register counting true 9 (deregister counting true 8 entered).1 host (pos 7001) (pos 10) [])
      (register counting true 9 registry host (pos 7001) (pos 10) [])
unfolding new_registry
register-deregister_example =
    register-deregister counting true entered registry 9 8 host (pos 7001) (pos 10) [] refl

register-IsRegistry_example :
    IsRegistry (register counting true 0 registry host (pos 7001) (pos 10) []).1
register-IsRegistry_example =
    register-IsRegistry counting true 0 registry host (pos 7001) (pos 10) [] registry-IsRegistry

-- A network on which nothing is answered.
abbrev silent : Network ℕ
silent = record { connect = λ w host port. (w + 1, none); send = λ w host port s. (w, ok []) }

abbrev plain : Bytes → Bytes
plain s = s

abbrev calls : List Call
calls =
    adds host (pos 7002)
    ∷ performs (codes "k") (codes "GET" ∷ codes "k" ∷ [])
    ∷ removes host (pos 7001)
    ∷ closes
    ∷ []

init-IsClient_example :
    (c : Client) × (Client.init plain ((host, pos 7001) ∷ []) (pos 2) false ≡ ok c)
    × IsClient plain (run_calls silent plain (0, c) calls).1
init-IsClient_example = init-IsClient silent plain ((host, pos 7001) ∷ []) 1 false 0 calls

-- A client of one node, of one virtual node.
abbrev nobody : Client
nobody = record {
  addr = [];
  ring = record { vnodes = 1; ring = []; sorted = []; nodes = [] };
  conns = [];
  watching = true;
}

abbrev small : Client
small = Client.add_node plain nobody host (pos 7001)

small-IsClient : IsClient plain small
small-IsClient = add_node-IsClient plain nobody host (pos 7001) (empty-IsClient plain 1 true)

conn_for-Connects_example :
    Connects plain small (node_name host (pos 7001)) (Client.conn_for plain small (codes "k"))
unfolding HashRing.get_node HashRing.add_node HashRing.hash HashRing.bisect HashRing.insort
    HashRing.at HashRing.has_node HashRing.vnode_hashes lookup insert bytes_beq Client.add_node
    node_name show_ℤ show
conn_for-Connects_example =
    conn_for-Connects plain small (codes "k") (node_name host (pos 7001)) small-IsClient refl

abbrev events : List Event
events =
    record { key = some (node_key prefix host (pos 7002)); type_name = codes "PutEvent" }
    ∷ record { key = none; type_name = codes "PutEvent" }
    ∷ record { key = some (node_key prefix host (pos 7001)); type_name = codes "DeleteEvent" }
    ∷ []

callback-registered_example :
    IsClient plain (callback (on_add plain) (on_remove plain) prefix small events)
    × (has_node
          (node_name host (pos 7001))
          (callback (on_add plain) (on_remove plain) prefix small events).ring.nodes
        ≡ registered prefix events
            (node_name host (pos 7001))
            (has_node (node_name host (pos 7001)) small.ring.nodes))
callback-registered_example =
    callback-registered plain prefix small events (node_name host (pos 7001)) small-IsClient
