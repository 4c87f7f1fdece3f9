-- ===== src/Client/Registry.antt =====
-- The nodes that a client knows: its addresses, its ring and its connections fit each other.
use sd_03_distributed_cache.Prelude.{
  ℕ, ◌≡◌, refl, sym, ◌∙◌, arith, Bool, true, false, Option, none, some, [], inl, inr, Bool-cases,
  Bytes, bytes_beq, bytes_beq_iff, bytes_eq, Result, ok,
}
use sd_03_distributed_cache.Prelude.Int.{ℤ}
use sd_03_distributed_cache.Prelude.Dict.{lookup, insert, lookup-insert, lookup-remove}
use sd_03_distributed_cache.HashRing.{Ring, has_node}
use sd_03_distributed_cache.HashRing
use sd_03_distributed_cache.HashRing.Owners.{
  OwnersListed, owner-get_node, has_node-add_node, has_node-remove_node, add_node-OwnersListed,
  remove_node-OwnersListed,
}
use sd_03_distributed_cache.Client.{
  Conn, new_conn, node_name, Client, add_node, remove_node, conn_of, conn_for,
}

abbrev pub present {ℓ} : {A : Type ℓ} → Option A → Bool
present none = false
present (some _) = true

module _ (md5 : Bytes → Bytes) where
  -- A node is on the ring exactly when it has an address, under the name of that address; what owns a
  -- hash is on the ring; a connection is to the address of its node.
  pub record IsClient (c : Client) : Type 0 where
    pub on_ring : (n : Bytes) → has_node n c.ring.nodes ≡ present (lookup n c.addr)
    pub named :
        (n host : Bytes) (port : ℤ) → lookup n c.addr ≡ some (host, port) → n ≡ node_name host port
    pub owners : OwnersListed md5 c.ring
    pub connected :
        (n : Bytes) (conn : Conn)
        → lookup n c.conns ≡ some conn
        → lookup n c.addr ≡ some (conn.host, conn.port)

  new-IsClient :
      (c : Client) (host : Bytes) (port : ℤ)
      → IsClient c
      → lookup (node_name host port) c.addr ≡ none
      → IsClient (record c {
        addr = insert (node_name host port) (host, port) c.addr;
        ring = HashRing.add_node md5 c.ring (node_name host port);
      })
  new-IsClient c host port v e = record {
    on_ring = λ n.
        has_node-add_node md5 c.ring name n
        ∙ ground (arith, v.on_ring n, lookup-insert name n (host, port) c.addr);
    named = λ n h p f. elim (Bool-cases (bytes_beq name n)) [
      | inl same ↦ ground (arith, bytes_beq_iff name n, lookup-insert name n (host, port) c.addr)
      | inr other ↦ v.named n h p (ground (arith, lookup-insert name n (host, port) c.addr))
    ];
    owners = add_node-OwnersListed md5 c.ring name v.owners;
    connected = λ n conn f. ground (
      arith,
      bytes_beq_iff name n,
      v.connected n conn f,
      lookup-insert name n (host, port) c.addr,
    );
  }
    where
      name : Bytes
      name = node_name host port

  -- Adding a node keeps a client well-formed.
  pub add_node-IsClient :
      (c : Client) (host : Bytes) (port : ℤ) → IsClient c → IsClient (add_node md5 c host port)
  unfolding add_node
  add_node-IsClient c host port v = go (lookup (node_name host port) c.addr) refl
    where
      go :
          (o : Option (Bytes × ℤ))
          → lookup (node_name host port) c.addr ≡ o
          → IsClient (add_node md5 c host port)
      go none e = rw (e, add_node) (new-IsClient c host port v e)
      go (some a) e = rw (e, add_node) v

  pub remove_node-IsClient :
      (c : Client) (host : Bytes) (port : ℤ) → IsClient c → IsClient (remove_node md5 c host port)
  unfolding remove_node
  remove_node-IsClient c host port v = record {
    on_ring = λ n.
        has_node-remove_node md5 c.ring name n
        ∙ ground (arith, v.on_ring n, lookup-remove name n c.addr);
    named = λ n h p f. v.named n h p (ground (arith, lookup-remove name n c.addr));
    owners = remove_node-OwnersListed md5 c.ring name v.owners;
    connected = λ n conn f.
        ground
          (arith, lookup-remove name n c.conns, lookup-remove name n c.addr, v.connected n conn);
  }
    where
      name : Bytes
      name = node_name host port

  -- The connection for `node`: it goes to the address that names the node and that is registered for
  -- it, and neither the addresses nor the ring are changed.
  abbrev pub Connects : Client → Bytes → Client × Result (Conn × Bytes) → Type 0
  Connects c node r =
      (conn : Conn) × (r.1 ≡ ok (conn, node))
      × (node ≡ node_name conn.host conn.port)
      × (lookup node c.addr ≡ some (conn.host, conn.port))
      × (r.0.addr ≡ c.addr)
      × (r.0.ring ≡ c.ring)
      × IsClient r.0

  conn_of-Connects :
      (c : Client) (node : Bytes)
      → IsClient c
      → present (lookup node c.addr) ≡ true
      → Connects c node (conn_of md5 c node)
  unfolding conn_of
  conn_of-Connects c node v there = go (lookup node c.addr) (lookup node c.conns) refl refl
    where
      go :
          (o : Option (Bytes × ℤ)) (p : Option Conn)
          → lookup node c.addr ≡ o
          → lookup node c.conns ≡ p
          → Connects c node (conn_of md5 c node)
      go none p e f = absurd (cc (e, there))
      go (some (host, port)) (some conn) e f =
          let at = v.connected node conn f in
          rw (e, conn_of)
            (rw (f, conn_of)
              (conn, refl, v.named node conn.host conn.port at, sym e ∙ at, refl, refl, v))
      go (some (host, port)) none e f =
          rw (e, conn_of)
            (rw (f, conn_of)
              (
                new_conn host port,
                refl,
                v.named node host port e,
                refl,
                refl,
                refl,
                record {
                  on_ring = v.on_ring;
                  named = v.named;
                  owners = v.owners;
                  connected = λ n conn g. ground (
                    arith,
                    bytes_beq_iff node n,
                    e,
                    lookup-insert node n (new_conn host port) c.conns,
                    v.connected n conn,
                  );
                },
              ))

  -- Where a well-formed client's ring names a node for a key, the key's connection is to the address
  -- that is registered for that node and that names it; the addresses and the ring stay as they are,
  -- and the client is well-formed.
  pub conn_for-Connects :
      (c : Client) (key node : Bytes)
      → IsClient c
      → HashRing.get_node md5 c.ring key ≡ ok (some node)
      → Connects c node (conn_for md5 c key)
  unfolding conn_for
  conn_for-Connects c key node v e =
      let (h, owned) = owner-get_node md5 c.ring key node e in
      let there = sym (v.on_ring node) ∙ (v.owners h node owned).0 in
      rw (e, conn_for) (conn_of-Connects c node v there)

  pub empty-IsClient :
      (n : ℕ) (watching : Bool)
      → IsClient (record {
        addr = [];
        ring = record { vnodes = n; ring = []; sorted = []; nodes = [] };
        conns = [];
        watching = watching;
      })
  unfolding lookup has_node
  empty-IsClient n watching = record {
    on_ring = λ n. refl;
    named = λ n h p g. absurd (ground (arith, g));
    owners = λ h n g. absurd (ground (arith, g));
    connected = λ n k g. absurd (ground (arith, g));
  }
