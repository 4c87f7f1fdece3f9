-- ===== src/Client/History.antt =====
-- A client after any history: of requests, and of nodes that come and go.
use sd_03_distributed_cache.Prelude.{
  ℕ, suc, ◌≡◌, refl, ap, sym, subst, ◌∙◌, arith, Bool, Option, none, some, List, [], ◌∷◌, Bytes,
  bytes_beq_iff, bytes_eq, Result, ok, raise, cache_error,
}
use sd_03_distributed_cache.Prelude.Int.{ℤ, pos}
use sd_03_distributed_cache.Prelude.Dict.{lookup, insert, lookup-insert}
use sd_03_distributed_cache.Protocol.{encode_command}
use sd_03_distributed_cache.HashRing
use sd_03_distributed_cache.Client.{
  Network, Conn, receive, connect, exchange, request, Client, add_node, remove_node, add_nodes,
  init, conn_for, perform, close,
}
use sd_03_distributed_cache.Client.Registry.{
  IsClient, add_node-IsClient, remove_node-IsClient, conn_for-Connects, empty-IsClient,
}

-- What may happen to a client: a request for a key, a node that comes, one that goes, the end.
pub data Call : Type 0 where
  performs : Bytes → List Bytes → Call
  adds removes : Bytes → ℤ → Call
  closes : Call

module _ {W : Type 0} (net : Network W) where
  exchange-address :
      (w : W) (conn : Conn) (chunks args : List Bytes)
      → ((exchange net w conn chunks args).1.host ≡ conn.host)
        × ((exchange net w conn chunks args).1.port ≡ conn.port)
  unfolding exchange receive
  exchange-address w conn chunks args =
      go (net.send w conn.host conn.port (encode_command args)).1 refl
    where
      go :
          (o : Result (List Bytes))
          → (net.send w conn.host conn.port (encode_command args)).1 ≡ o
          → ((exchange net w conn chunks args).1.host ≡ conn.host)
            × ((exchange net w conn chunks args).1.port ≡ conn.port)
      go (raise x) e = rw (e, exchange) (refl, refl)
      go (ok more) e = rw (e, exchange) (refl, refl)

  -- A request, however it ends, leaves the address of its connection alone.
  request-address :
      (w : W) (conn : Conn) (args : List Bytes)
      → ((request net w conn args).1.host ≡ conn.host)
        × ((request net w conn args).1.port ≡ conn.port)
  unfolding request
  request-address w conn args = go (connect net w conn).1 refl
    where
      go :
          (o : Result (List Bytes))
          → (connect net w conn).1 ≡ o
          → ((request net w conn args).1.host ≡ conn.host)
            × ((request net w conn args).1.port ≡ conn.port)
      go (raise x) e = rw (e, request) (refl, refl)
      go (ok chunks) e = rw (e, request) (exchange-address (connect net w conn).0 conn chunks args)

  module _ (md5 : Bytes → Bytes) where
    -- A connection is put back under its node.
    stored-IsClient :
        (c : Client) (node : Bytes) (conn : Conn)
        → IsClient md5 c
        → lookup node c.addr ≡ some (conn.host, conn.port)
        → IsClient md5 (record c { conns = insert node conn c.conns })
    stored-IsClient c node conn v e = record {
      on_ring = v.on_ring;
      named = v.named;
      owners = v.owners;
      connected = λ n k g.
          ground
            (arith, bytes_beq_iff node n, e, lookup-insert node n conn c.conns, v.connected n k);
    }

    perform-IsClient :
        (w : W) (c : Client) (key : Bytes) (args : List Bytes)
        → IsClient md5 c
        → IsClient md5 (perform md5 net w c key args).1
    unfolding perform
    perform-IsClient w c key args v = go (HashRing.get_node md5 c.ring key) refl
      where
        go :
            (o : Result (Option Bytes))
            → HashRing.get_node md5 c.ring key ≡ o
            → IsClient md5 (perform md5 net w c key args).1
        go (raise x) e =
            let same : conn_for md5 c key ≡ (c, raise x) = rw (e, conn_for) refl in
            rw (same, perform) (subst (IsClient md5) (sym (ap (λ t. t.0) same)) v)
        go (ok none) e =
            let same : conn_for md5 c key ≡ (c, raise cache_error) = rw (e, conn_for) refl in
            rw (same, perform) (subst (IsClient md5) (sym (ap (λ t. t.0) same)) v)
        go (ok (some node)) e =
            let (conn, found, name, at, addr, ring, v') = conn_for-Connects md5 c key node v e in
            let (h, p) = request-address w conn args in
            rw (found, perform)
              (stored-IsClient (conn_for md5 c key).0 node (request net w conn args).1 v'
                (ap (lookup node) addr ∙ at ∙ cc (h, p)))

    abbrev pub perform_call : W × Client → Call → W × Client
    perform_call (w, c) (performs key args) =
        let (w', c', _) = perform md5 net w c key args in (w', c')
    perform_call (w, c) (adds host port) = (w, add_node md5 c host port)
    perform_call (w, c) (removes host port) = (w, remove_node md5 c host port)
    perform_call (w, c) closes = (w, close c)

    abbrev pub run_calls : W × Client → List Call → W × Client
    run_calls s [] = s
    run_calls s (call ∷ calls) = run_calls (perform_call s call) calls

    perform_call-IsClient :
        (s : W × Client) (call : Call) → IsClient md5 s.1 → IsClient md5 (perform_call s call).1
    unfolding close lookup
    perform_call-IsClient (w, c) (performs key args) v = perform-IsClient w c key args v
    perform_call-IsClient (w, c) (adds host port) v = add_node-IsClient md5 c host port v
    perform_call-IsClient (w, c) (removes host port) v = remove_node-IsClient md5 c host port v
    perform_call-IsClient (w, c) closes v = record {
      on_ring = v.on_ring;
      named = v.named;
      owners = v.owners;
      connected = λ n k g. absurd (ground (arith, g));
    }

    run_calls-IsClient :
        (s : W × Client) (calls : List Call) → IsClient md5 s.1 → IsClient md5 (run_calls s calls).1
    run_calls-IsClient s [] v = v
    run_calls-IsClient s (call ∷ calls) v =
        run_calls-IsClient (perform_call s call) calls (perform_call-IsClient s call v)

    add_nodes-IsClient :
        (c : Client) (nodes : List (Bytes × ℤ))
        → IsClient md5 c
        → IsClient md5 (add_nodes md5 c nodes)
    unfolding add_nodes
    add_nodes-IsClient c [] v = v
    add_nodes-IsClient c ((host, port) ∷ nodes) v =
        add_nodes-IsClient (add_node md5 c host port) nodes (add_node-IsClient md5 c host port v)

    -- A client that was made with a positive number of virtual nodes is well-formed after any history.
    pub init-IsClient :
        (nodes : List (Bytes × ℤ)) (k : ℕ) (watching : Bool) (w : W) (calls : List Call)
        → (c : Client) × (init md5 nodes (pos (suc k)) watching ≡ ok c)
          × IsClient md5 (run_calls (w, c) calls).1
    unfolding init HashRing.init HashRing.add_nodes
    init-IsClient nodes k watching w calls = (
      _,
      refl,
      run_calls-IsClient (w, _) calls
          (add_nodes-IsClient _ nodes (empty-IsClient md5 (suc k) watching)),
    )
