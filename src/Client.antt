-- ===== src/Client.antt =====
-- distcache/client.py.
pub mod Reading
mod Filling
pub mod Replies
pub mod Registry
pub mod History
use sd_03_distributed_cache.Prelude.{
  ℕ, ◌+◌, Bool, true, false, Option, none, some, List, [], ◌∷◌, ◌++◌, if◌then◌else◌, Bytes,
  bytes_eq, Exn, Result, ok, raise, cache_error,
}
use sd_03_distributed_cache.Prelude.Int.{ℤ, pos}
use sd_03_distributed_cache.Prelude.Dict.{Dict, lookup, insert, remove}
use sd_03_distributed_cache.Bytes.{codes}
use sd_03_distributed_cache.Bytes.Decimal.{show_ℤ}
use sd_03_distributed_cache.Protocol.{encode_command}
use sd_03_distributed_cache.HashRing.{Ring, get_node}
use sd_03_distributed_cache.HashRing
use sd_03_distributed_cache.Client.Reading.{Stream, read_reply}

-- The network: a connection to an address is made or fails, and what is sent to it fails or brings
-- chunks of an answer.
pub record Network (W : Type 0) : Type 0 where
  pub connect : W → Bytes → ℤ → W × Option Exn
  pub send : W → Bytes → ℤ → Bytes → W × Result (List Bytes)

-- `_Conn`; an open socket is the list of the chunks that it has still to give.
pub record Conn : Type 0 where
  pub host : Bytes
  pub port : ℤ
  pub sock : Option (List Bytes)
  pub buf : Bytes

abbrev pub new_conn : Bytes → ℤ → Conn
new_conn host port = record { host = host; port = port; sock = none; buf = [] }

unfoldable pub close_conn : Conn → Conn
close_conn conn = elim conn.sock [ none ↦ conn | some _ ↦ record conn { sock = none; buf = [] } ]

-- `_read_reply`, on what the socket gives.
unfoldable pub receive : Conn → List Bytes → Conn × Result (Option Bytes)
receive conn chunks =
    let (s, reply) = read_reply (record { buf = conn.buf; chunks = chunks }) in
    (record conn { sock = some s.chunks; buf = s.buf }, reply)

module _ {W : Type 0} (net : Network W) where
  -- `_connect`: the chunks of the socket, where it does not fail.
  unfoldable pub connect : W → Conn → W × Result (List Bytes)
  connect w conn = elim conn.sock [
    | some chunks ↦ (w, ok chunks)
    | none ↦
        let (w', failed) = net.connect w conn.host conn.port in
        (w', elim failed [ none ↦ ok [] | some x ↦ raise x ])
  ]

  -- `sendall` and `_read_reply`, on an open socket.
  unfoldable pub exchange : W → Conn → List Bytes → List Bytes → W × Conn × Result (Option Bytes)
  unfolding receive
  exchange w conn chunks args =
      let (w', sent) = net.send w conn.host conn.port (encode_command args) in
      elim sent [
        | raise x ↦ (w', record conn { sock = some chunks }, raise x)
        | ok more ↦ let (conn', reply) = receive conn (chunks ++ more) in (w', conn', reply)
      ]

  unfoldable pub request : W → Conn → List Bytes → W × Conn × Result (Option Bytes)
  unfolding connect exchange
  request w conn args =
      let (w', opened) = connect w conn in
      elim opened [ raise x ↦ (w', conn, raise x) | ok chunks ↦ exchange w' conn chunks args ]

-- `"%s:%d" % (host, port)`
unfoldable pub node_name : Bytes → ℤ → Bytes
node_name host port = host ++ (codes ":" ++ show_ℤ port)

-- `watching` is whether there is a watcher.
pub record Client : Type 0 where
  pub addr : Dict Bytes (Bytes × ℤ)
  pub ring : Ring
  pub conns : Dict Bytes Conn
  pub watching : Bool

module _ (md5 : Bytes → Bytes) where
  unfoldable pub add_node : Client → Bytes → ℤ → Client
  unfolding node_name
  add_node c host port = elim (lookup (node_name host port) c.addr) [
    | some _ ↦ c
    | none ↦ record c {
      addr = insert (node_name host port) (host, port) c.addr;
      ring = HashRing.add_node md5 c.ring (node_name host port);
    }
  ]

  -- A connection that is dropped is closed, and nothing refers to it any more.
  unfoldable pub remove_node : Client → Bytes → ℤ → Client
  unfolding node_name
  remove_node c host port = record c {
    ring = HashRing.remove_node md5 c.ring (node_name host port);
    addr = remove (node_name host port) c.addr;
    conns = remove (node_name host port) c.conns;
  }

  unfoldable pub add_nodes : Client → List (Bytes × ℤ) → Client
  unfolding add_node
  add_nodes c [] = c
  add_nodes c ((host, port) ∷ nodes) = add_nodes (add_node c host port) nodes

  -- The constructor, with the nodes of `nodes` or of the watcher.
  unfoldable pub init : List (Bytes × ℤ) → ℤ → Bool → Result Client
  unfolding add_nodes
  init nodes vnodes watching = elim (HashRing.init md5 [] vnodes) [
    | raise x ↦ raise x
    | ok ring ↦
        ok (add_nodes (record { addr = []; ring = ring; conns = []; watching = watching }) nodes)
  ]

  -- The connection of a node that is registered.
  unfoldable pub conn_of : Client → Bytes → Client × Result (Conn × Bytes)
  conn_of c node = elim (lookup node c.addr) [
    | none ↦ (c, raise cache_error)
    | some (host, port) ↦ elim (lookup node c.conns) [
      | some conn ↦ (c, ok (conn, node))
      | none ↦ (
        record c { conns = insert node (new_conn host port) c.conns },
        ok (new_conn host port, node),
      )
    ]
  ]

  unfoldable pub conn_for : Client → Bytes → Client × Result (Conn × Bytes)
  unfolding conn_of
  conn_for c key = elim (get_node md5 c.ring key) [
    | raise x ↦ (c, raise x)
    | ok none ↦ (c, raise cache_error)
    | ok (some node) ↦ conn_of c node
  ]

  unfoldable pub client_route : Client → Bytes → Result (Option Bytes)
  client_route c key = get_node md5 c.ring key

  -- `conn, _ = self._conn_for(key); return conn.request(...)`. The connection is the one in the dict.
  unfoldable pub perform :
      {W : Type 0}
      → Network W
      → W
      → Client
      → Bytes
      → List Bytes
      → W × Client × Result (Option Bytes)
  unfolding conn_for request
  perform net w c key args =
      let (c', found) = conn_for c key in
      elim found [
        | raise x ↦ (w, c', raise x)
        | ok (conn, node) ↦
            let (w', conn', reply) = request net w conn args in
            (w', record c' { conns = insert node conn' c'.conns }, reply)
      ]

  module _ {W : Type 0} (net : Network W) where
    unfoldable pub client_set : W → Client → Bytes → Bytes → W × Client × Result (Option Bytes)
    unfolding perform
    client_set w c key value = perform net w c key (codes "SET" ∷ key ∷ value ∷ [])

    unfoldable pub client_get : W → Client → Bytes → W × Client × Result (Option Bytes)
    unfolding perform
    client_get w c key = perform net w c key (codes "GET" ∷ key ∷ [])

    unfoldable pub client_delete : W → Client → Bytes → W × Client × Result (Option Bytes)
    unfolding perform
    client_delete w c key = perform net w c key (codes "DEL" ∷ key ∷ [])

-- `close`
unfoldable pub close : Client → Client
close c = record c { conns = []; watching = false }
