-- ===== src/Discovery/Register.antt =====
-- `EtcdRegistry`: a node enters itself under a lease, which a thread refreshes, and takes itself out.
use sd_03_distributed_cache.Prelude.{
  Bool, true, false, Option, none, some, List, [], ◌∷◌, if◌then◌else◌, Bytes, Result, ok, raise,
  runtime_error, value_error,
}
use sd_03_distributed_cache.Prelude.Int.{ℤ, pos, ltb_ℤ}
use sd_03_distributed_cache.Prelude.Dict.{Dict}
use sd_03_distributed_cache.Bytes.{codes}
use sd_03_distributed_cache.Discovery.{
  Etcd, EtcdRegistry, Value, text, number, add_meta, node_key, connect,
}

-- The three entries that every body has, and those of `meta`.
unfoldable pub body : Bytes → ℤ → ℤ → List (Bytes × Option Value) → Dict Bytes Value
unfolding add_meta
body host port time meta =
    add_meta
      ((codes "host", text host) ∷ (codes "port", number port) ∷ (codes "ts", number time) ∷ [])
      meta

module _ {W Handle Lease : Type 0} (etcd : Etcd W Handle Lease) (enabled : Bool) where
  -- `put`, and the thread that is started behind it.
  unfoldable pub enter :
      W
      → EtcdRegistry Handle Lease
      → Handle
      → Lease
      → Bytes
      → Bytes
      → W × EtcdRegistry Handle Lease × Result Bytes
  enter w g handle lease key value =
      let (w', failed) = etcd.put w handle key value lease in
      elim failed [
        | some x ↦ (w', record g { key = some key }, raise x)
        | none ↦ (w', record g { key = some key; keepalive = true; stopping = false }, ok key)
      ]

  unfoldable pub take_lease :
      W
      → EtcdRegistry Handle Lease
      → Handle
      → ℤ
      → Bytes
      → Bytes
      → W × EtcdRegistry Handle Lease × Result Bytes
  unfolding enter
  take_lease w g handle ttl key value =
      let (w', granted) = etcd.lease w handle ttl in
      elim granted [
        | raise x ↦ (w', g, raise x)
        | ok lease ↦ enter w' (record g { held = some lease }) handle lease key value
      ]

  unfoldable pub open_lease :
      W
      → EtcdRegistry Handle Lease
      → ℤ
      → Bytes
      → Bytes
      → W × EtcdRegistry Handle Lease × Result Bytes
  unfolding connect take_lease
  open_lease w g ttl key value =
      let (w', opened) = connect etcd enabled w g.endpoints in
      elim opened [
        | raise x ↦ (w', g, raise x)
        | ok handle ↦ take_lease w' (record g { handle = some handle }) handle ttl key value
      ]

  -- `register`, where `value` is the JSON text of the body.
  unfoldable pub register :
      W
      → EtcdRegistry Handle Lease
      → Bytes
      → ℤ
      → ℤ
      → Bytes
      → W × EtcdRegistry Handle Lease × Result Bytes
  unfolding open_lease node_key
  register w g host port ttl value = elim g.held [
    | some _ ↦ (w, g, raise runtime_error)
    | none ↦
        if ltb_ℤ (pos 1) ttl
        then open_lease w g ttl (node_key g.prefix host port) value
        else (w, g, raise value_error)
  ]

  -- A round of `_keepalive_loop`: an exception of `refresh` is dropped.
  unfoldable pub refresh_once : W → EtcdRegistry Handle Lease → W
  refresh_once w g = elim g.held [ none ↦ w | some lease ↦ (etcd.refresh w lease).0 ]

  abbrev pub revoke_held : W → Option Lease → W
  revoke_held w none = w
  revoke_held w (some lease) = (etcd.revoke w lease).0

  abbrev pub close_handle : W → Option Handle → W
  close_handle w none = w
  close_handle w (some handle) = (etcd.close w handle).0

  -- `deregister`: exceptions of `revoke` and of `close` are dropped.
  unfoldable pub deregister : W → EtcdRegistry Handle Lease → W × EtcdRegistry Handle Lease
  deregister w g = (
    close_handle (revoke_held w g.held) g.handle,
    record g { handle = none; held = none; key = none; keepalive = false; stopping = true },
  )
