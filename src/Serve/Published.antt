-- ===== src/Serve/Published.antt =====
-- `EtcdRegistry.register` of distcache/discovery.py: what it makes of etcd where it returns.
use sd_03_distributed_cache.Prelude.{
  ◌≡◌, refl, ap, sym, ◌∙◌, arith, Bool, true, false, Bool-cases, inl, inr, Option, none, some, List,
  Bytes, Exn, Result, ok, raise,
}
use sd_03_distributed_cache.Prelude.Int.{ℤ, ltb_ℤ, pos}
use sd_03_distributed_cache.Discovery.{Etcd, EtcdRegistry, node_key, connect}
use sd_03_distributed_cache.Discovery.Register.{register, open_lease, take_lease, enter}

module _ {W Handle Lease : Type 0} (etcd : Etcd W Handle Lease) (enabled : Bool) where
  -- The calls of etcd between the worlds `w` and `w'`: a client, a lease of `ttl` seconds, and under it the
  -- key with the value. The registry holds the lease and the key.
  pub record IsPublished (w w' : W) (endpoints : List Bytes) (ttl : ℤ) (key value : Bytes)
      (g : EtcdRegistry Handle Lease) : Type 0 where
    pub connected : W
    pub handle : Handle
    pub connects : connect etcd enabled w endpoints ≡ (connected, ok handle)
    pub granted : W
    pub lease : Lease
    pub grants : etcd.lease connected handle ttl ≡ (granted, ok lease)
    pub puts : etcd.put granted handle key value lease ≡ (w', none)
    pub held : g.held ≡ some lease
    pub keyed : g.key ≡ some key

  -- What `put` makes of the world, and the registry behind it.
  enter-puts :
      (w w' : W) (g g' : EtcdRegistry Handle Lease) (handle : Handle) (lease : Lease)
      (key value key' : Bytes)
      → enter etcd enabled w g handle lease key value ≡ (w', g', ok key')
      → (etcd.put w handle key value lease ≡ (w', none))
        × (g'.held ≡ g.held)
        × (g'.key ≡ some key)
        × (key' ≡ key)
  unfolding enter
  enter-puts w w' g g' handle lease key value key' h = go (etcd.put w handle key value lease) refl h
    where
      go :
          (r : W × Option Exn)
          → etcd.put w handle key value lease ≡ r
          → ◌≡◌ {A = W × EtcdRegistry Handle Lease × Result Bytes}
              (elim r.1 [
                | some x ↦ (r.0, record g { key = some key }, raise x)
                | none ↦
                    (r.0, record g { key = some key; keepalive = true; stopping = false }, ok key)
              ])
              (w', g', ok key')
          → (etcd.put w handle key value lease ≡ (w', none))
            × (g'.held ≡ g.held)
            × (g'.key ≡ some key)
            × (key' ≡ key)
      go (v, some x) e h = absurd (ground (arith, h))
      go (v, none) e h =
          (e ∙ ap (λ p. (p.0, none)) h, ground (arith, h), ground (arith, h), ground (arith, h))

  pub register-IsPublished :
      (w w' : W) (g g' : EtcdRegistry Handle Lease) (host : Bytes) (port ttl : ℤ)
      (value key : Bytes)
      → register etcd enabled w g host port ttl value ≡ (w', g', ok key)
      → IsPublished w w' g.endpoints ttl (node_key g.prefix host port) value g'
  unfolding register open_lease take_lease
  register-IsPublished w w' g g' host port ttl value key h = held g.held refl h
    where
      leased :
          (v : W) (handle : Handle) (r : W × Result Lease)
          → connect etcd enabled w g.endpoints ≡ (v, ok handle)
          → etcd.lease v handle ttl ≡ r
          → ◌≡◌ {A = W × EtcdRegistry Handle Lease × Result Bytes}
              (elim r.1 [
                | raise x ↦ (r.0, record g { handle = some handle }, raise x)
                | ok lease ↦
                    enter etcd enabled r.0
                      (record g { handle = some handle; held = some lease })
                      handle
                      lease
                      (node_key g.prefix host port)
                      value
              ])
              (w', g', ok key)
          → IsPublished w w' g.endpoints ttl (node_key g.prefix host port) value g'
      leased v handle (u, raise x) c l h = absurd (ground (arith, h))
      leased v handle (u, ok lease) c l h =
          let (puts, holds, keyed, named) =
            enter-puts u w' (record g { handle = some handle; held = some lease }) g' handle lease
              (node_key g.prefix host port) value key h in
          record {
            connected = v;
            handle = handle;
            connects = c;
            granted = u;
            lease = lease;
            grants = l;
            puts = puts;
            held = holds;
            keyed = keyed;
          }

      opened :
          (r : W × Result Handle)
          → connect etcd enabled w g.endpoints ≡ r
          → ◌≡◌ {A = W × EtcdRegistry Handle Lease × Result Bytes}
              (elim r.1 [
                | raise x ↦ (r.0, g, raise x)
                | ok handle ↦
                    take_lease etcd enabled r.0
                      (record g { handle = some handle })
                      handle
                      ttl
                      (node_key g.prefix host port)
                      value
              ])
              (w', g', ok key)
          → IsPublished w w' g.endpoints ttl (node_key g.prefix host port) value g'
      opened (v, raise x) c h = absurd (ground (arith, h))
      opened (v, ok handle) c h = leased v handle (etcd.lease v handle ttl) c refl h

      held :
          (o : Option Lease)
          → g.held ≡ o
          → register etcd enabled w g host port ttl value ≡ (w', g', ok key)
          → IsPublished w w' g.endpoints ttl (node_key g.prefix host port) value g'
      held (some l) e h = absurd (ground (arith, e, h))
      held none e h = elim (Bool-cases (ltb_ℤ (pos 1) ttl)) [
        | inl long ↦
            opened (connect etcd enabled w g.endpoints) refl
              (sym (rw (e, register) (rw (long, register) refl)) ∙ h)
        | inr short ↦ absurd (ground (arith, e, short, h))
      ]
