-- ===== src/Discovery/Leases.antt =====
-- Registering again, and what holds of a registry between two calls.
use sd_03_distributed_cache.Prelude.{
  ◌≡◌, refl, ap, sym, ◌∙◌, arith, Bool, true, false, inl, inr, Bool-cases, Option, none, some, ◌≢◌,
  if◌then◌else◌, Bytes, Exn, Result, ok, raise, import_error, subst,
}
use sd_03_distributed_cache.Prelude.Int.{ℤ, pos, ltb_ℤ}
use sd_03_distributed_cache.Discovery.{Etcd, EtcdRegistry, node_key, connect, new_registry}
use sd_03_distributed_cache.Discovery.Register.{enter, take_lease, open_lease, register, deregister}

-- Between two calls: the thread runs only for a key that is entered under a lease, and a lease is
-- held only with an open client.
pub record IsRegistry {Handle Lease : Type 0} (g : EtcdRegistry Handle Lease) : Type 0 where
  pub alive : g.keepalive ≡ true → (g.held ≢ none) × (g.key ≢ none) × (g.stopping ≡ false)
  pub opened : g.held ≢ none → g.handle ≢ none

abbrev pub Outcome : Type 0 → Type 0 → Type 0 → Type 0
Outcome W Handle Lease = W × EtcdRegistry Handle Lease × Result Bytes

-- Two runs that differ at most in the stopping event, and in nothing once they succeed.
abbrev pub SameRun :
    {W Handle Lease : Type 0} → Outcome W Handle Lease → Outcome W Handle Lease → Type 0
SameRun r s = (r.0 ≡ s.0) × (r.2 ≡ s.2) × ((key : Bytes) → r.2 ≡ ok key → r.1 ≡ s.1)

module _ {W Handle Lease : Type 0} (etcd : Etcd W Handle Lease) (enabled : Bool) where
  module _ (g : EtcdRegistry Handle Lease) (again : Bool) where
    abbrev h : EtcdRegistry Handle Lease
    h = record g { stopping = again }

    enter-SameRun :
        (w : W) (handle : Handle) (lease : Lease) (key value : Bytes)
        → SameRun
            (enter etcd enabled w
              (record h { handle = some handle; held = some lease })
              handle
              lease
              key
              value)
            (enter etcd enabled w
              (record g { handle = some handle; held = some lease })
              handle
              lease
              key
              value)
    unfolding enter
    enter-SameRun w handle lease key value = go (etcd.put w handle key value lease).1 refl
      where
        go :
            (o : Option Exn)
            → (etcd.put w handle key value lease).1 ≡ o
            → SameRun
                (enter etcd enabled w
                  (record h { handle = some handle; held = some lease })
                  handle
                  lease
                  key
                  value)
                (enter etcd enabled w
                  (record g { handle = some handle; held = some lease })
                  handle
                  lease
                  key
                  value)
        go none e = rw (e, enter) (refl, refl, λ k f. refl)
        go (some x) e = rw (e, enter) (refl, refl, λ k f. absurd (cc f))

    take_lease-SameRun :
        (w : W) (handle : Handle) (ttl : ℤ) (key value : Bytes)
        → SameRun
            (take_lease etcd enabled w (record h { handle = some handle }) handle ttl key value)
            (take_lease etcd enabled w (record g { handle = some handle }) handle ttl key value)
    unfolding take_lease
    take_lease-SameRun w handle ttl key value = go (etcd.lease w handle ttl).1 refl
      where
        go :
            (o : Result Lease)
            → (etcd.lease w handle ttl).1 ≡ o
            → SameRun
                (take_lease etcd enabled w (record h { handle = some handle }) handle ttl key value)
                (take_lease etcd enabled w (record g { handle = some handle }) handle ttl key value)
        go (raise x) e = rw (e, take_lease) (refl, refl, λ k f. absurd (cc f))
        go (ok lease) e =
            rw (e, take_lease) (enter-SameRun (etcd.lease w handle ttl).0 handle lease key value)

    open_lease-SameRun :
        (w : W) (ttl : ℤ) (key value : Bytes)
        → SameRun
            (open_lease etcd enabled w h ttl key value)
            (open_lease etcd enabled w g ttl key value)
    unfolding open_lease
    open_lease-SameRun w ttl key value = go (connect etcd enabled w g.endpoints).1 refl
      where
        go :
            (o : Result Handle)
            → (connect etcd enabled w g.endpoints).1 ≡ o
            → SameRun
                (open_lease etcd enabled w h ttl key value)
                (open_lease etcd enabled w g ttl key value)
        go (raise x) e = rw (e, open_lease) (refl, refl, λ k f. absurd (cc f))
        go (ok handle) e =
            rw (e, open_lease)
              (take_lease-SameRun (connect etcd enabled w g.endpoints).0 handle ttl key value)

  abbrev fresh_like : EtcdRegistry Handle Lease → EtcdRegistry Handle Lease
  fresh_like g = record g {
    handle = none;
    held = none;
    key = none;
    keepalive = false;
    stopping = false;
  }

  fresh-SameRun :
      (g : EtcdRegistry Handle Lease) (w w' : W) (host : Bytes) (port ttl : ℤ) (value : Bytes)
      → SameRun
          (register etcd enabled w (deregister etcd enabled w' g).1 host port ttl value)
          (register etcd enabled w (fresh_like g) host port ttl value)
  unfolding register deregister
  fresh-SameRun g w w' host port ttl value = elim (Bool-cases (ltb_ℤ (pos 1) ttl)) [
    | inl long ↦
        rw (long, register)
          (open_lease-SameRun (fresh_like g) true w ttl (node_key g.prefix host port) value)
    | inr short ↦ rw (short, register) (refl, refl, λ k f. absurd (cc f))
  ]

  -- After `deregister`, whatever the calls of the library did before, `register` runs as on a registry
  -- that is new: with the same calls, the same outcome, and, once it succeeds, the same state.
  pub register-deregister :
      (g fresh : EtcdRegistry Handle Lease) (w w' : W) (host : Bytes) (port ttl : ℤ) (value : Bytes)
      → new_registry etcd enabled g.endpoints g.prefix ≡ ok fresh
      → SameRun
          (register etcd enabled w (deregister etcd enabled w' g).1 host port ttl value)
          (register etcd enabled w fresh host port ttl value)
  unfolding new_registry
  register-deregister g fresh w w' host port ttl value e =
      subst
        (λ t.
          SameRun (register etcd enabled w (deregister etcd enabled w' g).1 host port ttl value)
            (register etcd enabled w t host port ttl value))
        same (fresh-SameRun g w w' host port ttl value)
    where
      given : Result (EtcdRegistry Handle Lease) → EtcdRegistry Handle Lease
      given (ok t) = t
      given (raise x) = fresh_like g

      same : fresh_like g ≡ fresh
      same = elim (Bool-cases enabled) [
        | inl yes_it_is ↦
            sym (
              ap (λ (b : Bool). given (if b then ok (fresh_like g) else raise import_error))
                yes_it_is)
            ∙ ap given e
        | inr not_installed ↦ absurd (ground (arith, not_installed, e))
      ]

  -- Where no lease is held and no thread runs, each way that a registration ends is well-formed.
  enter-IsRegistry :
      (w : W) (g : EtcdRegistry Handle Lease) (handle : Handle) (lease : Lease) (key value : Bytes)
      → g.keepalive ≡ false
      → IsRegistry
          (enter etcd enabled w
            (record g { handle = some handle; held = some lease })
            handle
            lease
            key
            value).1
  unfolding enter
  enter-IsRegistry w g handle lease key value k = go (etcd.put w handle key value lease).1 refl
    where
      go :
          (o : Option Exn)
          → (etcd.put w handle key value lease).1 ≡ o
          → IsRegistry
              (enter etcd enabled w
                (record g { handle = some handle; held = some lease })
                handle
                lease
                key
                value).1
      go none e =
          rw (e, enter) (record { alive = λ t. (λ f. cc f, λ f. cc f, refl); opened = λ t f. cc f })
      go (some x) e =
          rw (e, enter) (record { alive = λ t. absurd (cc (t, k)); opened = λ t f. cc f })

  take_lease-IsRegistry :
      (w : W) (g : EtcdRegistry Handle Lease) (handle : Handle) (ttl : ℤ) (key value : Bytes)
      → g.held ≡ none
      → g.keepalive ≡ false
      → IsRegistry
          (take_lease etcd enabled w (record g { handle = some handle }) handle ttl key value).1
  unfolding take_lease
  take_lease-IsRegistry w g handle ttl key value n k = go (etcd.lease w handle ttl).1 refl
    where
      go :
          (o : Result Lease)
          → (etcd.lease w handle ttl).1 ≡ o
          → IsRegistry
              (take_lease etcd enabled w (record g { handle = some handle }) handle ttl key value).1
      go (raise x) e =
          rw (e, take_lease) (record { alive = λ t. absurd (cc (t, k)); opened = λ t f. cc f })
      go (ok lease) e =
          rw (e, take_lease)
            (enter-IsRegistry (etcd.lease w handle ttl).0 g handle lease key value k)

  open_lease-IsRegistry :
      (w : W) (g : EtcdRegistry Handle Lease) (ttl : ℤ) (key value : Bytes)
      → g.held ≡ none
      → g.keepalive ≡ false
      → IsRegistry (open_lease etcd enabled w g ttl key value).1
  unfolding open_lease
  open_lease-IsRegistry w g ttl key value n k = go (connect etcd enabled w g.endpoints).1 refl
    where
      go :
          (o : Result Handle)
          → (connect etcd enabled w g.endpoints).1 ≡ o
          → IsRegistry (open_lease etcd enabled w g ttl key value).1
      go (raise x) e =
          rw (e, open_lease)
            (record { alive = λ t. absurd (cc (t, k)); opened = λ t. absurd (t n) })
      go (ok handle) e =
          rw (e, open_lease)
            (take_lease-IsRegistry (connect etcd enabled w g.endpoints).0 g handle ttl key value n
              k)

  -- However a registration ends, the registry is well-formed behind it.
  pub register-IsRegistry :
      (w : W) (g : EtcdRegistry Handle Lease) (host : Bytes) (port ttl : ℤ) (value : Bytes)
      → IsRegistry g
      → IsRegistry (register etcd enabled w g host port ttl value).1
  unfolding register
  register-IsRegistry w g host port ttl value v = go g.held refl
    where
      go :
          (o : Option Lease)
          → g.held ≡ o
          → IsRegistry (register etcd enabled w g host port ttl value).1
      go (some lease) e = simp (e, register) v
      go none e = elim (Bool-cases (ltb_ℤ (pos 1) ttl)) [
        | inl long ↦
            let k : g.keepalive ≡ false = elim (Bool-cases g.keepalive) [
              | inl t ↦ absurd ((v.alive t).0 e)
              | inr f ↦ f
            ] in
            simp (e, long, register)
              (open_lease-IsRegistry w g ttl (node_key g.prefix host port) value e k)
        | inr short ↦ simp (e, short, register) v
      ]
