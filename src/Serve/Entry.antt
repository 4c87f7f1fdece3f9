-- ===== src/Serve/Entry.antt =====
-- `main` of serve.py: where clients find the node that it starts.
use sd_03_distributed_cache.Prelude.{
  ℕ, ◌≡◌, refl, ap, sym, ◌∙◌, ◌⊎◌, inl, inr, subst, arith, Bool, false, not, Option, none, some,
  List, [], ◌∷◌, Bytes, Result, ok, raise,
}
use sd_03_distributed_cache.Prelude.Int.{ℤ}
use sd_03_distributed_cache.Clock.{Clock}
use sd_03_distributed_cache.Metrics
use sd_03_distributed_cache.Discovery.{
  Etcd, EtcdRegistry, is_empty, node_key, key_to_host_port, new_registry,
}
use sd_03_distributed_cache.Discovery.Names.{key_to_host_port-node_key}
use sd_03_distributed_cache.Discovery.Register.{register, body}
use sd_03_distributed_cache.Server.Stores.{ok-eq}
use sd_03_distributed_cache.Server.Lifecycle.{Host}
use sd_03_distributed_cache.Serve.{
  Args, Libraries, Started, default_prefix, start_node, enter_node, main, endpoints_of, meta_of,
}
use sd_03_distributed_cache.Serve.Published.{IsPublished, register-IsPublished}
use sd_03_distributed_cache.Serve.Starting.{IsServing, start_node-IsServing}

module _ {W Handle Lease : Type 0} (etcd : Etcd W Handle Lease) (enabled : Bool) where
  registry-new :
      (endpoints : List Bytes) (prefix : Bytes) (g : EtcdRegistry Handle Lease)
      → new_registry etcd enabled endpoints prefix ≡ ok g
      → (g.prefix ≡ prefix) × (g.endpoints ≡ endpoints)
  unfolding new_registry
  registry-new endpoints prefix g h = ground (arith, h)

-- `args.etcd` as a condition.
abbrev pub is_given : Option Bytes → Bool
is_given none = false
is_given (some s) = not (is_empty s)

module _ {W Handle Lease : Type 0} (etcd : Etcd W Handle Lease) (libraries : Libraries)
    {F : Type 0} where
  -- The JSON text of the entry.
  abbrev pub value_of : Args → Host F → ℤ → Bytes
  value_of args h ts = libraries.dumps (body h.host h.port ts (meta_of args))

  -- What the registration of the node `h` has made: nothing, or an entry in etcd under the key of `h`.
  abbrev pub IsEntered : W → W → Args → Host F → ℤ → Started F Handle Lease → Type 0
  IsEntered w w' args h ts s =
      (s.host ≡ h)
      × (((is_given args.etcd ≡ false) × (s.registry ≡ none) × (w' ≡ w))
          ⊎ ((text : Bytes) × (g : EtcdRegistry Handle Lease) × (args.etcd ≡ some text)
              × (s.registry ≡ some g)
              × IsPublished etcd libraries.etcd3 w w' (endpoints_of text) args.lease_ttl
                  (node_key default_prefix h.host h.port) (value_of args h ts) g))

  abbrev ok_entry : Host F → EtcdRegistry Handle Lease → Started F Handle Lease
  ok_entry h g = record { host = h; registry = some g }

  enter_node-IsEntered :
      (w w' : W) (args : Args) (h : Host F) (ts : ℤ) (s : Started F Handle Lease)
      → enter_node etcd libraries w args h ts ≡ (w', ok s)
      → IsEntered w w' args h ts s
  unfolding enter_node
  enter_node-IsEntered w w' args h ts s e = go args.etcd refl e
    where
      left :
          is_given args.etcd ≡ false
          → ◌≡◌ {A = W × Result (Started F Handle Lease)}
              (w, ok (record { host = h; registry = none }))
              (w', ok s)
          → IsEntered w w' args h ts s
      left given f =
          let none_entry : Started F Handle Lease = record { host = h; registry = none } in
          let same : none_entry ≡ s = ok-eq none_entry s (ap (λ p. p.1) f) in
          (
            ap (λ (s : Started F Handle Lease). s.host) (sym same),
            inl (
              given,
              ap (λ (s : Started F Handle Lease). s.registry) (sym same),
              ap (λ p. p.0) (sym f),
            ),
          )

      entered :
          (g : EtcdRegistry Handle Lease) (text : Bytes)
          → new_registry etcd libraries.etcd3 (endpoints_of text) default_prefix ≡ ok g
          → args.etcd ≡ some text
          → (r : W × EtcdRegistry Handle Lease × Result Bytes)
          → register etcd libraries.etcd3 w g h.host h.port args.lease_ttl (value_of args h ts) ≡ r
          → ◌≡◌ {A = W × Result (Started F Handle Lease)}
              (elim r.2 [
                | raise x ↦ (r.0, raise x)
                | ok key ↦ (r.0, ok (record { host = h; registry = some r.1 }))
              ])
              (w', ok s)
          → IsEntered w w' args h ts s
      entered g text made given (v, g', raise x) r f = absurd (ground (arith, f))
      entered g text made given (v, g', ok key) r f =
          let same : ok_entry h g' ≡ s = ok-eq (ok_entry h g') s (ap (λ p. p.1) f) in
          let (prefix, endpoints) =
            registry-new etcd libraries.etcd3 (endpoints_of text) default_prefix g made in
          let p =
            register-IsPublished etcd libraries.etcd3 w v g g' h.host h.port args.lease_ttl
              (value_of args h ts) key r in
          (
            ap (λ (s : Started F Handle Lease). s.host) (sym same),
            inr (
              text,
              g',
              given,
              ap (λ (s : Started F Handle Lease). s.registry) (sym same),
              subst
                  (λ v.
                    IsPublished etcd libraries.etcd3 w v (endpoints_of text) args.lease_ttl
                      (node_key default_prefix h.host h.port) (value_of args h ts) g')
                  (ap (λ p. p.0) f)
                  (subst
                    (λ es.
                      IsPublished etcd libraries.etcd3 w v es args.lease_ttl
                        (node_key default_prefix h.host h.port) (value_of args h ts) g')
                    endpoints
                    (subst
                      (λ q.
                        IsPublished etcd libraries.etcd3 w v g.endpoints args.lease_ttl
                          (node_key q h.host h.port) (value_of args h ts) g')
                      prefix p)),
            ),
          )

      opened :
          (x : ℕ) (xs : Bytes) (r : Result (EtcdRegistry Handle Lease))
          → args.etcd ≡ some (x ∷ xs)
          → new_registry etcd libraries.etcd3 (endpoints_of (x ∷ xs)) default_prefix ≡ r
          → enter_node etcd libraries w args h ts ≡ (w', ok s)
          → IsEntered w w' args h ts s
      opened x xs (raise y) a r f = absurd (ground (arith, a, r, f))
      opened x xs (ok g) a r f =
          entered g (x ∷ xs) r a
            (register etcd libraries.etcd3 w g h.host h.port args.lease_ttl (value_of args h ts))
            refl (sym (rw (a, enter_node) (rw r refl)) ∙ f)

      go :
          (o : Option Bytes)
          → args.etcd ≡ o
          → enter_node etcd libraries w args h ts ≡ (w', ok s)
          → IsEntered w w' args h ts s
      go none a f = left (ap is_given a) (sym (rw (a, enter_node) refl) ∙ f)
      go (some []) a f = left (ap is_given a) (sym (rw (a, enter_node) refl) ∙ f)
      go (some (x ∷ xs)) a f =
          opened x xs (new_registry etcd libraries.etcd3 (endpoints_of (x ∷ xs)) default_prefix) a
            refl f

module _ {W Handle Lease : Type 0} (etcd : Etcd W Handle Lease) (libraries : Libraries) {F : Type 0}
    ⦃clock : Clock F⦄ where
  -- A node that serves, and that clients find where --etcd is given.
  abbrev pub IsFound : W → W → Args → ℤ → Started F Handle Lease → Type 0
  IsFound w w' args ts s =
      IsServing libraries args s.host
      × (((is_given args.etcd ≡ false) × (s.registry ≡ none) × (w' ≡ w))
          ⊎ ((text : Bytes) × (g : EtcdRegistry Handle Lease) × (key : Bytes) × (args.etcd
                ≡ some text)
              × (s.registry ≡ some g)
              × IsPublished etcd libraries.etcd3 w w' (endpoints_of text) args.lease_ttl key
                  (value_of etcd libraries args s.host ts) g
              × (key_to_host_port key default_prefix ≡ some (s.host.host, s.host.port))))

  -- Where `main` comes to its wait, and the host of the command line is not empty: the node is a state of
  -- a new one, and its server listens. Where --etcd is not given, no call of etcd was made. Where it is
  -- given, the calls were those that open a client of its first endpoint, take a lease of --lease-ttl
  -- seconds and put under it a key with the JSON text of the node, and from this key a watcher reads the
  -- host and the port that the server listens on, be it one that the system chose.
  pub main-IsFound :
      (w w' : W) (args : Args) (ts : ℤ) (s : Started F Handle Lease)
      → main etcd libraries w args ts ≡ (w', ok s)
      → is_empty args.host ≡ false
      → IsFound w w' args ts s
  unfolding main
  main-IsFound w w' args ts s e ne =
      with_metrics
        (Metrics.start libraries.prometheus libraries.start_http_server args.metrics_port) e
    where
      found :
          (h : Host F)
          → start_node libraries args ≡ ok h
          → enter_node etcd libraries w args h ts ≡ (w', ok s)
          → IsFound w w' args ts s
      found h made f =
          let (same, entry) = enter_node-IsEntered etcd libraries w w' args h ts s f in
          let i : IsServing libraries args s.host =
            subst (IsServing libraries args) (sym same)
              (start_node-IsServing libraries args h made) in
          (
            i,
            elim entry [
              | inl none_given ↦ inl none_given
              | inr (text, g, given, r, p) ↦ inr (
                text,
                g,
                node_key default_prefix h.host h.port,
                given,
                r,
                subst
                    (λ k.
                      IsPublished etcd libraries.etcd3 w w' (endpoints_of text) args.lease_ttl
                        (node_key default_prefix h.host h.port) (value_of etcd libraries args k ts)
                        g)
                    (sym same) p,
                ap
                      (λ (h : Host F).
                        key_to_host_port (node_key default_prefix h.host h.port) default_prefix)
                      (sym same)
                    ∙ key_to_host_port-node_key default_prefix s.host.host s.host.port
                        (ap is_empty i.host ∙ ne),
              )
            ],
          )

      with_node :
          (r : Result (Host F))
          → start_node libraries args ≡ r
          → ◌≡◌ {A = W × Result (Started F Handle Lease)}
              (elim r [ raise x ↦ (w, raise x) | ok h ↦ enter_node etcd libraries w args h ts ])
              (w', ok s)
          → IsFound w w' args ts s
      with_node (raise x) made f = absurd (ground (arith, f))
      with_node (ok h) made f = found h made f

      with_metrics :
          (r : Result {0} Bool)
          → ◌≡◌ {A = W × Result (Started F Handle Lease)}
              (elim r [
                | raise x ↦ (w, raise x)
                | ok b ↦ elim (start_node libraries args) [
                  | raise x ↦ (w, raise x)
                  | ok h ↦ enter_node etcd libraries w args h ts
                ]
              ])
              (w', ok s)
          → IsFound w w' args ts s
      with_metrics (raise x) f = absurd (ground (arith, f))
      with_metrics (ok b) f = with_node (start_node libraries args) refl f
