-- ===== src/Discovery/Tracking.antt =====
-- A client whose nodes are those that etcd's events leave registered.
use sd_03_distributed_cache.Prelude.{
  ◌≡◌, refl, ap, sym, ◌∙◌, arith, Bool, true, false, not, Option, none, some, List, [], ◌∷◌,
  if◌then◌else◌, Bytes, bytes_beq, bytes_beq_iff, bytes_eq, Exn, Bool-cases, inl, inr,
}
use sd_03_distributed_cache.Prelude.Int.{ℤ}
use sd_03_distributed_cache.Prelude.Dict.{lookup, lookup-insert, lookup-remove}
use sd_03_distributed_cache.HashRing.{has_node}
use sd_03_distributed_cache.Client.{Client, node_name, add_node, remove_node}
use sd_03_distributed_cache.Client.Registry.{
  present, IsClient, add_node-IsClient, remove_node-IsClient,
}
use sd_03_distributed_cache.Discovery.Watcher.{Event, is_delete, subject, on_event, callback}

-- Whether a name is registered behind the events, if `was` says whether it is before: the last event
-- about it decides.
abbrev pub decided : Option (Bytes × ℤ) → Bool → Bytes → Bool → Bool
decided none gone name was = was
decided (some (host, port)) gone name was =
    if bytes_beq (node_name host port) name then not gone else was

abbrev pub registered : Bytes → List Event → Bytes → Bool → Bool
registered prefix [] name was = was
registered prefix (e ∷ events) name was =
    registered prefix events name (decided (subject prefix e) (is_delete e) name was)

module _ (md5 : Bytes → Bytes) where
  abbrev pub on_add : Client → Bytes → ℤ → Client × Option Exn
  on_add c host port = (add_node md5 c host port, none)

  abbrev pub on_remove : Client → Bytes → ℤ → Client × Option Exn
  on_remove c host port = (remove_node md5 c host port, none)

  present-add_node :
      (c : Client) (host : Bytes) (port : ℤ) (name : Bytes)
      → present (lookup name (add_node md5 c host port).addr)
        ≡ (if bytes_beq (node_name host port) name then true else present (lookup name c.addr))
  unfolding add_node
  present-add_node c host port name = go (lookup (node_name host port) c.addr) refl
    where
      go :
          (o : Option (Bytes × ℤ))
          → lookup (node_name host port) c.addr ≡ o
          → present (lookup name (add_node md5 c host port).addr)
            ≡ (if bytes_beq (node_name host port) name then true else present (lookup name c.addr))
      go none e =
          rw (e, add_node)
            (ground (arith, lookup-insert (node_name host port) name (host, port) c.addr))
      go (some a) e = rw (e, add_node) (ground (arith, bytes_beq_iff (node_name host port) name, e))

  present-remove_node :
      (c : Client) (host : Bytes) (port : ℤ) (name : Bytes)
      → present (lookup name (remove_node md5 c host port).addr)
        ≡ (if bytes_beq (node_name host port) name then false else present (lookup name c.addr))
  unfolding remove_node
  present-remove_node c host port name =
      ground (arith, lookup-remove (node_name host port) name c.addr)

  one_event :
      (prefix : Bytes) (c : Client) (e : Event) (name : Bytes)
      → present (lookup name (on_event on_add on_remove prefix c e).addr)
        ≡ decided (subject prefix e) (is_delete e) name (present (lookup name c.addr))
  unfolding on_event
  one_event prefix c e name = go (subject prefix e) refl
    where
      go :
          (o : Option (Bytes × ℤ))
          → subject prefix e ≡ o
          → present (lookup name (on_event on_add on_remove prefix c e).addr)
            ≡ decided (subject prefix e) (is_delete e) name (present (lookup name c.addr))
      go none f = rw (f, on_event) refl
      go (some (host, port)) f = elim (Bool-cases (is_delete e)) [
        | inl gone ↦ rw (f, on_event) (rw gone (present-remove_node c host port name))
        | inr new ↦ rw (f, on_event) (rw new (present-add_node c host port name))
      ]

  on_event-IsClient :
      (prefix : Bytes) (c : Client) (e : Event)
      → IsClient md5 c
      → IsClient md5 (on_event on_add on_remove prefix c e)
  unfolding on_event
  on_event-IsClient prefix c e v = go (subject prefix e) refl
    where
      go :
          (o : Option (Bytes × ℤ))
          → subject prefix e ≡ o
          → IsClient md5 (on_event on_add on_remove prefix c e)
      go none f = rw (f, on_event) v
      go (some (host, port)) f = elim (Bool-cases (is_delete e)) [
        | inl gone ↦ rw (f, on_event) (rw gone (remove_node-IsClient md5 c host port v))
        | inr new ↦ rw (f, on_event) (rw new (add_node-IsClient md5 c host port v))
      ]

  callback-present :
      (prefix : Bytes) (c : Client) (events : List Event) (name : Bytes)
      → IsClient md5 c
      → IsClient md5 (callback on_add on_remove prefix c events)
        × (present (lookup name (callback on_add on_remove prefix c events).addr)
            ≡ registered prefix events name (present (lookup name c.addr)))
  unfolding callback
  callback-present prefix c [] name v = (v, refl)
  callback-present prefix c (e ∷ events) name v =
      let (w, rest) =
        callback-present prefix (on_event on_add on_remove prefix c e) events name
          (on_event-IsClient prefix c e v) in
      (w, rest ∙ ap (registered prefix events name) (one_event prefix c e name))

  -- Behind any events of the watcher a well-formed client is well-formed, and a name is on its ring
  -- exactly when the last event about its address was no deletion, or, where there was none, when it
  -- was on the ring before.
  pub callback-registered :
      (prefix : Bytes) (c : Client) (events : List Event) (name : Bytes)
      → IsClient md5 c
      → IsClient md5 (callback on_add on_remove prefix c events)
        × (has_node name (callback on_add on_remove prefix c events).ring.nodes
            ≡ registered prefix events name (has_node name c.ring.nodes))
  callback-registered prefix c events name v =
      let (w, rest) = callback-present prefix c events name v in
      (w, w.on_ring name ∙ rest ∙ ap (registered prefix events name) (sym (v.on_ring name)))
