-- ===== src/Serve/Starting.antt =====
-- serve.py: the node that `main` starts.
use sd_03_distributed_cache.Prelude.{
  ◌≡◌, refl, ap, sym, ◌∙◌, ◌⊎◌, inl, inr, value_error, subst, arith, Option, none, some, [], ◌∷◌,
  Bytes, Exn, Result, ok, raise,
}
use sd_03_distributed_cache.Prelude.Int.{ℤ}
use sd_03_distributed_cache.Clock.{Clock}
use sd_03_distributed_cache.Bytes.Decimal.{int}
use sd_03_distributed_cache.Discovery.{rpartition}
use sd_03_distributed_cache.Server.{Node}
use sd_03_distributed_cache.Server
use sd_03_distributed_cache.Server.Stores.{ok-eq}
use sd_03_distributed_cache.Server.Lifecycle.{Host, new_host, follow, start, listening}
use sd_03_distributed_cache.Server.States.{Reaches, here, and_then, follows, starts}
use sd_03_distributed_cache.Serve.{Args, Libraries, with_master, start_node}

module _ {F : Type 0} where
  start-bound :
      (bind : Bytes → ℤ → Result ℤ) (h h' : Host F)
      → start bind h ≡ (h', none)
      → (h'.server ≡ listening) × (h'.host ≡ h.host) × (bind h.host h.port ≡ ok h'.port)
  unfolding start
  start-bound bind h h' s = ground (arith, s)

  -- `follow` is called, or the host is as it was.
  with_master-cases :
      (h h' : Host F) (master : Option Bytes)
      → with_master h master ≡ ok h'
      → (h' ≡ h) ⊎ ((mh : Bytes) × (mp : ℤ) × (h' ≡ follow h mh mp))
  unfolding with_master
  with_master-cases h h' none e = inl (sym (ok-eq h h' e))
  with_master-cases h h' (some []) e = inl (sym (ok-eq h h' e))
  with_master-cases h h' (some (x ∷ xs)) e = parts (rpartition b':' (x ∷ xs)) e
    where
      port :
          (mh : Bytes) (o : Option ℤ)
          → ◌≡◌ {A = Result (Host F)}
              (elim o [ none ↦ raise value_error | some n ↦ ok (follow h mh n) ])
              (ok h')
          → (h' ≡ h) ⊎ ((mh : Bytes) × (mp : ℤ) × (h' ≡ follow h mh mp))
      port mh none e = absurd (ground (arith, e))
      port mh (some n) e = inr (mh, n, sym (ok-eq (follow h mh n) h' e))

      parts :
          (o : Option (Bytes × Bytes))
          → ◌≡◌ {A = Result (Host F)}
              (elim o [
                | none ↦ raise value_error
                | some (mh, mp) ↦ elim (int mp) [
                  | none ↦ raise value_error
                  | some n ↦ ok (follow h mh n)
                ]
              ])
              (ok h')
          → (h' ≡ h) ⊎ ((mh : Bytes) × (mp : ℤ) × (h' ≡ follow h mh mp))
      parts none e = absurd (ground (arith, e))
      parts (some (mh, mp)) e = port mh (int mp) e

-- A node that `main` has started: it is a state of a new node, and its server listens, at the port that
-- the system gave it for the host and the port of the command line.
pub record IsServing {F : Type 0} ⦃clock : Clock F⦄ (libraries : Libraries) (args : Args)
    (h : Host F) : Type 0 where
  pub node : Node F
  pub made : Server.init args.maxsize args.role ≡ ok node
  pub reaches : Reaches (new_host args.host args.port node) h
  pub server : h.server ≡ listening
  pub host : h.host ≡ args.host
  pub port : libraries.bind args.host args.port ≡ ok h.port

module _ {F : Type 0} ⦃clock : Clock F⦄ (libraries : Libraries) where
  start-IsServing :
      (args : Args) (n : Node F) (h h' : Host F)
      → Server.init args.maxsize args.role ≡ ok n
      → with_master (new_host args.host args.port n) args.master ≡ ok h
      → start libraries.bind h ≡ (h', none)
      → IsServing libraries args h'
  unfolding follow new_host
  start-IsServing args n h h' made m s =
      let new : Host F = new_host args.host args.port n in
      let (server, host, port) = start-bound libraries.bind h h' s in
      let (reached, same_host, same_port) =
        elim (with_master-cases new h args.master m)
          as (λ _. Reaches new h × (h.host ≡ args.host) × (h.port ≡ args.port)) [
            | inl e ↦ (
              subst (Reaches new) (sym e) here,
              ap (λ (k : Host F). k.host) e,
              ap (λ (k : Host F). k.port) e,
            )
            | inr (mh, mp, e) ↦ (
              subst (Reaches new) (sym e) (and_then here (follows mh mp)),
              ap (λ (k : Host F). k.host) e,
              ap (λ (k : Host F). k.port) e,
            )
          ] in
      record {
        node = n;
        made = made;
        reaches = subst (Reaches new) (ap (λ p. p.0) s) (and_then reached (starts libraries.bind));
        server = server;
        host = host ∙ same_host;
        port =
            ap (λ k. libraries.bind k args.port) (sym same_host)
            ∙ ap (libraries.bind h.host) (sym same_port)
            ∙ port;
      }

  pub start_node-IsServing :
      (args : Args) (h : Host F) → start_node libraries args ≡ ok h → IsServing libraries args h
  unfolding start_node
  start_node-IsServing args h e = with_node (Server.init args.maxsize args.role) refl e
    where
      started :
          (n : Node F) (k : Host F) (p : Host F × Option Exn)
          → Server.init args.maxsize args.role ≡ ok n
          → with_master (new_host args.host args.port n) args.master ≡ ok k
          → start libraries.bind k ≡ p
          → ◌≡◌ {A = Result (Host F)} (elim p.1 [ none ↦ ok p.0 | some x ↦ raise x ]) (ok h)
          → IsServing libraries args h
      started n k (k', none) made m s f =
          subst (IsServing libraries args) (ok-eq k' h f) (start-IsServing args n k k' made m s)
      started n k (k', some x) made m s f = absurd (ground (arith, f))

      with_host :
          (n : Node F) (r : Result (Host F))
          → Server.init args.maxsize args.role ≡ ok n
          → with_master (new_host args.host args.port n) args.master ≡ r
          → ◌≡◌ {A = Result (Host F)}
              (elim r [
                | raise x ↦ raise x
                | ok k ↦
                    let (k', failed) = start libraries.bind k in
                    elim failed [ none ↦ ok k' | some x ↦ raise x ]
              ])
              (ok h)
          → IsServing libraries args h
      with_host n (raise x) made m f = absurd (ground (arith, f))
      with_host n (ok k) made m f = started n k (start libraries.bind k) made m refl f

      with_node :
          (r : Result (Node F))
          → Server.init args.maxsize args.role ≡ r
          → ◌≡◌ {A = Result (Host F)}
              (elim r [
                | raise x ↦ raise x
                | ok n ↦ elim (with_master (new_host args.host args.port n) args.master) [
                  | raise x ↦ raise x
                  | ok k ↦
                      let (k', failed) = start libraries.bind k in
                      elim failed [ none ↦ ok k' | some x ↦ raise x ]
                ]
              ])
              (ok h)
          → IsServing libraries args h
      with_node (raise x) made f = absurd (ground (arith, f))
      with_node (ok n) made f =
          with_host n (with_master (new_host args.host args.port n) args.master) made refl f
