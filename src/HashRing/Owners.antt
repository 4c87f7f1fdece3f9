-- ===== src/HashRing/Owners.antt =====
-- Which nodes own hashes.
use sd_03_distributed_cache.Prelude.{
  ℕ, ◌≡◌, refl, ap, sym, ◌∙◌, arith, Bool, true, false, ◌==◌, ==_iff, Option, none, some, List, [],
  ◌∷◌, ◌⊎◌, inl, inr, Bool-cases, if◌then◌else◌, Bytes, bytes_beq, bytes_beq_iff, nat_eq, ok,
}
use sd_03_distributed_cache.Prelude.Dict.{lookup, lookup-insert, lookup-remove}
use sd_03_distributed_cache.HashRing.{
  Ring, add_vnode, add_vnodes, remove_vnode, remove_vnodes, add_node, remove_node, has_node,
  discard_node, vnode_hashes, hash, get_node,
}
use sd_03_distributed_cache.HashRing.Disruption.{next, known, owner_of, route-next}

abbrev pub member : ℕ → List ℕ → Bool
member h [] = false
member h (k ∷ ks) = if k == h then true else member h ks

pub lookup-add_vnodes :
    (r : Ring) (node : Bytes) (hs : List ℕ) (h : ℕ)
    → lookup h (add_vnodes r node hs).ring ≡ (if member h hs then some node else lookup h r.ring)
unfolding add_vnodes add_vnode
lookup-add_vnodes r node [] h = refl
lookup-add_vnodes r node (k ∷ ks) h =
    lookup-add_vnodes (add_vnode r node k) node ks h
    ∙ ap (λ (o : Option Bytes). if member h ks then some node else o)
        (lookup-insert k h node r.ring)
    ∙ ground arith

lookup-remove_vnode :
    (r : Ring) (k h : ℕ)
    → lookup h (remove_vnode r k).ring ≡ (if k == h then none else lookup h r.ring)
unfolding remove_vnode
lookup-remove_vnode r k h = go (lookup k r.ring) refl
  where
    go :
        (o : Option Bytes)
        → lookup k r.ring ≡ o
        → lookup h (remove_vnode r k).ring ≡ (if k == h then none else lookup h r.ring)
    go none e = rw (e, remove_vnode) (ground (arith, ==_iff k h, e))
    go (some n) e = rw (e, remove_vnode) (lookup-remove k h r.ring)

pub lookup-remove_vnodes :
    (r : Ring) (hs : List ℕ) (h : ℕ)
    → lookup h (remove_vnodes r hs).ring ≡ (if member h hs then none else lookup h r.ring)
unfolding remove_vnodes
lookup-remove_vnodes r [] h = refl
lookup-remove_vnodes r (k ∷ ks) h =
    lookup-remove_vnodes (remove_vnode r k) ks h
    ∙ ap (λ (o : Option Bytes). if member h ks then none else o) (lookup-remove_vnode r k h)
    ∙ ground arith

nodes-add_vnodes :
    (r : Ring) (node : Bytes) (hs : List ℕ)
    → ((add_vnodes r node hs).nodes ≡ r.nodes) × ((add_vnodes r node hs).vnodes ≡ r.vnodes)
unfolding add_vnodes add_vnode
nodes-add_vnodes r node [] = (refl, refl)
nodes-add_vnodes r node (k ∷ ks) = nodes-add_vnodes (add_vnode r node k) node ks

nodes-remove_vnode :
    (r : Ring) (k : ℕ)
    → ((remove_vnode r k).nodes ≡ r.nodes) × ((remove_vnode r k).vnodes ≡ r.vnodes)
unfolding remove_vnode
nodes-remove_vnode r k = go (lookup k r.ring) refl
  where
    go :
        (o : Option Bytes)
        → lookup k r.ring ≡ o
        → ((remove_vnode r k).nodes ≡ r.nodes) × ((remove_vnode r k).vnodes ≡ r.vnodes)
    go none e = rw (e, remove_vnode) (refl, refl)
    go (some n) e = rw (e, remove_vnode) (refl, refl)

nodes-remove_vnodes :
    (r : Ring) (hs : List ℕ)
    → ((remove_vnodes r hs).nodes ≡ r.nodes) × ((remove_vnodes r hs).vnodes ≡ r.vnodes)
unfolding remove_vnodes
nodes-remove_vnodes r [] = (refl, refl)
nodes-remove_vnodes r (k ∷ ks) =
    let (a, b) = nodes-remove_vnodes (remove_vnode r k) ks in
    let (c, d) = nodes-remove_vnode r k in (a ∙ c, b ∙ d)

pub has_node-discard_node :
    (n node : Bytes) (nodes : List Bytes)
    → has_node n (discard_node node nodes) ≡ (if bytes_beq node n then false else has_node n nodes)
unfolding has_node discard_node
has_node-discard_node n node [] = ground arith
has_node-discard_node n node (m ∷ ms) = ground (
  arith,
  bytes_beq_iff m node,
  bytes_beq_iff m n,
  bytes_beq_iff node n,
  has_node-discard_node n node ms,
)

module _ (md5 : Bytes → Bytes) where
  -- The node of a hash is on the ring, and the hash is one of its virtual nodes'.
  abbrev pub OwnersListed : Ring → Type 0
  OwnersListed r =
      (h : ℕ) (n : Bytes)
      → lookup h r.ring ≡ some n
      → (has_node n r.nodes ≡ true) × (member h (vnode_hashes md5 n 0 r.vnodes) ≡ true)

  pub has_node-add_node :
      (r : Ring) (node n : Bytes)
      → has_node n (add_node md5 r node).nodes
        ≡ (if bytes_beq node n then true else has_node n r.nodes)
  unfolding add_node has_node
  has_node-add_node r node n = elim (Bool-cases (has_node node r.nodes)) [
    | inl there ↦ rw (there, add_node) (ground (arith, bytes_beq_iff node n, there))
    | inr new ↦
        rw (new, add_node)
          (ap (has_node n)
            (nodes-add_vnodes (record r { nodes = node ∷ r.nodes }) node
              (vnode_hashes md5 node 0 r.vnodes)).0)
  ]

  pub has_node-remove_node :
      (r : Ring) (node n : Bytes)
      → has_node n (remove_node md5 r node).nodes
        ≡ (if bytes_beq node n then false else has_node n r.nodes)
  unfolding remove_node
  has_node-remove_node r node n = elim (Bool-cases (has_node node r.nodes)) [
    | inl there ↦
        rw (there, remove_node)
          (ap (has_node n)
              (nodes-remove_vnodes (record r { nodes = discard_node node r.nodes })
                (vnode_hashes md5 node 0 r.vnodes)).0
            ∙ has_node-discard_node n node r.nodes)
    | inr new ↦ rw (new, remove_node) (ground (arith, bytes_beq_iff node n, new))
  ]

  vnodes-add_node : (r : Ring) (node : Bytes) → (add_node md5 r node).vnodes ≡ r.vnodes
  unfolding add_node
  vnodes-add_node r node = elim (Bool-cases (has_node node r.nodes)) [
    | inl there ↦ rw (there, add_node) refl
    | inr new ↦
        rw (new, add_node)
          (nodes-add_vnodes (record r { nodes = node ∷ r.nodes }) node
            (vnode_hashes md5 node 0 r.vnodes)).1
  ]

  vnodes-remove_node : (r : Ring) (node : Bytes) → (remove_node md5 r node).vnodes ≡ r.vnodes
  unfolding remove_node
  vnodes-remove_node r node = elim (Bool-cases (has_node node r.nodes)) [
    | inl there ↦
        rw (there, remove_node)
          (nodes-remove_vnodes (record r { nodes = discard_node node r.nodes })
            (vnode_hashes md5 node 0 r.vnodes)).1
    | inr new ↦ rw (new, remove_node) refl
  ]

  -- An owner after a change is the new node, at one of its hashes, or was the owner before.
  owner-add_node :
      (r : Ring) (node : Bytes) (h : ℕ) (n : Bytes)
      → lookup h (add_node md5 r node).ring ≡ some n
      → ((node ≡ n) × (member h (vnode_hashes md5 n 0 r.vnodes) ≡ true))
        ⊎ (lookup h r.ring ≡ some n)
  unfolding add_node
  owner-add_node r node h n e = elim (Bool-cases (has_node node r.nodes)) [
    | inl there ↦ inr (
        sym (
          ap
            (λ (b : Bool).
              lookup h
                (if b then r else add_vnodes (record r { nodes = node ∷ r.nodes }) node hs).ring)
            there)
        ∙ e)
    | inr new ↦
        let e' =
          sym (lookup-add_vnodes (record r { nodes = node ∷ r.nodes }) node hs h)
          ∙ sym (
              ap
                (λ (b : Bool).
                  lookup h
                    (if b
                      then r
                      else add_vnodes (record r { nodes = node ∷ r.nodes }) node hs).ring)
                new)
          ∙ e in
        elim (Bool-cases (member h hs)) [
          | inl m ↦
              let same : node ≡ n = ground (arith, e', m) in
              inl (same, ap (λ t. member h (vnode_hashes md5 t 0 r.vnodes)) (sym same) ∙ m)
          | inr m ↦ inr (ground (arith, e', m))
        ]
  ]
    where
      hs : List ℕ
      hs = vnode_hashes md5 node 0 r.vnodes

  owner-remove_node :
      (r : Ring) (node : Bytes) (h : ℕ) (n : Bytes)
      → lookup h (remove_node md5 r node).ring ≡ some n
      → (lookup h r.ring ≡ some n)
        × ((has_node node r.nodes ≡ false) ⊎ (member h (vnode_hashes md5 node 0 r.vnodes) ≡ false))
  unfolding remove_node
  owner-remove_node r node h n e = elim (Bool-cases (has_node node r.nodes)) [
    | inr new ↦ (
      sym (
            ap
              (λ (b : Bool).
                lookup h
                  (if b
                    then remove_vnodes (record r { nodes = discard_node node r.nodes }) hs
                    else r).ring)
              new)
          ∙ e,
      inl new,
    )
    | inl there ↦
        let e' =
          sym (lookup-remove_vnodes (record r { nodes = discard_node node r.nodes }) hs h)
          ∙ sym (
              ap
                (λ (b : Bool).
                  lookup h
                    (if b
                      then remove_vnodes (record r { nodes = discard_node node r.nodes }) hs
                      else r).ring)
                there)
          ∙ e in
        elim (Bool-cases (member h hs)) [
          | inl m ↦ absurd (ground (arith, e', m))
          | inr m ↦ (ground (arith, e', m), inr m)
        ]
  ]
    where
      hs : List ℕ
      hs = vnode_hashes md5 node 0 r.vnodes

  pub add_node-OwnersListed :
      (r : Ring) (node : Bytes) → OwnersListed r → OwnersListed (add_node md5 r node)
  add_node-OwnersListed r node w h n e =
      let back = ap (λ (k : ℕ). member h (vnode_hashes md5 n 0 k)) (vnodes-add_node r node) in
      elim (owner-add_node r node h n e) [
        | inl (same, m) ↦
            (has_node-add_node r node n ∙ ground (arith, bytes_beq_iff node n, same), back ∙ m)
        | inr f ↦
            let (there, m) = w h n f in
            (has_node-add_node r node n ∙ ground (arith, there), back ∙ m)
      ]

  pub remove_node-OwnersListed :
      (r : Ring) (node : Bytes) → OwnersListed r → OwnersListed (remove_node md5 r node)
  remove_node-OwnersListed r node w h n e =
      let (f, gone) = owner-remove_node r node h n e in
      let (there, m) = w h n f in
      let other : bytes_beq node n ≡ false = differs n gone there m in
      (
        has_node-remove_node r node n ∙ ground (arith, there, other),
        ap (λ (k : ℕ). member h (vnode_hashes md5 n 0 k)) (vnodes-remove_node r node) ∙ m,
      )
    where
      differs :
          (n : Bytes)
          → (has_node node r.nodes ≡ false) ⊎ (member h (vnode_hashes md5 node 0 r.vnodes) ≡ false)
          → has_node n r.nodes ≡ true
          → member h (vnode_hashes md5 n 0 r.vnodes) ≡ true
          → bytes_beq node n ≡ false
      differs n gone there m = elim (Bool-cases (bytes_beq node n)) [
        | inr d ↦ d
        | inl d ↦
            let same : node ≡ n = (bytes_beq_iff node n).0 d in
            elim gone [
              | inl g ↦ absurd (cc (g, there, ap (λ t. has_node t r.nodes) same))
              | inr g ↦ absurd (cc (g, m, ap (λ t. member h (vnode_hashes md5 t 0 r.vnodes)) same))
            ]
      ]

-- A node that a key is routed to owns a hash.
pub owner-get_node :
    (md5 : Bytes → Bytes) (r : Ring) (key node : Bytes)
    → get_node md5 r key ≡ ok (some node)
    → (h : ℕ) × (lookup h r.ring ≡ some node)
unfolding get_node
owner-get_node md5 r key node e =
    go (next (hash md5 key) r.sorted) (sym (route-next r.ring r.sorted (hash md5 key)) ∙ e)
  where
    go :
        (o : Option ℕ)
        → owner_of r.ring o ≡ ok (some node)
        → (h : ℕ) × (lookup h r.ring ≡ some node)
    go none f = absurd (ground (arith, f))
    go (some h) f = (h, known_lem (lookup h r.ring) f)
      where
        known_lem : (o : Option Bytes) → known o ≡ ok (some node) → o ≡ some node
        known_lem none g = absurd (ground (arith, g))
        known_lem (some n) g = ground (arith, g)
