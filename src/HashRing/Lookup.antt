-- ===== src/HashRing/Lookup.antt =====
-- Which node a key belongs to.
use sd_03_distributed_cache.Prelude.{
  ℕ, zero, suc, ◌≡◌, refl, ap, ◌∙◌, arith, ◌==◌, Option, none, some, List, [], ◌∷◌, length, All,
  ◌⊎◌, ==_refl, Bool-cases, inl, inr, if◌then◌else◌, Bytes, nat_eq, ok, Result, subst, raise,
  value_error,
}
use sd_03_distributed_cache.Prelude.Dict.{Dict, lookup, insert, lookup-insert}
use sd_03_distributed_cache.Prelude.Int.{ℤ, pos, negsuc, ◌≤ℤ◌}
use sd_03_distributed_cache.HashRing.{
  Ring, bisect, at, add_vnode, add_vnodes, add_node, add_nodes, has_node, hash, vnode_hashes, owner,
  route, get_node, init,
}
use sd_03_distributed_cache.HashRing.Order.{
  Ascending, IsNext, insort-Ascending, insort-All, bisect-IsNext,
}

-- The hash belongs to a node.
abbrev pub HasOwner : Dict ℕ Bytes → ℕ → Type 0
HasOwner ring h = (node : Bytes) × (lookup h ring ≡ some node)

-- The hashes are sorted, and each belongs to a node.
abbrev pub IsRing : Ring → Type 0
IsRing r = Ascending r.sorted × All (HasOwner r.ring) r.sorted

All-insert :
    (h : ℕ) (node : Bytes) (ring : Dict ℕ Bytes) (hs : List ℕ)
    → All (HasOwner ring) hs
    → All (HasOwner (insert h node ring)) hs
All-insert h node ring [] a = a
All-insert h node ring (x ∷ xs) ((n, e), more) = elim (Bool-cases (h == x)) [
  | inl same ↦ ((node, lookup-insert h x node ring ∙ rw same refl), All-insert h node ring xs more)
  | inr other ↦ ((n, lookup-insert h x node ring ∙ rw other e), All-insert h node ring xs more)
]

add_vnode-IsRing : (r : Ring) (node : Bytes) (h : ℕ) → IsRing r → IsRing (add_vnode r node h)
unfolding add_vnode
add_vnode-IsRing r node h (asc, owned) = (
  insort-Ascending h r.sorted asc,
  insort-All (HasOwner (insert h node r.ring)) h r.sorted
      (node, lookup-insert h h node r.ring ∙ rw (==_refl h) refl)
      (All-insert h node r.ring r.sorted owned),
)

add_vnodes-IsRing :
    (r : Ring) (node : Bytes) (hs : List ℕ) → IsRing r → IsRing (add_vnodes r node hs)
unfolding add_vnodes
add_vnodes-IsRing r node [] h = h
add_vnodes-IsRing r node (x ∷ xs) h =
    add_vnodes-IsRing (add_vnode r node x) node xs (add_vnode-IsRing r node x h)

-- A node can be added to any ring.
pub add_node-IsRing :
    (md5 : Bytes → Bytes) (r : Ring) (node : Bytes) → IsRing r → IsRing (add_node md5 r node)
unfolding add_node
add_node-IsRing md5 r node h = elim (Bool-cases (has_node node r.nodes)) [
  | inl there ↦ rw (there, add_node) h
  | inr new ↦
      rw (new, add_node)
        (add_vnodes-IsRing (record r { nodes = node ∷ r.nodes }) node
          (vnode_hashes md5 node 0 r.vnodes) h)
]

-- The answer for a key: no node on an empty ring, or the node of the next hash clockwise.
abbrev pub Routed : Dict ℕ Bytes → List ℕ → ℕ → Result (Option Bytes) → Type 0
Routed ring sorted x answer =
    ((sorted ≡ []) × (answer ≡ ok none))
    ⊎ ((h : ℕ) × (node : Bytes) × IsNext x h sorted
        × (lookup h ring ≡ some node)
        × (answer ≡ ok (some node)))

at-All : (P : ℕ → Type 0) (xs : List ℕ) (i h : ℕ) → All P xs → at xs i ≡ some h → P h
unfolding at
at-All P [] i h a e = absurd (ground arith)
at-All P (x ∷ xs) zero h (a, more) e = subst P {x = x} {y = h} (ground arith) a
at-All P (x ∷ xs) (suc i) h (a, more) e = at-All P xs i h more e

owner-at :
    (ring : Dict ℕ Bytes) (xs : List ℕ) (i h : ℕ) (node : Bytes)
    → at xs i ≡ some h
    → lookup h ring ≡ some node
    → owner ring xs i ≡ ok (some node)
unfolding owner
owner-at ring xs i h node e l = rw (e, owner) (rw l refl)

wrapped : (i n : ℕ) → i ≡ n → (if i == n then 0 else i) ≡ 0
wrapped i n e = ground arith

route-Routed :
    (ring : Dict ℕ Bytes) (xs : List ℕ) (x : ℕ)
    → Ascending xs
    → All (HasOwner ring) xs
    → Routed ring xs x (route ring xs x)
unfolding route at
route-Routed ring [] x asc owned = inl (refl, refl)
route-Routed ring (y ∷ ys) x asc owned = elim (bisect-IsNext x (y ∷ ys) asc) [
  | inl (e, all) ↦ inr (
    y,
    owned.0.0,
    inr (all, (omega arith, asc.0)),
    owned.0.1,
    ap (owner ring (y ∷ ys)) (wrapped (bisect x (y ∷ ys)) (length (y ∷ ys)) e)
        ∙ owner-at ring (y ∷ ys) 0 y owned.0.0 refl owned.0.1,
  )
  | inr (h, found, inside, lt, all) ↦
      let (node, e) = at-All (HasOwner ring) (y ∷ ys) (bisect x (y ∷ ys)) h owned found in
      inr (
        h,
        node,
        inl (lt, all),
        e,
        ap (λ t. owner ring (y ∷ ys) (if t then 0 else bisect x (y ∷ ys))) inside
            ∙ owner-at ring (y ∷ ys) (bisect x (y ∷ ys)) h node found e,
      )
]

-- On every ring a key is routed clockwise: to the node of the least hash above the key's, or of the
-- least hash of all where none is above. Only an empty ring gives no node, and nothing is raised.
pub get_node-Routed :
    (md5 : Bytes → Bytes) (r : Ring) (key : Bytes)
    → IsRing r
    → Routed r.ring r.sorted (hash md5 key) (get_node md5 r key)
unfolding get_node
get_node-Routed md5 r key (asc, owned) = route-Routed r.ring r.sorted (hash md5 key) asc owned

add_nodes-IsRing :
    (md5 : Bytes → Bytes) (r : Ring) (nodes : List Bytes)
    → IsRing r
    → IsRing (add_nodes md5 r nodes)
unfolding add_nodes
add_nodes-IsRing md5 r [] h = h
add_nodes-IsRing md5 r (n ∷ ns) h =
    add_nodes-IsRing md5 (add_node md5 r n) ns (add_node-IsRing md5 r n h)

-- The constructor gives a ring for every list of nodes where `vnodes` is positive, and raises
-- ValueError otherwise.
pub init-IsRing :
    (md5 : Bytes → Bytes) (nodes : List Bytes)
    → ((k : ℕ) → (r : Ring) × (init md5 nodes (pos (suc k)) ≡ ok r) × IsRing r)
      × ((z : ℤ) → z ≤ℤ pos 0 → init md5 nodes z ≡ raise value_error)
unfolding init
init-IsRing md5 nodes = ((λ k. (_, refl, add_nodes-IsRing md5 _ nodes (tt, tt))), refused)
  where
    refused : (z : ℤ) → z ≤ℤ pos 0 → init md5 nodes z ≡ raise value_error
    refused (pos zero) h = refl
    refused (pos (suc n)) h = absurd (omega (arith, h))
    refused (negsuc n) h = refl
