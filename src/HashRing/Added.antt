-- ===== src/HashRing/Added.antt =====
-- `add_node` of distcache/hashring.py: the virtual nodes that it puts on the ring.
use sd_03_distributed_cache.Prelude.{
  ℕ, zero, suc, ◌+◌, ◌==◌, ◌≡◌, refl, ap, ◌∙◌, arith, true, false, some, List, [], ◌∷◌,
  if◌then◌else◌, length, Bytes, nat_eq, bytes_beq_refl,
}
use sd_03_distributed_cache.Prelude.Dict.{lookup}
use sd_03_distributed_cache.HashRing.{
  Ring, has_node, insort, add_vnode, add_vnodes, vnode_hashes, add_node,
}
use sd_03_distributed_cache.HashRing.Lookup.{IsRing, add_node-IsRing}
use sd_03_distributed_cache.HashRing.Owners.{member, lookup-add_vnodes, has_node-add_node}

member-insort :
    (x h : ℕ) (xs : List ℕ) → member h (insort x xs) ≡ (if x == h then true else member h xs)
unfolding insort
member-insort x h [] = refl
member-insort x h (y ∷ ys) = ground (arith, member-insort x h ys)

length-insort : (x : ℕ) (xs : List ℕ) → length (insort x xs) ≡ length xs + 1
unfolding insort
length-insort x [] = refl
length-insort x (y ∷ ys) = ground (arith, length-insort x ys)

member-add_vnodes :
    (r : Ring) (node : Bytes) (hs : List ℕ) (h : ℕ)
    → member h (add_vnodes r node hs).sorted ≡ (if member h hs then true else member h r.sorted)
unfolding add_vnodes add_vnode
member-add_vnodes r node [] h = refl
member-add_vnodes r node (k ∷ ks) h =
    ground (arith, member-add_vnodes (add_vnode r node k) node ks h, member-insort k h r.sorted)

length-add_vnodes :
    (r : Ring) (node : Bytes) (hs : List ℕ)
    → length (add_vnodes r node hs).sorted ≡ length r.sorted + length hs
unfolding add_vnodes add_vnode
length-add_vnodes r node [] = omega arith
length-add_vnodes r node (k ∷ ks) =
    omega (arith, length-add_vnodes (add_vnode r node k) node ks, length-insort k r.sorted)

module _ (md5 : Bytes → Bytes) where
  length-vnode_hashes : (node : Bytes) (i k : ℕ) → length (vnode_hashes md5 node i k) ≡ k
  unfolding vnode_hashes
  length-vnode_hashes node i zero = refl
  length-vnode_hashes node i (suc k) = omega (arith, length-vnode_hashes node (i + 1) k)

  -- The ring `r'` is `r` with the virtual nodes of `node`.
  pub record IsAdded (node : Bytes) (r r' : Ring) : Type 0 where
    pub ring : IsRing r'
    pub listed : has_node node r'.nodes ≡ true
    pub count : length r'.sorted ≡ length r.sorted + r.vnodes
    pub places :
        (h : ℕ)
        → member h r'.sorted
          ≡ (if member h (vnode_hashes md5 node 0 r.vnodes) then true else member h r.sorted)
    pub owners :
        (h : ℕ)
        → lookup h r'.ring
          ≡ (if member h (vnode_hashes md5 node 0 r.vnodes) then some node else lookup h r.ring)

  -- A node that is not on a ring, sorted and with an owner for every hash, is added to it: the ring stays
  -- so, the node is listed, there are `vnodes` more hashes, those of its virtual nodes are on the ring and
  -- belong to it, and every other hash is as it was.
  pub add_node-IsAdded :
      (r : Ring) (node : Bytes)
      → IsRing r
      → has_node node r.nodes ≡ false
      → IsAdded node r (add_node md5 r node)
  unfolding add_node
  add_node-IsAdded r node i new =
      let hs = vnode_hashes md5 node 0 r.vnodes in
      let listing : Ring = record r { nodes = node ∷ r.nodes } in
      let added : add_node md5 r node ≡ add_vnodes listing node hs = rw (new, add_node) refl in
      record {
        ring = add_node-IsRing md5 r node i;
        listed = has_node-add_node md5 r node node ∙ rw (bytes_beq_refl node) refl;
        count =
            ap (λ (r : Ring). length r.sorted) added
            ∙ length-add_vnodes listing node hs
            ∙ ap (λ k. length r.sorted + k) (length-vnode_hashes node 0 r.vnodes);
        places =
            λ h. ap (λ (r : Ring). member h r.sorted) added ∙ member-add_vnodes listing node hs h;
        owners =
            λ h. ap (λ (r : Ring). lookup h r.ring) added ∙ lookup-add_vnodes listing node hs h;
      }
