-- ===== src/Tests/RingTests.antt =====
-- The hash ring, at a hash function that keeps the first bytes of its input.
use sd_03_distributed_cache.Prelude.{
  arith, ℕ, suc, ◌≡◌, refl, some, [], ◌∷◌, Bytes, bytes_beq, ok, raise, value_error,
}
use sd_03_distributed_cache.Prelude.Int.{ℤ, pos, ◌≤ℤ◌}
use sd_03_distributed_cache.Prelude.Dict.{lookup, insert}
use sd_03_distributed_cache.Bytes.{codes}
use sd_03_distributed_cache.Bytes.Decimal.{show}
use sd_03_distributed_cache.HashRing.{
  Ring, hash, bisect, insort, at, has_node, vnode_hashes, add_node, get_node, init,
}
use sd_03_distributed_cache.HashRing.Added.{IsAdded, add_node-IsAdded}
use sd_03_distributed_cache.HashRing.Lookup.{IsRing, Routed, init-IsRing, get_node-Routed}
use sd_03_distributed_cache.HashRing.Disruption.{Moved, add_node-Moved}

abbrev plain : Bytes → Bytes
plain s = s

abbrev two_nodes : (r : Ring) × (init plain (codes "b" ∷ codes "d" ∷ []) (pos 2) ≡ ok r) × IsRing r
two_nodes = (init-IsRing plain (codes "b" ∷ codes "d" ∷ [])).0 1

init-IsRing_example :
    ((k : ℕ) → (r : Ring) × (init plain (codes "b" ∷ []) (pos (suc k)) ≡ ok r) × IsRing r)
    × ((z : ℤ) → z ≤ℤ pos 0 → init plain (codes "b" ∷ []) z ≡ raise value_error)
init-IsRing_example = init-IsRing plain (codes "b" ∷ [])

-- A node with two virtual nodes, and one that is added.
abbrev one_node : Ring
one_node = record {
  vnodes = 2;
  ring = (10, codes "b") ∷ (20, codes "b") ∷ [];
  sorted = 10 ∷ 20 ∷ [];
  nodes = codes "b" ∷ [];
}

one_node-IsRing : IsRing one_node
unfolding lookup
one_node-IsRing = (((omega arith, tt), (tt, tt)), ((codes "b", refl), ((codes "b", refl), tt)))

add_node-IsAdded_example : IsAdded plain (codes "c") one_node (add_node plain one_node (codes "c"))
unfolding has_node bytes_beq
add_node-IsAdded_example = add_node-IsAdded plain one_node (codes "c") one_node-IsRing refl

get_node-Routed_example :
    Routed two_nodes.0.ring two_nodes.0.sorted
      (hash plain (codes "key"))
      (get_node plain two_nodes.0 (codes "key"))
get_node-Routed_example = get_node-Routed plain two_nodes.0 (codes "key") two_nodes.2

add_node-Moved_example :
    Moved
      (codes "c")
      (get_node plain two_nodes.0 (codes "key"))
      (get_node plain (add_node plain two_nodes.0 (codes "c")) (codes "key"))
add_node-Moved_example = add_node-Moved plain two_nodes.0 (codes "c") (codes "key")

-- A key above every hash of a node wraps around.
wraps :
    get_node plain
      (add_node plain (record { vnodes = 1; ring = []; sorted = []; nodes = [] }) (codes "b"))
      (codes "zzzz")
    ≡ ok (some (codes "b"))
unfolding get_node add_node hash bisect insort at has_node vnode_hashes lookup insert bytes_beq show
wraps = refl
