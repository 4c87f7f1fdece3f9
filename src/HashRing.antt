-- ===== src/HashRing.antt =====
-- distcache/hashring.py. Every method of the class runs under one lock, so that each is one step.
-- Nodes and keys are the bytes that are hashed. `bisect` and `insort` are stated on sorted lists,
-- which is what the standard library asks for.
use sd_03_distributed_cache.Prelude.{
  ℕ, zero, suc, ◌+◌, ◌*◌, ltb, leb, ◌==◌, Bool, true, false, not, Option, none, some, List, [], ◌∷◌,
  ◌++◌, if◌then◌else◌, length, take, Bytes, bytes_beq, Eq, nat_eq, bytes_eq, Result, ok, raise,
  key_error, index_error, value_error,
}
use sd_03_distributed_cache.Prelude.Int.{ℤ, pos, negsuc}
use sd_03_distributed_cache.Prelude.Dict.{Dict, lookup, insert, remove}
use sd_03_distributed_cache.Bytes.{codes}
use sd_03_distributed_cache.Bytes.Decimal.{show}
pub mod Order
pub mod Lookup
pub mod Disruption
pub mod Owners
pub mod Added

-- `_nodes` is a set: the order of the list has no meaning.
pub record Ring : Type 0 where
  pub vnodes : ℕ
  pub ring : Dict ℕ Bytes
  pub sorted : List ℕ
  pub nodes : List Bytes

unfoldable pub has_node : Bytes → List Bytes → Bool
has_node n [] = false
has_node n (m ∷ ms) = if bytes_beq m n then true else has_node n ms

unfoldable pub discard_node : Bytes → List Bytes → List Bytes
discard_node n [] = []
discard_node n (m ∷ ms) = let rest = discard_node n ms in if bytes_beq m n then rest else m ∷ rest

-- `bisect.bisect(xs, x)`: behind every element that is at most x. `bisect_left`: before every element
-- that is at least x.
unfoldable pub bisect : ℕ → List ℕ → ℕ
bisect x [] = 0
bisect x (y ∷ ys) = let rest = bisect x ys in if ltb x y then 0 else suc rest

unfoldable pub bisect_left : ℕ → List ℕ → ℕ
bisect_left x [] = 0
bisect_left x (y ∷ ys) = let rest = bisect_left x ys in if ltb y x then suc rest else 0

unfoldable pub insort : ℕ → List ℕ → List ℕ
insort x [] = x ∷ []
insort x (y ∷ ys) = let rest = insort x ys in if ltb x y then x ∷ y ∷ ys else y ∷ rest

-- `xs[i]` and `xs.pop(i)`, for a place inside.
unfoldable pub at : List ℕ → ℕ → Option ℕ
at [] i = none
at (x ∷ xs) zero = some x
at (x ∷ xs) (suc i) = at xs i

unfoldable pub pop : ℕ → List ℕ → List ℕ
pop i [] = []
pop zero (x ∷ xs) = xs
pop (suc i) (x ∷ xs) = x ∷ pop i xs

-- `"%s#%d" % (node, i)`
unfoldable pub vnode_name : Bytes → ℕ → Bytes
vnode_name node i = node ++ (codes "#" ++ show i)

-- `self._ring[h] = node; bisect.insort(self._sorted, h)`
unfoldable pub add_vnode : Ring → Bytes → ℕ → Ring
unfolding insort
add_vnode r node h = record r { ring = insert h node r.ring; sorted = insort h r.sorted }

-- `if idx < len(self._sorted) and self._sorted[idx] == h: self._sorted.pop(idx)`
unfoldable pub pop_hash : ℕ → List ℕ → List ℕ
unfolding bisect_left at pop
pop_hash h xs = elim (at xs (bisect_left h xs)) [
  | none ↦ xs
  | some x ↦ if x == h then pop (bisect_left h xs) xs else xs
]

unfoldable pub remove_vnode : Ring → ℕ → Ring
unfolding pop_hash
remove_vnode r h = elim (lookup h r.ring) [
  | none ↦ r
  | some _ ↦ record r { ring = remove h r.ring; sorted = pop_hash h r.sorted }
]

-- `int.from_bytes(s, "big")`
unfoldable pub from_bytes : ℕ → Bytes → ℕ
from_bytes n [] = n
from_bytes n (c ∷ cs) = from_bytes (n * 256 + c) cs

unfoldable pub add_vnodes : Ring → Bytes → List ℕ → Ring
unfolding add_vnode
add_vnodes r node [] = r
add_vnodes r node (h ∷ hs) = add_vnodes (add_vnode r node h) node hs

unfoldable pub remove_vnodes : Ring → List ℕ → Ring
unfolding remove_vnode
remove_vnodes r [] = r
remove_vnodes r (h ∷ hs) = remove_vnodes (remove_vnode r h) hs

-- `self._ring[self._sorted[idx]]`
unfoldable pub owner : Dict ℕ Bytes → List ℕ → ℕ → Result (Option Bytes)
unfolding at
owner ring sorted idx = elim (at sorted idx) [
  | none ↦ raise index_error
  | some h ↦ elim (lookup h ring) [ none ↦ raise key_error | some node ↦ ok (some node) ]
]

-- `get_node`, for the hash of its key.
unfoldable pub route : Dict ℕ Bytes → List ℕ → ℕ → Result (Option Bytes)
unfolding bisect owner
route ring [] h = ok none
route ring (x ∷ xs) h =
    let idx = bisect h (x ∷ xs) in owner ring (x ∷ xs) (if idx == length (x ∷ xs) then 0 else idx)

-- The hash function of the standard library is the parameter `md5`.
module _ (md5 : Bytes → Bytes) where
  unfoldable pub hash : Bytes → ℕ
  unfolding from_bytes
  hash key = from_bytes 0 (take 8 (md5 key))

  -- The hashes of the virtual nodes `i`, `i + 1`, ..., `k` of them.
  unfoldable pub vnode_hashes : Bytes → ℕ → ℕ → List ℕ
  unfolding hash vnode_name
  vnode_hashes node i zero = []
  vnode_hashes node i (suc k) = hash (vnode_name node i) ∷ vnode_hashes node (i + 1) k

  unfoldable pub add_node : Ring → Bytes → Ring
  unfolding has_node add_vnodes vnode_hashes
  add_node r node =
      if has_node node r.nodes
      then r
      else add_vnodes (record r { nodes = node ∷ r.nodes }) node (vnode_hashes node 0 r.vnodes)

  unfoldable pub remove_node : Ring → Bytes → Ring
  unfolding has_node discard_node remove_vnodes vnode_hashes
  remove_node r node =
      if has_node node r.nodes
      then remove_vnodes (record r { nodes = discard_node node r.nodes })
          (vnode_hashes node 0 r.vnodes)
      else r

  unfoldable pub add_nodes : Ring → List Bytes → Ring
  unfolding add_node
  add_nodes r [] = r
  add_nodes r (n ∷ ns) = add_nodes (add_node r n) ns

  unfoldable pub init : List Bytes → ℤ → Result Ring
  unfolding add_nodes
  init nodes (pos (suc n)) =
      ok (add_nodes (record { vnodes = suc n; ring = []; sorted = []; nodes = [] }) nodes)
  init nodes _ = raise value_error

  unfoldable pub get_node : Ring → Bytes → Result (Option Bytes)
  unfolding hash route
  get_node r key = route r.ring r.sorted (hash key)
