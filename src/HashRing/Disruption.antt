-- ===== src/HashRing/Disruption.antt =====
-- A new node takes keys over, and no key goes elsewhere.
use sd_03_distributed_cache.Prelude.{
  ℕ, ◌≡◌, refl, ap, sym, ◌∙◌, arith, true, false, ltb, ◌==◌, Option, none, some, List, [], ◌∷◌,
  length, ◌⊎◌, ==_refl, Bool-cases, inl, inr, if◌then◌else◌, Bytes, nat_eq, ok, raise, key_error,
  Result,
}
use sd_03_distributed_cache.Prelude.Dict.{Dict, lookup, insert, lookup-insert}
use sd_03_distributed_cache.HashRing.{
  Ring, bisect, insort, at, add_vnode, add_vnodes, add_node, has_node, hash, vnode_hashes, owner,
  route, get_node,
}

-- The next hash, by a scan: the first above `x`, else the first of all.
abbrev pub first_above : ℕ → List ℕ → Option ℕ
first_above x [] = none
first_above x (y ∷ ys) = if ltb x y then some y else first_above x ys

abbrev pub head : List ℕ → Option ℕ
head [] = none
head (x ∷ _) = some x

abbrev pub or_else : Option ℕ → Option ℕ → Option ℕ
or_else none o = o
or_else (some y) o = some y

abbrev pub next : ℕ → List ℕ → Option ℕ
next x xs = or_else (first_above x xs) (head xs)

abbrev pub known : Option Bytes → Result (Option Bytes)
known none = raise key_error
known (some node) = ok (some node)

abbrev pub owner_of : Dict ℕ Bytes → Option ℕ → Result (Option Bytes)
owner_of ring none = ok none
owner_of ring (some h) = known (lookup h ring)

bisect-first_above :
    (x : ℕ) (xs : List ℕ)
    → ((first_above x xs ≡ none) × ((bisect x xs == length xs) ≡ true))
      ⊎ ((y : ℕ) × (first_above x xs ≡ some y)
          × (at xs (bisect x xs) ≡ some y)
          × ((bisect x xs == length xs) ≡ false))
unfolding bisect at
bisect-first_above x [] = inl (refl, refl)
bisect-first_above x (y ∷ ys) = elim (Bool-cases (ltb x y)) [
  | inl lt ↦ inr (y, rw lt refl, rw lt refl, rw lt (ground arith))
  | inr ge ↦ elim (bisect-first_above x ys) [
    | inl (e, all) ↦ inl (rw ge e, rw ge (ground arith))
    | inr (z, e, found, inside) ↦ inr (z, rw ge e, rw ge found, rw ge (ground arith))
  ]
]

owner-known :
    (ring : Dict ℕ Bytes) (xs : List ℕ) (i h : ℕ)
    → at xs i ≡ some h
    → owner ring xs i ≡ known (lookup h ring)
unfolding owner
owner-known ring xs i h e = rw (e, owner) refl

-- The place that bisection finds gives the node of the next hash that a scan finds.
pub route-next :
    (ring : Dict ℕ Bytes) (xs : List ℕ) (x : ℕ) → route ring xs x ≡ owner_of ring (next x xs)
unfolding route at
route-next ring [] x = refl
route-next ring (y ∷ ys) x = elim (bisect-first_above x (y ∷ ys)) [
  | inl (e, end) ↦
      ap (λ t. owner ring (y ∷ ys) (if t then 0 else bisect x (y ∷ ys))) end
      ∙ owner-known ring (y ∷ ys) 0 y refl
      ∙ ap (λ o. owner_of ring (or_else o (some y))) (sym e)
  | inr (z, e, found, inside) ↦
      ap (λ t. owner ring (y ∷ ys) (if t then 0 else bisect x (y ∷ ys))) inside
      ∙ owner-known ring (y ∷ ys) (bisect x (y ∷ ys)) z found
      ∙ ap (λ o. owner_of ring (or_else o (some y))) (sym e)
]

first_above-insort :
    (x h : ℕ) (xs : List ℕ)
    → (first_above x (insort h xs) ≡ some h) ⊎ (first_above x (insort h xs) ≡ first_above x xs)
unfolding insort
first_above-insort x h [] = elim (Bool-cases (ltb x h)) [
  | inl lt ↦ inl (rw lt refl)
  | inr ge ↦ inr (rw ge refl)
]
first_above-insort x h (y ∷ ys) = ground (arith, first_above-insort x h ys)

head-insort : (h : ℕ) (xs : List ℕ) → (head (insort h xs) ≡ some h) ⊎ (head (insort h xs) ≡ head xs)
unfolding insort
head-insort h [] = inl refl
head-insort h (y ∷ ys) = elim (Bool-cases (ltb h y)) [
  | inl lt ↦ inl (rw lt refl)
  | inr ge ↦ inr (rw ge refl)
]

next-insort :
    (x h : ℕ) (xs : List ℕ) → (next x (insort h xs) ≡ some h) ⊎ (next x (insort h xs) ≡ next x xs)
next-insort x h xs = elim (first_above-insort x h xs) [
  | inl e ↦ inl (rw e refl)
  | inr e ↦ go (first_above x xs) e
]
  where
    go :
        (o : Option ℕ)
        → first_above x (insort h xs) ≡ o
        → (next x (insort h xs) ≡ some h) ⊎ (next x (insort h xs) ≡ or_else o (head xs))
    go none e = elim (head-insort h xs) [ inl f ↦ inl (rw e f) | inr f ↦ inr (rw e f) ]
    go (some y) e = inr (rw e refl)

-- The answer after a change: the new node, or what it was.
abbrev pub Moved : Bytes → Result (Option Bytes) → Result (Option Bytes) → Type 0
Moved node before after = (after ≡ ok (some node)) ⊎ (after ≡ before)

lookup-insert_same :
    (ring : Dict ℕ Bytes) (h k : ℕ) (node : Bytes)
    → (h == k) ≡ true
    → lookup k (insert h node ring) ≡ some node
lookup-insert_same ring h k node same = lookup-insert h k node ring ∙ rw same refl

lookup-insert_other :
    (ring : Dict ℕ Bytes) (h k : ℕ) (node : Bytes)
    → (h == k) ≡ false
    → lookup k (insert h node ring) ≡ lookup k ring
lookup-insert_other ring h k node other = lookup-insert h k node ring ∙ rw other refl

owner_of-insert :
    (ring : Dict ℕ Bytes) (h : ℕ) (node : Bytes) (o : Option ℕ)
    → Moved node (owner_of ring o) (owner_of (insert h node ring) o)
owner_of-insert ring h node none = inr refl
owner_of-insert ring h node (some k) = elim (Bool-cases (h == k)) [
  | inl same ↦ inl (ap known (lookup-insert_same ring h k node same))
  | inr other ↦ inr (ap known (lookup-insert_other ring h k node other))
]

add_vnode-Moved :
    (r : Ring) (node : Bytes) (h x : ℕ)
    → Moved node
        (route r.ring r.sorted x)
        (route (add_vnode r node h).ring (add_vnode r node h).sorted x)
unfolding add_vnode
add_vnode-Moved r node h x = elim (next-insort x h r.sorted) [
  | inl e ↦ inl (
      route-next (insert h node r.ring) (insort h r.sorted) x
      ∙ ap (owner_of (insert h node r.ring)) e
      ∙ ap known (lookup-insert_same r.ring h h node (==_refl h)))
  | inr e ↦
      let opened =
        route-next (insert h node r.ring) (insort h r.sorted) x
        ∙ ap (owner_of (insert h node r.ring)) e in
      elim (owner_of-insert r.ring h node (next x r.sorted)) [
        | inl f ↦ inl (opened ∙ f)
        | inr f ↦ inr (opened ∙ f ∙ sym (route-next r.ring r.sorted x))
      ]
]

add_vnodes-Moved :
    (r : Ring) (node : Bytes) (hs : List ℕ) (x : ℕ)
    → Moved node
        (route r.ring r.sorted x)
        (route (add_vnodes r node hs).ring (add_vnodes r node hs).sorted x)
unfolding add_vnodes
add_vnodes-Moved r node [] x = inr refl
add_vnodes-Moved r node (h ∷ hs) x = elim (add_vnodes-Moved (add_vnode r node h) node hs x) [
  | inl e ↦ inl e
  | inr e ↦ elim (add_vnode-Moved r node h x) [ inl f ↦ inl (e ∙ f) | inr f ↦ inr (e ∙ f) ]
]

-- When a node is added, every key stays with its node or moves to the new one.
pub add_node-Moved :
    (md5 : Bytes → Bytes) (r : Ring) (node key : Bytes)
    → Moved node (get_node md5 r key) (get_node md5 (add_node md5 r node) key)
unfolding add_node get_node
add_node-Moved md5 r node key = elim (Bool-cases (has_node node r.nodes)) [
  | inl there ↦ inr (rw (there, add_node) refl)
  | inr new ↦
      rw (new, add_node)
        (add_vnodes-Moved (record r { nodes = node ∷ r.nodes }) node
          (vnode_hashes md5 node 0 r.vnodes) (hash md5 key))
]
