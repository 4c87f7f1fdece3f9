-- ===== src/Lru.antt =====
-- distcache/lru.py: the cache with its hash map, its doubly linked list and its sentinels. Nodes
-- are objects on a heap, and a name of a node is a `Ptr`. A method returns the new state beside its
-- result, or raises.
pub mod Nodes
pub mod Chain
pub mod Links
pub mod Spec
pub mod Cells
pub mod Invariant
pub mod Moves
pub mod Amend
pub mod Evict
pub mod Refine
pub mod Contract
pub mod Sweep
pub mod Snapshot
pub mod FullCopy
pub mod Laws
pub mod Unique
use sd_03_distributed_cache.Prelude.{
  ℕ, suc, ◌+◌, ltb, leb, ◌==◌, not, Bool, true, false, ◌&&◌, Option, none, some, List, [], ◌∷◌,
  ◌++◌, if◌then◌else◌, length, map, Bytes, bytes_eq, Result, ok, raise, key_error, value_error,
  ◌>>=◌,
}
use sd_03_distributed_cache.Prelude.Int.{ℤ, pos, negsuc}
use sd_03_distributed_cache.Prelude.Dict.{Dict, lookup, insert, remove}
use sd_03_distributed_cache.Clock.{Clock}
use sd_03_distributed_cache.Lru.Nodes.{Ptr, Node, Heap, blank, write, write_prev, write_next, deref}

pub data Mode : Type 0 where
  authoritative logical : Mode

-- An item of a snapshot: the key, the value and the deadline.
pub record Item (F : Type 0) : Type 0 where
  pub key : Option Bytes
  pub value : Option Bytes
  pub expire_at : Option F

-- `fresh` is the name that the next new node gets.
pub record LruCache (F : Type 0) : Type 0 where
  pub maxsize : ℕ
  pub mode : Mode
  pub index : Dict Bytes Ptr
  pub head : Ptr
  pub tail : Ptr
  pub heap : Heap F
  pub fresh : Ptr

-- The sentinels are the first two nodes.
unfoldable pub init : {F : Type 0} → ℤ → Mode → Result (LruCache F)
init (pos (suc n)) mode = ok (record {
  maxsize = suc n;
  mode = mode;
  index = [];
  head = 0;
  tail = 1;
  heap = write_prev (write_next (λ _. blank) 0 (some 1)) 1 (some 0);
  fresh = 2;
})
init _ mode = raise value_error

module _ {F : Type 0} where
  -- `_remove`
  unfoldable pub unlink : Heap F → Ptr → Result (Heap F)
  unlink h node = do
    before ← deref (h node).prev
    let h1 = write_next h before (h node).next
    after ← deref (h1 node).next
    let h2 = write_prev h1 after (h1 node).prev
    ok (write_next (write_prev h2 node none) node none)

  -- `_add_front`, beside the sentinel `head`
  unfoldable pub add_front : Heap F → Ptr → Ptr → Result (Heap F)
  add_front h head node = do
    let h1 = write_next h node (h head).next
    let h2 = write_prev h1 node (some head)
    first ← deref (h2 head).next
    let h3 = write_prev h2 first (some node)
    ok (write_next h3 head (some node))

  unfoldable pub move_to_front : Heap F → Ptr → Ptr → Result (Heap F)
  unfolding unlink add_front
  move_to_front h head node = do h' ← unlink h node; add_front h' head node

  -- `_remove(node)` and `del self._map[key]`
  unfoldable pub discard : LruCache F → Bytes → Ptr → Result (LruCache F)
  unfolding unlink
  discard c key node = do
    h ← unlink c.heap node
    elim (lookup key c.index) [
      | none ↦ raise key_error
      | some _ ↦ ok (record c { heap = h; index = remove key c.index })
    ]

  -- `delete`
  unfoldable pub delete : LruCache F → Bytes → Result (LruCache F × Bool)
  unfolding discard
  delete c key = elim (lookup key c.index) [
    | none ↦ ok (c, false)
    | some node ↦ do c' ← discard c key node; ok (c', true)
  ]

  -- `set_expire`
  unfoldable pub set_expire : LruCache F → Bytes → F → LruCache F × Bool
  set_expire c key expire_at = elim (lookup key c.index) [
    | none ↦ (c, false)
    | some node ↦ (
      record c { heap = write c.heap node (record (c.heap node) { expire_at = some expire_at }) },
      true,
    )
  ]

  -- `node = _Node(key, value, expire_at)`, `self._map[key] = node` and `_add_front(node)`
  unfoldable pub push_new : LruCache F → Bytes → Bytes → Option F → Result (LruCache F)
  unfolding add_front
  push_new c key value expire_at = do
    let node = c.fresh
    let h1 =
        write c.heap node
          (record blank { key = some key; value = some value; expire_at = expire_at })
    h2 ← add_front h1 c.head node
    ok (record c { heap = h2; index = insert key node c.index; fresh = node + 1 })

  -- The eviction at the end of `_insert`.
  unfoldable pub evict_last : LruCache F → Result (LruCache F × Option Bytes)
  unfolding discard
  evict_last c = do
    lru ← deref (c.heap c.tail).prev
    if lru == c.head then ok (c, none) else elim (c.heap lru).key [
      | none ↦ raise key_error
      | some key ↦ do c' ← discard c key lru; ok (c', some key)
    ]

  -- `_insert`
  unfoldable pub insert_node :
      LruCache F → Bytes → Bytes → Option F → Bool → Result (LruCache F × Option Bytes)
  unfolding move_to_front push_new evict_last
  insert_node c key value expire_at evict = elim (lookup key c.index) [
    | some node ↦ do
      let h1 =
          write c.heap node (record (c.heap node) { value = some value; expire_at = expire_at })
      h2 ← move_to_front h1 c.head node
      ok (record c { heap = h2 }, none)
    | none ↦ do
      c' ← push_new c key value expire_at
      if evict && ltb c'.maxsize (length c'.index) then evict_last c' else ok (c', none)
  ]

  -- `set`: the key that was evicted, if any
  unfoldable pub set : LruCache F → Bytes → Bytes → Option F → Result (LruCache F × Option Bytes)
  unfolding insert_node
  set c key value expire_at = insert_node c key value expire_at true

  -- `apply_set`
  unfoldable pub apply_set : LruCache F → Bytes → Bytes → Option F → Result (LruCache F)
  unfolding insert_node
  apply_set c key value expire_at = do (c', _) ← insert_node c key value expire_at false; ok c'

  -- `snapshot`: the nodes in the order of the dict
  unfoldable pub snapshot : LruCache F → List (Item F)
  snapshot c =
      map
        (λ (_, p). record {
          key = (c.heap p).key;
          value = (c.heap p).value;
          expire_at = (c.heap p).expire_at;
        })
        c.index

  load_items : LruCache F → List (Bytes × Bytes × Option F) → Result (LruCache F)
  unfolding push_new
  load_items c [] = ok c
  load_items c ((k, v, exp) ∷ items) = do c' ← push_new c k v exp; load_items c' items

  -- `load_snapshot`
  unfoldable pub load_snapshot : LruCache F → List (Bytes × Bytes × Option F) → Result (LruCache F)
  unfolding load_items
  load_snapshot c items =
      load_items
        (record c {
          index = [];
          heap = write_prev (write_next c.heap c.head (some c.tail)) c.tail (some c.head);
        })
        items

  unfoldable pub keys : LruCache F → List Bytes
  keys c = map (λ (k, _). k) c.index

  -- `__len__`
  unfoldable pub len : LruCache F → ℕ
  len c = length c.index

  -- `__contains__`
  unfoldable pub contains : LruCache F → Bytes → Bool
  contains c key = elim (lookup key c.index) [ none ↦ false | some _ ↦ true ]

module _ {F : Type 0} ⦃clock : Clock F⦄ where
  unfoldable pub is_expired : Option F → F → Bool
  is_expired none now = false
  is_expired (some t) now = clock.le t now

  -- `time` is what `self._time()` returns.
  abbrev pub now_or : Option F → F → F
  now_or none time = time
  now_or (some now) time = now

  unfoldable pub get : LruCache F → Bytes → Option F → F → Result (LruCache F × Option Bytes)
  unfolding discard move_to_front is_expired
  get c key now time = elim (lookup key c.index) [
    | none ↦ ok (c, none)
    | some node ↦
        if is_expired (c.heap node).expire_at (now_or now time)
        then elim c.mode [
          | authoritative ↦ do c' ← discard c key node; ok (c', none)
          | logical ↦ ok (c, none)
        ]
        else do h ← move_to_front c.heap c.head node; ok (record c { heap = h }, (h node).value)
  ]

  -- the loop of `sample_expired`; the keys removed, in order
  sweep : F → LruCache F → List Bytes → Result (LruCache F × List Bytes)
  unfolding discard is_expired
  sweep now c [] = ok (c, [])
  sweep now c (k ∷ ks) = elim (lookup k c.index) [
    | none ↦ sweep now c ks
    | some node ↦ elim (is_expired (c.heap node).expire_at now) [
      | false ↦ sweep now c ks
      | true ↦ do c' ← discard c k node; (c'', removed) ← sweep now c' ks; ok (c'', k ∷ removed)
    ]
  ]

  -- `sample` is `random.sample`.
  unfoldable pub sample_expired :
      (List Bytes → ℕ → List Bytes)
      → LruCache F
      → Option F
      → F
      → ℕ
      → Result (LruCache F × List Bytes)
  unfolding sweep keys
  sample_expired sample c now time sample_size = elim c.mode [
    | logical ↦ ok (c, [])
    | authoritative ↦
        sweep (now_or now time) c
          (if ltb sample_size (length (keys c)) then sample (keys c) sample_size else keys c)
  ]
