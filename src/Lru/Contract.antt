-- ===== src/Lru/Contract.antt =====
-- The contract of distcache/lru.py, method by method.
use sd_03_distributed_cache.Prelude.{ℕ, Bool, Option, none, some, List, subst, Bytes, ok}
use sd_03_distributed_cache.Clock.{Clock}
use sd_03_distributed_cache.Lru.{Mode, LruCache, delete, set_expire, insert_node, now_or, get}
use sd_03_distributed_cache.Lru.Spec.{Entry, inserted, gotten, deleted, rescheduled}
use sd_03_distributed_cache.Lru.Refine.{Represents, Refines, delete_step, set_expire_step}
use sd_03_distributed_cache.Lru.Refine.Insert.{insert_step}
use sd_03_distributed_cache.Lru.Refine.Get.{get_step}

module _ {F : Type 0} {n : ℕ} {m : Mode} {c : LruCache F} {es : List (Entry F)} where
  -- On a well-formed cache `delete` does not raise. It takes out the entry of the key, keeps the
  -- order of the others, and says whether the key was there.
  pub delete-deleted : Represents n m c es → (k : Bytes) → Refines n m (delete c k) (deleted k es)
  delete-deleted r k =
      subst (λ es. Refines n m (delete c k) (deleted k es)) r.entries_eq (delete_step r.is_cache k)

  -- On a well-formed cache `set_expire` gives the entry of the key the new deadline, in its place
  -- in the order, and says whether the key was there.
  pub set_expire-rescheduled :
      Represents n m c es
      → (k : Bytes) (t : F) → Refines n m (ok (set_expire c k t)) (rescheduled k t es)
  set_expire-rescheduled r k t =
      subst (λ es. Refines n m (ok (set_expire c k t)) (rescheduled k t es)) r.entries_eq
        (set_expire_step r.is_cache k t)

  -- On a well-formed cache `_insert` does not raise. An entry of the same key is replaced and comes
  -- first, with no eviction; a new entry comes first, and the least recent one goes if `evict` is
  -- set and the cache is over its size.
  pub insert_node-inserted :
      Represents n m c es
      → (k v : Bytes) (x : Option F) (evict : Bool)
      → Refines n m (insert_node c k v x evict) (inserted n evict k v x es)
  insert_node-inserted r k v x evict =
      subst (λ es. Refines n m (insert_node c k v x evict) (inserted n evict k v x es)) r.entries_eq
        (insert_step r.is_cache k v x evict)

module _ {F : Type 0} ⦃clock : Clock F⦄ {n : ℕ} {m : Mode} {c : LruCache F}
    {es : List (Entry F)} where
  get_at :
      Represents n m c es → (k : Bytes) (t : F) → Refines n m (get c k (some t) t) (gotten m t k es)
  get_at r k t =
      subst (λ es. Refines n m (get c k (some t) t) (gotten m t k es)) r.entries_eq
        (get_step r.is_cache k t)

  -- On a well-formed cache `get` does not raise, with the time given or read from the clock. A live
  -- entry is returned and comes first. An expired one is a miss: it is taken out in the authoritative
  -- mode, and stays in its place in the logical mode.
  pub get-gotten :
      Represents n m c es
      → (k : Bytes) (now : Option F) (time : F)
      → Refines n m (get c k now time) (gotten m (now_or now time) k es)
  unfolding get
  get-gotten r k none time = get_at r k time
  get-gotten r k (some t) time = get_at r k t
