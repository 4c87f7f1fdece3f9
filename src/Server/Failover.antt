-- ===== src/Server/Failover.antt =====
-- `promote`: what a client reads from a replica that takes over.
use sd_03_distributed_cache.Prelude.{
  ℕ, ◌≡◌, refl, ap, sym, ◌∙◌, subst, true, ◌⊎◌, inl, inr, Option, none, some, List, [], ◌∷◌,
  if◌then◌else◌, Bytes, bytes_beq, Result, ok,
}
use sd_03_distributed_cache.Prelude.Int.{ℤ}
use sd_03_distributed_cache.Clock.{Clock}
use sd_03_distributed_cache.Bytes.{codes, upper}
use sd_03_distributed_cache.Protocol.{encode_bulk}
use sd_03_distributed_cache.Lru.{Mode, authoritative, LruCache, is_expired}
use sd_03_distributed_cache.Lru.Spec.{Entry, find, gotten}
use sd_03_distributed_cache.Lru.Cells.{Cells}
use sd_03_distributed_cache.Lru.Invariant.{IsCache}
use sd_03_distributed_cache.Lru.Refine.{Represents}
use sd_03_distributed_cache.Lru.Contract.{get-gotten}
use sd_03_distributed_cache.Lru.Laws.{gotten-found}
use sd_03_distributed_cache.Replication.Replica.{Replica}
use sd_03_distributed_cache.Server.{Node, is_master, promote, store_get, do_get, dispatch}
use sd_03_distributed_cache.Server.Mirror.{IsCarried, IsGhost, ArePaired}
use sd_03_distributed_cache.Server.CatchUp.{CatchesUp}

module _ {F : Type 0} where
  with_authority : LruCache F → LruCache F
  with_authority c = record c { mode = authoritative }

  authority-IsCache :
      {n : ℕ} {m : Mode} {c : LruCache F} {cs : Cells F}
      → IsCache n m c cs
      → IsCache n authoritative (with_authority c) cs
  unfolding with_authority
  authority-IsCache i = record {
    maxsize = i.maxsize;
    mode = refl;
    linked = i.linked;
    distinct = i.distinct;
    holds = i.holds;
    below = i.below;
    unique = i.unique;
    index = i.index;
    is_dict = i.is_dict;
    count = i.count;
  }

  -- A promoted node has the entries that it had.
  pub promote-Represents :
      {size : ℕ} {m : Mode} {es : List (Entry F)} (n : Node F)
      → Represents size m n.store es
      → Represents size authoritative (promote n).store es
  unfolding promote with_authority
  promote-Represents n r = record {
    cells = r.cells;
    is_cache = authority-IsCache r.is_cache;
    entries_eq = r.entries_eq;
  }

module _ {F : Type 0} ⦃clock : Clock F⦄ (printable : Bytes → Bytes) (name : Bytes)
    (is_get : upper name ≡ codes "GET") where
  -- What a GET answers, by the entries of the store.
  pub get-reply :
      {size : ℕ} {m : Mode} {es : List (Entry F)} (n : Node F) (now : F) (k : Bytes)
      → Represents size m n.store es
      → (dispatch printable n now (name ∷ k ∷ [])).1 ≡ ok (encode_bulk (gotten m now k es).1)
  unfolding dispatch do_get store_get bytes_beq
  get-reply {m} {es} n now k r =
      let g = get-gotten r k (some now) now in
      rw (is_get, dispatch) (rw (g.returns, do_get, store_get) refl)

module _ {F : Type 0} ⦃clock : Clock F⦄ where
  -- The answer to a GET, by what the old master (`o`) and the replica (`o'`) have for the key: the master's
  -- value until the carried deadline, and a miss from then on; where the master has nothing a miss, or the
  -- value of an entry of the replica that has no deadline.
  abbrev pub IsAnswer : F → Option (Entry F) → Option (Entry F) → Result Bytes → Type 0
  IsAnswer now (some e) o' reply =
      (d : Option F) × IsCarried e.expire_at d
      × (reply ≡ ok (encode_bulk (if is_expired d now then none else some e.value)))
  IsAnswer now none o' reply =
      (reply ≡ ok (encode_bulk none))
      ⊎ ((d : Entry F) × (o' ≡ some d)
          × (d.expire_at ≡ none)
          × (reply ≡ ok (encode_bulk (some d.value))))

  -- A deadline that had passed at one of the times in `past` has, as it is carried over, passed at `now`.
  abbrev pub HavePassed : (F → Type 0) → F → Type 0
  HavePassed past now =
      (t s x : F) (ms : ℤ)
      → past s
      → is_expired (some t) s ≡ true
      → clock.millis t ≡ some ms
      → clock.seconds ms ≡ some x
      → is_expired (some x) now ≡ true

  ghost-IsAnswer :
      (past : F → Type 0) (now : F) (k : Bytes) (d : Entry F) (ds : List (Entry F)) (m : Mode)
      → HavePassed past now
      → find k ds ≡ some d
      → IsGhost past d.expire_at
      → IsAnswer now none (some d) (ok (encode_bulk (gotten m now k ds).1))
  unfolding is_expired
  ghost-IsAnswer past now k d ds m passed f (t, s, at, expired, (ms, millis, carried)) =
      elim carried [
        | inl kept ↦ dated (clock.seconds ms) (λ x e. passed t s x ms at expired millis e) kept
        | inr lost ↦ undated lost.1
      ]
    where
      reply : Option F → Result Bytes
      reply x = ok (encode_bulk (if is_expired x now then none else some d.value))

      answer : ok (encode_bulk (gotten m now k ds).1) ≡ reply d.expire_at
      answer = ap (λ v. ok (encode_bulk v)) (gotten-found m now k ds f)

      undated :
          d.expire_at ≡ none → IsAnswer now none (some d) (ok (encode_bulk (gotten m now k ds).1))
      undated e = inr (d, refl, e, answer ∙ ap reply e)

      dated :
          (o : Option F)
          → ((x : F) → o ≡ some x → is_expired (some x) now ≡ true)
          → d.expire_at ≡ o
          → IsAnswer now none (some d) (ok (encode_bulk (gotten m now k ds).1))
      dated none p e = undated e
      dated (some x) p e = inl (
          answer
          ∙ ap reply e
          ∙ ap (λ b. ok (encode_bulk (if b then none else some d.value))) (p x refl))

  gotten-IsAnswer :
      (past : F → Type 0) (m : Mode) (now : F) (k : Bytes) (o : Option (Entry F))
      (ds : List (Entry F))
      → HavePassed past now
      → ArePaired past o (find k ds)
      → IsAnswer now o (find k ds) (ok (encode_bulk (gotten m now k ds).1))
  unfolding gotten
  gotten-IsAnswer past m now k o ds passed h = go o (find k ds) refl h
    where
      go :
          (o o' : Option (Entry F))
          → find k ds ≡ o'
          → ArePaired past o o'
          → IsAnswer now o o' (ok (encode_bulk (gotten m now k ds).1))
      go none none f h = inl (rw (f, gotten) refl)
      go none (some d) f h = ghost-IsAnswer past now k d ds m passed f h
      go (some e) none f h = absurd h
      go (some e) (some d) f h = (
        d.expire_at,
        h.1,
        ap (λ v. ok (encode_bulk v)) (gotten-found m now k ds f)
            ∙ ap (λ v. ok (encode_bulk (if is_expired d.expire_at now then none else some v))) h.0,
      )

  -- A replica that has read all that its master queued for it, and is promoted, is a master, with the same
  -- entries in a store that is authoritative. Where what had passed for the old master has passed by now, it
  -- answers a GET of a key that the old master has with the value there, until the deadline that was
  -- carried over, and a GET of any other key with a miss, or with the value of an entry of the replica that
  -- has no deadline.
  pub promote-IsAnswer :
      {size room : ℕ} {m m' : Mode} {past : F → Type 0} {q : ℕ} {n : Node F} {r : Replica F}
      (u : CatchesUp size room m m' past q n r) (p : Node F)
      → p.store ≡ u.target.store
      → (printable : Bytes → Bytes) (now : F) (name k : Bytes) → upper name ≡ codes "GET"
      → HavePassed past now
      → (is_master (promote p) ≡ true)
        × Represents room authoritative (promote p).store u.copied
        × IsAnswer now
            (find k u.entries)
            (find k u.copied)
            (dispatch printable (promote p) now (name ∷ k ∷ [])).1
  unfolding is_master promote bytes_beq
  promote-IsAnswer {room} {m'} {past} u p same printable now name k is_get passed =
      let r : Represents room m' p.store u.copied =
        subst (λ c. Represents room m' c u.copied) (sym same) u.represents_copy in
      (
        refl,
        promote-Represents p r,
        subst (IsAnswer now (find k u.entries) (find k u.copied))
            (sym (get-reply printable name is_get (promote p) now k (promote-Represents p r)))
            (gotten-IsAnswer past authoritative now k (find k u.entries) u.copied passed
              (u.mirrors k)),
      )
