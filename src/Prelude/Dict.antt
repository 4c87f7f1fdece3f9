-- ===== src/Prelude/Dict.antt =====
-- Python's `dict`: an association list in insertion order. A write to a present key keeps its
-- place, a new key goes to the end.
use Prim.Native.Nat.{◌+◌}
use mathlib.Core.Path.{◌≡◌, refl}
use mathlib.Core.Option.{Option, none, some}
use mathlib.Core.List.{List, [], ◌∷◌}
use native.Mathlib.Omega.{arith}
use sd_03_distributed_cache.Prelude.{Eq, if◌then◌else◌, length}

abbrev pub Dict {ℓ} : Type ℓ → Type ℓ → Type ℓ
Dict K V = List (K × V)

module _ {ℓ} {K V : Type ℓ} ⦃e : Eq K⦄ where
  -- d.get(k)
  unfoldable pub lookup : K → Dict K V → Option V
  lookup k [] = none
  lookup k ((j, v) ∷ d) = if e.beq j k then some v else lookup k d

  -- d[k] = v
  unfoldable pub insert : K → V → Dict K V → Dict K V
  insert k v [] = (k, v) ∷ []
  insert k v ((j, w) ∷ d) = if e.beq j k then (j, v) ∷ d else (j, w) ∷ insert k v d

  -- del d[k], where the key is present; d.pop(k, None)
  unfoldable pub remove : K → Dict K V → Dict K V
  remove k [] = []
  remove k ((j, w) ∷ d) = let rest = remove k d in if e.beq j k then rest else (j, w) ∷ rest

  -- No key occurs twice.
  abbrev pub IsDict : Dict K V → Type ℓ
  IsDict [] = Unit
  IsDict ((j, v) ∷ d) = (lookup j d ≡ none) × IsDict d

  pub lookup-insert :
      (k j : K) (v : V) (d : Dict K V)
      → lookup j (insert k v d) ≡ (if e.beq k j then some v else lookup j d)
  unfolding lookup insert
  lookup-insert k j v [] = refl
  lookup-insert k j v ((i, w) ∷ d) =
      ground (arith, e.beq_iff k j, e.beq_iff i k, e.beq_iff i j, lookup-insert k j v d)

  pub lookup-remove :
      (k j : K) (d : Dict K V) → lookup j (remove k d) ≡ (if e.beq k j then none else lookup j d)
  unfolding lookup remove
  lookup-remove k j [] = ground arith
  lookup-remove k j ((i, w) ∷ d) =
      ground (arith, e.beq_iff k j, e.beq_iff i k, e.beq_iff i j, lookup-remove k j d)

  pub remove-absent : (k : K) (d : Dict K V) → lookup k d ≡ none → remove k d ≡ d
  unfolding lookup remove
  remove-absent k [] h = refl
  remove-absent k ((i, w) ∷ d) h = ground (arith, remove-absent k d)

  pub length-remove :
      (k : K) (v : V) (d : Dict K V)
      → IsDict d
      → lookup k d ≡ some v
      → length (remove k d) + 1 ≡ length d
  unfolding lookup remove
  length-remove k v [] h f = absurd (ground arith)
  length-remove k v ((i, w) ∷ d) h f =
      ground (arith, e.beq_iff i k, remove-absent k d, length-remove k v d h.1)

  pub length-insert_new :
      (k : K) (v : V) (d : Dict K V) → lookup k d ≡ none → length (insert k v d) ≡ length d + 1
  unfolding lookup insert
  length-insert_new k v [] h = omega arith
  length-insert_new k v ((i, w) ∷ d) h = ground (arith, length-insert_new k v d)

  pub IsDict-insert : (k : K) (v : V) (d : Dict K V) → IsDict d → IsDict (insert k v d)
  unfolding insert lookup
  IsDict-insert k v [] h = (refl, h)
  IsDict-insert k v ((i, w) ∷ d) h =
      ground (arith, e.beq_iff k i, e.beq_iff i k, lookup-insert k i v d, IsDict-insert k v d h.1)

  pub IsDict-remove : (k : K) (d : Dict K V) → IsDict d → IsDict (remove k d)
  unfolding remove
  IsDict-remove k [] h = h
  IsDict-remove k ((i, w) ∷ d) h =
      ground (arith, e.beq_iff k i, lookup-remove k i d, IsDict-remove k d h.1)
