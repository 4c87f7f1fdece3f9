-- ===== src/Discovery/Names.antt =====
-- Keys and addresses: what is written is what is read.
use sd_03_distributed_cache.Prelude.{
  ℕ, suc, ◌==◌, ◌≡◌, refl, ap, sym, ◌∙◌, arith, true, false, Option, none, some, [], ◌∷◌, ◌++◌,
  drop-length_append, Bytes, All,
}
use sd_03_distributed_cache.Prelude.Int.{ℤ, pos, negsuc}
use sd_03_distributed_cache.Bytes.{codes, starts_with, is_digit}
use sd_03_distributed_cache.Bytes.Decimal.{AreDigits, show, show-AreDigits, show_ℤ, int, int-show_ℤ}
use sd_03_distributed_cache.Discovery.{rpartition, is_empty, node_key, host_port, key_to_host_port}
use sd_03_distributed_cache.Client.{node_name}

abbrev pub Without : ℕ → Bytes → Type 0
Without c = All (λ x. (x == c) ≡ false)

rpartition-Without : (c : ℕ) (b : Bytes) → Without c b → rpartition c b ≡ none
unfolding rpartition
rpartition-Without c [] h = refl
rpartition-Without c (x ∷ b) (h, hs) = rw (rpartition-Without c b hs, rpartition) (rw h refl)

-- The last `c` is found, whatever stands before it.
rpartition-append : (c : ℕ) (a b : Bytes) → Without c b → rpartition c (a ++ c ∷ b) ≡ some (a, b)
unfolding rpartition
rpartition-append c [] b h = rw (rpartition-Without c b h, rpartition) (ground arith)
rpartition-append c (x ∷ a) b h = rw (rpartition-append c a b h, rpartition) refl

show_ℤ-Without : (z : ℤ) → Without b':' (show_ℤ z)
unfolding show_ℤ is_digit
show_ℤ-Without (pos n) = go (show n) (show-AreDigits n)
  where
    go : (s : Bytes) → AreDigits s → Without b':' s
    go [] h = h
    go (c ∷ s) h = (ground arith, go s h.1)
show_ℤ-Without (negsuc n) = (refl, go (show (suc n)) (show-AreDigits (suc n)))
  where
    go : (s : Bytes) → AreDigits s → Without b':' s
    go [] h = h
    go (c ∷ s) h = (ground arith, go s h.1)

show_ℤ-nonempty : (z : ℤ) → is_empty (show_ℤ z) ≡ false
unfolding int
show_ℤ-nonempty z = go (show_ℤ z) (int-show_ℤ z)
  where
    go : (s : Bytes) → int s ≡ some z → is_empty s ≡ false
    go [] h = absurd (ground (arith, h))
    go (c ∷ s) h = refl

starts_with-append : (a b : Bytes) → starts_with a (a ++ b) ≡ true
unfolding starts_with
starts_with-append [] b = refl
starts_with-append (c ∷ a) b = ground (arith, starts_with-append a b)

host_port-name :
    (host : Bytes) (port : ℤ)
    → is_empty host ≡ false
    → host_port (host ++ (codes ":" ++ show_ℤ port)) ≡ some (host, port)
unfolding host_port
host_port-name host port h =
    rw (rpartition-append b':' host (show_ℤ port) (show_ℤ-Without port), host_port)
      (rw h (rw (show_ℤ-nonempty port) (rw (int-show_ℤ port) refl)))

-- The key of a node gives back its address, whatever the prefix, and also where the host has colons.
pub key_to_host_port-node_key :
    (prefix host : Bytes) (port : ℤ)
    → is_empty host ≡ false
    → key_to_host_port (node_key prefix host port) prefix ≡ some (host, port)
unfolding key_to_host_port node_key
key_to_host_port-node_key prefix host port h =
    let name = host ++ (codes ":" ++ show_ℤ port) in
    rw (starts_with-append prefix name, key_to_host_port)
      (ap host_port (drop-length_append prefix name) ∙ host_port-name host port h)

-- Different addresses have different names.
node_name-injective :
    (host host' : Bytes) (port port' : ℤ)
    → node_name host port ≡ node_name host' port'
    → (host ≡ host') × (port ≡ port')
unfolding node_name
node_name-injective host host' port port' e =
    let parts : ◌≡◌ {A = Option (Bytes × Bytes)} (some (host, show_ℤ port))
        (some (host', show_ℤ port')) =
      sym (rpartition-append b':' host (show_ℤ port) (show_ℤ-Without port))
      ∙ ap (rpartition b':') e
      ∙ rpartition-append b':' host' (show_ℤ port') (show_ℤ-Without port') in
    let same : show_ℤ port ≡ show_ℤ port' =
      ap (λ (o : Option (Bytes × Bytes)). (or_empty o).1) parts in
    let read : ◌≡◌ {A = Option ℤ} (some port) (some port') =
      sym (int-show_ℤ port) ∙ ap int same ∙ int-show_ℤ port' in
    (ap (λ (o : Option (Bytes × Bytes)). (or_empty o).0) parts, ap or_zero read)
  where
    or_empty : Option (Bytes × Bytes) → Bytes × Bytes
    or_empty none = ([], [])
    or_empty (some p) = p

    or_zero : Option ℤ → ℤ
    or_zero none = pos 0
    or_zero (some z) = z
