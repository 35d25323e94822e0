-- ===== src/Common/Assoc.antt =====
-- Go maps as association lists: a key stands once (`Unique`), the order is that of a `range`.
use Prim.Native.Nat.{ℕ, ◌≤◌, suc, ◌+◌}
use mathlib.Core.Path.{◌≡◌, refl}
use mathlib.Core.List.{List, [], ◌∷◌}
use mathlib.Core.Option.{Option, none, some}
use native.Mathlib.Omega.{arith}
use ssh_vpn.Common.Tests.{◌==◌, if◌then◌else◌}
use ssh_vpn.Common.Lists.{length}

module _ {ℓ} {V : Type ℓ} where
  -- `v, ok := m[k]`
  unfoldable pub lookup : ℕ → List (ℕ × V) → Option V
  lookup key [] = none
  lookup key ((this, value) ∷ rest) = if this == key then some value else lookup key rest

  -- `delete(m, k)`
  unfoldable pub erase : ℕ → List (ℕ × V) → List (ℕ × V)
  erase k [] = []
  erase k ((j, v) ∷ m) = let rest = erase k m in if j == k then rest else (j, v) ∷ rest

  -- `m[k] = v`
  unfoldable pub insert : ℕ → V → List (ℕ × V) → List (ℕ × V)
  insert key value [] = (key, value) ∷ []
  insert key value ((this, old) ∷ rest) =
      if this == key then (key, value) ∷ rest else (this, old) ∷ insert key value rest

  pub lookup-insert :
      (key other : ℕ) (value : V) (map : List (ℕ × V))
      → lookup other (insert key value map)
        ≡ (if key == other then some value else lookup other map)
  unfolding lookup insert
  lookup-insert key other value [] = refl
  lookup-insert key other value (entry ∷ rest) = ground (arith, lookup-insert key other value rest)

  pub lookup-erase :
      (k j : ℕ) (m : List (ℕ × V)) → lookup j (erase k m) ≡ (if k == j then none else lookup j m)
  unfolding lookup erase
  lookup-erase k j [] = ground arith
  lookup-erase k j ((i, w) ∷ m) = ground (arith, lookup-erase k j m)

  pub length-erase : (k : ℕ) (m : List (ℕ × V)) → length (erase k m) ≤ length m
  unfolding erase
  length-erase k [] = omega arith
  length-erase k ((i, w) ∷ m) = ground (arith, length-erase k m)

  pub length-erase_mem :
      (k : ℕ) (v : V) (m : List (ℕ × V)) → lookup k m ≡ some v → suc (length (erase k m)) ≤ length m
  unfolding lookup erase
  length-erase_mem k v [] e = absurd (cc)
  length-erase_mem k v ((i, w) ∷ m) e = ground (arith, length-erase k m, length-erase_mem k v m)

  pub length-insert_new :
      (k : ℕ) (v : V) (m : List (ℕ × V)) → lookup k m ≡ none → length (insert k v m) ≡ length m + 1
  unfolding lookup insert
  length-insert_new k v [] e = omega arith
  length-insert_new k v ((i, w) ∷ m) e = ground (arith, length-insert_new k v m)
