-- ===== src/Common/Sums.antt =====
-- Sums over the elements of a list, and what a write at one place does to them.
use Prim.Native.Nat.{ℕ, zero, suc, ◌+◌}
use mathlib.Core.Path.{◌≡◌, ap, subst}
use mathlib.Core.List.{List, [], ◌∷◌, ◌++◌}
use mathlib.Core.Option.{Option, none, some, some_inj}
use native.Mathlib.Omega.{arith}
use ssh_vpn.Common.Lists.{get_elem?, set, All}

module _ {A : Type 0} (f : A → ℕ) where
  unfoldable pub sum : List A → ℕ
  sum [] = 0
  sum (x ∷ xs) = f x + sum xs

  pub sum-append_one : (xs : List A) (y : A) → sum (xs ++ (y ∷ [])) ≡ sum xs + f y
  unfolding sum
  sum-append_one [] y = omega arith
  sum-append_one (x ∷ xs) y = omega (arith, sum-append_one xs y)

  -- What stands beside one element.
  pub beside : List A → ℕ → ℕ
  beside [] i = 0
  beside (x ∷ xs) zero = sum xs
  beside (x ∷ xs) (suc i) = f x + beside xs i

  pub sum-get_elem? :
      (xs : List A) (i : ℕ) (x : A) → get_elem? xs i ≡ some x → sum xs ≡ beside xs i + f x
  unfolding sum beside
  sum-get_elem? [] i x e = absurd (cc)
  sum-get_elem? (y ∷ ys) zero x e = omega (arith, ap (λ o. value o) e)
    where
      value : Option A → ℕ
      value none = 0
      value (some z) = f z
  sum-get_elem? (y ∷ ys) (suc i) x e = omega (arith, sum-get_elem? ys i x e)

  pub sum-set :
      (xs : List A) (i : ℕ) (x y : A)
      → get_elem? xs i ≡ some x
      → sum (set xs i y) ≡ beside xs i + f y
  unfolding sum beside
  sum-set [] i x y e = absurd (cc)
  sum-set (z ∷ zs) zero x y e = omega arith
  sum-set (z ∷ zs) (suc i) x y e = omega (arith, sum-set zs i x y e)

module _ {A : Type 0} (P : A → Type 0) where
  pub All-get_elem? : (xs : List A) (i : ℕ) (x : A) → All P xs → get_elem? xs i ≡ some x → P x
  All-get_elem? [] i x h e = absurd (cc)
  All-get_elem? (y ∷ ys) zero x h e = subst P (some_inj.0 e) h.0
  All-get_elem? (y ∷ ys) (suc i) x h e = All-get_elem? ys i x h.1 e

  pub All-set : (xs : List A) (i : ℕ) (y : A) → All P xs → P y → All P (set xs i y)
  All-set [] i y h p = tt
  All-set (x ∷ xs) zero y h p = (p, h.1)
  All-set (x ∷ xs) (suc i) y h p = (h.0, All-set xs i y h.1 p)
