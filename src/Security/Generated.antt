-- ===== src/Security/Generated.antt =====
-- The generated passwords of internal/security/credentials.go are accepted by `ValidatePassword`.
use ssh_vpn.Common.{
  ℕ, zero, suc, ◌≤◌, ◌<◌, ℤ, pos, negsuc, pos_part, ◌≤ℤ◌, ltb_ℤ, Bytes, List, [], ◌∷◌, All, length,
  get_elem?, Option, none, some, if◌then◌else◌, ◌≡◌, refl, ap, ◌∙◌, subst, arith,
}
use ssh_vpn.Security.{charset, characters, check_chars, validate_password, generate_random_password}
use ssh_vpn.Security.Accepts.{IsAllowed, check_chars_iff, validate_password_iff}

get_elem?-All {ℓ κ} :
    {A : Type ℓ} (P : A → Type κ) (xs : List A) (n : ℕ) (x : A)
    → All P xs
    → get_elem? xs n ≡ some x
    → P x
get_elem?-All P [] n x h e = absurd (cc)
get_elem?-All P (y ∷ ys) zero x h e = subst P (cc) h.0
get_elem?-All P (y ∷ ys) (suc n) x h e = get_elem?-All P ys n x h.1 e

get_elem?-some {ℓ} :
    {A : Type ℓ} (xs : List A) (n : ℕ) → n < length xs → (x : A) × (get_elem? xs n ≡ some x)
get_elem?-some [] n h = absurd (omega arith)
get_elem?-some (y ∷ ys) zero h = (y, refl)
get_elem?-some (y ∷ ys) (suc n) h = get_elem?-some ys n (omega arith)

charset-IsAllowed : All IsAllowed charset
unfolding check_chars
charset-IsAllowed = (check_chars_iff charset).0 refl

-- What the loop makes of draws in range.
Made : ℕ → Option Bytes → Type 0
Made count r = (pw : Bytes) × (r ≡ some pw) × (length pw ≡ count) × All IsAllowed pw

characters-Made :
    (draw : ℕ → Option ℕ) (i count : ℕ)
    → ((j : ℕ) → (n : ℕ) × (draw j ≡ some n) × (n < 57))
    → Made count (characters draw i count)
unfolding characters Made
characters-Made draw i zero h = ([], refl, refl, tt)
characters-Made draw i (suc count) h =
    let (n, drawn, low) = h i in
    let (c, at) = get_elem?-some charset n low in
    let (rest, e, len, ok) = characters-Made draw (suc i) count h in
    (
      c ∷ rest,
      rw (drawn, at, e) refl,
      omega arith,
      (get_elem?-All IsAllowed charset n c charset-IsAllowed at, ok),
    )

-- If every draw gives an index of the character set, and no more than 128 characters are asked for,
-- the generator returns a password that `ValidatePassword` accepts. It has exactly as many
-- characters as were asked for, where that is 8 or more, and 8 where it is less.
pub generate_random_password-validate_password :
    (draw : ℕ → Option ℕ) (len : ℤ)
    → ((j : ℕ) → (n : ℕ) × (draw j ≡ some n) × (n < 57))
    → len ≤ℤ pos 128
    → (pw : Bytes) × (generate_random_password draw len ≡ some pw)
      × (len ≤ℤ pos 8 → length pw ≡ 8)
      × (pos 8 ≤ℤ len → pos (length pw) ≡ len)
      × (validate_password pw ≡ none)
unfolding generate_random_password Made
generate_random_password-validate_password draw len h high =
    let count = if ltb_ℤ len (pos 8) then 8 else pos_part len in
    let (pw, made, size, ok) = characters-Made draw 0 count h in
    let bounds = count_bounds len high in
    (
      pw,
      made,
      λ low. size ∙ count_least len low,
      λ more. ap pos size ∙ count_asked len more,
      (validate_password_iff pw).1
          (omega (arith, bounds.0, size), omega (arith, bounds.1, size), ok),
    )
  where
    count_bounds :
        (n : ℤ)
        → n ≤ℤ pos 128
        → (8 ≤ (if ltb_ℤ n (pos 8) then 8 else pos_part n))
          × ((if ltb_ℤ n (pos 8) then 8 else pos_part n) ≤ 128)
    count_bounds (pos n) h = ground arith
    count_bounds (negsuc n) h = ground arith

    count_least : (n : ℤ) → n ≤ℤ pos 8 → (if ltb_ℤ n (pos 8) then 8 else pos_part n) ≡ 8
    count_least (pos n) h = ground arith
    count_least (negsuc n) h = ground arith

    count_asked : (n : ℤ) → pos 8 ≤ℤ n → pos (if ltb_ℤ n (pos 8) then 8 else pos_part n) ≡ n
    count_asked (pos n) h = ground arith
    count_asked (negsuc n) h = absurd (omega arith)
