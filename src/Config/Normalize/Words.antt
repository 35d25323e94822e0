-- ===== src/Config/Normalize/Words.antt =====
-- `strings.ToLower(strings.TrimSpace(s))` on a mode or a policy is the same when done twice.
use ssh_vpn.Common.{
  ℕ, Bytes, false, [], ◌∷◌, map, ◌≡◌, refl, ap, ap₂, ◌∙◌, arith, Bool-cases, if-both, inl, inr,
}
use ssh_vpn.Common.Text.{is_space, lower, trim_left, keep, trim_right}
use ssh_vpn.Config.Normalize.{or_default, word}

-- Words: nothing or a first byte that is not a space.
Solid : Bytes → Type 0
Solid [] = Unit {0}
Solid (b ∷ bs) = is_space b ≡ false

trim_left-Solid : (s : Bytes) → Solid (trim_left s)
unfolding trim_left Solid
trim_left-Solid [] = tt
trim_left-Solid (b ∷ bs) =
    if-both Solid (is_space b) (trim_left bs) (b ∷ bs) (λ _. trim_left-Solid bs) (λ e. e)

trim_left-of_Solid : (s : Bytes) → Solid s → trim_left s ≡ s
unfolding trim_left Solid
trim_left-of_Solid [] h = refl
trim_left-of_Solid (b ∷ bs) h = rw h refl

keep-Solid : (b : ℕ) (r : Bytes) → is_space b ≡ false → Solid (keep b r)
unfolding Solid
keep-Solid b [] h = rw h h
keep-Solid b (x ∷ xs) h = h

trim_right-Solid : (s : Bytes) → Solid s → Solid (trim_right s)
unfolding trim_right Solid
trim_right-Solid [] h = tt
trim_right-Solid (b ∷ bs) h = keep-Solid b (trim_right bs) h

trim_right_twice : (s : Bytes) → trim_right (trim_right s) ≡ trim_right s
unfolding trim_right
trim_right_twice [] = refl
trim_right_twice (b ∷ bs) = kept (trim_right bs) (trim_right_twice bs)
  where
    kept : (r : Bytes) → trim_right r ≡ r → trim_right (keep b r) ≡ keep b r
    kept [] e =
        if-both (λ s. trim_right s ≡ s) (is_space b) [] (b ∷ []) (λ _. refl) (λ h. rw h refl)
    kept (x ∷ xs) e = ap (keep b) e

is_space-lower : (b : ℕ) → is_space (lower b) ≡ is_space b
unfolding is_space lower
is_space-lower b = ground arith

lower_twice : (b : ℕ) → lower (lower b) ≡ lower b
unfolding lower
lower_twice b = ground arith

trim_left-map : (s : Bytes) → trim_left (map lower s) ≡ map lower (trim_left s)
unfolding trim_left
trim_left-map [] = refl
trim_left-map (b ∷ bs) = elim (Bool-cases (is_space b)) [
  | inl e ↦ rw (e, is_space-lower b ∙ e) (trim_left-map bs)
  | inr e ↦ rw (e, is_space-lower b ∙ e) refl
]

keep-map : (b : ℕ) (r : Bytes) → keep (lower b) (map lower r) ≡ map lower (keep b r)
keep-map b [] = elim (Bool-cases (is_space b)) [
  | inl e ↦ rw (e, is_space-lower b ∙ e) refl
  | inr e ↦ rw (e, is_space-lower b ∙ e) refl
]
keep-map b (x ∷ xs) = refl

trim_right-map : (s : Bytes) → trim_right (map lower s) ≡ map lower (trim_right s)
unfolding trim_right
trim_right-map [] = refl
trim_right-map (b ∷ bs) = ap (keep (lower b)) (trim_right-map bs) ∙ keep-map b (trim_right bs)

map-lower_twice : (s : Bytes) → map lower (map lower s) ≡ map lower s
map-lower_twice [] = refl
map-lower_twice (b ∷ bs) = ap₂ (◌∷◌) (lower_twice b) (map-lower_twice bs)

word_twice : (s : Bytes) → word (word s) ≡ word s
unfolding word
word_twice s =
    let left = trim_left s in
    let t = trim_right left in
    ap (λ u. map lower (trim_right u))
      (trim_left-map t
        ∙ ap (map lower) (trim_left-of_Solid t (trim_right-Solid left (trim_left-Solid s))))
    ∙ ap (map lower) (trim_right-map t ∙ ap (map lower) (trim_right_twice left))
    ∙ map-lower_twice t

or_default_self : (s : Bytes) → or_default s s ≡ s
unfolding or_default
or_default_self [] = refl
or_default_self (x ∷ xs) = refl

pub or_default-word_twice :
    (s d : Bytes) → word d ≡ d → or_default (word (or_default (word s) d)) d ≡ or_default (word s) d
unfolding or_default
or_default-word_twice s d h = by_word (word s) (word_twice s)
  where
    by_word : (w : Bytes) → word w ≡ w → or_default (word (or_default w d)) d ≡ or_default w d
    by_word [] e = rw h (or_default_self d)
    by_word (x ∷ xs) e = rw e refl
