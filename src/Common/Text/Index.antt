-- ===== src/Common/Text/Index.antt =====
-- Where `index` finds a text: the text stands there, and nowhere before.
use ssh_vpn.Common.{
  ℕ, suc, Bytes, has_prefix, length, drop, ◌==◌, Bool, true, false, [], ◌∷◌, ◌++◌, Option, none,
  some, ◌≤◌, arith, append_assoc, subst, ◌≡◌, refl, sym, ap, ap₂, ◌∙◌, ◌⊎◌, if◌then◌else◌, inl, inr,
  ◌&&◌, ==_iff,
}
use ssh_vpn.Common.Text.{index}

and-both : (a b : Bool) → (a && b) ≡ true → (a ≡ true) × (b ≡ true)
and-both true b h = (refl, h)
and-both false b h = absurd (cc)

pub has_prefix-append : (s p : Bytes) → has_prefix s p ≡ true → s ≡ p ++ drop (length p) s
unfolding has_prefix
has_prefix-append s [] h = refl
has_prefix-append [] (p ∷ ps) h = absurd (cc)
has_prefix-append (c ∷ s) (p ∷ ps) h =
    let both = and-both (c == p) (has_prefix s ps) h in
    ap₂ (◌∷◌) ((==_iff c p).0 both.0) (has_prefix-append s ps both.1)

-- What the search answers at one place, by the test there and the answer behind it.
unfoldable pub here_or : Bool → Option ℕ → Option ℕ
here_or true rest = some 0
here_or false none = none
here_or false (some i) = some (suc i)

pub index-here_or :
    (c : ℕ) (s sub : Bytes) → index (c ∷ s) sub ≡ here_or (has_prefix (c ∷ s) sub) (index s sub)
unfolding index here_or
index-here_or c s sub = by_test (has_prefix (c ∷ s) sub) (index s sub)
  where
    by_test :
        (b : Bool) (r : Option ℕ)
        → (if b then some 0 else elim r [ none ↦ none | some i ↦ some (suc i) ]) ≡ here_or b r
    by_test true r = refl
    by_test false none = refl
    by_test false (some i) = refl

here_or-some :
    (b : Bool) (r : Option ℕ) (i : ℕ)
    → here_or b r ≡ some i
    → ((b ≡ true) × (i ≡ 0)) ⊎ ((b ≡ false) × (k : ℕ) × (r ≡ some k) × (i ≡ suc k))
unfolding here_or
here_or-some true r i e = inl (refl, cc)
here_or-some false none i e = absurd (cc)
here_or-some false (some k) i e = inr (refl, k, refl, cc)

-- Where a text is found it stands, with `i` bytes before it.
unfoldable pub Stands : ℕ → Bytes → Bytes → Type 0
Stands i sub s = (before after : Bytes) × (s ≡ before ++ sub ++ after) × (length before ≡ i)

pub index-Stands : (s sub : Bytes) (i : ℕ) → index s sub ≡ some i → Stands i sub s
unfolding Stands index has_prefix
index-Stands [] [] i e = ([], [], refl, cc)
index-Stands [] (p ∷ ps) i e = absurd (cc)
index-Stands (c ∷ s) sub i e =
    elim (here_or-some (has_prefix (c ∷ s) sub) (index s sub) i (sym (index-here_or c s sub) ∙ e)) [
      | inl (h, z) ↦ ([], drop (length sub) (c ∷ s), has_prefix-append (c ∷ s) sub h, sym z)
      | inr (h, k, r, z) ↦
          let (before, after, e, n) = index-Stands s sub k r in
          (c ∷ before, after, ap (◌∷◌ c) e, ap suc n ∙ sym z)
    ]

stands-has_prefix : (sub after : Bytes) → has_prefix (sub ++ after) sub ≡ true
unfolding has_prefix
stands-has_prefix [] after = refl
stands-has_prefix (p ∷ sub) after =
    ap (λ b. b && has_prefix (sub ++ after) sub) ((==_iff p p).1 refl) ∙ stands-has_prefix sub after

-- Where a text stands the search finds it, there or before.
Found : Option ℕ → ℕ → Type 0
Found r j = (i : ℕ) × (r ≡ some i) × (i ≤ j)

index-prefix : (sub after : Bytes) → Found (index (sub ++ after) sub) 0
unfolding Found
index-prefix [] [] = (0, (unfold index has_prefix in refl), omega arith)
index-prefix [] (c ∷ after) =
    (0, index-here_or c after [] ∙ (unfold here_or has_prefix in refl), omega arith)
index-prefix (p ∷ sub) after = (
  0,
  index-here_or p (sub ++ after) (p ∷ sub)
      ∙ rw (stands-has_prefix (p ∷ sub) after) (unfold here_or in refl),
  omega arith,
)

here_or-Found : (b : Bool) (r : Option ℕ) (j : ℕ) → Found r j → Found (here_or b r) (suc j)
unfolding Found here_or
here_or-Found true r j h = (0, refl, omega arith)
here_or-Found false none j (i, e, le) = absurd (cc)
here_or-Found false (some k) j (i, e, le) = (suc k, refl, ground (arith))

index-split :
    (before sub after : Bytes) → Found (index (before ++ (sub ++ after)) sub) (length before)
unfolding Found
index-split [] sub after = index-prefix sub after
index-split (c ∷ before) sub after = rw (index-here_or c (before ++ (sub ++ after)) sub) (
    here_or-Found _ (index (before ++ (sub ++ after)) sub) (length before)
      (index-split before sub after))

Stands-Found : (j : ℕ) (sub s : Bytes) → Stands j sub s → Found (index s sub) j
unfolding Stands
Stands-Found j sub s (before, after, e, n) = subst (Found (index s sub)) n (
    subst (λ (t : Bytes). Found (index t sub) (length before))
      (sym (e ∙ append_assoc before sub after)) (index-split before sub after))

pub index_first : (s sub : Bytes) (i j : ℕ) → index s sub ≡ some i → Stands j sub s → i ≤ j
unfolding Found
index_first s sub i j e h = let (k, f, le) = Stands-Found j sub s h in ground arith

pub index-none : (s sub : Bytes) (j : ℕ) → index s sub ≡ none → ¬ Stands j sub s
unfolding Found
index-none s sub j e h = let (k, f, le) = Stands-Found j sub s h in cc
