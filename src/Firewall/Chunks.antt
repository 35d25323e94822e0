-- ===== src/Firewall/Chunks.antt =====
-- The slices of the loop over the allowed ports.
use ssh_vpn.Common.{
  ℕ, zero, suc, ◌≤◌, ◌<◌, length, take, drop, length-take, length-drop, take-append-drop, All, List,
  [], ◌∷◌, ◌++◌, ℤ, ◌≡◌, refl, ap, ◌∙◌, arith,
}
use ssh_vpn.Firewall.{chunk, slices, chunks}

unfoldable pub concat : List (List ℤ) → List ℤ
concat [] = []
concat (ps ∷ pss) = ps ++ concat pss

-- What the multiport match takes: some ports, at most 15.
pub Fits : List ℤ → Type 0
Fits ps = (0 < length ps) × (length ps ≤ 15)

-- A cut that keeps all the elements, with no slice empty or too long.
unfoldable pub IsCut : List ℤ → List (List ℤ) → Type 0
IsCut ps pss = (concat pss ≡ ps) × All Fits pss

slices-IsCut : (fuel : ℕ) (ps : List ℤ) → length ps ≤ fuel → IsCut ps (slices fuel ps)
unfolding slices IsCut Fits concat
slices-IsCut zero [] h = (refl, tt)
slices-IsCut zero (p ∷ ps) h = absurd (omega arith)
slices-IsCut (suc fuel) [] h = (refl, tt)
slices-IsCut (suc fuel) (p ∷ ps) h =
    let rest = drop chunk (p ∷ ps) in
    let (whole, fit) = slices-IsCut fuel rest (omega (arith, length-drop chunk (p ∷ ps))) in
    (
      ap (λ qs. take chunk (p ∷ ps) ++ qs) whole ∙ take-append-drop chunk (p ∷ ps),
      ((omega (arith, length-take chunk (p ∷ ps)), omega (arith, length-take chunk (p ∷ ps))), fit),
    )

-- The loop puts every allowed port into a multiport rule, in order, and no rule has more ports than
-- the match takes, nor none.
pub chunks-IsCut : (ps : List ℤ) → IsCut ps (chunks ps)
unfolding chunks
chunks-IsCut ps = slices-IsCut (length ps) ps (omega arith)
