-- ===== src/Config/Ports.antt =====
-- `uniqSorted` of internal/config/config.go, with `sort.Ints` as an insertion sort.
pub mod Laws
use ssh_vpn.Common.{ℤ, Bool, true, false, ◌||◌, List, [], ◌∷◌, eqb_ℤ, leb_ℤ, if◌then◌else◌}

unfoldable pub contains : List ℤ → ℤ → Bool
contains [] p = false
contains (q ∷ qs) p = eqb_ℤ q p || contains qs p

-- The loop with the map `seen`.
unfoldable pub uniq : List ℤ → List ℤ → List ℤ
uniq seen [] = []
uniq seen (p ∷ ps) =
    let new = p ∷ uniq (p ∷ seen) ps in
    let old = uniq seen ps in if contains seen p then old else new

unfoldable pub insert : ℤ → List ℤ → List ℤ
insert p [] = p ∷ []
insert p (q ∷ qs) = let rest = insert p qs in if leb_ℤ p q then p ∷ q ∷ qs else q ∷ rest

unfoldable pub sort : List ℤ → List ℤ
unfolding insert
sort [] = []
sort (p ∷ ps) = insert p (sort ps)

unfoldable pub uniq_sorted : List ℤ → List ℤ
unfolding uniq sort contains
uniq_sorted ps = sort (uniq [] ps)
