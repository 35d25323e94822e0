-- ===== src/Config/Ports/Laws.antt =====
-- `uniqSorted` keeps the members, and its result is strictly ascending.
use ssh_vpn.Common.{
  ℤ, pos, negsuc, Bool, true, false, ◌||◌, List, [], ◌∷◌, eqb_ℤ, eqb_ℤ_iff, leb_ℤ, ◌<ℤ◌, ◌≡◌, refl,
  sym, ap, ◌∙◌, subst, arith, Bool-cases, if-both, inl, inr,
}
use ssh_vpn.Config.Ports.{contains, uniq, insert, sort, uniq_sorted}

pub eqb_ℤ-eq : (p q : ℤ) → eqb_ℤ p q ≡ true → p ≡ q
eqb_ℤ-eq p q h = ground (arith, eqb_ℤ_iff p q)

pub eqb_ℤ_refl : (p : ℤ) → eqb_ℤ p p ≡ true
eqb_ℤ_refl (pos n) = ground arith
eqb_ℤ_refl (negsuc n) = ground arith

-- Every member is above `p`, and in turn.
abbrev pub AllAbove : ℤ → List ℤ → Type 0
AllAbove p [] = Unit {0}
AllAbove p (q ∷ qs) = (p <ℤ q) × AllAbove p qs

abbrev pub Ascending : List ℤ → Type 0
Ascending [] = Unit {0}
Ascending (p ∷ ps) = AllAbove p ps × Ascending ps

pub contains-insert :
    (q p : ℤ) (ps : List ℤ) → contains (insert p ps) q ≡ (eqb_ℤ p q || contains ps q)
unfolding contains insert
contains-insert q p [] = refl
contains-insert q p (x ∷ ps) = elim (Bool-cases (leb_ℤ p x)) [
  | inl le ↦ rw le refl
  | inr gt ↦ rw gt (rw (contains-insert q p ps) (or_swap (eqb_ℤ x q) (eqb_ℤ p q) (contains ps q)))
]
  where
    or_swap : (a b c : Bool) → (a || (b || c)) ≡ (b || (a || c))
    or_swap a b c = ground arith

pub contains-sort : (q : ℤ) (ps : List ℤ) → contains (sort ps) q ≡ contains ps q
unfolding sort contains
contains-sort q [] = refl
contains-sort q (p ∷ ps) =
    contains-insert q p (sort ps) ∙ ap (◌||◌ (eqb_ℤ p q)) (contains-sort q ps)

-- What is new in `ps` passes the filter.
pub contains-uniq :
    (q : ℤ) (seen ps : List ℤ)
    → (contains (uniq seen ps) q || contains seen q) ≡ (contains ps q || contains seen q)
unfolding uniq contains
contains-uniq q seen [] = refl
contains-uniq q seen (p ∷ ps) = elim (Bool-cases (contains seen p)) [
  | inl old ↦ rw old (
      contains-uniq q seen ps
      ∙ absorb (eqb_ℤ p q) (contains ps q) (contains seen q)
          (λ e. subst (λ x. contains seen x ≡ true) (eqb_ℤ-eq p q e) old))
  | inr new ↦ rw new (
      pull (eqb_ℤ p q) (contains (uniq (p ∷ seen) ps) q) (contains seen q) (contains ps q)
        (contains-uniq q (p ∷ seen) ps))
]
  where
    absorb : (a b c : Bool) → (a ≡ true → c ≡ true) → (b || c) ≡ ((a || b) || c)
    absorb true b c h = rw (h refl) (ground arith)
    absorb false b c h = refl

    pull : (a u s c : Bool) → (u || (a || s)) ≡ (c || (a || s)) → ((a || u) || s) ≡ ((a || c) || s)
    pull true u s c h = refl
    pull false u s c h = h

-- Sorting and removing duplicates keep exactly the members.
pub contains-uniq_sorted : (q : ℤ) (ps : List ℤ) → contains (uniq_sorted ps) q ≡ contains ps q
unfolding uniq_sorted contains
contains-uniq_sorted q ps =
    contains-sort q (uniq [] ps)
    ∙ sym (or_false (contains (uniq [] ps) q))
    ∙ contains-uniq q [] ps
    ∙ or_false (contains ps q)
  where
    or_false : (b : Bool) → (b || false) ≡ b
    or_false b = ground arith

-- No member stands twice.
abbrev pub Distinct : List ℤ → Type 0
Distinct [] = Unit {0}
Distinct (p ∷ ps) = (contains ps p ≡ false) × Distinct ps

uniq-seen : (q : ℤ) (seen ps : List ℤ) → contains seen q ≡ true → contains (uniq seen ps) q ≡ false
unfolding uniq contains
uniq-seen q seen [] h = refl
uniq-seen q seen (p ∷ ps) h = elim (Bool-cases (contains seen p)) [
  | inl old ↦ rw old (uniq-seen q seen ps h)
  | inr new ↦ rw new (
      neither (eqb_ℤ p q) (contains (uniq (p ∷ seen) ps) q) (apart new)
        (uniq-seen q (p ∷ seen) ps (either (eqb_ℤ p q) (contains seen q) h)))
]
  where
    apart : contains seen p ≡ false → eqb_ℤ p q ≡ true → false ≡ true
    apart new e = sym new ∙ subst (λ x. contains seen x ≡ true) (sym (eqb_ℤ-eq p q e)) h

    neither : (a b : Bool) → (a ≡ true → false ≡ true) → b ≡ false → (a || b) ≡ false
    neither true b h k = sym (h refl)
    neither false b h k = k

    either : (a b : Bool) → b ≡ true → (a || b) ≡ true
    either true b h = refl
    either false b h = h

uniq-Distinct : (seen ps : List ℤ) → Distinct (uniq seen ps)
unfolding uniq contains
uniq-Distinct seen [] = tt
uniq-Distinct seen (p ∷ ps) =
    if-both Distinct (contains seen p) (uniq seen ps) (p ∷ uniq (p ∷ seen) ps)
      (λ e. uniq-Distinct seen ps)
      (λ e. (
        uniq-seen p (p ∷ seen) ps (here (eqb_ℤ p p) (contains seen p) (eqb_ℤ_refl p)),
        uniq-Distinct (p ∷ seen) ps,
      ))
  where
    here : (a b : Bool) → a ≡ true → (a || b) ≡ true
    here true b h = refl
    here false b h = absurd (cc)

AllAbove-trans : (p q : ℤ) (ps : List ℤ) → p <ℤ q → AllAbove q ps → AllAbove p ps
AllAbove-trans p q [] h k = tt
AllAbove-trans p q (x ∷ ps) h k = (omega (arith, k.0), AllAbove-trans p q ps h k.1)

AllAbove-insert : (a p : ℤ) (ps : List ℤ) → a <ℤ p → AllAbove a ps → AllAbove a (insert p ps)
unfolding insert
AllAbove-insert a p [] h k = (h, tt)
AllAbove-insert a p (x ∷ ps) h k =
    if-both (AllAbove a) (leb_ℤ p x) (p ∷ x ∷ ps) (x ∷ insert p ps) (λ _. (h, k))
      (λ _. (k.0, AllAbove-insert a p ps h k.1))

ltb-of_leb : (p x : ℤ) → leb_ℤ p x ≡ true → eqb_ℤ x p ≡ false → p <ℤ x
ltb-of_leb (pos a) (pos b) h k = ground arith
ltb-of_leb (negsuc a) (negsuc b) h k = ground arith
ltb-of_leb (pos a) (negsuc b) h k = ground arith
ltb-of_leb (negsuc a) (pos b) h k = ground arith

lt-of_leb : (p x : ℤ) → leb_ℤ p x ≡ false → x <ℤ p
lt-of_leb p x h = ground arith

Ascending-insert :
    (p : ℤ) (ps : List ℤ) → contains ps p ≡ false → Ascending ps → Ascending (insert p ps)
unfolding insert contains
Ascending-insert p [] h k = (tt, tt)
Ascending-insert p (x ∷ ps) h k =
    if-both Ascending (leb_ℤ p x) (p ∷ x ∷ ps) (x ∷ insert p ps)
      (λ le.
        let below = ltb-of_leb p x le (first (eqb_ℤ x p) (contains ps p) h) in
        ((below, AllAbove-trans p x ps below k.0), k))
      (λ gt. (
        AllAbove-insert x p ps (lt-of_leb p x gt) k.0,
        Ascending-insert p ps (second (eqb_ℤ x p) (contains ps p) h) k.1,
      ))
  where
    first : (a b : Bool) → (a || b) ≡ false → a ≡ false
    first true b h = h
    first false b h = refl

    second : (a b : Bool) → (a || b) ≡ false → b ≡ false
    second true b h = absurd (cc)
    second false b h = h

sort-Ascending : (ps : List ℤ) → Distinct ps → Ascending (sort ps)
unfolding sort
sort-Ascending [] d = tt
sort-Ascending (p ∷ ps) d =
    Ascending-insert p (sort ps) (contains-sort p ps ∙ d.0) (sort-Ascending ps d.1)

-- `uniqSorted` returns the ports in strictly ascending order, so none twice.
pub uniq_sorted-Ascending : (ps : List ℤ) → Ascending (uniq_sorted ps)
unfolding uniq_sorted
uniq_sorted-Ascending ps = sort-Ascending (uniq [] ps) (uniq-Distinct [] ps)

-- What `uniqSorted` returns is in strictly ascending order and has exactly the members of its
-- argument.
pub uniq_sorted_lem :
    (ps : List ℤ)
    → Ascending (uniq_sorted ps) × ((q : ℤ) → contains (uniq_sorted ps) q ≡ contains ps q)
uniq_sorted_lem ps = (uniq_sorted-Ascending ps, λ q. contains-uniq_sorted q ps)
