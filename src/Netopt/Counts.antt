-- ===== src/Netopt/Counts.antt =====
-- The counts that `Apply` reports.
use ssh_vpn.Common.{
  ℕ, ◌+◌, Bytes, bytes_eq, length, length-append, List, [], ◌∷◌, Option, none, some, ◌≡◌, refl, ap,
  suc, subst, arith, if-both,
}
use ssh_vpn.Netopt.{
  Param, Kernel, Result, seen, after_write, with_current, set_all, new_result, apply, choose_cc,
  read, norm,
}

-- Every setting that was read is applied or warned of, and every one was read or skipped.
unfoldable pub Adds : ℕ → Result → Type 0
Adds n r = (r.applied + length (r.warnings) ≡ r.total) × (r.total + length (r.skipped) ≡ n)

module _ {S : Type 0} (k : Kernel S) where
  after_write-Adds :
      (p : Param) (n : ℕ) (r : Result) (o : Option S × S)
      → Adds n r
      → Adds (n + 1) (after_write k p (seen k p r) o).0
  unfolding Adds
  after_write-Adds p n r (none, s) h =
      (omega (arith, h.0, length-append (r.warnings) (p.key ∷ [])), omega (arith, h.1))
  after_write-Adds p n r (some t, s) h = (omega (arith, h.0), omega (arith, h.1))

  with_current-Adds :
      (p : Param) (n : ℕ) (r : Result) (s : S) (o : Option Bytes)
      → Adds n r
      → Adds (n + 1) (with_current k p r s o).0
  unfolding Adds
  with_current-Adds p n r s none h =
      (omega (arith, h.0), omega (arith, h.1, length-append (r.skipped) (p.key ∷ [])))
  with_current-Adds p n r s (some cur) h =
      if-both (λ (x : Result × S). Adds (n + 1) x.0) (bytes_eq (norm cur) (norm (p.value))) _ _
        (λ _. (omega (arith, h.0), omega (arith, h.1))) (λ _. after_write-Adds p n r _ h)

  set_all-Adds :
      (ps : List Param) (n : ℕ) (r : Result) (s : S)
      → Adds n r
      → Adds (n + length ps) (set_all k ps r s).0
  unfolding set_all
  set_all-Adds [] n r s h = subst (λ m. Adds m r) (omega arith) h
  set_all-Adds (p ∷ ps) n r s h =
      let next = with_current k p r s (read k s (p.key)) in
      subst (λ m. Adds m (set_all k ps next.0 next.1).0) (omega arith)
        (set_all-Adds ps (n + 1) next.0 next.1 (with_current-Adds p n r s (read k s (p.key)) h))

  length-choose_cc : (ps : List Param) (s : S) → length ((choose_cc k s ps).0) ≡ length ps
  unfolding choose_cc
  length-choose_cc [] s = refl
  length-choose_cc (p ∷ ps) s = ap suc (length-choose_cc ps _)

  -- `Apply` reports every setting of the profile: those read are the total, each of which is applied
  -- or warned of, and the others are skipped.
  pub apply-Adds : (ps : List Param) (s : S) → Adds (length ps) (apply k ps s).0
  unfolding apply
  apply-Adds ps s =
      let chosen = choose_cc k s ps in
      subst (λ m. Adds m (set_all k chosen.0 (new_result k) chosen.1).0)
        (omega (arith, length-choose_cc ps s))
        (set_all-Adds chosen.0 0 (new_result k) chosen.1 (unfold Adds in (refl, refl)))
