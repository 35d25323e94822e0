-- ===== src/Sshd/Apply/Rollback.antt =====
-- `Apply` leaves a configuration that sshd accepts, or the one that was there.
use ssh_vpn.Common.{
  ℕ, zero, suc, Bytes, true, false, not, Option, none, ◌≡◌, ap, ◌⊎◌, refl, inl, inr, if-both,
}
use ssh_vpn.Config.{SshConfig}
use ssh_vpn.Sshd.Render.{Version}
use ssh_vpn.Sshd.Apply.{
  Files, Host, Outcome, applied, rejected, main_failed, drop_failed, rewritten, rollback, written,
  dropped, can_drop, levels, apply,
}

-- A file is as it was, if the rollback can write it.
unfoldable pub Restored : Host → Files → Files → Type 0
Restored h orig f =
    (h.broken_main ≡ none → f.main ≡ orig.main) × (h.broken_drop ≡ none → f.drop_in ≡ orig.drop_in)

-- The files that the loop may leave with an outcome.
unfoldable pub Leaves : Host → Files → Outcome × Files → Type 0
unfolding Restored
Leaves h orig (applied n, f) = h.accepts f ≡ true
Leaves h orig (rejected, f) = Restored h orig f
Leaves h orig (main_failed, f) = Restored h orig f
Leaves h orig (drop_failed, f) = (f ≡ orig) ⊎ (h.accepts f ≡ false)

-- Without drop-in files, that file is not touched.
unfoldable KeepsDrop : Host → Files → Files → Type 0
KeepsDrop h orig f = h.has_include ≡ false → f.drop_in ≡ orig.drop_in

rewritten-new :
    {A : Type 0} (broken : Option (A → A)) (new old : A)
    → broken ≡ none
    → rewritten broken new old ≡ new
rewritten-new broken new old e = ap (λ b. rewritten b new old) e

rollback-Restored :
    (h : Host) (orig f : Files) → KeepsDrop h orig f → Restored h orig (rollback h orig f)
unfolding rollback KeepsDrop Restored
rollback-Restored h orig f k = (
  rewritten-new h.broken_main orig.main f.main,
  λ e.
      if-both (λ (d : Option Bytes). d ≡ orig.drop_in) (h.has_include)
        (rewritten h.broken_drop orig.drop_in f.drop_in) (f.drop_in)
        (λ _. rewritten-new h.broken_drop orig.drop_in f.drop_in e) k,
)

module _ (h : Host) (orig : Files) (c : SshConfig) (group : Bytes) (v : Version) where
  written-KeepsDrop :
      (level : ℕ) (f : Files)
      → KeepsDrop h orig f
      → KeepsDrop h orig (written h orig c group v level f)
  unfolding written KeepsDrop
  written-KeepsDrop level f k plain = rw plain (k plain)

  dropped-KeepsDrop :
      (level : ℕ) (f : Files)
      → KeepsDrop h orig f
      → KeepsDrop h orig (dropped h orig c group v level f)
  unfolding dropped KeepsDrop
  dropped-KeepsDrop level f k plain = rw plain (k plain)

  levels-Leaves :
      (left level : ℕ) (f : Files)
      → KeepsDrop h orig f
      → (f ≡ orig) ⊎ (h.accepts f ≡ false)
      → Leaves h orig (levels h orig c group v left level f)
  unfolding levels Leaves
  levels-Leaves zero level f k before = rollback-Restored h orig f k
  levels-Leaves (suc left) level f k before =
      if-both (Leaves h orig) (not (can_drop h orig c group v level)) _ _ (λ _. before)
        (λ _.
          if-both (Leaves h orig) (not (h.writes_main level)) _ _
            (λ _. rollback-Restored h orig _ (dropped-KeepsDrop level f k))
            (λ _.
              if-both (Leaves h orig) (h.accepts (written h orig c group v level f)) _ _
                (λ good. good)
                (λ bad.
                  levels-Leaves left (suc level) (written h orig c group v level f)
                    (written-KeepsDrop level f k) (inr bad))))

  -- When `Apply` reports a level, sshd accepts the files as they are then; when it reports that
  -- sshd rejected every level, or that the main file cannot be written, each of the two files is as
  -- it was, if the rollback could write it; when it reports that the drop-in file cannot be written,
  -- both are as they were or sshd rejects them.
  pub apply-Leaves : Leaves h orig (apply h orig c group v)
  unfolding apply KeepsDrop
  apply-Leaves = levels-Leaves 3 0 orig (λ _. refl) (inl refl)
