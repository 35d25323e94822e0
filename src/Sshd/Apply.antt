-- ===== src/Sshd/Apply.antt =====
-- The loop of `Apply` of internal/sshd/sshd.go over the levels, on the two files that it writes.
-- Whether a write succeeds and what `sshd -t` says are parameters. A write of the loop that fails
-- leaves its file, as `WriteFileAtomic` replaces a file as a whole; one of the rollback, which is
-- `os.WriteFile` or `os.Remove` with its error ignored, may leave anything.
pub mod Rollback
pub mod Undo
use ssh_vpn.Common.{
  ℕ, zero, suc, ◌+◌, Bytes, codes, has_prefix, ltb, leb, ◌==◌, if◌then◌else◌, length, take, drop,
  get_elem?, Bool, true, false, not, ◌&&◌, ◌||◌, List, [], ◌∷◌, ◌++◌, map, Option, none, some, ℤ,
  pos, leb_ℤ, ltb_ℤ, eqb_ℤ,
}
use ssh_vpn.Common.Text.{itoa, index, split, join, trim_space, trim_prefix}
use ssh_vpn.Common.Text.Lines.{unlines}
use ssh_vpn.Config.{SshConfig}
use ssh_vpn.Config.Ports.{sort}
use ssh_vpn.Sshd.{header, strip_blocks, comment_ports, installed}
use ssh_vpn.Sshd.Render.{Version, global_lines, match_lines}

-- The main file, and the drop-in file, with `none` where there is none.
pub record Files : Type 0 where
  pub main : Bytes
  pub drop_in : Option Bytes

-- What the system does: whether the directory of drop-in files is read, whether a directory or a
-- file can be written in the round of a level, and what sshd accepts. `broken_main` and
-- `broken_drop` are `none` where the rollback can write the file, and else what the attempt makes of
-- what stands there.
pub record Host : Type 0 where
  pub has_include : Bool
  pub makes_dir : ℕ → Bool
  pub writes_drop : ℕ → Bool
  pub writes_main : ℕ → Bool
  pub accepts : Files → Bool
  pub broken_main : Option (Bytes → Bytes)
  pub broken_drop : Option (Option Bytes → Option Bytes)

pub data Outcome : Type 0 where
  applied : ℕ → Outcome
  rejected main_failed drop_failed : Outcome

unfoldable pub drop_text : List Bytes → List Bytes → Bytes
drop_text global match_block = join 10 (header ++ (global ++ ([] ∷ match_block))) ++ (10 ∷ [])

abbrev pub rewritten : {A : Type 0} → Option (A → A) → A → A → A
rewritten none new old = new
rewritten (some broken) new old = broken old

-- `rollback`
unfoldable pub rollback : Host → Files → Files → Files
rollback h orig f = record {
  main = rewritten h.broken_main orig.main f.main;
  drop_in = if h.has_include then rewritten h.broken_drop orig.drop_in f.drop_in else f.drop_in;
}

module _ (h : Host) (orig : Files) (c : SshConfig) (group : Bytes) (v : Version) where
  -- The drop-in file of a level, and the main file of a level.
  unfoldable pub drop_of : ℕ → Bytes
  unfolding drop_text global_lines match_lines
  drop_of level = drop_text (global_lines c v level) (match_lines c group v level)

  unfoldable pub main_of : ℕ → Bytes
  unfolding installed comment_ports strip_blocks global_lines match_lines
  main_of level =
      if h.has_include
      then comment_ports (strip_blocks (orig.main))
      else installed (orig.main) (global_lines c v level) (match_lines c group v level)

  -- The files after the writes of a round that go well.
  unfoldable pub written : ℕ → Files → Files
  unfolding drop_of main_of
  written level f = record {
    main = main_of level;
    drop_in = if h.has_include then some (drop_of level) else f.drop_in;
  }

  -- The files after the first write of a round.
  unfoldable pub dropped : ℕ → Files → Files
  unfolding drop_of
  dropped level f = if h.has_include then record f { drop_in = some (drop_of level) } else f

  unfoldable pub can_drop : ℕ → Bool
  can_drop level = not h.has_include || (h.makes_dir level && h.writes_drop level)

  -- The loop from a level on, with as many levels as are left.
  unfoldable pub levels : ℕ → ℕ → Files → Outcome × Files
  unfolding written dropped can_drop rollback
  levels zero level f = (rejected, rollback h orig f)
  levels (suc left) level f =
      let next = levels left (suc level) (written level f) in
      if not (can_drop level)
      then (drop_failed, f)
      else if not (h.writes_main level)
      then (main_failed, rollback h orig (dropped level f))
      else if h.accepts (written level f)
      then (applied level, written level f)
      else next

  -- `for level := 0; level <= 2; level++`
  unfoldable pub apply : Outcome × Files
  unfolding levels
  apply = levels 3 0 orig
