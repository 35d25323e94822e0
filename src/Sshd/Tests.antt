-- ===== src/Sshd/Tests.antt =====
-- Runs of the models of internal/sshd.
use ssh_vpn.Common.{
  Bytes, codes, has_prefix, ◌==◌, All, true, false, List, [], ◌∷◌, none, some, pos, ◌≡◌, refl,
}
use ssh_vpn.Common.Text.{index, trim_prefix}
use ssh_vpn.Common.Text.Lines.{unlines, one_line}
use ssh_vpn.Config.{defaults}
use ssh_vpn.Sshd.{skip, port_value, is_port_line, comment_line, installed, restored}
use ssh_vpn.Sshd.Strip.{NoMark}
use ssh_vpn.Sshd.Inline.{IsPlain}
use ssh_vpn.Sshd.Ports.{Ordinary, restored-installed}
use ssh_vpn.Sshd.Render.{Version}
use ssh_vpn.Sshd.Apply.{Files, Host, drop_failed, apply, levels, can_drop, written}
use ssh_vpn.Sshd.Apply.Rollback.{Leaves, apply-Leaves}

abbrev file_lines : List Bytes
file_lines = codes "Port 22" ∷ codes "UsePAM yes" ∷ []

file_lines-Ordinary : All Ordinary file_lines
unfolding Ordinary one_line IsPlain NoMark index has_prefix comment_line is_port_line skip
    port_value trim_prefix
file_lines-Ordinary = (
  (refl, ((refl, refl), (refl, refl)), ((refl, refl), (refl, refl)), refl),
  ((refl, ((refl, refl), (refl, refl)), ((refl, refl), (refl, refl)), refl), tt),
)

abbrev new_global : List Bytes
new_global = codes "Port 2222" ∷ []

new_global-IsPlain : All IsPlain new_global
unfolding IsPlain NoMark index has_prefix
new_global-IsPlain = (((refl, refl), (refl, refl)), tt)

abbrev new_match : List Bytes
new_match = codes "Match Group vpn" ∷ []

new_match-IsPlain : All IsPlain new_match
unfolding IsPlain NoMark index has_prefix
new_match-IsPlain = (((refl, refl), (refl, refl)), tt)

inline_undone : restored (installed (unlines file_lines) new_global new_match) ≡ unlines file_lines
inline_undone =
    restored-installed file_lines new_global new_match file_lines-Ordinary new_global-IsPlain
      new_match-IsPlain

abbrev files : Files
files = record { main = unlines file_lines; drop_in = none }

-- A system whose sshd takes no drop-in file, and that can write one only once.
abbrev picky : Host
picky = record {
  has_include = true;
  makes_dir = λ level. true;
  writes_drop = λ level. level == 0;
  writes_main = λ level. true;
  accepts = λ f. elim (f.drop_in) [ none ↦ true | some b ↦ false ];
  broken_main = none;
  broken_drop = some (λ old. old);
}

abbrev new_version : Version
new_version = record { major = pos 9; minor = pos 9 }

apply-Leaves_example :
    Leaves picky files (apply picky files (defaults.ssh) (codes "vpn") new_version)
apply-Leaves_example = apply-Leaves picky files (defaults.ssh) (codes "vpn") new_version

-- The drop-in file of level 0, which sshd rejects, stays where that of level 1 cannot be written.
half_applied : (apply picky files (defaults.ssh) (codes "vpn") new_version).0 ≡ drop_failed
unfolding apply levels can_drop written
half_applied = refl

left_rejected :
    picky.accepts ((apply picky files (defaults.ssh) (codes "vpn") new_version).1) ≡ false
unfolding apply levels can_drop written
left_rejected = refl

abbrev easy : Host
easy = record picky { writes_drop = λ level. true; accepts = λ f. true }

abbrev easy_files : Files
easy_files = (apply easy files (defaults.ssh) (codes "vpn") new_version).1
