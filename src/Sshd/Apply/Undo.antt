-- ===== src/Sshd/Apply/Undo.antt =====
-- What `Remove` makes of the main file that `Apply` has left.
use ssh_vpn.Common.{Bytes, ◌≡◌}
use ssh_vpn.Config.{SshConfig}
use ssh_vpn.Sshd.Render.{Version}
use ssh_vpn.Sshd.Apply.{Files, Host, Outcome, applied, rejected, main_failed, drop_failed, main_of}

module _ (h : Host) (orig : Files) (c : SshConfig) (group : Bytes) (v : Version) where
  -- After a level was applied, the main file is that of the level.
  MainOf : Outcome × Files → Type 0
  MainOf (applied n, f) = f.main ≡ main_of h orig c group v n
  MainOf (rejected, f) = Unit {0}
  MainOf (main_failed, f) = Unit {0}
  MainOf (drop_failed, f) = Unit {0}
