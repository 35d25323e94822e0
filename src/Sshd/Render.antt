-- ===== src/Sshd/Render.antt =====
-- `render` of internal/sshd/sshd.go: the settings that an `sshd` of some version is given.
use ssh_vpn.Common.{
  ℕ, Bytes, codes, ltb, ◌==◌, if◌then◌else◌, Bool, true, ◌&&◌, ◌||◌, List, [], ◌∷◌, ◌++◌, map, ℤ,
  pos, leb_ℤ, ltb_ℤ, eqb_ℤ,
}
use ssh_vpn.Common.Text.{itoa, trim_space}
use ssh_vpn.Config.{SshConfig}
use ssh_vpn.Config.Ports.{sort}

-- `Version`, without its text.
pub record Version : Type 0 where
  pub major : ℤ
  pub minor : ℤ

unfoldable pub at_least : ℤ → ℤ → Version → Bool
at_least major minor v =
    if eqb_ℤ (v.major) (pos 0)
    then true
    else ltb_ℤ major (v.major) || (eqb_ℤ (v.major) major && leb_ℤ minor (v.minor))

abbrev pub setting : Bytes → ℤ → Bytes
setting name n = name ++ itoa n

-- The lines that `render` writes for the whole server, by the level: 0 is full, 1 compatible, 2
-- minimal.
unfoldable pub tuning_lines : SshConfig → Version → ℕ → List Bytes
unfolding at_least
tuning_lines c v level =
    (codes "# Faster logins: no reverse-DNS lookup of every client"
      ∷ codes "UseDNS no"
      ∷ codes "# Detect dead phones fast so stale sessions don't eat connection slots"
      ∷ codes "TCPKeepAlive yes"
      ∷ setting (codes "ClientAliveInterval ") (c.client_alive_interval)
      ∷ setting (codes "ClientAliveCountMax ") (c.client_alive_count_max)
      ∷ setting (codes "LoginGraceTime ") (c.login_grace_time)
      ∷ codes "# Many users reconnecting at once must not be refused (default 10:30:100)"
      ∷ (codes "MaxStartups " ++ c.max_startups)
      ∷ setting (codes "MaxAuthTries ") (c.max_auth_tries)
      ∷ [])
    ++ (if c.compression
        then []
        else codes "# HTTPS/video/calls are already compressed: zlib only adds CPU and latency"
          ∷ codes "Compression no"
          ∷ [])
    ++ (if level == 0 && at_least (pos 9) (pos 8) v
        then codes
            "# Mobile users share carrier-NAT IPs; one typo must not lock out a whole operator"
          ∷ codes "PerSourcePenalties authfail:1s noauth:1s grace-exceeded:5s min:60s max:5m"
          ∷ []
        else [])

unfoldable pub global_lines : SshConfig → Version → ℕ → List Bytes
unfolding tuning_lines sort
global_lines c v level =
    map (setting (codes "Port ")) (sort (c.ports))
    ++ (if c.password_auth then codes "PasswordAuthentication yes" ∷ [] else [])
    ++ (if c.tuning && ltb level 2 then tuning_lines c v level else [])

abbrev pub banner_lines : Bytes → List Bytes
banner_lines [] = []
banner_lines (b ∷ text) = codes "    Banner /etc/sshfortress/banner.txt" ∷ []

-- The lines of the Match block for the group of the VPN users.
unfoldable pub match_lines : SshConfig → Bytes → Version → ℕ → List Bytes
unfolding at_least
match_lines c group v level =
    ((codes "Match Group " ++ group)
      ∷ codes "    PasswordAuthentication yes"
      ∷ (codes "    AllowTcpForwarding " ++ (if ltb level 2 then codes "local" else codes "yes"))
      ∷ codes "    X11Forwarding no"
      ∷ codes "    AllowAgentForwarding no"
      ∷ codes "    PermitTunnel no"
      ∷ codes "    GatewayPorts no"
      ∷ [])
    ++ (if level == 0
        then codes "    KbdInteractiveAuthentication yes"
          ∷ codes "    AuthenticationMethods any"
          ∷ codes "    AllowStreamLocalForwarding no"
          ∷ (if at_least (pos 7) (pos 8) v then codes "    PermitListen none" ∷ [] else [])
        else [])
    ++ banner_lines (trim_space (c.banner))
