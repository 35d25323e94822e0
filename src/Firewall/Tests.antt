-- ===== src/Firewall/Tests.antt =====
-- Runs of the model of internal/firewall.
use ssh_vpn.Common.{
  map, if◌then◌else◌, Bytes, codes, bytes_eq, List, [], ◌∷◌, some, ℤ, pos, true, ◌≡◌, refl,
}
use ssh_vpn.Common.Text.{atoi, split, itoa, decimal, join}
use ssh_vpn.Config.{defaults}
use ssh_vpn.Firewall.{words, local_ports, chunks, rules, allowed, group_id}
use ssh_vpn.Firewall.Chunks.{IsCut, chunks-IsCut}
use ssh_vpn.Firewall.Policy.{Packet, tcp, verdict, policy, verdict-rules}

abbrev two_ports : List ℤ
two_ports = pos 8080 ∷ pos 7300 ∷ []

chunks-IsCut_example : IsCut two_ports (chunks two_ports)
chunks-IsCut_example = chunks-IsCut two_ports

abbrev mail : Packet
mail = record { local = true; protocol = tcp; port = pos 3306 }

-- A reader that knows the ports of the configuration.
abbrev read_ports : Bytes → List ℤ
read_ports text =
    if bytes_eq text (codes "53")
    then pos 53 ∷ []
    else if bytes_eq text (codes "25")
    then pos 25 ∷ []
    else allowed defaults

verdict-rules_example : verdict read_ports (map words (rules defaults)) mail ≡ policy defaults mail
unfolding bytes_eq chunks join itoa decimal allowed defaults
verdict-rules_example = verdict-rules read_ports refl refl defaults mail (refl, tt)

port_words : words (local_ports two_ports) ≡ (
    codes "-o"
    ∷ codes "lo"
    ∷ codes "-p"
    ∷ codes "tcp"
    ∷ codes "-m"
    ∷ codes "multiport"
    ∷ codes "--dports"
    ∷ codes "8080,7300"
    ∷ codes "-j"
    ∷ codes "RETURN"
    ∷ [])
unfolding words join itoa decimal
port_words = refl

abbrev groups : Bytes
groups = codes "root:x:0:"

group_found : group_id groups (codes "root") ≡ some (pos 0)
unfolding group_id split bytes_eq atoi
group_found = refl
