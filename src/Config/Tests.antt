-- ===== src/Config/Tests.antt =====
-- Runs of the models of internal/config.
use ssh_vpn.Common.{ℤ, pos, codes, bytes_eq, List, [], ◌∷◌, none, ◌≡◌, ◌↔◌, refl}
use ssh_vpn.Config.{Config, defaults}
use ssh_vpn.Config.Ports.{contains, uniq_sorted}
use ssh_vpn.Config.Ports.Laws.{Ascending, uniq_sorted_lem}
use ssh_vpn.Config.Normalize.{normalize}
use ssh_vpn.Config.Normalize.Idempotent.{normalize_twice}
use ssh_vpn.Config.Validate.{validate}
use ssh_vpn.Config.Validate.Accepts.{IsValid, validate_iff}

abbrev some_ports : List ℤ
some_ports = pos 443 ∷ pos 80 ∷ pos 443 ∷ []

uniq_sorted_lem_example :
    Ascending (uniq_sorted some_ports)
    × ((q : ℤ) → contains (uniq_sorted some_ports) q ≡ contains some_ports q)
uniq_sorted_lem_example = uniq_sorted_lem some_ports

sorted_ports : uniq_sorted some_ports ≡ pos 80 ∷ pos 443 ∷ []
unfolding uniq_sorted
sorted_ports = refl

-- A configuration file with a mode in capitals and no gateway limit.
abbrev partial_config : Config
partial_config = record defaults {
  udpgw = record (defaults.udpgw) { mode = codes " BadVPN " };
  gateway = record (defaults.gateway) { max_connections = pos 0; ports = some_ports };
}

normalize_twice_example : normalize (normalize partial_config) ≡ normalize partial_config
normalize_twice_example = normalize_twice partial_config

validate_iff_example :
    (validate (normalize partial_config) ≡ none) ↔ IsValid (normalize partial_config)
validate_iff_example = validate_iff (normalize partial_config)

partial_accepted : validate (normalize partial_config) ≡ none
unfolding validate normalize defaults bytes_eq
partial_accepted = refl
