-- ===== src/Config/Validate.antt =====
-- `Config.Validate` of internal/config/config.go: which mistake it reports, if any.
pub mod Accepts
use ssh_vpn.Common.{
  ℕ, suc, ◌==◌, ℤ, pos, Bytes, codes, bytes_eq, Bool, true, false, not, ◌||◌, ◌&&◌, List, [], ◌∷◌,
  Option, none, some, eqb_ℤ, ltb_ℤ, if◌then◌else◌, ◌⊎◌, inl, inr,
}
use ssh_vpn.Config.{Config, SshConfig, UdpgwConfig, GatewayConfig, LimiterConfig}

-- The name of a list of ports in a message.
pub data Section : Type 0 where
  ssh_ports : Section
  udpgw_ports : Section
  gateway_ports : Section

pub data ConfigError : Type 0 where
  out_of_range : Section → ℤ → ConfigError
  bad_mode : Bytes → ConfigError
  bad_policy : Bytes → ConfigError
  bad_max_startups : Bytes → ConfigError
  used_twice : ℤ → Section → Section → ConfigError

-- The closure `check`.
unfoldable pub check : Section → List ℤ → Option ConfigError
check section [] = none
check section (p ∷ ps) =
    let rest = check section ps in
    if ltb_ℤ p (pos 1) || ltb_ℤ (pos 65535) p then some (out_of_range section p) else rest

-- The map `owner`.
abbrev pub Owners : Type 0
Owners = List (ℤ × Section)

unfoldable pub owner_of : ℤ → Owners → Option Section
owner_of p [] = none
owner_of p ((q, section) ∷ owner) = if eqb_ℤ q p then some section else owner_of p owner

-- The closure `claim`, which stops at the first port that has an owner.
unfoldable pub claim : Section → List ℤ → Owners → ConfigError ⊎ Owners
unfolding owner_of
claim section [] owner = inr owner
claim section (p ∷ ps) owner = elim (owner_of p owner) [
  | some prev ↦ inl (used_twice p prev section)
  | none ↦ claim section ps ((p, section) ∷ owner)
]

-- `if err := a; err != nil { return err }`, then the rest.
infix 20 ◌orelse◌
unfoldable pub ◌orelse◌ : Option ConfigError → Option ConfigError → Option ConfigError
some e orelse rest = some e
none orelse rest = rest

unfoldable pub claim_if : Bool → Section → List ℤ → Owners → ConfigError ⊎ Owners
claim_if true section ps owner = claim section ps owner
claim_if false section ps owner = inr owner

-- `if err := claim(…); err != nil { return err }`, then the rest with the owners so far.
unfoldable pub and_then : ConfigError ⊎ Owners → (Owners → Option ConfigError) → Option ConfigError
and_then (inl e) rest = some e
and_then (inr owner) rest = rest owner

-- The claims, in the order of the source.
unfoldable pub claims : Config → Option ConfigError
unfolding claim claim_if and_then
claims c = and_then (claim ssh_ports (c.ssh.ports) []) (λ owner.
    and_then (claim_if (c.gateway.enabled) gateway_ports (c.gateway.ports) owner) (λ both.
      and_then (claim_if (c.udpgw.enabled) udpgw_ports (c.udpgw.ports) both) (λ all. none)))

-- `strings.Count(s, ":")`
unfoldable pub count_colons : Bytes → ℕ
count_colons [] = 0
count_colons (b ∷ bs) = let rest = count_colons bs in if b == 58 then suc rest else rest

unfoldable pub mode_error : Bytes → Option ConfigError
mode_error mode =
    if not (bytes_eq mode (codes "builtin")) && not (bytes_eq mode (codes "badvpn"))
    then some (bad_mode mode)
    else none

unfoldable pub policy_error : Bytes → Option ConfigError
policy_error policy =
    if not (bytes_eq policy (codes "oldest")) && not (bytes_eq policy (codes "newest"))
    then some (bad_policy policy)
    else none

unfoldable pub startups_error : Bytes → Option ConfigError
unfolding count_colons
startups_error s =
    if not (count_colons s == 2) && not (count_colons s == 0)
    then some (bad_max_startups s)
    else none

-- `none` is the nil error.
unfoldable pub validate : Config → Option ConfigError
unfolding check claims mode_error policy_error startups_error ◌orelse◌
validate c = check ssh_ports (c.ssh.ports) orelse (
    check udpgw_ports (c.udpgw.ports) orelse (
      check gateway_ports (c.gateway.ports) orelse (
        mode_error (c.udpgw.mode) orelse (
          policy_error (c.limiter.policy)
          orelse (startups_error (c.ssh.max_startups) orelse claims c)))))
