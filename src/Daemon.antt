-- ===== src/Daemon.antt =====
-- internal/daemon/daemon.go: the log of events, the warnings, and the start and the watchdog of the
-- UDP gateway. What the network and systemd answer is a parameter.
pub mod Recent
use ssh_vpn.Common.{
  ℕ, ◌+◌, ◌-◌, ◌*◌, ◌^◌, Bytes, codes, bytes_eq, ltb, if◌then◌else◌, length, drop, Bool, true,
  false, not, List, [], ◌∷◌, ◌++◌, map, Option, none, some, ℤ, pos,
}
use ssh_vpn.Config.{UdpgwConfig}

pub record Event : Type 0 where
  pub time : ℕ
  pub text : Bytes

-- `state.UDPGW`; the failed addresses are those in the map.
pub record UdpState : Type 0 where
  pub mode : Bytes
  pub ports : List ℤ
  pub healthy : Bool
  pub failed : List Bytes

-- What `Daemon` keeps of its events, warnings and UDP gateway; `serving` says whether it has a
-- server of its own.
pub record Daemon : Type 0 where
  pub events : List Event
  pub warnings : List Bytes
  pub udp_state : UdpState
  pub serving : Bool

abbrev pub max_events : ℕ
max_events = 50

abbrev pub newest : List Event → List Event
newest es = if ltb max_events (length es) then drop (length es - max_events) es else es

-- `event`
unfoldable pub event : Event → Daemon → Daemon
event e d = record d { events = newest (d.events ++ (e ∷ [])) }

-- `warn`
unfoldable pub warn : Bytes → Daemon → Daemon
warn text d = record d { warnings = d.warnings ++ (text ∷ []) }

unfoldable pub warn_all : List Bytes → Daemon → Daemon
unfolding warn
warn_all [] d = d
warn_all (t ∷ ts) d = warn_all ts (warn t d)

-- What the system answers: the error of `badvpn.Apply`, the addresses that cannot be bound with
-- their errors, and whether the gateway answers.
pub record Answers : Type 0 where
  pub badvpn_error : Option Bytes
  pub unbound : List (Bytes × Bytes)
  pub alive : Bool

abbrev pub fresh_state : UdpgwConfig → UdpState
fresh_state c = record { mode = c.mode; ports = c.ports; healthy = false; failed = [] }

abbrev pub badvpn_started : Option Bytes → Daemon → Daemon
badvpn_started none d = d
badvpn_started (some e) d = warn (codes "badvpn-udpgw: " ++ e) d

abbrev pub listen_failed : Bytes × Bytes → Bytes
listen_failed (addr, e) = codes "udpgw " ++ (addr ++ (codes ": " ++ e))

-- `startUDPGW`
unfoldable pub start_udpgw : UdpgwConfig → Answers → Daemon → Daemon
unfolding warn_all warn
start_udpgw c a d =
    let fresh = fresh_state c in
    if not c.enabled
    then record d { udp_state = record fresh { mode = codes "off" } }
    else if bytes_eq (c.mode) (codes "badvpn")
    then badvpn_started (a.badvpn_error) (record d { udp_state = fresh })
    else warn_all (map listen_failed (a.unbound)) (record d {
      udp_state = record fresh { failed = map (λ f. f.0) (a.unbound) };
      serving = true;
    })

abbrev pub set_healthy : Bool → Daemon → Daemon
set_healthy b d = record d { udp_state = record (d.udp_state) { healthy = b } }

abbrev pub note_down : ℕ → Bool → Daemon → Daemon
note_down now was d =
    if was
    then event
        (record {
          time = now;
          text =
              codes "UDP gateway stopped answering "
              ++ ((0xE2 ∷ 0x80 ∷ 0x94 ∷ []) ++ codes " restarting it");
        })
        d
    else d

-- `watchdog`: whether the gateway answered at first, and what the restart meets.
unfoldable pub watchdog : UdpgwConfig → ℕ → Bool → Answers → Daemon → Daemon
unfolding start_udpgw event
watchdog c now healthy a d =
    let marked = set_healthy healthy d in
    let noted = note_down now (d.udp_state.healthy) marked in
    if not c.enabled
    then d
    else if healthy
    then marked
    else if bytes_eq (c.mode) (codes "badvpn")
    then noted
    else set_healthy (a.alive) (start_udpgw c a noted)

-- `Fresh` of internal/state/state.go, by the seconds of the interval and times in nanoseconds.
unfoldable pub is_fresh : ℕ → ℕ → ℕ → Bool
is_fresh interval updated now =
    let iv = if ltb 0 interval then interval else 5 in ltb (now - updated) ((iv * 3 + 5) * 10 ^ 9)
