-- ===== src/Gateway/Runs.antt =====
-- Runs of the models of the front door in internal/gateway.
use ssh_vpn.Common.{
  ℕ, Bytes, codes, true, false, List, [], ◌∷◌, ◌++◌, Option, none, some, pos, ◌≡◌, refl, arith,
}
use ssh_vpn.Common.Assoc.{lookup, insert}
use ssh_vpn.Gateway.Sniff.{Kind, ssh, classify}
use ssh_vpn.Gateway.Request.{
  Header, Request, Peeked, waiting, got, find, add_lines, read_header_exact,
}
use ssh_vpn.Gateway.Request.Reading.{has_end, Took, read_header_exact-Took}
use ssh_vpn.Gateway.Request.Names.{first_value, add_lines-first}
use ssh_vpn.Gateway.Peek.{Sniffed, classified, peek_classify}
use ssh_vpn.Gateway.Peek.Settled.{Peeks, peek_classify-Settled}
use ssh_vpn.Gateway.Front.{
  PeerEntry, Limits, Gateway, new_gateway, restore_peers, pending_startups, is_pending,
  with_defaults,
}
use ssh_vpn.Gateway.Front.Restart.{kept_or, if_alive, lookup-restore_peers}
use ssh_vpn.Gateway.Handle.{
  World, new_thread, advance, by_phase, converse, first_kind, follow, finish, check, launch,
}
use ssh_vpn.Gateway.Handle.Lifecycle.{steps, steps-slot}
use ssh_vpn.Gateway.Handle.Slots.{slot}
use ssh_vpn.Gateway.System.{
  Event, opens, accepts, handles, connection, run, new_system, happen, on_acceptor, accept_step,
  on_thread, open_port,
}
use ssh_vpn.Gateway.System.Gauges.{IsCounted, run-Counts}

abbrev halves : List Peeked
halves = waiting (codes "SS") false ∷ waiting (codes "SSH-2.0") true ∷ []

halves_seen : Peeks (codes "SSH-2.0-x") halves
unfolding Peeks
halves_seen = ((codes "H-2.0-x", refl), ((codes "-x", refl), tt))

peek_classify-Settled_example :
    (s : Sniffed) × (peek_classify halves ≡ some s)
    × ((k : Kind) → s ≡ classified k → (classify (codes "SSH-2.0-x")).0 ≡ k)
peek_classify-Settled_example =
    peek_classify-Settled (codes "SSH-2.0-x") halves (omega arith) halves_seen
      (unfold has_end in refl)

abbrev request : Bytes
request = codes "GET / HTTP/1.1" ++ (13 ∷ 10 ∷ []) ++ codes "Host: a" ++ (13 ∷ 10 ∷ 13 ∷ 10 ∷ [])

abbrev hello_peeks : List Peeked
hello_peeks = waiting (codes "GET /") false ∷ waiting (request ++ codes "SSH-2.0") true ∷ []

read_header_exact-Took_example :
    (h : Header) × (read_header_exact true hello_peeks ≡ some h)
    × ((r : Request) (n : ℕ) → h ≡ got r n → Took hello_peeks r n)
read_header_exact-Took_example = read_header_exact-Took hello_peeks (unfold has_end in refl)

abbrev header_lines : List Bytes
header_lines = codes "Host: a" ∷ codes "HOST: b" ∷ []

add_lines-first_example :
    find (codes "host") (add_lines header_lines []) ≡ first_value (codes "host") header_lines
add_lines-first_example = add_lines-first (codes "host") header_lines

abbrev entry : ℕ → PeerEntry
entry n = record {
  peer = record { ip = codes "10.0.0.1"; port = n; via = codes "tls" };
  started = n;
}

abbrev saved_peers : List (ℕ × PeerEntry)
saved_peers = (7, entry 1) ∷ (8, entry 2) ∷ []

lookup-restore_peers_example :
    lookup 8 (restore_peers (λ pid. true) saved_peers [])
    ≡ kept_or (lookup 8 []) (if_alive true (lookup 8 saved_peers))
lookup-restore_peers_example = lookup-restore_peers (λ pid. true) saved_peers [] 8

abbrev no_ip : Bytes → Option Bytes
no_ip b = none

-- A client that says SSH and gets process `pid`.
abbrev ssh_world : ℕ → World
ssh_world pid = record {
  remote = (codes "10.0.0.1", 4000);
  sniffed = classified ssh;
  request = none;
  written = true;
  secured = true;
  panics = false;
  opened = true;
  now = 0;
  user = λ p. (false, true);
  spawned = some pid;
  copied = false;
}

abbrev one : Limits
one = record {
  max_connections = pos 1;
  max_startups = pos 10;
  handshake_timeout = pos 0;
  login_grace = pos 0;
}

abbrev nine : List (World × Gateway)
nine =
    let w : World × Gateway = (ssh_world 5, new_gateway one) in
    w ∷ w ∷ w ∷ w ∷ w ∷ w ∷ w ∷ w ∷ w ∷ []

steps-slot_example : slot (steps no_ip nine new_thread) ≡ 0
steps-slot_example = steps-slot no_ip nine (omega arith)

-- A connection is accepted, in four steps of its `acceptLoop`.
abbrev accepted_one : List Event
accepted_one = let c = accepts 0 (connection true) in c ∷ c ∷ c ∷ c ∷ []

abbrev handled : ℕ → ℕ → List Event
handled i pid = let h = handles i (ssh_world pid) in h ∷ h ∷ h ∷ h ∷ h ∷ h ∷ []

-- With room for one connection, a second is accepted while the first has given its slot back and
-- is not yet counted as a child, and both are served.
abbrev two_at_once : List Event
two_at_once =
    (opens 22 ∷ [])
    ++ accepted_one
    ++ (handles 0 (ssh_world 5) ∷ handles 0 (ssh_world 5) ∷ [])
    ++ accepted_one
    ++ handled 0 5
    ++ handled 1 6

-- The gauge of sessions then exceeds the limit.
limit_passed : (run no_ip two_at_once (new_system one)).front.children ≡ pos 2
unfolding run happen on_acceptor accept_step on_thread advance by_phase converse first_kind follow
    finish check pending_startups is_pending launch new_system new_gateway with_defaults open_port
    insert
limit_passed = refl

run-Counts_example : IsCounted (run no_ip two_at_once (new_system one))
run-Counts_example = run-Counts no_ip one two_at_once
