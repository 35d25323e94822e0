-- ===== src/Gateway/Handle.antt =====
-- internal/gateway/gateway.go: the goroutine `handle` of one connection, with `handlePlainHTTP`,
-- `handleTLS`, `handoff`, `pump` and `spawn`, as a machine. One step goes up to the next operation
-- on the state that goroutines share, so steps of several handlers interleave. What the network and
-- the kernel answer to a step stands in a `World`. The address parser of package net is a parameter.
pub mod Slots
pub mod Rounds
pub mod Lifecycle
use ssh_vpn.Common.{
  ℕ, zero, suc, ◌+◌, Bytes, codes, ltb, if◌then◌else◌, Bool, true, false, List, [], ◌∷◌, Option,
  none, some, ℤ, pos, pos_part, ltb_ℤ,
}
use ssh_vpn.Common.Assoc.{insert}
use ssh_vpn.Udpgw.Flow.{u64}
use ssh_vpn.Gateway.Sniff.{Kind, unknown, ssh, http, tls, ws_frame}
use ssh_vpn.Gateway.Request.{Request, client_ip, is_websocket}
use ssh_vpn.Gateway.Peek.{Sniffed, classified, silent, lost}
use ssh_vpn.Gateway.Front.{
  Peer, PeerEntry, Limits, Gateway, pred_ℤ, suc_ℤ, pending_startups, count_via,
}

pub record World : Type 0 where
  pub remote : Bytes × ℕ  -- the printed address and port of the client
  pub sniffed : Sniffed  -- what the peeking answers
  pub request : Option Request  -- the header that is read, if one is
  pub written : Bool  -- whether the response is written
  pub secured : Bool  -- whether the TLS handshake succeeds
  pub panics : Bool  -- whether the code on the client's data panics
  pub opened : Bool  -- whether the descriptors for sshd are there
  pub now : ℕ
  pub user : ℕ → Bool × Bool  -- `hasUserChild`
  pub spawned : Option ℕ  -- the process that the backend starts, if it does
  pub copied : Bool  -- whether both directions of a copy have ended

-- `handoff` passes the socket itself, `pump` a pair of sockets.
pub data Route : Type 0 where
  raw pumped : Route

-- Where the handler reads from the client: before the first peek, before a round of
-- `handlePlainHTTP`, before the TLS handshake, before a round of `handleTLS`.
pub data Talk : Type 0 where
  arrived : Talk
  plain : ℕ → Peer → Talk
  greeting : Talk
  secure : ℕ → Peer → Talk

-- How such a stretch ends. `give_up` says whether the connection is counted as unknown.
pub data Outcome : Type 0 where
  talk_on : Talk → Outcome
  serve : Route → Peer → Outcome
  give_up : Bool → Outcome

abbrev pub rounds : ℕ
rounds = 4

-- `peerOf`
abbrev pub peer_of : World → Bytes → Peer
peer_of w via = record { ip = w.remote.0; port = w.remote.1; via = via }

abbrev pub with_via : Bytes → Peer → Peer
with_via v p = record { ip = p.ip; port = p.port; via = v }

abbrev pub with_ip : Bytes → Peer → Peer
with_ip [] p = p
with_ip (b ∷ ip) p = record { ip = b ∷ ip; port = 0; via = p.via }

-- The `switch` of `handle`: silence means SSH.
unfoldable pub first_kind : World → Sniffed → Outcome
first_kind w lost = give_up false
first_kind w silent = serve raw (peer_of w (codes "ssh"))
first_kind w (classified ssh) = serve raw (peer_of w (codes "ssh"))
first_kind w (classified http) = talk_on (plain 0 (peer_of w (codes "http")))
first_kind w (classified tls) = talk_on greeting
first_kind w (classified ws_frame) = give_up true
first_kind w (classified unknown) = give_up true

-- What `handlePlainHTTP` does with the answer to its peek.
unfoldable pub plain_kind : ℕ → Peer → Sniffed → Outcome
plain_kind round p lost = give_up false
plain_kind round p silent = serve raw p
plain_kind round p (classified ssh) = serve raw p
plain_kind round p (classified http) = talk_on (plain (suc round) p)
plain_kind round p (classified ws_frame) = serve pumped (with_via (codes "ws") p)
plain_kind round p (classified tls) = serve raw p
plain_kind round p (classified unknown) = serve raw p

module _ (parse_ip : Bytes → Option Bytes) where
  -- The peer as the headers of a request say.
  abbrev pub seen_as : Bytes → Request → Peer → Peer
  seen_as web r p =
      let known = with_ip (client_ip parse_ip r) p in
      if is_websocket r then with_via web known else known

  -- One round of `handlePlainHTTP`.
  unfoldable pub plain_round : World → ℕ → Peer → Option Request → Outcome
  unfolding plain_kind
  plain_round w round p none = give_up false
  plain_round w round p (some r) =
      if w.written then plain_kind round (seen_as (codes "ws") r p) (w.sniffed) else give_up false

  -- The HTTP case of `handleTLS`.
  unfoldable pub secure_request : World → ℕ → Peer → Option Request → Outcome
  secure_request w round p none = give_up false
  secure_request w round p (some r) =
      if w.written
      then talk_on (secure (suc round) (seen_as (codes "tls+ws") r (with_via (codes "tls+http") p)))
      else give_up false

  -- The `switch` of `handleTLS`.
  unfoldable pub secure_kind : World → ℕ → Peer → Sniffed → Outcome
  unfolding secure_request
  secure_kind w round p lost = give_up false
  secure_kind w round p silent = serve pumped p
  secure_kind w round p (classified ssh) = serve pumped p
  secure_kind w round p (classified http) = secure_request w round p (w.request)
  secure_kind w round p (classified ws_frame) = serve pumped (with_via (codes "tls+ws") p)
  secure_kind w round p (classified tls) = give_up true
  secure_kind w round p (classified unknown) = give_up true

  -- One stretch, with the tests of the two loops.
  unfoldable pub converse : World → Talk → Outcome
  unfolding first_kind plain_round secure_kind
  converse w arrived = first_kind w (w.sniffed)
  converse w (plain round p) =
      if ltb round rounds then plain_round w round p (w.request) else give_up false
  converse w greeting =
      if w.secured then talk_on (secure 0 (peer_of w (codes "tls"))) else give_up false
  converse w (secure round p) =
      if ltb round rounds then secure_kind w round p (w.sniffed) else give_up false

-- What the handler does next. From `releasing` on: `finish`, the descriptors, `pendingStartups`,
-- `Spawn`, `children.Add`, `peers.Store`, the count per protocol, `go` of the waiter, and the
-- copying of `pump`; `leaving` is the deferred function.
pub data Phase : Type 0 where
  talking : Talk → Phase
  releasing preparing checking launching : Route → Peer → Phase
  launched storing tallying : Route → Peer → ℕ → Phase
  forking : Route → ℕ → Phase
  pumping leaving ended : Phase

-- The variables of `handle`, and whether the socket was closed.
pub record Thread : Type 0 where
  pub phase : Phase
  pub done_handshake : Bool
  pub owned : Bool
  pub socket_closed : Bool

abbrev pub new_thread : Thread
new_thread = record {
  phase = talking arrived;
  done_handshake = false;
  owned = false;
  socket_closed = false;
}

-- What a step leaves, and the process that a new goroutine waits for, if it starts one.
pub record Turn : Type 0 where
  pub thread : Thread
  pub gateway : Gateway
  pub forked : Option ℕ

abbrev pub moved : Phase → Thread → Gateway → Turn
moved p t g = record { thread = record t { phase = p }; gateway = g; forked = none }

-- `finishHandshake`
unfoldable pub finish : Phase → Thread → Gateway → Turn
finish p t g =
    if t.done_handshake
    then moved p t g
    else moved p (record t { done_handshake = true })
        (record g { handshaking = pred_ℤ (g.handshaking) })

abbrev pub count_unknown : Bool → Gateway → Gateway
count_unknown true g = record g { unknown = u64 (g.unknown + 1) }
count_unknown false g = g

unfoldable pub follow : Outcome → Thread → Gateway → Turn
follow (talk_on k) t g = moved (talking k) t g
follow (serve r p) t g = moved (releasing r p) t g
follow (give_up u) t g = moved leaving t (count_unknown u g)

-- The two halves of `spawn`: the budget, and the process.
abbrev pub within_budget : Bool → Route → Peer → Thread → Gateway → Turn
within_budget true r p t g = moved (launching r p) t g
within_budget false r p t g = moved leaving t (record g { rejected = u64 (g.rejected + 1) })

unfoldable pub check : World → Route → Peer → Thread → Gateway → Turn
check w r p t g =
    let waiting = pending_startups (pos_part (g.cfg.login_grace)) (w.now) (w.user) (g.peers) in
    within_budget (ltb_ℤ (pos waiting) (g.cfg.max_startups)) r p t g

unfoldable pub launch : Route → Peer → Option ℕ → Thread → Gateway → Turn
launch r p none t g = moved leaving t g
launch r p (some pid) t g = moved (launched r p pid) t g

-- After `spawn`: the raw socket belongs to sshd, and the gateway closes its own descriptor.
unfoldable pub after_fork : Route → ℕ → Thread → Gateway → Turn
after_fork raw pid t g = record {
  thread = record t { phase = leaving; owned = true; socket_closed = true };
  gateway = g;
  forked = some pid;
}
after_fork pumped pid t g = record {
  thread = record t { phase = pumping };
  gateway = g;
  forked = some pid;
}

abbrev pub shut : Thread → Thread
shut t = if t.owned then t else record t { socket_closed = true }

module _ (parse_ip : Bytes → Option Bytes) where
  unfoldable pub by_phase : World → Phase → Thread → Gateway → Turn
  unfolding converse finish follow check launch after_fork count_via
  by_phase w (talking k) t g =
      if w.panics then moved leaving t g else follow (converse parse_ip w k) t g
  by_phase w (releasing r p) t g = finish (preparing r p) t g
  by_phase w (preparing r p) t g = if w.opened then moved (checking r p) t g else moved leaving t g
  by_phase w (checking r p) t g = check w r p t g
  by_phase w (launching r p) t g = launch r p (w.spawned) t g
  by_phase w (launched r p pid) t g =
      moved (storing r p pid) t (record g { children = suc_ℤ (g.children) })
  by_phase w (storing r p pid) t g =
      moved (tallying r p pid) t
        (record g { peers = insert pid (record { peer = p; started = w.now }) (g.peers) })
  by_phase w (tallying r p pid) t g = moved (forking r pid) t (count_via (p.via) g)
  by_phase w (forking r pid) t g = after_fork r pid t g
  by_phase w pumping t g =
      if w.copied then moved leaving (record t { socket_closed = true }) g else moved pumping t g
  by_phase w leaving t g = finish ended (shut t) g
  by_phase w ended t g = moved ended t g

  unfoldable pub advance : World → Thread → Gateway → Turn
  unfolding by_phase
  advance w t g = by_phase w (t.phase) t g
