-- ===== src/Gateway/System.antt =====
-- internal/gateway/gateway.go as a system of goroutines: an `acceptLoop` for each listener, a
-- `handle` for each connection, a waiter for each child of sshd. A schedule is a list of events,
-- each of which lets one goroutine go on to its next operation on the shared state.
pub mod Gauges
use ssh_vpn.Common.{
  ℕ, ◌+◌, ◌*◌, ◌^◌, Bytes, ltb, ◌==◌, if◌then◌else◌, get_elem?, set, Bool, true, false, ◌||◌, List,
  [], ◌∷◌, ◌++◌, Option, none, some, ℤ, pos, leb_ℤ,
}
use ssh_vpn.Common.Assoc.{erase}
use ssh_vpn.Udpgw.Flow.{u64}
use ssh_vpn.Gateway.Front.{
  PeerEntry, Limits, Gateway, new_gateway, pred_ℤ, suc_ℤ, ◌+ℤ◌, close, restore_peers,
}
use ssh_vpn.Gateway.Handle.{World, Thread, new_thread, Turn, advance}

-- What `Accept` returns: a connection, and whether it is TCP; or an error, and whether it is
-- `net.ErrClosed`.
pub data Arrival : Type 0 where
  connection : Bool → Arrival
  accept_error : Bool → Arrival

-- Where `acceptLoop` stands: before `Accept`, with the backoff; between the two loads of the limit,
-- with the first; past the limit; past `handshaking.Add(1)`; returned.
pub data Acceptor : Type 0 where
  listening : ℕ → Acceptor
  loaded : ℤ → Acceptor
  admitted counted stopped : Acceptor

abbrev pub millisecond : ℕ
millisecond = 10 ^ 6

-- 5 ms at first, then twice as long each time, up to a second.
unfoldable pub next_backoff : ℕ → ℕ
next_backoff b =
    if b == 0
    then 5 * millisecond
    else if ltb (1000 * millisecond) (b * 2)
    then 1000 * millisecond
    else b * 2

-- A step of `acceptLoop`: where it stands then, the state, and whether it starts a handler.
pub record Accepted : Type 0 where
  pub acceptor : Acceptor
  pub gateway : Gateway
  pub starts : Bool

abbrev pub accepted : Acceptor → Gateway → Accepted
accepted a g = record { acceptor = a; gateway = g; starts = false }

abbrev pub arrive : Arrival → ℕ → Gateway → Accepted
arrive (connection true) b g = accepted (loaded (g.handshaking)) g
arrive (connection false) b g = accepted (listening 0) g
arrive (accept_error gone) b g =
    if g.closed || gone then accepted stopped g else accepted (listening (next_backoff b)) g

abbrev pub admit : Bool → Gateway → Accepted
admit true g = accepted (listening 0) (record g { rejected = u64 (g.rejected + 1) })
admit false g = accepted admitted g

unfoldable pub accept_step : Arrival → Acceptor → Gateway → Accepted
unfolding next_backoff
accept_step e (listening b) g = arrive e b g
accept_step e (loaded h) g = admit (leb_ℤ (g.cfg.max_connections) (h +ℤ g.children)) g
accept_step e admitted g = accepted counted (record g { handshaking = suc_ℤ (g.handshaking) })
accept_step e counted g = record {
  acceptor = listening 0;
  gateway = record g { total = u64 (g.total + 1) };
  starts = true;
}
accept_step e stopped g = accepted stopped g

-- The goroutine at the end of `spawn`: it waits for the process; then it has deleted the entry; then
-- it has taken the child off the gauge.
pub data Waiter : Type 0 where
  waiting reaped : ℕ → Waiter
  finished : Waiter

unfoldable pub wait_step : Waiter → Gateway → Waiter × Gateway
wait_step (waiting pid) g = (reaped pid, record g { peers = erase pid (g.peers) })
wait_step (reaped pid) g = (finished, record g { children = pred_ℤ (g.children) })
wait_step finished g = (finished, g)

pub record System : Type 0 where
  pub front : Gateway
  pub acceptors : List Acceptor
  pub threads : List Thread
  pub waiters : List Waiter

-- What happens next: the goroutine that goes on, by its place in its list; or the daemon opens a
-- port, closes the gateway or restores the peers of its previous run.
pub data Event : Type 0 where
  opens : ℕ → Event
  accepts : ℕ → Arrival → Event
  handles : ℕ → World → Event
  waits : ℕ → Event
  closes : Event
  restores : (ℕ → Bool) → List (ℕ × PeerEntry) → Event

abbrev pub begin : Bool → List Thread → List Thread
begin true ts = ts ++ (new_thread ∷ [])
begin false ts = ts

abbrev pub fork : Option ℕ → List Waiter → List Waiter
fork none ws = ws
fork (some pid) ws = ws ++ (waiting pid ∷ [])

abbrev pub put_accepted : ℕ → Accepted → System → System
put_accepted i a s = record s {
  front = a.gateway;
  acceptors = set (s.acceptors) i (a.acceptor);
  threads = begin (a.starts) (s.threads);
}

abbrev pub put_turn : ℕ → Turn → System → System
put_turn i u s = record s {
  front = u.gateway;
  threads = set (s.threads) i (u.thread);
  waiters = fork (u.forked) (s.waiters);
}

abbrev pub put_waiter : ℕ → Waiter × Gateway → System → System
put_waiter i w s = record s { front = w.1; waiters = set (s.waiters) i (w.0) }

unfoldable pub on_acceptor : ℕ → Arrival → Option Acceptor → System → System
unfolding accept_step
on_acceptor i e none s = s
on_acceptor i e (some a) s = put_accepted i (accept_step e a (s.front)) s

unfoldable pub on_waiter : ℕ → Option Waiter → System → System
unfolding wait_step
on_waiter i none s = s
on_waiter i (some w) s = put_waiter i (wait_step w (s.front)) s

unfoldable pub open_port : ℕ → System → System
open_port p s =
    let g = s.front in
    record s {
      front = record g { listeners = g.listeners ++ (p ∷ []); bound = g.bound ++ (p ∷ []) };
      acceptors = s.acceptors ++ (listening 0 ∷ []);
    }

module _ (parse_ip : Bytes → Option Bytes) where
  unfoldable pub on_thread : ℕ → World → Option Thread → System → System
  on_thread i w none s = s
  on_thread i w (some t) s = put_turn i (advance parse_ip w t (s.front)) s

  unfoldable pub happen : Event → System → System
  unfolding on_acceptor on_thread on_waiter open_port close restore_peers
  happen (opens p) s = open_port p s
  happen (accepts i e) s = on_acceptor i e (get_elem? (s.acceptors) i) s
  happen (handles i w) s = on_thread i w (get_elem? (s.threads) i) s
  happen (waits i) s = on_waiter i (get_elem? (s.waiters) i) s
  happen closes s = record s { front = (close (s.front)).1 }
  happen (restores alive saved) s =
      let g = s.front in
      record s { front = record g { peers = restore_peers alive saved (g.peers) } }

  unfoldable pub run : List Event → System → System
  unfolding happen
  run [] s = s
  run (e ∷ es) s = run es (happen e s)

unfoldable pub new_system : Limits → System
unfolding new_gateway
new_system c = record { front = new_gateway c; acceptors = []; threads = []; waiters = [] }
