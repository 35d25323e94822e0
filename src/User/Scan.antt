-- ===== src/User/Scan.antt =====
-- `Scan`, `attachSockets` and `Kill` of internal/session/session.go, on what internal/procfs reads.
-- The printing of addresses, the test for a loopback address, and what the kernel answers are
-- parameters. Ports in the lists and tables are those of sockets, so below 65536.
pub mod Genuine
use ssh_vpn.Common.{
  ℕ, zero, suc, ◌+◌, ◌/◌, ◌%◌, ◌^◌, Bytes, codes, bytes_eq, ltb, leb, ◌==◌, if◌then◌else◌, Bool,
  true, false, not, ◌&&◌, ◌||◌, any, List, [], ◌∷◌, ◌++◌, Option, none, some,
}
use ssh_vpn.Common.Assoc.{lookup, insert}
use ssh_vpn.Udpgw.Proto.{Addr, AddrPort}
use ssh_vpn.Udpgw.Flow.{u64}
use ssh_vpn.Gateway.Front.{Peer}
use ssh_vpn.User.Session.{Session}

-- `procfs.Proc`, with its start as nanoseconds.
pub record Proc : Type 0 where
  pub pid : ℕ
  pub ppid : ℕ
  pub uid : ℕ
  pub comm : Bytes
  pub start_time : ℕ

unfoldable pub is_sshd : Bytes → Bool
is_sshd comm = bytes_eq comm (codes "sshd") || bytes_eq comm (codes "sshd-session")

-- A row of the table of sockets that `attachSockets` looks at.
pub record Sock : Type 0 where
  pub local_port : ℕ
  pub remote : AddrPort
  pub established : Bool

-- What the scan reads: the counters of a process, its sockets, the tables of the kernel.
pub record Kernel : Type 0 where
  pub io : ℕ → Option (ℕ × ℕ)
  pub inodes : ℕ → List ℕ
  pub sock : ℕ → Option Sock
  pub listens : ℕ → Bool
  pub passwd : ℕ → Option Bytes
  pub addr_string : Addr → Bytes
  pub is_loopback : Addr → Bool

-- `Scanner`; `peer` is `PeerLookup`, which answers `none` where there is no such function.
pub record Scanner : Type 0 where
  pub peer : ℕ → Option Peer
  pub udpgw_ports : List ℕ
  pub skips : Bytes → Bool

-- `byPID`, of which a later process takes the place of an earlier one.
unfoldable pub by_pid : List Proc → List (ℕ × Proc) → List (ℕ × Proc)
by_pid [] m = m
by_pid (p ∷ ps) m = by_pid ps (insert (p.pid) p m)

abbrev pub is_empty : Bytes → Bool
is_empty [] = true
is_empty (b ∷ bs) = false

-- One inode in `attachSockets`, by its three tests.
abbrev pub attach_client : Kernel → Sock → Session → Bool → Session
attach_client k sk sess false = sess
attach_client k sk sess true = record sess {
  client_ip = k.addr_string (sk.remote.addr);
  client_port = sk.remote.port;
  server_port = sk.local_port;
}

abbrev pub attach_udpgw : Kernel → Sock → Session → Bool → Session
attach_udpgw k sk sess true = record sess { udpgw_ports = sess.udpgw_ports ++ (sk.local_port ∷ []) }
attach_udpgw k sk sess false =
    attach_client k sk sess (is_empty (sess.client_ip) && k.listens (sk.local_port))

abbrev pub attach_live : Kernel → Scanner → Sock → Session → Bool → Session
attach_live k s sk sess false = sess
attach_live k s sk sess true =
    attach_udpgw k sk sess
      (any (λ p. p == sk.remote.port) (s.udpgw_ports) && k.is_loopback (sk.remote.addr))

abbrev pub attach_sock : Kernel → Scanner → Session → Option Sock → Session
attach_sock k s sess none = sess
attach_sock k s sess (some sk) = attach_live k s sk sess (sk.established)

unfoldable pub attach_sockets : Kernel → Scanner → List ℕ → Session → Session
attach_sockets k s [] sess = sess
attach_sockets k s (ino ∷ inos) sess = attach_sockets k s inos (attach_sock k s sess (k.sock ino))

abbrev pub with_peer : Option Peer → Session → Session
with_peer none sess = sess
with_peer (some p) sess = record sess {
  client_ip = if is_empty (p.ip) then sess.client_ip else p.ip;
  client_port = if is_empty (p.ip) then sess.client_port else p.port;
  via = if is_empty (p.via) then sess.via else p.via;
}

abbrev pub tunnel_bytes : Option (ℕ × ℕ) → ℕ
tunnel_bytes none = 0
tunnel_bytes (some (r, w)) = u64 (r + w) / 2

unfoldable pub session_of : Kernel → Scanner → Proc → Bytes → Session
unfolding attach_sockets
session_of k s p name = with_peer (s.peer (p.ppid)) (
    attach_sockets k s (k.inodes (p.pid)) (record {
      pid = p.pid;
      monitor_pid = p.ppid;
      username = name;
      uid = p.uid;
      client_ip = [];
      client_port = 0;
      server_port = 0;
      via = codes "ssh";
      started_at = p.start_time;
      bytes = tunnel_bytes (k.io (p.pid));
      udpgw_ports = [];
    }))

abbrev pub with_parent : Kernel → Scanner → Proc → Bytes → Option Proc → List Session
with_parent k s p name none = []
with_parent k s p name (some parent) = if parent.uid == 0 then session_of k s p name ∷ [] else []

abbrev pub with_user : Kernel → Scanner → List (ℕ × Proc) → Proc → Option Bytes → List Session
with_user k s m p none = []
with_user k s m p (some name) =
    if s.skips name then [] else with_parent k s p name (lookup (p.ppid) m)

-- The body of the loop of `Scan`: the session of a process, if it has one.
unfoldable pub scan_one : Kernel → Scanner → List (ℕ × Proc) → Proc → List Session
unfolding session_of
scan_one k s m p = if p.uid == 0 then [] else with_user k s m p (k.passwd (p.uid))

unfoldable pub scan_all : Kernel → Scanner → List (ℕ × Proc) → List Proc → List Session
unfolding scan_one
scan_all k s m [] = []
scan_all k s m (p ∷ ps) = scan_one k s m p ++ scan_all k s m ps

unfoldable pub before : Session → Session → Bool
before a b =
    if a.started_at == b.started_at then ltb (a.pid) (b.pid) else ltb (a.started_at) (b.started_at)

abbrev pub put_session : Session → List Session → List Session
put_session a [] = a ∷ []
put_session a (b ∷ bs) = if before b a then b ∷ put_session a bs else a ∷ b ∷ bs

-- `sort.Slice`, as an insertion sort: the order has no ties but those of equal process ids.
unfoldable pub oldest_first : List Session → List Session
oldest_first [] = []
oldest_first (a ∷ rest) = put_session a (oldest_first rest)

-- `Scan`, on the processes whose name is that of sshd.
unfoldable pub scan : Kernel → Scanner → List Proc → List Session
unfolding by_pid scan_all oldest_first
scan k s procs = oldest_first (scan_all k s (by_pid procs []) procs)

-- `Kill`: the signals it sends, and whether it reports an error.
pub data Signal : Type 0 where
  sigterm sigkill : Signal

pub data Sent : Type 0 where
  delivered no_process refused : Sent

abbrev pub last_signal : Sent → List Signal × Bool
last_signal refused = (sigterm ∷ sigkill ∷ [], true)
last_signal _ = (sigterm ∷ sigkill ∷ [], false)

-- `reads` are what the looks at the process find, `start` the time of the first: `none` where it
-- is gone.
unfoldable pub is_gone : ℕ → Option ℕ → Bool
is_gone start none = true
is_gone start (some t) = not (t == start)

abbrev pub after_term : ℕ → List (Option ℕ) → Sent → Sent → List Signal × Bool
after_term start reads no_process killed = (sigterm ∷ [], false)
after_term start reads refused killed = (sigterm ∷ [], true)
after_term start reads delivered killed =
    if any (is_gone start) reads then (sigterm ∷ [], false) else last_signal killed

abbrev pub at_start : Option ℕ → List (Option ℕ) → Sent → Sent → List Signal × Bool
at_start none reads terminated killed = ([], false)
at_start (some start) reads terminated killed = after_term start reads terminated killed

unfoldable pub kill : ℕ → Option ℕ → List (Option ℕ) → Sent → Sent → List Signal × Bool
unfolding is_gone
kill pid first reads terminated killed =
    if leb pid 1 then ([], false) else at_start first reads terminated killed

-- `KillNow`
abbrev pub only_kill : Sent → List Signal × Bool
only_kill refused = (sigkill ∷ [], true)
only_kill _ = (sigkill ∷ [], false)

unfoldable pub kill_now : ℕ → Sent → List Signal × Bool
kill_now pid killed = if leb pid 1 then ([], false) else only_kill killed
