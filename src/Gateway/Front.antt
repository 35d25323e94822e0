-- ===== src/Gateway/Front.antt =====
-- internal/gateway/gateway.go: the state that the goroutines of the gateway share, and the
-- operations on it that the daemon calls. Times are nanoseconds; maps are association lists, and
-- the counters per protocol a function of the protocol's name.
pub mod Restart
use ssh_vpn.Common.{
  ℕ, zero, suc, ◌-◌, ◌+◌, ◌*◌, ◌^◌, Bytes, bytes_eq, ltb, if◌then◌else◌, Bool, true, false, not,
  ◌&&◌, ◌||◌, List, [], ◌∷◌, ◌++◌, Option, none, some, ℤ, pos, negsuc, pos_part, neg_part, leb_ℤ,
  length, ◌==◌,
}
use ssh_vpn.Common.Assoc.{lookup, insert, erase}
use ssh_vpn.Udpgw.Flow.{u64}

-- `session.Peer` and `PeerEntry`
pub record Peer : Type 0 where
  pub ip : Bytes
  pub port : ℕ
  pub via : Bytes

pub record PeerEntry : Type 0 where
  pub peer : Peer
  pub started : ℕ

-- The numbers of `Config`.
pub record Limits : Type 0 where
  pub max_connections : ℤ
  pub max_startups : ℤ
  pub handshake_timeout : ℤ
  pub login_grace : ℤ

abbrev pub second : ℕ
second = 10 ^ 9

abbrev or_positive : ℤ → ℕ → ℤ
or_positive n d = if leb_ℤ n (pos 0) then pos d else n

-- The defaults that `New` fills in.
unfoldable pub with_defaults : Limits → Limits
with_defaults c = record {
  max_connections = or_positive (c.max_connections) 4096;
  max_startups = or_positive (c.max_startups) 256;
  handshake_timeout = or_positive (c.handshake_timeout) (15 * second);
  login_grace = or_positive (c.login_grace) (30 * second);
}

-- `Gateway`; a listener is its port.
pub record Gateway : Type 0 where
  pub cfg : Limits
  pub listeners : List ℕ
  pub bound : List ℕ
  pub failed : List ℕ
  pub by_via : Bytes → ℕ
  pub closed : Bool
  pub peers : List (ℕ × PeerEntry)
  pub handshaking : ℤ
  pub children : ℤ
  pub total : ℕ
  pub rejected : ℕ
  pub unknown : ℕ

-- `New`
unfoldable pub new_gateway : Limits → Gateway
unfolding with_defaults
new_gateway c = record {
  cfg = with_defaults c;
  listeners = [];
  bound = [];
  failed = [];
  by_via = λ via. 0;
  closed = false;
  peers = [];
  handshaking = pos 0;
  children = pos 0;
  total = 0;
  rejected = 0;
  unknown = 0;
}

-- `Add(1)` and `Add(-1)` on an `atomic.Int64`, which no gauge here brings to its ends.
abbrev pub suc_ℤ : ℤ → ℤ
suc_ℤ (pos n) = pos (n + 1)
suc_ℤ (negsuc zero) = pos 0
suc_ℤ (negsuc (suc n)) = negsuc n

abbrev pub pred_ℤ : ℤ → ℤ
pred_ℤ (pos zero) = negsuc 0
pred_ℤ (pos (suc n)) = pos n
pred_ℤ (negsuc n) = negsuc (suc n)

-- `int64` addition
infixl 60 ◌+ℤ◌
abbrev pub ◌+ℤ◌ : ℤ → ℤ → ℤ
(pos a) +ℤ (pos b) = pos (a + b)
(pos a) +ℤ (negsuc b) = if ltb b a then pos (a - suc b) else negsuc (b - a)
(negsuc a) +ℤ (pos b) = if ltb a b then pos (b - suc a) else negsuc (a - b)
(negsuc a) +ℤ (negsuc b) = negsuc (suc (a + b))

-- `Start`: the loop over the ports, which are distinct; `opens` says which of them can be bound.
unfoldable pub bind : (ℕ → Bool) → List ℕ → Gateway → Gateway
bind opens [] g = g
bind opens (p ∷ ps) g = bind opens ps (
    if opens p
    then record g { listeners = g.listeners ++ (p ∷ []); bound = g.bound ++ (p ∷ []) }
    else record g { failed = g.failed ++ (p ∷ []) })

pub data Started : Type 0 where
  all_open some_failed none_open : Started

unfoldable pub outcome : ℕ → ℕ → Started
outcome errs ports =
    if ltb 0 errs && errs == ports then none_open else if ltb 0 errs then some_failed else all_open

-- The errors of this call: the ports that cannot be bound.
abbrev pub count_failed : (ℕ → Bool) → List ℕ → ℕ
count_failed opens [] = 0
count_failed opens (p ∷ ps) = (if opens p then 0 else 1) + count_failed opens ps

unfoldable pub start : (ℕ → Bool) → List ℕ → Gateway → Started × Gateway
unfolding bind outcome
start opens ports g = (outcome (count_failed opens ports) (length ports), bind opens ports g)

-- `Close`, which returns the listeners that it closes.
unfoldable pub close : Gateway → List ℕ × Gateway
close g = (g.listeners, record g { closed = true; listeners = [] })

-- `Peer`
unfoldable pub peer_of_pid : ℕ → Gateway → Option Peer
peer_of_pid pid g = elim (lookup pid g.peers) [ none ↦ none | some e ↦ some (e.peer) ]

-- `Peers`: a copy of the map.
unfoldable pub peers_of : Gateway → List (ℕ × PeerEntry)
peers_of g = g.peers

-- `LoadOrStore`
abbrev pub load_or_store :
    Option PeerEntry → ℕ → PeerEntry → List (ℕ × PeerEntry) → List (ℕ × PeerEntry)
load_or_store none pid e m = insert pid e m
load_or_store (some old) pid e m = m

-- `RestorePeers`; `alive` says for which processes /proc has a directory.
unfoldable pub restore_peers :
    (ℕ → Bool) → List (ℕ × PeerEntry) → List (ℕ × PeerEntry) → List (ℕ × PeerEntry)
restore_peers alive [] m = m
restore_peers alive ((pid, e) ∷ saved) m =
    restore_peers alive saved (if alive pid then load_or_store (lookup pid m) pid e m else m)

-- `hasUserChild`: `children` are the words of the file of that name, with `none` where it cannot be
-- read, and `uid` the owner of a process, with `none` where it is gone.
abbrev pub any_user : (ℕ → Option ℕ) → List ℕ → Bool
any_user uid [] = false
any_user uid (f ∷ fs) = elim (uid f) [
  | none ↦ any_user uid fs
  | some u ↦ not (u == 0) || any_user uid fs
]

unfoldable pub has_user_child : (ℕ → Option (List ℕ)) → (ℕ → Option ℕ) → ℕ → Bool × Bool
has_user_child children uid pid =
    if pid == 0
    then (true, true)
    else elim (children pid) [ none ↦ (false, false) | some fs ↦ (any_user uid fs, true) ]

-- The test of `pendingStartups` on one entry: it is young, and not known to have logged in.
abbrev pub undecided : ℕ → ℕ → Bool × Bool → Bool
undecided now started (authed, known) =
    if known && authed then false else not (not known && ltb (started + 10 * second) now)

unfoldable pub is_pending : ℕ → ℕ → (ℕ → Bool × Bool) → ℕ × PeerEntry → Bool
is_pending grace now user (pid, e) =
    if ltb (e.started + (grace + 5 * second)) now
    then false
    else undecided now (e.started) (user pid)

unfoldable pub pending_startups : ℕ → ℕ → (ℕ → Bool × Bool) → List (ℕ × PeerEntry) → ℕ
unfolding is_pending
pending_startups grace now user [] = 0
pending_startups grace now user (entry ∷ m) =
    (if is_pending grace now user entry then 1 else 0) + pending_startups grace now user m

-- `Stats`
pub record Stats : Type 0 where
  pub ports : List ℕ
  pub failures : List ℕ
  pub sessions : ℤ
  pub pending : ℤ
  pub all : ℕ
  pub refused : ℕ
  pub unknowns : ℕ
  pub via_counts : Bytes → ℕ

abbrev insert_port : ℕ → List ℕ → List ℕ
insert_port p [] = p ∷ []
insert_port p (q ∷ qs) = if ltb q p then q ∷ insert_port p qs else p ∷ q ∷ qs

-- `sort.Ints`
abbrev pub sort_ports : List ℕ → List ℕ
sort_ports [] = []
sort_ports (p ∷ ps) = insert_port p (sort_ports ps)

unfoldable pub stats : Gateway → Stats
stats g = record {
  ports = sort_ports (g.bound);
  failures = g.failed;
  sessions = g.children;
  pending = g.handshaking;
  all = g.total;
  refused = g.rejected;
  unknowns = g.unknown;
  via_counts = g.by_via;
}

-- `byVia[via]++`
unfoldable pub count_via : Bytes → Gateway → Gateway
count_via via g = record g {
  by_via = λ v. if bytes_eq v via then u64 (g.by_via v + 1) else g.by_via v;
}
