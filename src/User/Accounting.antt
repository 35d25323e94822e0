-- ===== src/User/Accounting.antt =====
-- The traffic accounting of `tick` in internal/daemon/daemon.go: the byte counters of sessions
-- become deltas of users. The rates and flow counts that are only published are left out.
pub mod Once
pub mod Passes
use ssh_vpn.Common.{
  ℕ, ◌+◌, ◌-◌, ltb, leb, ◌==◌, ℤ, pos, Bytes, bytes_eq, Bool, true, false, not, ◌||◌, List, [], ◌∷◌,
  Option, none, some, if◌then◌else◌,
}
use ssh_vpn.Common.Assoc.{lookup, insert}
use ssh_vpn.User.Account.{UserRecord, int64, add_int64}
use ssh_vpn.User.Session.{Session}

-- `state.IOBase`: what a pass remembers of a process.
pub record IoBase : Type 0 where
  pub start : ℕ
  pub bytes : ℕ

abbrev pub Bases : Type 0
Bases = List (ℕ × IoBase)

abbrev pub Deltas : Type 0
Deltas = List (Bytes × ℤ)

-- `deltas[name] += delta`
unfoldable pub add_delta : Bytes → ℤ → Deltas → Deltas
unfolding add_int64
add_delta name delta [] = (name, add_int64 (pos 0) delta) ∷ []
add_delta name delta ((n, sum) ∷ rest) =
    if bytes_eq n name
    then (n, add_int64 sum delta) ∷ rest
    else (n, sum) ∷ add_delta name delta rest

-- A session that was opened since the last pass; the first pass after a start of the daemon
-- leaves out sessions that are older than the daemon.
unfoldable pub new_delta : Bool → ℕ → Session → Option ℤ
unfolding int64
new_delta first_tick started s =
    if not first_tick || ltb started (s.started_at) then some (int64 (pos (s.bytes))) else none

-- What is added to the user of a session, if anything, given the base of its process.
unfoldable pub delta_of : Option IoBase → Bool → ℕ → Session → Option ℤ
unfolding int64 new_delta
delta_of none first_tick started s = new_delta first_tick started s
delta_of (some p) first_tick started s =
    if p.start == s.started_at
    then (if leb (p.bytes) (s.bytes) then some (int64 (pos (s.bytes - p.bytes))) else none)
    else new_delta first_tick started s

unfoldable pub count_delta : Bytes → Option ℤ → Deltas → Deltas
unfolding add_delta
count_delta name none deltas = deltas
count_delta name (some delta) deltas = add_delta name delta deltas

abbrev pub base_of : Session → IoBase
base_of s = record { start = s.started_at; bytes = s.bytes }

-- The loop over the sessions: the deltas, and the bases for the next pass.
unfoldable pub account : Bases → Bool → ℕ → List Session → Deltas → Bases → Deltas × Bases
unfolding count_delta delta_of
account prev first_tick started [] deltas next = (deltas, next)
account prev first_tick started (s ∷ ss) deltas next =
    account prev first_tick started ss
      (count_delta (s.username) (delta_of (lookup (s.pid) prev) first_tick started s) deltas)
      (insert (s.pid) (base_of s) next)

-- The users that have a record, among those with a delta.
unfoldable pub managed : (Bytes → Bool) → Deltas → Deltas
managed is_managed [] = []
managed is_managed ((name, delta) ∷ rest) =
    let kept = managed is_managed rest in if is_managed name then (name, delta) ∷ kept else kept
