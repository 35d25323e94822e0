-- ===== src/User/Accounting/Passes.antt =====
-- Over the passes of the daemon each byte of a session is counted once.
use ssh_vpn.Common.{
  ℕ, ◌+◌, ◌^◌, ◌≤◌, ◌<◌, ◌==◌, ℤ, pos, Bytes, bytes_eq, false, List, [], ◌∷◌, ◌++◌, All, Option,
  none, some, if◌then◌else◌, ◌≡◌,
}
use ssh_vpn.User.Accounting.{Bases, Deltas, account}
use ssh_vpn.User.Session.{Session}

-- `deltas[name]`, with `none` where the user has no entry.
unfoldable pub delta_for : Bytes → Deltas → Option ℤ
delta_for name [] = none
delta_for name ((n, sum) ∷ rest) = if bytes_eq n name then some sum else delta_for name rest

abbrev pub bytes_of : Option ℤ → ℕ
bytes_of (some (pos n)) = n
bytes_of _ = 0

-- What successive passes add to a user, by their scans: each starts with the bases that the one
-- before it has left. No pass here is the first of the daemon.
unfoldable pub total : Bytes → ℕ → Bases → List (List Session) → ℕ
total name started prev [] = 0
total name started prev (ss ∷ scans) =
    let r = account prev false started ss [] [] in
    bytes_of (delta_for name r.0) + total name started r.1 scans

-- A scan that has one session of interest, among others.
pub record Sight : Type 0 where
  pub before : List Session
  pub seen : Session
  pub behind : List Session

abbrev pub scan_of : Sight → List Session
scan_of g = g.before ++ (g.seen ∷ g.behind)

-- A session of another user, in another process.
abbrev pub Other : Bytes → ℕ → Session → Type 0
Other name pid t = (bytes_eq (t.username) name ≡ false) × ((t.pid == pid) ≡ false)

-- The sights are of the only session of a user, in one process, whose counter does not fall from
-- `low` on, and fits an `int64`.
abbrev pub Grows : Bytes → ℕ → ℕ → ℕ → List Sight → Type 0
Grows name pid start low [] = Unit {0}
Grows name pid start low (g ∷ gs) =
    All (Other name pid) g.before
    × All (Other name pid) g.behind
    × (g.seen.username ≡ name)
    × (g.seen.pid ≡ pid)
    × (g.seen.started_at ≡ start)
    × (low ≤ g.seen.bytes)
    × (g.seen.bytes < 2 ^ 63)
    × Grows name pid start (g.seen.bytes) gs

abbrev pub last_bytes : ℕ → List Sight → ℕ
last_bytes low [] = low
last_bytes low (g ∷ gs) = last_bytes (g.seen.bytes) gs
