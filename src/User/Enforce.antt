-- ===== src/User/Enforce.antt =====
-- The enforcement of a tick of internal/daemon/daemon.go: locks for expiry and quota, the
-- sessions of locked accounts, and the limit on simultaneous connections. One reading of the
-- clock stands for those that a pass makes.
pub mod Limit
pub mod Pass
use ssh_vpn.Common.{
  ℕ, ◌+◌, ◌-◌, ◌*◌, ltb, leb, ◌==◌, ℤ, pos, pos_part, ltb_ℤ, Bytes, codes, bytes_eq, Bool, true,
  false, not, ◌&&◌, List, [], ◌∷◌, ◌++◌, length, take, drop, Option, none, some, if◌then◌else◌,
}
use ssh_vpn.Common.Assoc.{lookup, insert}
use ssh_vpn.Config.{LimiterConfig}
use ssh_vpn.User.Account.{UserRecord, lock_expired, lock_quota, is_expired, quota_exceeded}
use ssh_vpn.User.Bucket.{Bucket}
use ssh_vpn.User.Manager.{Env, Reply, Command, kill, lock}
use ssh_vpn.User.Session.{Session}

-- What the switch over one user decides: `Lock` for a reason, `kill` of each of these sessions,
-- or nothing.
pub data Action : Type 0 where
  lock_for : Bytes → Action
  disconnect : List Session → Action
  leave : Action

-- `ss[:excess]`, or `ss[len(ss)-excess:]` for the policy `newest`.
unfoldable pub victims : Bytes → ℕ → List Session → List Session
victims policy excess ss =
    if bytes_eq policy (codes "newest") then drop (length ss - excess) ss else take excess ss

unfoldable pub over_limit : LimiterConfig → UserRecord → List Session → Bool
over_limit limiter u ss =
    limiter.enabled
    && ltb_ℤ (pos 0) (u.max_connections)
    && ltb_ℤ (u.max_connections) (pos (length ss))

unfoldable pub action : LimiterConfig → ℕ → UserRecord → List Session → Action
unfolding is_expired quota_exceeded over_limit victims
action limiter now u ss =
    if not (u.disabled) && is_expired u now
    then lock_for lock_expired
    else if not (u.disabled) && quota_exceeded u
    then lock_for lock_quota
    else if u.disabled && ltb 0 (length ss)
    then disconnect ss
    else if over_limit limiter u ss
    then disconnect (victims (limiter.policy) (length ss - pos_part (u.max_connections)) ss)
    else leave

abbrev pub second : ℕ
second = 1000000000

-- The map `killing`: when a process was last sent its signal.
abbrev pub Killing : Type 0
Killing = List (ℕ × ℕ)

-- `for pid, t := range d.killing { if time.Since(t) > time.Minute { delete(d.killing, pid) } }`
unfoldable pub forget : ℕ → Killing → Killing
forget now [] = []
forget now ((pid, t) ∷ rest) =
    let kept = forget now rest in if ltb (60 * second) (now - t) then kept else (pid, t) ∷ kept

unfoldable pub is_recent : ℕ → Option ℕ → Bool
is_recent now none = false
is_recent now (some t) = ltb (now - t) (10 * second)

-- `kill`: the map after it, and the signal it sends, if any.
unfoldable pub kill_session : ℕ → Session → Killing → Killing × List Command
unfolding lookup insert forget is_recent
kill_session now s killing =
    if is_recent now (lookup (s.pid) killing)
    then (killing, [])
    else (forget now (insert (s.pid) now killing), kill (s.pid) ∷ [])

unfoldable pub kill_sessions : ℕ → List Session → Killing → Killing × List Command
unfolding kill_session
kill_sessions now [] killing = (killing, [])
kill_sessions now (s ∷ ss) killing =
    let here = kill_session now s killing in
    let rest = kill_sessions now ss here.0 in (rest.0, here.1 ++ rest.1)

module _ {S : Type 0} (bucket : Bucket S) where
  pub record Progress : Type 0 where
    pub db : S
    pub killing : Killing
    pub commands : List Command

  unfoldable pub act : Env → Bytes → Action → Progress → Progress
  unfolding kill_sessions
  act env name (lock_for reason) p =
      let r = lock bucket env (p.db) name reason in
      record p { db = r.db; commands = p.commands ++ r.commands }
  act env name (disconnect ss) p =
      let k = kill_sessions (env.now) ss (p.killing) in
      record p { killing = k.0; commands = p.commands ++ k.1 }
  act env name leave p = p

  -- The loop over `byName`, in the order of the range.
  unfoldable pub enforce :
      LimiterConfig → Env → (Bytes → List Session) → List (Bytes × UserRecord) → Progress → Progress
  unfolding action act
  enforce limiter env by_user [] p = p
  enforce limiter env by_user ((name, u) ∷ rest) p =
      enforce limiter env by_user rest (act env name (action limiter (env.now) u (by_user name)) p)
