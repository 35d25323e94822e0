-- ===== src/User/Manager.antt =====
-- The operations of internal/user/manager.go on an account that exists. What a command of the
-- system would do is not modelled: the commands are recorded in order, and the environment says
-- which of them succeed.
use ssh_vpn.Common.{
  ℕ, ◌+◌, ◌*◌, ltb, ℤ, pos, leb_ℤ, ltb_ℤ, Bytes, bytes_eq, Bool, true, false, not, ◌&&◌, ◌||◌, List,
  [], ◌∷◌, ◌++◌, Option, none, some, if◌then◌else◌, ◌⊎◌, inl, inr,
}
use ssh_vpn.User.Account.{
  UserRecord, lock_manual, lock_expired, lock_quota, is_expired, quota_exceeded,
}
use ssh_vpn.User.Session.{Session}
use ssh_vpn.User.Bucket.{
  Bucket, UserError, days_not_positive, connections_below_one, expired_renew_instead, quota_used_up,
  system_failed, update_user,
}

-- `usermod -L`, `usermod -U`, `chage -E` with the time that is formatted as a day,
-- `session.Kill`, `groupadd`, `useradd` with its name, group, shell and expiry, `chpasswd` and
-- `userdel`.
pub data Command : Type 0 where
  lock_account : Bytes → Command
  unlock_account : Bytes → Command
  set_expiry_day : Bytes → ℕ → Command
  kill : ℕ → Command
  add_group : Bytes → Command
  add_user : Bytes → Bytes → Bytes → ℕ → Command
  set_user_password : Bytes → Bytes → Command
  delete_account : Bytes → Command

-- What the operations read of their surroundings: whether the process is root, whether the
-- database can be opened, the accounts of /etc/passwd, which commands succeed, the sessions a
-- scan finds (`none` if it fails), the clock, and `AddDate` in its time zone.
pub record Env : Type 0 where
  pub root : Bool
  pub opens : Bool
  pub system_user_exists : Bytes → Bool
  pub runs : Command → Bool
  pub scan : Option (List Session)
  pub now : ℕ
  pub add_days : ℕ → ℤ → ℕ

pub record Reply (S : Type 0) : Type 0 where
  pub user : Option UserRecord
  pub error : Option UserError
  pub db : S
  pub commands : List Command

abbrev pub day : ℕ
day = 86400 * 1000000000

-- `shadowDate`, before its formatting.
unfoldable pub shadow_date : ℕ → ℕ
shadow_date t = t + day

abbrev pub outcome : Bool → Option UserError
outcome true = none
outcome false = some system_failed

unfoldable pub lock_system : Env → Bytes → Option UserError × List Command
lock_system env name =
    if not (env.root) || not ((env.system_user_exists) name)
    then (none, [])
    else (outcome ((env.runs) (lock_account name)), lock_account name ∷ [])

unfoldable pub sync_system : Env → UserRecord → Option UserError × List Command
unfolding lock_system shadow_date
sync_system env u =
    let expiry = set_expiry_day (u.username) (shadow_date (u.expires_at)) in
    if not (env.root) || not ((env.system_user_exists) (u.username))
    then (none, [])
    else if u.disabled
    then lock_system env (u.username)
    else (outcome ((env.runs) expiry), unlock_account (u.username) ∷ expiry ∷ [])

-- The commands of `Kick`, whose count the callers here ignore.
unfoldable pub kick_all : Bytes → List Session → List Command
kick_all name [] = []
kick_all name (s ∷ ss) =
    let rest = kick_all name ss in if bytes_eq (s.username) name then kill (s.pid) ∷ rest else rest

unfoldable pub kick : Env → Bytes → List Command
unfolding kick_all
kick env name = elim (env.scan) [ none ↦ [] | some ss ↦ kick_all name ss ]

-- What the functions passed to `UpdateUser` make of the record.
unfoldable pub renewed : Env → ℤ → UserRecord → UserRecord
renewed env days u =
    let base = if ltb (u.expires_at) (env.now) then env.now else u.expires_at in
    let lift = u.disabled && bytes_eq (u.lock_reason) lock_expired in
    record u {
      expires_at = (env.add_days) base days;
      disabled = if lift then false else u.disabled;
      lock_reason = if lift then [] else u.lock_reason;
    }

unfoldable pub with_expiry : Env → ℕ → UserRecord → UserRecord
with_expiry env t u =
    let lift = u.disabled && bytes_eq (u.lock_reason) lock_expired && ltb (env.now) t in
    record u {
      expires_at = t;
      disabled = if lift then false else u.disabled;
      lock_reason = if lift then [] else u.lock_reason;
    }

unfoldable pub with_limit : ℤ → UserRecord → UserRecord
unfolding quota_exceeded
with_limit bytes u =
    let limited = record u { traffic_limit = bytes } in
    let lift = u.disabled && bytes_eq (u.lock_reason) lock_quota && not (quota_exceeded limited) in
    record limited {
      disabled = if lift then false else u.disabled;
      lock_reason = if lift then [] else u.lock_reason;
    }

unfoldable pub with_no_traffic : UserRecord → UserRecord
with_no_traffic u =
    let lift = u.disabled && bytes_eq (u.lock_reason) lock_quota in
    record u {
      traffic_used = pos 0;
      disabled = if lift then false else u.disabled;
      lock_reason = if lift then [] else u.lock_reason;
    }

unfoldable pub unlocked : ℕ → UserRecord → UserError ⊎ UserRecord
unfolding is_expired quota_exceeded
unlocked now u =
    if is_expired u now
    then inl (expired_renew_instead (u.username))
    else if quota_exceeded u
    then inl (quota_used_up (u.username))
    else inr (record u { disabled = false; lock_reason = [] })

-- `if reason == "" { reason = store.LockManual }`
unfoldable pub or_manual : Bytes → Bytes
or_manual [] = lock_manual
or_manual (b ∷ bs) = b ∷ bs

module _ {S : Type 0} (bucket : Bucket S) where
  -- After an update: its error, or `syncSystem` on the record it returned.
  unfoldable pub synced : Env → (UserError ⊎ UserRecord) × S → Reply S
  unfolding sync_system
  synced env (inl e, s) = record { user = none; error = some e; db = s; commands = [] }
  synced env (inr u, s) = record {
    user = some u;
    error = (sync_system env u).0;
    db = s;
    commands = (sync_system env u).1;
  }

  unfoldable pub refused : UserError → S → Reply S
  refused e s = record { user = none; error = some e; db = s; commands = [] }

  unfoldable pub renew : Env → S → Bytes → ℤ → Reply S
  unfolding synced update_user renewed refused
  renew env s name days =
      if leb_ℤ days (pos 0)
      then refused days_not_positive s
      else synced env (update_user bucket (env.opens) s name (λ u. inr (renewed env days u)))

  unfoldable pub set_expiry : Env → S → Bytes → ℕ → Reply S
  unfolding synced update_user with_expiry
  set_expiry env s name t =
      synced env (update_user bucket (env.opens) s name (λ u. inr (with_expiry env t u)))

  unfoldable pub answered : (UserError ⊎ UserRecord) × S → Reply S
  answered (inl e, s) = record { user = none; error = some e; db = s; commands = [] }
  answered (inr u, s) = record { user = some u; error = none; db = s; commands = [] }

  unfoldable pub set_max_connections : Env → S → Bytes → ℤ → Reply S
  unfolding answered update_user refused
  set_max_connections env s name n =
      if ltb_ℤ n (pos 1)
      then refused connections_below_one s
      else answered
          (update_user bucket (env.opens) s name (λ u. inr (record u { max_connections = n })))

  unfoldable pub set_traffic_limit : Env → S → Bytes → ℤ → Reply S
  unfolding synced update_user with_limit
  set_traffic_limit env s name bytes =
      let limit = if ltb_ℤ bytes (pos 0) then pos 0 else bytes in
      synced env (update_user bucket (env.opens) s name (λ u. inr (with_limit limit u)))

  unfoldable pub reset_traffic : Env → S → Bytes → Reply S
  unfolding synced update_user with_no_traffic
  reset_traffic env s name =
      synced env (update_user bucket (env.opens) s name (λ u. inr (with_no_traffic u)))

  -- `Lock` disconnects the user once the system account is locked.
  unfoldable pub then_kick : Env → Bytes → Reply S → Reply S
  unfolding kick
  then_kick env name r = elim (r.error) [
    | some e ↦ r
    | none ↦ record r { commands = r.commands ++ kick env name }
  ]

  unfoldable pub lock : Env → S → Bytes → Bytes → Reply S
  unfolding then_kick synced update_user or_manual
  lock env s name reason = then_kick env name (
      synced env (
        update_user bucket (env.opens) s name
          (λ u. inr (record u { disabled = true; lock_reason = or_manual reason }))))

  unfoldable pub unlock : Env → S → Bytes → Reply S
  unfolding synced update_user unlocked
  unlock env s name = synced env (update_user bucket (env.opens) s name (unlocked (env.now)))
