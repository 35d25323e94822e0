-- ===== src/User/Remove.antt =====
-- `Manager.Delete` and `Manager.SetPassword` of internal/user/manager.go.
pub mod Removed
use ssh_vpn.Common.{
  ℕ, Bytes, Bool, true, false, not, List, [], ◌∷◌, ◌++◌, Option, none, some, if◌then◌else◌, ◌⊎◌,
  inl, inr,
}
use ssh_vpn.Security.{UsernameError, PasswordError, validate_username, validate_password}
use ssh_vpn.User.Account.{UserRecord}
use ssh_vpn.User.Bucket.{
  Bucket, UserError, system_failed, not_root, bad_username, bad_password, no_random, get_user,
  delete_user,
}
use ssh_vpn.User.Create.{Inputs, password_of}
use ssh_vpn.User.Manager.{Env, Reply, Command, set_user_password, delete_account, lock_system, kick}

module _ {S : Type 0} (bucket : Bucket S) (env : Env) (s : S) (name : Bytes) where
  abbrev pub stopped : UserError → List Command → Reply S
  stopped e run = record { user = none; error = some e; db = s; commands = run }

  unfoldable pub drop_record : List Command → Option UserError × S → Reply S
  drop_record run (e, t) = record { user = none; error = e; db = t; commands = run }

  unfoldable pub after_userdel : List Command → Bool → Reply S
  unfolding drop_record delete_user
  after_userdel run false = stopped system_failed run
  after_userdel run true = drop_record run (delete_user bucket (env.opens) s name)

  unfoldable pub after_found : UserError ⊎ UserRecord → Reply S
  unfolding after_userdel lock_system kick
  after_found (inl e) = stopped e []
  after_found (inr u) =
      let run = (lock_system env name).1 ++ kick env name in
      if (env.system_user_exists) name
      then after_userdel (run ++ (delete_account name ∷ [])) ((env.runs) (delete_account name))
      else after_userdel run true

  unfoldable pub after_valid : Option UsernameError → Reply S
  unfolding after_found get_user
  after_valid (some e) = stopped bad_username []
  after_valid none = after_found (get_user bucket (env.opens) s name)

  unfoldable pub delete : Reply S
  unfolding after_valid validate_username
  delete = if not (env.root) then stopped not_root [] else after_valid (validate_username name)

  -- What `SetPassword` returns beside its commands.
  abbrev pub Password : Type 0
  Password = (UserError ⊎ Bytes) × List Command

  -- `chpasswd` clears the lock marker, so a disabled account is locked again.
  unfoldable pub lock_again : UserError ⊎ UserRecord → List Command
  unfolding lock_system
  lock_again (inl e) = []
  lock_again (inr u) = if u.disabled then (lock_system env name).1 else []

  unfoldable pub after_strong : Bytes → Option PasswordError → Password
  unfolding lock_again get_user
  after_strong pw (some e) = (inl bad_password, [])
  after_strong pw none =
      let command = set_user_password name pw in
      if (env.runs) command
      then (inr pw, command ∷ lock_again (get_user bucket (env.opens) s name))
      else (inl system_failed, command ∷ [])

  unfoldable pub after_pick : Option Bytes → Password
  unfolding after_strong validate_password
  after_pick none = (inl no_random, [])
  after_pick (some pw) = after_strong pw (validate_password pw)

  unfoldable pub after_user : Inputs → Bytes → UserError ⊎ UserRecord → Password
  unfolding after_pick password_of
  after_user inputs pw (inl e) = (inl e, [])
  after_user inputs pw (inr u) = after_pick (password_of inputs pw)

  unfoldable pub set_password : Inputs → Bytes → Password
  unfolding after_user get_user
  set_password inputs pw =
      if not (env.root)
      then (inl not_root, [])
      else after_user inputs pw (get_user bucket (env.opens) s name)
