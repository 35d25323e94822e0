-- ===== src/User/Create.antt =====
-- `Manager.Create` of internal/user/manager.go: a Linux account and its record. Each function is
-- what follows one of its steps, so an early return is the clause of a failed step.
pub mod Stored
use ssh_vpn.Common.{
  ℕ, ◌+◌, ℤ, pos, leb_ℤ, Bytes, codes, Bool, true, false, not, List, [], ◌∷◌, ◌++◌, Option, none,
  some, if◌then◌else◌, ◌⊎◌, inl, inr,
}
use ssh_vpn.Config.{UserDefaultsConfig}
use ssh_vpn.Security.{
  UsernameError, PasswordError, validate_username, validate_password, generate_random_password,
}
use ssh_vpn.User.Account.{UserRecord}
use ssh_vpn.User.Bucket.{
  Bucket, UserError, cannot_open, system_failed, not_root, bad_username, bad_password, no_random,
  user_exists, system_account_exists, get_user, put_user,
}
use ssh_vpn.User.Manager.{
  Env, Command, add_group, add_user, set_user_password, delete_account, shadow_date,
}

-- `TrafficGB`, a float: above 0, with the bytes that `config.GB` makes of it; 0; or below 0.
pub data Quota : Type 0 where
  limited : ℤ → Quota
  default : Quota
  unlimited : Quota

pub record CreateUserOpts : Type 0 where
  pub username : Bytes
  pub password : Bytes
  pub max_connections : ℤ
  pub expiration_days : ℤ
  pub traffic : Quota
  pub notes : Bytes

-- What `Create` reads beside the environment: whether /etc/group has the group, the random
-- draws, the bytes of `DefaultTrafficGB` if that is above 0, and whether the database opens for
-- `PutUser`; that it opens for `GetUser` is in the environment.
pub record Inputs : Type 0 where
  pub group_exists : Bool
  pub draw : ℕ → Option ℕ
  pub default_limit : Option ℤ
  pub stores : Bool

pub record Created (S : Type 0) : Type 0 where
  pub made : UserError ⊎ (UserRecord × Bytes)
  pub db : S
  pub commands : List Command

unfoldable pub limit_of : Quota → Option ℤ → ℤ
limit_of (limited bytes) d = bytes
limit_of default (some bytes) = bytes
limit_of default none = pos 0
limit_of unlimited d = pos 0

unfoldable pub shell_of : Bytes → Bytes
shell_of [] = codes "/bin/false"
shell_of (b ∷ bs) = b ∷ bs

-- `if opts.MaxConnections <= 0 { … }`, and the same for the days.
abbrev pub positive_or : ℤ → ℤ → ℤ
positive_or n d = if leb_ℤ n (pos 0) then d else n

unfoldable pub new_record : Env → Inputs → UserDefaultsConfig → CreateUserOpts → UserRecord
unfolding limit_of
new_record env inputs d opts = record {
  username = opts.username;
  max_connections = positive_or (opts.max_connections) (d.default_max_connections);
  expires_at =
      (env.add_days) (env.now) (positive_or (opts.expiration_days) (d.default_expiration_days));
  created_at = env.now;
  disabled = false;
  lock_reason = [];
  notes = opts.notes;
  traffic_limit = limit_of (opts.traffic) (inputs.default_limit);
  traffic_used = pos 0;
  last_seen = 0;
}

-- The password that was given, or a generated one of 10 characters.
unfoldable pub password_of : Inputs → Bytes → Option Bytes
password_of inputs [] = generate_random_password (inputs.draw) (pos 10)
password_of inputs (b ∷ bs) = some (b ∷ bs)

module _ {S : Type 0} (bucket : Bucket S) (env : Env) (inputs : Inputs) (d : UserDefaultsConfig)
    (opts : CreateUserOpts) (s : S) where
  abbrev pub failed : UserError → List Command → Created S
  failed e commands = record { made = inl e; db = s; commands = commands }

  abbrev pub rec : UserRecord
  rec = new_record env inputs d opts

  unfoldable pub after_put : Bytes → List Command → Option UserError × S → Created S
  after_put pw run (some e, t) = failed e (run ++ (delete_account (opts.username) ∷ []))
  after_put pw run (none, t) = record { made = inr (rec, pw); db = t; commands = run }

  unfoldable pub after_password : Bytes → List Command → Bool → Created S
  unfolding after_put put_user
  after_password pw run false = failed system_failed (run ++ (delete_account (opts.username) ∷ []))
  after_password pw run true = after_put pw run (put_user bucket (inputs.stores) s rec)

  unfoldable pub after_add : Bytes → List Command → Bool → Created S
  unfolding after_password
  after_add pw run false = failed system_failed run
  after_add pw run true =
      let command = set_user_password (opts.username) pw in
      after_password pw (run ++ (command ∷ [])) ((env.runs) command)

  unfoldable pub after_group : Bytes → List Command → Bool → Created S
  unfolding after_add shell_of shadow_date
  after_group pw run false = failed system_failed run
  after_group pw run true =
      let command =
        add_user (opts.username) (d.group) (shell_of (d.shell)) (shadow_date (rec.expires_at)) in
      after_add pw (run ++ (command ∷ [])) ((env.runs) command)

  -- `EnsureGroup`.
  unfoldable pub with_group : Bytes → Created S
  unfolding after_group
  with_group pw =
      if inputs.group_exists
      then after_group pw [] true
      else after_group pw (add_group (d.group) ∷ []) ((env.runs) (add_group (d.group)))

  unfoldable pub after_lookup : Bytes → UserError ⊎ UserRecord → Created S
  unfolding with_group
  after_lookup pw (inr u) = failed user_exists []
  after_lookup pw (inl e) =
      if (env.system_user_exists) (opts.username)
      then failed system_account_exists []
      else with_group pw

  unfoldable pub after_check : Bytes → Option PasswordError → Created S
  unfolding after_lookup get_user
  after_check pw (some e) = failed bad_password []
  after_check pw none = after_lookup pw (get_user bucket (env.opens) s (opts.username))

  unfoldable pub after_choice : Option Bytes → Created S
  unfolding after_check validate_password
  after_choice none = failed no_random []
  after_choice (some pw) = after_check pw (validate_password pw)

  unfoldable pub after_name : Option UsernameError → Created S
  unfolding after_choice password_of
  after_name (some e) = failed bad_username []
  after_name none = after_choice (password_of inputs (opts.password))

  unfoldable pub create : Created S
  unfolding after_name validate_username
  create =
      if not (env.root) then failed not_root [] else after_name (validate_username (opts.username))
