-- ===== src/User/Tests.antt =====
-- Runs of the models of internal/store, internal/user and the daemon's enforcement, on a bucket
-- that is a list of entries.
use ssh_vpn.Common.{
  ℕ, ◌+◌, ◌*◌, ◌<◌, ℤ, pos, pos_part, Bytes, codes, bytes_eq, bytes_eq_iff, Bool, true, false, List,
  [], ◌∷◌, Option, none, some, if◌then◌else◌, inl, ◌≡◌, refl, arith,
}
use ssh_vpn.Config.{LimiterConfig, UserDefaultsConfig}
use ssh_vpn.User.Create.{CreateUserOpts, Inputs, default, create}
use ssh_vpn.User.Remove.{delete}
use ssh_vpn.User.Remove.Removed.{IsDropped, delete-IsDropped}
use ssh_vpn.User.Create.Stored.{IsPlaced, create-IsPlaced}
use ssh_vpn.User.Account.{UserRecord, lock_manual, is_expired, quota_exceeded}
use ssh_vpn.User.Bucket.{Bucket}
use ssh_vpn.Common.Assoc.{lookup}
use ssh_vpn.User.Accounting.{account, base_of}
use ssh_vpn.User.Accounting.Once.{account-lookup}
use ssh_vpn.User.Accounting.Passes.{Sight}
use ssh_vpn.User.Session.{Session}
use ssh_vpn.User.Manager.{Env, renew, unlock}
use ssh_vpn.User.Locks.{Unlocked, Renewed, unlock-Unlocked, renew-Renewed}
use ssh_vpn.User.Operations.{op_renew, op_reset_traffic, op_lock, perform, HeldFor, perform-other}
use ssh_vpn.User.Lifetime.{Act, operate, create_account, delete_account, run, run-HeldFor}
use ssh_vpn.User.Enforce.{disconnect, action, Progress, enforce}
use ssh_vpn.User.Enforce.Limit.{IsCut, action-IsCut}
use ssh_vpn.User.Enforce.Pass.{Shut, enforce-Shut}

abbrev Entries : Type 0
Entries = List (Bytes × UserRecord)

unfoldable get_entry : Entries → Bytes → Option UserRecord
get_entry [] name = none
get_entry ((k, u) ∷ m) name = if bytes_eq k name then some u else get_entry m name

unfoldable delete_entry : Entries → Bytes → Entries
delete_entry [] name = []
delete_entry ((k, u) ∷ m) name =
    let rest = delete_entry m name in if bytes_eq k name then rest else (k, u) ∷ rest

get_entry-delete_entry :
    (m : Entries) (k j : Bytes)
    → get_entry (delete_entry m k) j ≡ (if bytes_eq k j then none else get_entry m j)
unfolding get_entry delete_entry
get_entry-delete_entry [] k j = by_key (bytes_eq k j)
  where
    by_key : (b : Bool) → Path (Option UserRecord) none (if b then none else none)
    by_key true = refl
    by_key false = refl
get_entry-delete_entry ((i, u) ∷ m) k j =
    ground
      (arith, get_entry-delete_entry m k j, bytes_eq_iff i k, bytes_eq_iff i j, bytes_eq_iff k j)

abbrev entries : Bucket Entries
entries = record {
  get = get_entry;
  put = λ m k u. (k, u) ∷ m;
  delete = delete_entry;
  get-put = λ m k j u. unfold get_entry in refl;
  get-delete = get_entry-delete_entry;
}

abbrev alice : Bytes
alice = codes "alice"

abbrev hour : ℕ
hour = 3600 * 1000000000

-- Locked by an administrator, in the hour 10, to expire in the hour 20.
abbrev alice_account : UserRecord
alice_account = record {
  username = alice;
  max_connections = pos 1;
  expires_at = 20 * hour;
  created_at = 1 * hour;
  disabled = true;
  lock_reason = lock_manual;
  notes = [];
  traffic_limit = pos 1000;
  traffic_used = pos 400;
  last_seen = 9 * hour;
}

abbrev stored : Entries
stored = (alice, alice_account) ∷ []

abbrev day_later : ℕ → ℤ → ℕ
day_later t days = t + pos_part days * (24 * hour)

abbrev at_hour : ℕ → Env
at_hour h = record {
  root = true;
  opens = true;
  system_user_exists = λ name. true;
  runs = λ command. true;
  scan = none;
  now = h * hour;
  add_days = day_later;
}

unlock-Unlocked_example :
    Unlocked entries
      (10 * hour)
      stored
      alice
      ((unlock entries (at_hour 10) stored alice).user)
      ((unlock entries (at_hour 10) stored alice).db)
unlock-Unlocked_example = unlock-Unlocked entries (at_hour 10) stored alice

two_days_later : (t : ℕ) → t < day_later t (pos 2)
two_days_later t = omega arith

renew-Renewed_example :
    Renewed entries
      (30 * hour)
      stored
      alice
      ((renew entries (at_hour 30) stored alice (pos 2)).user)
      ((renew entries (at_hour 30) stored alice (pos 2)).db)
renew-Renewed_example = renew-Renewed entries (at_hour 30) stored alice (pos 2) two_days_later

abbrev bob : Bytes
bob = codes "bob"

held : HeldFor entries lock_manual stored alice
unfolding get_entry bytes_eq
held = (alice_account, refl, refl, refl)

perform-other_example :
    get_entry ((perform entries (at_hour 11) stored (op_lock bob [])).db) alice
    ≡ get_entry stored alice
unfolding bytes_eq
perform-other_example = perform-other entries (at_hour 11) stored (op_lock bob []) alice refl

abbrev phone : ℕ → Session
phone pid = record {
  pid = pid;
  monitor_pid = 1;
  username = alice;
  uid = 1001;
  client_ip = [];
  client_port = 0;
  server_port = 22;
  via = codes "ssh";
  started_at = pid;
  bytes = 0;
  udpgw_ports = [];
}

abbrev open_account : UserRecord
open_account = record alice_account { disabled = false; lock_reason = [] }

abbrev limiter : LimiterConfig
limiter = record { enabled = true; policy = codes "oldest"; interval_secs = pos 5 }

action-IsCut_example :
    (gone : List Session) × (action limiter (10 * hour) open_account (phone 7 ∷ phone 8 ∷ [])
      ≡ disconnect gone)
    × IsCut (bytes_eq (codes "oldest") (codes "newest")) 1 (phone 7 ∷ phone 8 ∷ []) gone
unfolding is_expired quota_exceeded
action-IsCut_example =
    action-IsCut limiter (10 * hour) open_account (phone 7 ∷ phone 8 ∷ []) 1 refl refl refl refl
      refl (omega arith) (omega arith)

abbrev before_pass : Progress entries
before_pass = record { db = (alice, open_account) ∷ []; killing = []; commands = [] }

enforce-Shut_example :
    Shut entries
      ((enforce entries limiter
        (at_hour 21)
        (λ name. [])
        ((alice, open_account) ∷ [])
        before_pass).db)
      alice
unfolding is_expired quota_exceeded get_entry bytes_eq
enforce-Shut_example =
    enforce-Shut entries limiter (at_hour 21) (λ name. []) ((alice, open_account) ∷ []) before_pass
      alice open_account refl (inl (refl, refl)) refl refl (open_account, refl)

abbrev carol_opts : CreateUserOpts
carol_opts = record {
  username = codes "carol";
  password = codes "s3cret9";
  max_connections = pos 0;
  expiration_days = pos 30;
  traffic = default;
  notes = [];
}

abbrev plain : Inputs
plain = record { group_exists = false; draw = λ i. none; default_limit = none; stores = true }

abbrev user_defaults : UserDefaultsConfig
user_defaults = record {
  default_expiration_days = pos 30;
  default_max_connections = pos 2;
  shell = [];
  group = codes "sshvpn";
}

abbrev week : List Act
week =
    operate (at_hour 11) (op_reset_traffic alice)
    ∷ operate (at_hour 30) (op_renew alice (pos 2))
    ∷ create_account (at_hour 30) plain user_defaults carol_opts
    ∷ operate (at_hour 31) (op_lock bob [])
    ∷ delete_account (at_hour 32) bob
    ∷ []

run-HeldFor_example : HeldFor entries lock_manual (run entries stored week) alice
unfolding bytes_eq
run-HeldFor_example =
    run-HeldFor entries lock_manual alice refl refl stored week
      (tt, (tt, ((λ same. refl), (refl, (refl, tt))))) held

create-IsPlaced_example :
    IsPlaced entries
      (at_hour 10)
      plain
      user_defaults
      carol_opts
      stored
      (create entries (at_hour 10) plain user_defaults carol_opts stored)
create-IsPlaced_example = create-IsPlaced entries (at_hour 10) plain user_defaults carol_opts stored

abbrev reading : ℕ → Session
reading n = record (phone 7) { bytes = n }

abbrev sight : ℕ → Sight
sight n = record {
  before = record (phone 6) { username = codes "carol" } ∷ [];
  seen = reading n;
  behind = [];
}

account-lookup_example :
    lookup 7 (account [] false 3 (phone 6 ∷ phone 7 ∷ phone 8 ∷ []) [] []).1
    ≡ some (base_of (phone 7))
account-lookup_example =
    account-lookup [] false 3 (phone 6 ∷ []) (phone 7) (phone 8 ∷ []) [] [] (refl, tt)

delete-IsDropped_example :
    IsDropped entries (at_hour 10) stored alice (delete entries (at_hour 10) stored alice)
delete-IsDropped_example = delete-IsDropped entries (at_hour 10) stored alice
