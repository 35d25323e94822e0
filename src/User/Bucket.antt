-- ===== src/User/Bucket.antt =====
-- The transactions of internal/store/store.go on the bucket of users. The database is bbolt's:
-- what a bucket does is an interface with the laws the code relies on, the JSON encoding of a
-- record included. `opens` says whether the database file could be opened.
pub mod Laws
use ssh_vpn.Common.{
  ℕ, ℤ, pos, ltb_ℤ, Bytes, bytes_eq, Bool, true, false, List, [], ◌∷◌, Option, none, some, ◌≡◌, ◌⊎◌,
  inl, inr, if◌then◌else◌,
}
use ssh_vpn.User.Account.{UserRecord, add_int64}

pub record Bucket (S : Type 0) : Type 0 where
  pub get : S → Bytes → Option UserRecord
  pub put : S → Bytes → UserRecord → S
  pub delete : S → Bytes → S
  pub get-put :
      (s : S) (k j : Bytes) (u : UserRecord)
      → get (put s k u) j ≡ (if bytes_eq k j then some u else get s j)
  pub get-delete :
      (s : S) (k j : Bytes) → get (delete s k) j ≡ (if bytes_eq k j then none else get s j)

pub data UserError : Type 0 where
  cannot_open : UserError
  not_found : Bytes → UserError
  days_not_positive : UserError
  connections_below_one : UserError
  expired_renew_instead : Bytes → UserError
  quota_used_up : Bytes → UserError
  system_failed : UserError
  not_root : UserError
  bad_username : UserError
  bad_password : UserError
  no_random : UserError
  user_exists : UserError
  system_account_exists : UserError

module _ {S : Type 0} (bucket : Bucket S) where
  unfoldable pub put_user : Bool → S → UserRecord → Option UserError × S
  put_user opens s u =
      if opens then (none, (bucket.put) s (u.username) u) else (some cannot_open, s)

  unfoldable pub get_user : Bool → S → Bytes → UserError ⊎ UserRecord
  get_user opens s name =
      if opens
      then (elim ((bucket.get) s name) [ none ↦ inl (not_found name) | some u ↦ inr u ])
      else inl cannot_open

  -- What is stored once the function has answered; a failed transaction is rolled back.
  unfoldable pub store_answer : S → Bytes → UserError ⊎ UserRecord → (UserError ⊎ UserRecord) × S
  store_answer s name (inl e) = (inl e, s)
  store_answer s name (inr u) = (inr u, (bucket.put) s name u)

  unfoldable pub update_found :
      S
      → Bytes
      → Option UserRecord
      → (UserRecord → UserError ⊎ UserRecord)
      → (UserError ⊎ UserRecord) × S
  unfolding store_answer
  update_found s name none fn = (inl (not_found name), s)
  update_found s name (some u) fn = store_answer s name (fn u)

  unfoldable pub update_user :
      Bool → S → Bytes → (UserRecord → UserError ⊎ UserRecord) → (UserError ⊎ UserRecord) × S
  unfolding update_found
  update_user opens s name fn =
      if opens then update_found s name ((bucket.get) s name) fn else (inl cannot_open, s)

  -- One turn of the loop of `AddTraffic`.
  unfoldable pub add_delta : S → Option UserRecord → Bytes → ℤ → ℕ → S
  unfolding add_int64
  add_delta s none name delta seen = s
  add_delta s (some u) name delta seen = (bucket.put) s name (record u {
    traffic_used = if ltb_ℤ (pos 0) delta then add_int64 (u.traffic_used) delta else u.traffic_used;
    last_seen = seen;
  })

  unfoldable pub add_deltas : S → List (Bytes × ℤ) → ℕ → S
  unfolding add_delta
  add_deltas s [] seen = s
  add_deltas s ((name, delta) ∷ rest) seen =
      add_deltas (add_delta s ((bucket.get) s name) name delta seen) rest seen

  unfoldable pub add_traffic : Bool → S → List (Bytes × ℤ) → ℕ → Option UserError × S
  unfolding add_deltas
  add_traffic opens s [] seen = (none, s)
  add_traffic opens s (d ∷ ds) seen =
      if opens then (none, add_deltas s (d ∷ ds) seen) else (some cannot_open, s)

  unfoldable pub delete_user : Bool → S → Bytes → Option UserError × S
  delete_user opens s name = if opens then (none, (bucket.delete) s name) else (some cannot_open, s)
