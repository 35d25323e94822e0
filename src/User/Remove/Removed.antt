-- ===== src/User/Remove/Removed.antt =====
-- `Manager.Delete` removes one account, or nothing.
use ssh_vpn.Common.{
  Bytes, bytes_eq, Bool, true, false, not, List, ◌++◌, Option, none, some, if◌then◌else◌, ◌⊎◌, inl,
  inr, ◌≡◌, refl, if-both,
}
use ssh_vpn.Security.{UsernameError, validate_username}
use ssh_vpn.User.Account.{UserRecord}
use ssh_vpn.User.Bucket.{Bucket, UserError, get_user, delete_user}
use ssh_vpn.User.Manager.{Env, Reply, Command, lock_system, kick}
use ssh_vpn.User.Remove.{drop_record, after_userdel, after_found, after_valid, delete}

module _ {S : Type 0} (bucket : Bucket S) (env : Env) (s : S) (name : Bytes) where
  -- After an error the database is as before; after none the account is gone, and every other
  -- is as it was.
  abbrev pub Dropped : Option UserError → S → Type 0
  Dropped (some e) t = t ≡ s
  Dropped none t =
      (j : Bytes) → (bucket.get) t j ≡ (if bytes_eq name j then none else (bucket.get) s j)

  abbrev pub IsDropped : Reply S → Type 0
  IsDropped r = Dropped (r.error) (r.db)

  userdel-IsDropped :
      (run : List Command) (b : Bool) → IsDropped (after_userdel bucket env s name run b)
  unfolding after_userdel
  userdel-IsDropped run false = refl
  userdel-IsDropped run true = opened (env.opens)
    where
      opened :
          (b : Bool) → IsDropped (drop_record bucket env s name run (delete_user bucket b s name))
      opened true = λ j. (bucket.get-delete) s name j
      opened false = refl

  found-IsDropped : (r : UserError ⊎ UserRecord) → IsDropped (after_found bucket env s name r)
  unfolding after_found
  found-IsDropped (inl e) = refl
  found-IsDropped (inr u) =
      if-both {A = Reply S} IsDropped ((env.system_user_exists) name) _ _
        (λ _. userdel-IsDropped _ _)
        (λ _. userdel-IsDropped ((lock_system env name).1 ++ kick env name) true)

  valid-IsDropped : (e : Option UsernameError) → IsDropped (after_valid bucket env s name e)
  unfolding after_valid
  valid-IsDropped (some e) = refl
  valid-IsDropped none = found-IsDropped (get_user bucket (env.opens) s name)

  -- `Delete` either reports an error and leaves the database as it was, or removes the account
  -- that it names and no other.
  pub delete-IsDropped : IsDropped (delete bucket env s name)
  unfolding delete
  delete-IsDropped =
      if-both {A = Reply S} IsDropped (not (env.root)) _ _ (λ _. refl)
        (λ _. valid-IsDropped (validate_username name))
