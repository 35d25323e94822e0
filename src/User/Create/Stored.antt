-- ===== src/User/Create/Stored.antt =====
-- `Manager.Create` stores a new account, or nothing.
use ssh_vpn.Common.{
  Bytes, bytes_eq, Bool, true, false, not, List, [], Option, none, some, if◌then◌else◌, ◌⊎◌, inl,
  inr, ◌≡◌, refl, sym, ap, ◌∙◌, if-both,
}
use ssh_vpn.Config.{UserDefaultsConfig}
use ssh_vpn.Security.{UsernameError, PasswordError, validate_username, validate_password}
use ssh_vpn.User.Account.{UserRecord}
use ssh_vpn.User.Bucket.{Bucket, UserError, get_user, put_user}
use ssh_vpn.User.Manager.{Env, Command}
use ssh_vpn.User.Create.{
  CreateUserOpts, Inputs, Created, new_record, password_of, rec, after_put, after_password,
  after_add, after_group, with_group, after_lookup, after_check, after_choice, after_name, create,
}

module _ {S : Type 0} (bucket : Bucket S) (env : Env) (inputs : Inputs) (d : UserDefaultsConfig)
    (opts : CreateUserOpts) (s : S) where
  -- With no account made the database is as before. An account that was made is stored unlocked
  -- under its name, which no account had if the database could be read; its name and password are
  -- valid, and every other name is as it was.
  abbrev pub Placed : UserError ⊎ (UserRecord × Bytes) → S → Type 0
  Placed (inl e) t = t ≡ s
  Placed (inr (u, pw)) t =
      ((j : Bytes)
        → (bucket.get) t j ≡ (if bytes_eq (opts.username) j then some u else (bucket.get) s j))
      × (env.opens ≡ true → (bucket.get) s (opts.username) ≡ none)
      × (u.disabled ≡ false)
      × (validate_username (opts.username) ≡ none)
      × (validate_password pw ≡ none)

  abbrev pub IsPlaced : Created S → Type 0
  IsPlaced r = Placed (r.made) (r.db)

  module _ (named : validate_username (opts.username) ≡ none) where
    module _ (pw : Bytes) (strong : validate_password pw ≡ none) where
      module _ (unknown : env.opens ≡ true → (bucket.get) s (opts.username) ≡ none) where
        put-IsPlaced :
            (run : List Command) (b : Bool)
            → IsPlaced (
                after_put bucket env inputs d opts s pw run
                  (put_user bucket b s (rec bucket env inputs d opts s)))
        unfolding after_put put_user new_record
        put-IsPlaced run false = refl
        put-IsPlaced run true = (
          (λ j. (bucket.get-put) s (opts.username) j (rec bucket env inputs d opts s)),
          unknown,
          refl,
          named,
          strong,
        )

        password-IsPlaced :
            (run : List Command) (b : Bool)
            → IsPlaced (after_password bucket env inputs d opts s pw run b)
        unfolding after_password
        password-IsPlaced run false = refl
        password-IsPlaced run true = put-IsPlaced run (inputs.stores)

        add-IsPlaced :
            (run : List Command) (b : Bool)
            → IsPlaced (after_add bucket env inputs d opts s pw run b)
        unfolding after_add
        add-IsPlaced run false = refl
        add-IsPlaced run true = password-IsPlaced _ _

        group-IsPlaced :
            (run : List Command) (b : Bool)
            → IsPlaced (after_group bucket env inputs d opts s pw run b)
        unfolding after_group
        group-IsPlaced run false = refl
        group-IsPlaced run true = add-IsPlaced _ _

        with_group-IsPlaced : IsPlaced (with_group bucket env inputs d opts s pw)
        unfolding with_group
        with_group-IsPlaced =
            if-both {A = Created S} IsPlaced (inputs.group_exists) _ _ (λ _. group-IsPlaced [] true)
              (λ _. group-IsPlaced _ _)

      lookup-IsPlaced :
          (r : UserError ⊎ UserRecord)
          → get_user bucket (env.opens) s (opts.username) ≡ r
          → IsPlaced (after_lookup bucket env inputs d opts s pw r)
      unfolding after_lookup get_user
      lookup-IsPlaced (inr u) e = refl
      lookup-IsPlaced (inl x) e =
          if-both {A = Created S} IsPlaced ((env.system_user_exists) (opts.username)) _ _
            (λ _. refl)
            (λ _.
              with_group-IsPlaced (λ o. absent ((bucket.get) s (opts.username)) refl (missing o)))
        where
          missing : env.opens ≡ true → get_user bucket true s (opts.username) ≡ inl x
          missing o = ap (λ b. get_user bucket b s (opts.username)) (sym o) ∙ e

          absent :
              (v : Option UserRecord)
              → (bucket.get) s (opts.username) ≡ v
              → get_user bucket true s (opts.username) ≡ inl x
              → (bucket.get) s (opts.username) ≡ none
          absent none f g = f
          absent (some u) f g = absurd (let found = rw (f, get_user) at g in cc)

      check-IsPlaced : IsPlaced (after_check bucket env inputs d opts s pw none)
      unfolding after_check
      check-IsPlaced = lookup-IsPlaced (get_user bucket (env.opens) s (opts.username)) refl

    strong-IsPlaced :
        (pw : Bytes) (e : Option PasswordError)
        → validate_password pw ≡ e
        → IsPlaced (after_check bucket env inputs d opts s pw e)
    unfolding after_check
    strong-IsPlaced pw none f = check-IsPlaced pw f
    strong-IsPlaced pw (some e) f = refl

    choice-IsPlaced : (o : Option Bytes) → IsPlaced (after_choice bucket env inputs d opts s o)
    unfolding after_choice
    choice-IsPlaced none = refl
    choice-IsPlaced (some pw) = strong-IsPlaced pw (validate_password pw) refl

  name-IsPlaced :
      (e : Option UsernameError)
      → validate_username (opts.username) ≡ e
      → IsPlaced (after_name bucket env inputs d opts s e)
  unfolding after_name
  name-IsPlaced none f = choice-IsPlaced f (password_of inputs (opts.password))
  name-IsPlaced (some e) f = refl

  -- `Create` either leaves the database as it was, or stores one account: unlocked, under a valid
  -- name, with a valid password, and with every other name as it was. No stored account had the
  -- name, if the database could be opened for the lookup.
  pub create-IsPlaced : IsPlaced (create bucket env inputs d opts s)
  unfolding create
  create-IsPlaced =
      if-both {A = Created S} IsPlaced (not (env.root)) _ _ (λ _. refl)
        (λ _. name-IsPlaced (validate_username (opts.username)) refl)
