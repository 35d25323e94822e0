-- ===== src/User/Lifetime.antt =====
-- A life of the database of accounts: `Create`, `Delete` and the other operations of
-- internal/user/manager.go that write to it, in any order, each in an environment of its own.
use ssh_vpn.Common.{
  Bytes, bytes_eq, true, false, List, [], ◌∷◌, All, Option, none, some, if◌then◌else◌, ◌⊎◌, inl,
  inr, ◌≡◌, sym, ap, ◌∙◌, Bool-cases, bytes_eq_iff,
}
use ssh_vpn.Config.{UserDefaultsConfig}
use ssh_vpn.User.Account.{UserRecord, lock_expired, lock_quota}
use ssh_vpn.User.Bucket.{Bucket, UserError}
use ssh_vpn.User.Manager.{Env}
use ssh_vpn.User.Operations.{Operation, Spares, perform, HeldFor, perform-HeldFor}
use ssh_vpn.User.Create.{CreateUserOpts, Inputs, create}
use ssh_vpn.User.Create.Stored.{Placed, create-IsPlaced}
use ssh_vpn.User.Remove.{delete}
use ssh_vpn.User.Remove.Removed.{Dropped, delete-IsDropped}

pub data Act : Type 0 where
  operate : Env → Operation → Act
  create_account : Env → Inputs → UserDefaultsConfig → CreateUserOpts → Act
  delete_account : Env → Bytes → Act

-- The act is no `Lock`, no `Unlock` and no `Delete` of that account, and a `Create` of it finds
-- the database open for its lookup.
abbrev pub SparesLock : Bytes → Act → Type 0
SparesLock name (operate env op) = Spares name op
SparesLock name (create_account env inputs d opts) =
    bytes_eq (opts.username) name ≡ true → env.opens ≡ true
SparesLock name (delete_account env n) = bytes_eq n name ≡ false

module _ {S : Type 0} (bucket : Bucket S) where
  abbrev pub act : S → Act → S
  act s (operate env op) = (perform bucket env s op).db
  act s (create_account env inputs d opts) = (create bucket env inputs d opts s).db
  act s (delete_account env name) = (delete bucket env s name).db

  abbrev pub run : S → List Act → S
  run s [] = s
  run s (a ∷ acts) = run (act s a) acts

  Placed-HeldFor :
      (env : Env) (inputs : Inputs) (d : UserDefaultsConfig) (opts : CreateUserOpts) (s t : S)
      (reason name : Bytes) (r : UserError ⊎ (UserRecord × Bytes))
      → (bytes_eq (opts.username) name ≡ true → env.opens ≡ true)
      → HeldFor bucket reason s name
      → Placed bucket env inputs d opts s r t
      → HeldFor bucket reason t name
  Placed-HeldFor env inputs d opts s t reason name (inl e) open_for (v, stored, off, why) p =
      (v, ap (λ (x : S). (bucket.get) x name) p ∙ stored, off, why)
  Placed-HeldFor env inputs d opts s t reason name (inr (u, pw)) open_for (v, stored, off, why) p =
      elim (Bool-cases (bytes_eq (opts.username) name)) [
        | inl same ↦
            let gone : (bucket.get) s name ≡ none =
              ap ((bucket.get) s) (sym ((bytes_eq_iff (opts.username) name).0 same))
              ∙ p.1 (open_for same) in
            absurd (cc (gone, stored))
        | inr apart ↦ (
          v,
          p.0 name ∙ ap (λ b. if b then some u else (bucket.get) s name) apart ∙ stored,
          off,
          why,
        )
      ]

  Dropped-HeldFor :
      (env : Env) (s t : S) (reason name n : Bytes) (e : Option UserError)
      → bytes_eq n name ≡ false
      → HeldFor bucket reason s name
      → Dropped bucket env s n e t
      → HeldFor bucket reason t name
  Dropped-HeldFor env s t reason name n (some e) apart (v, stored, off, why) p =
      (v, ap (λ (x : S). (bucket.get) x name) p ∙ stored, off, why)
  Dropped-HeldFor env s t reason name n none apart (v, stored, off, why) p =
      (v, p name ∙ ap (λ b. if b then none else (bucket.get) s name) apart ∙ stored, off, why)

  module _ (reason name : Bytes) (ne : bytes_eq reason lock_expired ≡ false)
      (nq : bytes_eq reason lock_quota ≡ false) where
    act-HeldFor :
        (s : S) (a : Act)
        → SparesLock name a
        → HeldFor bucket reason s name
        → HeldFor bucket reason (act s a) name
    act-HeldFor s (operate env op) sp h = perform-HeldFor bucket env s op reason name ne nq sp h
    act-HeldFor s (create_account env inputs d opts) sp h =
        Placed-HeldFor env inputs d opts s _ reason name _ sp h
          (create-IsPlaced bucket env inputs d opts s)
    act-HeldFor s (delete_account env n) sp h =
        Dropped-HeldFor env s _ reason name n _ sp h (delete-IsDropped bucket env s n)

    -- A lock for another reason than expiry or quota, such as an administrator's, holds through
    -- every sequence of creations, deletions, renewals, changes of expiry, connections and traffic,
    -- locks and unlocks, if none is a `Lock`, `Unlock` or `Delete` of that account, nor a `Create`
    -- of it that cannot open the database for its lookup.
    pub run-HeldFor :
        (s : S) (acts : List Act)
        → All (SparesLock name) acts
        → HeldFor bucket reason s name
        → HeldFor bucket reason (run s acts) name
    run-HeldFor s [] sp h = h
    run-HeldFor s (a ∷ acts) sp h = run-HeldFor (act s a) acts sp.1 (act-HeldFor s a sp.0 h)
