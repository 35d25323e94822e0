-- ===== src/User/Locks.antt =====
-- What the operations of internal/user/manager.go do to locks, expiry and quota.
use ssh_vpn.Common.{
  ℕ, ◌<◌, ℤ, pos, leb_ℤ, Bytes, bytes_eq, Bool, true, false, not, ◌&&◌, [], Option, none, some,
  if◌then◌else◌, ◌⊎◌, inl, inr, ◌≡◌, refl, sym, ap, ◌∙◌, subst, arith, if-both,
}
use ssh_vpn.User.Account.{UserRecord, active, status_of, lock_expired, is_expired, quota_exceeded}
use ssh_vpn.User.Bucket.{Bucket, UserError, update_user}
use ssh_vpn.User.Bucket.Laws.{Updated, update_user-Updated, bytes_eq_refl}
use ssh_vpn.User.Manager.{Env, Reply, renewed, unlocked, synced, refused, renew, unlock}

module _ {S : Type 0} (bucket : Bucket S) where
  -- What a reply says of the database: with no record it is as before; a record was made by `fn`
  -- from the stored one and is stored, with every other name as it was.
  abbrev pub Settled :
      S → Bytes → (UserRecord → UserError ⊎ UserRecord) → Option UserRecord → S → Type 0
  Settled s name fn none t = t ≡ s
  Settled s name fn (some u) t =
      ((old : UserRecord) × ((bucket.get) s name ≡ some old) × (fn old ≡ inr u))
      × ((j : Bytes) → (bucket.get) t j ≡ (if bytes_eq name j then some u else (bucket.get) s j))

  pub synced-Settled :
      (env : Env) (s : S) (name : Bytes) (fn : UserRecord → UserError ⊎ UserRecord)
      (r : (UserError ⊎ UserRecord) × S)
      → Updated bucket s name fn r
      → Settled s name fn ((synced bucket env r).user) ((synced bucket env r).db)
  unfolding synced
  synced-Settled env s name fn (inl e, t) h = h
  synced-Settled env s name fn (inr u, t) h = h

  -- A record that a reply returns is the stored one.
  pub Settled-get :
      (s : S) (name : Bytes) (fn : UserRecord → UserError ⊎ UserRecord) (u : UserRecord) (t : S)
      → Settled s name fn (some u) t
      → (bucket.get) t name ≡ some u
  Settled-get s name fn u t h =
      h.1 name ∙ ap (λ b. if b then some u else (bucket.get) s name) (bytes_eq_refl name)

  all_clear-active :
      (u : UserRecord) (now : ℕ)
      → u.disabled ≡ false
      → is_expired u now ≡ false
      → quota_exceeded u ≡ false
      → status_of u now ≡ active
  unfolding status_of
  all_clear-active u now d e q = rw (d, e, q) refl

  -- After `Unlock`: if it returned a record, the stored account is active; if it did not, the
  -- database is as it was.
  abbrev pub Unlocked : ℕ → S → Bytes → Option UserRecord → S → Type 0
  Unlocked now s name none t = t ≡ s
  Unlocked now s name (some u) t = ((bucket.get) t name ≡ some u) × (status_of u now ≡ active)

  unlocked-active :
      (now : ℕ) (old u : UserRecord) → unlocked now old ≡ inr u → status_of u now ≡ active
  unfolding unlocked is_expired quota_exceeded
  unlocked-active now old u =
      if-both (λ r. r ≡ inr u → status_of u now ≡ active) (is_expired old now) _ _
        (λ _ e. absurd (cc))
        (λ f.
          if-both (λ r. r ≡ inr u → status_of u now ≡ active) (quota_exceeded old) _ _
            (λ _ e. absurd (cc))
            (λ g e.
              subst (λ x. status_of x now ≡ active) (inr-inj _ u e)
                (all_clear-active (record old { disabled = false; lock_reason = [] }) now refl f
                  g)))
    where
      inr-inj : (a b : UserRecord) → Path (UserError ⊎ UserRecord) (inr a) (inr b) → a ≡ b
      inr-inj a b e = cc

  -- `Unlock` either returns a record, which is stored and whose status is then active, or
  -- leaves the database as it was: an expired account, and one over its quota, stay locked.
  pub unlock-Unlocked :
      (env : Env) (s : S) (name : Bytes)
      → Unlocked (env.now) s name ((unlock bucket env s name).user) ((unlock bucket env s name).db)
  unfolding unlock
  unlock-Unlocked env s name = by_user ((synced bucket env r).user) ((synced bucket env r).db) (
      synced-Settled env s name (unlocked (env.now)) r
        (update_user-Updated bucket (env.opens) s name (unlocked (env.now))))
    where
      r : (UserError ⊎ UserRecord) × S
      r = update_user bucket (env.opens) s name (unlocked (env.now))

      by_user :
          (o : Option UserRecord) (t : S)
          → Settled s name (unlocked (env.now)) o t
          → Unlocked (env.now) s name o t
      by_user none t h = h
      by_user (some u) t h =
          (Settled-get s name (unlocked (env.now)) u t h, unlocked-active (env.now) (h.0.0) u h.0.2)

  -- After `Renew`: a returned record is stored, is not expired, and is disabled exactly if it
  -- was so before for another reason than its expiry.
  abbrev pub Renewed : ℕ → S → Bytes → Option UserRecord → S → Type 0
  Renewed now s name none t = t ≡ s
  Renewed now s name (some u) t =
      (old : UserRecord) × ((bucket.get) s name ≡ some old)
      × ((bucket.get) t name ≡ some u)
      × (is_expired u now ≡ false)
      × (u.disabled ≡ (old.disabled && not (bytes_eq (old.lock_reason) lock_expired)))

  renewed-current :
      (env : Env) (days : ℤ) (u : UserRecord)
      → ((t : ℕ) → t < (env.add_days) t days)
      → is_expired (renewed env days u) (env.now) ≡ false
  unfolding renewed is_expired
  renewed-current env days u later = ground (arith, later (u.expires_at), later (env.now))

  renewed-disabled :
      (env : Env) (days : ℤ) (u : UserRecord)
      → (renewed env days u).disabled ≡ (u.disabled && not (bytes_eq (u.lock_reason) lock_expired))
  unfolding renewed
  renewed-disabled env days u = lifted (u.disabled) (bytes_eq (u.lock_reason) lock_expired)
    where
      lifted : (d e : Bool) → (if d && e then false else d) ≡ (d && not e)
      lifted true true = refl
      lifted true false = refl
      lifted false true = refl
      lifted false false = refl

  -- `Renew`, for days that move every time later, either leaves the database as it was or
  -- stores an account that is not expired and whose lock is lifted exactly if it was one for
  -- expiry.
  pub renew-Renewed :
      (env : Env) (s : S) (name : Bytes) (days : ℤ)
      → ((t : ℕ) → t < (env.add_days) t days)
      → Renewed
          (env.now)
          s
          name
          ((renew bucket env s name days).user)
          ((renew bucket env s name days).db)
  unfolding renew refused
  renew-Renewed env s name days later =
      if-both {A = Reply S} (λ q. Renewed (env.now) s name (q.user) (q.db)) (leb_ℤ days (pos 0)) _ _
        (λ _. refl)
        (λ _. by_user _ _ (
          synced-Settled env s name fn (update_user bucket (env.opens) s name fn)
            (update_user-Updated bucket (env.opens) s name fn)))
    where
      fn : UserRecord → UserError ⊎ UserRecord
      fn u = inr (renewed env days u)

      inr-inj : (a b : UserRecord) → Path (UserError ⊎ UserRecord) (inr a) (inr b) → a ≡ b
      inr-inj a b e = cc

      by_user :
          (o : Option UserRecord) (t : S) → Settled s name fn o t → Renewed (env.now) s name o t
      by_user none t h = h
      by_user (some u) t h =
          let made = inr-inj (renewed env days h.0.0) u h.0.2 in
          (
            h.0.0,
            h.0.1,
            Settled-get s name fn u t h,
            subst (λ x. is_expired x (env.now) ≡ false) made (renewed-current env days h.0.0 later),
            ap (λ x. x.disabled) (sym made) ∙ renewed-disabled env days h.0.0,
          )
