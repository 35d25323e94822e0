-- ===== src/User/Enforce/Pass.antt =====
-- A pass of the enforcement of internal/daemon/daemon.go.
use ssh_vpn.Common.{
  ℕ, Bytes, bytes_eq, Bool, true, false, ◌||◌, List, [], ◌∷◌, ◌++◌, Option, none, some,
  if◌then◌else◌, ◌≡◌, refl, sym, ap, ◌∙◌, subst, Bool-cases, ◌⊎◌, inl, inr,
}
use ssh_vpn.Config.{LimiterConfig}
use ssh_vpn.User.Account.{UserRecord, lock_expired, lock_quota, is_expired, quota_exceeded}
use ssh_vpn.User.Bucket.{Bucket, UserError, update_user, update_found, store_answer}
use ssh_vpn.User.Bucket.Laws.{bytes_eq_refl}
use ssh_vpn.User.Enforce.{Action, lock_for, disconnect, leave, action, Progress, act, enforce}
use ssh_vpn.User.Locks.{Settled}
use ssh_vpn.User.Manager.{Env, Reply, synced, then_kick, kick, or_manual, lock}
use ssh_vpn.User.Operations.{op_lock, perform-Kept, change}
use ssh_vpn.User.Session.{Session}

-- The pair stands in the list.
abbrev pub Listed : Bytes → UserRecord → List (Bytes × UserRecord) → Type 0
Listed name u [] = ⊥
Listed name u ((n, v) ∷ rest) = ((n ≡ name) × (v ≡ u)) ⊎ Listed name u rest

inr-inj : (a b : UserRecord) → Path (UserError ⊎ UserRecord) (inr a) (inr b) → a ≡ b
inr-inj a b e = cc

action-locks :
    (limiter : LimiterConfig) (now : ℕ) (u : UserRecord) (ss : List Session)
    → u.disabled ≡ false
    → (is_expired u now || quota_exceeded u) ≡ true
    → (reason : Bytes) × (action limiter now u ss ≡ lock_for reason)
unfolding action
action-locks limiter now u ss d due = elim (Bool-cases (is_expired u now)) [
  | inl e ↦ (lock_expired, rw (d, e) refl)
  | inr e ↦ (lock_quota, let over = rw e at due in rw (d, e, over) refl)
]

module _ {S : Type 0} (bucket : Bucket S) where
  -- The account is stored, and locked.
  abbrev pub Shut : S → Bytes → Type 0
  Shut s name = (u : UserRecord) × ((bucket.get) s name ≡ some u) × (u.disabled ≡ true)

  abbrev pub Stored : S → Bytes → Type 0
  Stored s name = (u : UserRecord) × ((bucket.get) s name ≡ some u)

  abbrev SameDb : Reply S → Reply S → Type 0
  SameDb r q = q.db ≡ r.db

  then_kick-db : (env : Env) (name : Bytes) (r : Reply S) → (then_kick bucket env name r).db ≡ r.db
  unfolding then_kick
  then_kick-db env name r = by_error (r.error)
    where
      by_error :
          (e : Option UserError)
          → SameDb r
              (elim e [ some x ↦ r | none ↦ record r { commands = r.commands ++ kick env name } ])
      by_error none = refl
      by_error (some x) = refl

  synced-db : (env : Env) (r : (UserError ⊎ UserRecord) × S) → (synced bucket env r).db ≡ r.1
  unfolding synced
  synced-db env (inl e, t) = refl
  synced-db env (inr u, t) = refl

  lock-Shut :
      (env : Env) (s : S) (name reason : Bytes)
      → env.opens ≡ true
      → Stored s name
      → Shut ((lock bucket env s name reason).db) name
  unfolding lock update_user update_found store_answer
  lock-Shut env s name reason opens (v, stored) =
      subst (λ t. Shut t name) {x = (update_user bucket (env.opens) s name shut).1}
        (sym (
          then_kick-db env name (synced bucket env (update_user bucket (env.opens) s name shut))
          ∙ synced-db env (update_user bucket (env.opens) s name shut)))
        (rw (opens, stored)
          (
            record v { disabled = true; lock_reason = or_manual reason },
            (bucket.get-put) s name name _
                ∙ ap
                    (λ b.
                      if b
                      then some (record v { disabled = true; lock_reason = or_manual reason })
                      else (bucket.get) s name)
                    (bytes_eq_refl name),
            refl,
          ))
    where
      shut : UserRecord → UserError ⊎ UserRecord
      shut u = inr (record u { disabled = true; lock_reason = or_manual reason })

  -- What a lock leaves of another account, or makes of its own.
  lock-keeps :
      (env : Env) (s : S) (n reason name : Bytes)
      → ((v : UserRecord) × ((bucket.get) ((lock bucket env s n reason).db) name ≡ some v)
          × (v.disabled ≡ true))
        ⊎ ((bucket.get) ((lock bucket env s n reason).db) name ≡ (bucket.get) s name)
  lock-keeps env s n reason name =
      by_user ((lock bucket env s n reason).user) ((lock bucket env s n reason).db)
        (perform-Kept bucket env s (op_lock n reason))
    where
      by_name :
          (u old : UserRecord) (t : S) (b : Bool)
          → change env (op_lock n reason) old ≡ inr u
          → (bucket.get) t name ≡ (if b then some u else (bucket.get) s name)
          → ((v : UserRecord) × ((bucket.get) t name ≡ some v) × (v.disabled ≡ true))
            ⊎ ((bucket.get) t name ≡ (bucket.get) s name)
      by_name u old t true f g = inl (u, g, ap (λ x. x.disabled) (sym (inr-inj _ u f)))
      by_name u old t false f g = inr g

      by_user :
          (o : Option UserRecord) (t : S)
          → Settled bucket s n (change env (op_lock n reason)) o t
          → ((v : UserRecord) × ((bucket.get) t name ≡ some v) × (v.disabled ≡ true))
            ⊎ ((bucket.get) t name ≡ (bucket.get) s name)
      by_user none t h = inr (ap (λ x. (bucket.get) x name) h)
      by_user (some u) t h = by_name u h.0.0 t (bytes_eq n name) h.0.2 (h.1 name)

  act-Shut :
      (env : Env) (n name : Bytes) (a : Action) (p : Progress bucket)
      → Shut (p.db) name
      → Shut ((act bucket env n a p).db) name
  unfolding act
  act-Shut env n name (lock_for reason) p (v, stored, off) =
      elim (lock-keeps env (p.db) n reason name) [
        | inl shut ↦ shut
        | inr same ↦ (v, same ∙ stored, off)
      ]
  act-Shut env n name (disconnect ss) p h = h
  act-Shut env n name leave p h = h

  act-Stored :
      (env : Env) (n name : Bytes) (a : Action) (p : Progress bucket)
      → Stored (p.db) name
      → Stored ((act bucket env n a p).db) name
  unfolding act
  act-Stored env n name (lock_for reason) p (v, stored) =
      elim (lock-keeps env (p.db) n reason name) [
        | inl shut ↦ (shut.0, shut.1)
        | inr same ↦ (v, same ∙ stored)
      ]
  act-Stored env n name (disconnect ss) p h = h
  act-Stored env n name leave p h = h

  enforce-keeps :
      (limiter : LimiterConfig) (env : Env) (by_user : Bytes → List Session)
      (accounts : List (Bytes × UserRecord)) (p : Progress bucket) (name : Bytes)
      → Shut (p.db) name
      → Shut ((enforce bucket limiter env by_user accounts p).db) name
  unfolding enforce
  enforce-keeps limiter env by_user [] p name h = h
  enforce-keeps limiter env by_user ((n, u) ∷ rest) p name h =
      enforce-keeps limiter env by_user rest _ name
        (act-Shut env n name (action limiter (env.now) u (by_user n)) p h)

  -- A pass that reads an unlocked account which has expired or is over its quota leaves that
  -- account locked, as long as the database opens and still has the account.
  pub enforce-Shut :
      (limiter : LimiterConfig) (env : Env) (by_user : Bytes → List Session)
      (accounts : List (Bytes × UserRecord)) (p : Progress bucket) (name : Bytes) (u : UserRecord)
      → env.opens ≡ true
      → Listed name u accounts
      → u.disabled ≡ false
      → (is_expired u (env.now) || quota_exceeded u) ≡ true
      → Stored (p.db) name
      → Shut ((enforce bucket limiter env by_user accounts p).db) name
  unfolding enforce
  enforce-Shut limiter env by_user [] p name u opens here d due stored = absurd here
  enforce-Shut limiter env by_user ((n, v) ∷ rest) p name u opens (inl (same, is_u)) d due stored =
      enforce-keeps limiter env by_user rest _ name (
        locked_now (
          action-locks limiter (env.now) v (by_user n) (ap (λ x. x.disabled) is_u ∙ d)
            (ap (λ x. is_expired x (env.now) || quota_exceeded x) is_u ∙ due)))
    where
      locked_now :
          (reason : Bytes) × (action limiter (env.now) v (by_user n) ≡ lock_for reason)
          → Shut ((act bucket env n (action limiter (env.now) v (by_user n)) p).db) name
      locked_now (reason, e) =
          rw (e, act)
            (subst (λ m. Shut ((lock bucket env (p.db) m reason).db) name) (sym same)
              (lock-Shut env (p.db) name reason opens stored))
  enforce-Shut limiter env by_user ((n, v) ∷ rest) p name u opens (inr there) d due stored =
      enforce-Shut limiter env by_user rest _ name u opens there d due
        (act-Stored env n name (action limiter (env.now) v (by_user n)) p stored)
