-- ===== src/User/Operations.antt =====
-- The operations of internal/user/manager.go on an account that exists, as one step each.
use ssh_vpn.Common.{
  ℕ, ℤ, pos, leb_ℤ, ltb_ℤ, Bytes, bytes_eq, bytes_eq_iff, Bool, true, false, ◌++◌, Option, none,
  some, if◌then◌else◌, ◌⊎◌, inl, inr, ◌≡◌, refl, sym, ap, ◌∙◌, subst, arith, if-both,
}
use ssh_vpn.User.Account.{UserRecord, lock_expired, lock_quota}
use ssh_vpn.User.Bucket.{Bucket, UserError, update_user}
use ssh_vpn.User.Bucket.Laws.{Updated, update_user-Updated}
use ssh_vpn.User.Locks.{Settled, synced-Settled}
use ssh_vpn.User.Manager.{
  Env, Reply, renewed, with_expiry, with_limit, with_no_traffic, unlocked, or_manual, synced,
  answered, refused, renew, set_expiry, set_max_connections, set_traffic_limit, reset_traffic,
  then_kick, kick, lock, unlock,
}

pub data Operation : Type 0 where
  op_renew : Bytes → ℤ → Operation
  op_set_expiry : Bytes → ℕ → Operation
  op_set_max_connections : Bytes → ℤ → Operation
  op_set_traffic_limit : Bytes → ℤ → Operation
  op_reset_traffic : Bytes → Operation
  op_lock : Bytes → Bytes → Operation
  op_unlock : Bytes → Operation

abbrev pub target : Operation → Bytes
target (op_renew name days) = name
target (op_set_expiry name t) = name
target (op_set_max_connections name n) = name
target (op_set_traffic_limit name bytes) = name
target (op_reset_traffic name) = name
target (op_lock name reason) = name
target (op_unlock name) = name

abbrev pub change : Env → Operation → UserRecord → UserError ⊎ UserRecord
change env (op_renew name days) u = inr (renewed env days u)
change env (op_set_expiry name t) u = inr (with_expiry env t u)
change env (op_set_max_connections name n) u = inr (record u { max_connections = n })
change env (op_set_traffic_limit name bytes) u =
    inr (with_limit (if ltb_ℤ bytes (pos 0) then pos 0 else bytes) u)
change env (op_reset_traffic name) u = inr (with_no_traffic u)
change env (op_lock name reason) u =
    inr (record u { disabled = true; lock_reason = or_manual reason })
change env (op_unlock name) u = unlocked (env.now) u

-- The operation is no `Lock` and no `Unlock` of that account.
abbrev pub Spares : Bytes → Operation → Type 0
Spares name (op_lock n reason) = bytes_eq n name ≡ false
Spares name (op_unlock n) = bytes_eq n name ≡ false
Spares name _ = Unit {0}

Held : Bytes → UserRecord → Type 0
Held reason u = (u.disabled ≡ true) × (u.lock_reason ≡ reason)

inr-inj : (a b : UserRecord) → Path (UserError ⊎ UserRecord) (inr a) (inr b) → a ≡ b
inr-inj a b e = cc

same_record : (a b : UserRecord) → Path (Option UserRecord) (some a) (some b) → a ≡ b
same_record a b e = cc

bytes_eq-eq : (a b : Bytes) → bytes_eq a b ≡ true → a ≡ b
bytes_eq-eq a b h = ground (arith, bytes_eq_iff a b)

-- A change that spares an account locked for another reason than expiry or quota keeps the lock.
change-Held :
    (env : Env) (op : Operation) (reason name : Bytes) (old u : UserRecord)
    → bytes_eq reason lock_expired ≡ false
    → bytes_eq reason lock_quota ≡ false
    → Spares name op
    → bytes_eq (target op) name ≡ true
    → Held reason old
    → change env op old ≡ inr u
    → Held reason u
unfolding renewed with_expiry with_limit with_no_traffic Held
change-Held env (op_renew n days) reason name old u ne nq sp same h e =
    subst (Held reason) (inr-inj _ u e) (rw (h.0, h.1, ne) (refl, refl))
change-Held env (op_set_expiry n t) reason name old u ne nq sp same h e =
    subst (Held reason) (inr-inj _ u e) (rw (h.0, h.1, ne) (refl, refl))
change-Held env (op_set_max_connections n k) reason name old u ne nq sp same h e =
    subst (Held reason) (inr-inj _ u e) h
change-Held env (op_set_traffic_limit n bytes) reason name old u ne nq sp same h e =
    subst (Held reason) (inr-inj _ u e) (rw (h.0, h.1, nq) (refl, refl))
change-Held env (op_reset_traffic n) reason name old u ne nq sp same h e =
    subst (Held reason) (inr-inj _ u e) (rw (h.0, h.1, nq) (refl, refl))
change-Held env (op_lock n r) reason name old u ne nq sp same h e = absurd (cc)
change-Held env (op_unlock n) reason name old u ne nq sp same h e = absurd (cc)

module _ {S : Type 0} (bucket : Bucket S) where
  abbrev pub perform : Env → S → Operation → Reply S
  perform env s (op_renew name days) = renew bucket env s name days
  perform env s (op_set_expiry name t) = set_expiry bucket env s name t
  perform env s (op_set_max_connections name n) = set_max_connections bucket env s name n
  perform env s (op_set_traffic_limit name bytes) = set_traffic_limit bucket env s name bytes
  perform env s (op_reset_traffic name) = reset_traffic bucket env s name
  perform env s (op_lock name reason) = lock bucket env s name reason
  perform env s (op_unlock name) = unlock bucket env s name

  abbrev pub Kept : Env → S → Operation → Reply S → Type 0
  Kept env s op r = Settled bucket s (target op) (change env op) (r.user) (r.db)

  synced-Kept :
      (env : Env) (s : S) (op : Operation)
      → Kept env s op
          (synced bucket env (update_user bucket (env.opens) s (target op) (change env op)))
  synced-Kept env s op =
      synced-Settled bucket env s (target op) (change env op) _
        (update_user-Updated bucket (env.opens) s (target op) (change env op))

  answered-Kept :
      (env : Env) (s : S) (op : Operation) (r : (UserError ⊎ UserRecord) × S)
      → Updated bucket s (target op) (change env op) r
      → Kept env s op (answered bucket r)
  unfolding answered
  answered-Kept env s op (inl e, t) h = h
  answered-Kept env s op (inr u, t) h = h

  then_kick-Kept :
      (env : Env) (s : S) (op : Operation) (name : Bytes) (r : Reply S)
      → Kept env s op r
      → Kept env s op (then_kick bucket env name r)
  unfolding then_kick
  then_kick-Kept env s op name r h = by_error (r.error)
    where
      by_error :
          (e : Option UserError)
          → Kept env s op
              (elim e [ some x ↦ r | none ↦ record r { commands = r.commands ++ kick env name } ])
      by_error none = h
      by_error (some x) = h

  -- Every operation writes the record it names at most, and what it writes is its change of the
  -- stored record.
  pub perform-Kept : (env : Env) (s : S) (op : Operation) → Kept env s op (perform env s op)
  unfolding renew refused set_expiry set_max_connections set_traffic_limit reset_traffic lock unlock
  perform-Kept env s (op_renew name days) =
      if-both {A = Reply S} (Kept env s (op_renew name days)) (leb_ℤ days (pos 0)) _ _ (λ _. refl)
        (λ _. synced-Kept env s (op_renew name days))
  perform-Kept env s (op_set_expiry name t) = synced-Kept env s (op_set_expiry name t)
  perform-Kept env s (op_set_max_connections name n) =
      if-both {A = Reply S} (Kept env s (op_set_max_connections name n)) (ltb_ℤ n (pos 1)) _ _
        (λ _. refl)
        (λ _.
          answered-Kept env s (op_set_max_connections name n) _
            (update_user-Updated bucket (env.opens) s name _))
  perform-Kept env s (op_set_traffic_limit name bytes) =
      synced-Kept env s (op_set_traffic_limit name bytes)
  perform-Kept env s (op_reset_traffic name) = synced-Kept env s (op_reset_traffic name)
  perform-Kept env s (op_lock name reason) =
      then_kick-Kept env s (op_lock name reason) name _ (synced-Kept env s (op_lock name reason))
  perform-Kept env s (op_unlock name) = synced-Kept env s (op_unlock name)

  -- The account is stored as locked, for that reason.
  abbrev pub HeldFor : Bytes → S → Bytes → Type 0
  HeldFor reason s name =
      (u : UserRecord) × ((bucket.get) s name ≡ some u)
      × (u.disabled ≡ true)
      × (u.lock_reason ≡ reason)

  -- An operation that spares a lock keeps it.
  pub perform-HeldFor :
      (env : Env) (s : S) (op : Operation) (reason name : Bytes)
      → bytes_eq reason lock_expired ≡ false
      → bytes_eq reason lock_quota ≡ false
      → Spares name op
      → HeldFor reason s name
      → HeldFor reason ((perform env s op).db) name
  unfolding Held
  perform-HeldFor env s op reason name ne nq sp (v, stored, off, why) =
      by_user ((perform env s op).user) ((perform env s op).db) (perform-Kept env s op)
    where
      by_name :
          (u old : UserRecord) (t : S) (b : Bool)
          → bytes_eq (target op) name ≡ b
          → (bucket.get) s (target op) ≡ some old
          → change env op old ≡ inr u
          → (bucket.get) t name ≡ (if b then some u else (bucket.get) s name)
          → HeldFor reason t name
      by_name u old t false b e f g = (v, g ∙ stored, off, why)
      by_name u old t true b e f g =
          let kept =
            change-Held env op reason name old u ne nq sp b
              (subst (Held reason)
                (same_record v old
                  (sym stored ∙ ap ((bucket.get) s) (sym (bytes_eq-eq (target op) name b)) ∙ e))
                (off, why))
              f in
          (u, g, kept.0, kept.1)

      by_user :
          (o : Option UserRecord) (t : S)
          → Settled bucket s (target op) (change env op) o t
          → HeldFor reason t name
      by_user none t h = (v, ap (λ x. (bucket.get) x name) h ∙ stored, off, why)
      by_user (some u) t h =
          by_name u h.0.0 t (bytes_eq (target op) name) refl h.0.1 h.0.2 (h.1 name)

  -- An operation changes no account but the one it names.
  pub perform-other :
      (env : Env) (s : S) (op : Operation) (j : Bytes)
      → bytes_eq (target op) j ≡ false
      → (bucket.get) ((perform env s op).db) j ≡ (bucket.get) s j
  perform-other env s op j ne =
      by_user ((perform env s op).user) ((perform env s op).db) (perform-Kept env s op)
    where
      by_user :
          (o : Option UserRecord) (t : S)
          → Settled bucket s (target op) (change env op) o t
          → (bucket.get) t j ≡ (bucket.get) s j
      by_user none t h = ap (λ x. (bucket.get) x j) h
      by_user (some u) t h = h.1 j ∙ ap (λ b. if b then some u else (bucket.get) s j) ne
