-- ===== src/User/Accounting/Once.antt =====
-- What one pass of the daemon remembers of the sessions that it saw.
use ssh_vpn.Common.{
  ℕ, ◌==◌, ==_refl, Bool, false, List, [], ◌∷◌, ◌++◌, some, if◌then◌else◌, ◌≡◌, refl, ap, ◌∙◌,
}
use ssh_vpn.Common.Assoc.{lookup, lookup-insert}
use ssh_vpn.User.Accounting.{Bases, Deltas, base_of, account}
use ssh_vpn.User.Session.{Session}

-- The process ids of the scan.
abbrev pub Absent : ℕ → List Session → Type 0
Absent pid [] = Unit {0}
Absent pid (s ∷ ss) = ((s.pid == pid) ≡ false) × Absent pid ss

account-other :
    (prev : Bases) (first : Bool) (started : ℕ) (ss : List Session) (deltas : Deltas) (next : Bases)
    (pid : ℕ)
    → Absent pid ss
    → lookup pid (account prev first started ss deltas next).1 ≡ lookup pid next
unfolding account
account-other prev first started [] deltas next pid h = refl
account-other prev first started (s ∷ ss) deltas next pid h =
    account-other prev first started ss _ _ pid h.1
    ∙ lookup-insert (s.pid) pid (base_of s) next
    ∙ ap (λ b. if b then some (base_of s) else lookup pid next) h.0

account-lookup_head :
    (prev : Bases) (first : Bool) (started : ℕ) (s : Session) (ss : List Session) (deltas : Deltas)
    (next : Bases)
    → Absent (s.pid) ss
    → lookup (s.pid) (account prev first started (s ∷ ss) deltas next).1 ≡ some (base_of s)
unfolding account
account-lookup_head prev first started s ss deltas next h =
    account-other prev first started ss _ _ (s.pid) h
    ∙ lookup-insert (s.pid) (s.pid) (base_of s) next
    ∙ ap (λ b. if b then some (base_of s) else lookup (s.pid) next) (==_refl (s.pid))

-- A pass remembers the counter of each session that it saw, for the next pass: that of the last
-- session with a process id, wherever it stands in the scan.
pub account-lookup :
    (prev : Bases) (first : Bool) (started : ℕ) (before : List Session) (s : Session)
    (behind : List Session) (deltas : Deltas) (next : Bases)
    → Absent (s.pid) behind
    → lookup (s.pid) (account prev first started (before ++ (s ∷ behind)) deltas next).1
      ≡ some (base_of s)
unfolding account
account-lookup prev first started [] s behind deltas next h =
    account-lookup_head prev first started s behind deltas next h
account-lookup prev first started (b ∷ before) s behind deltas next h =
    account-lookup prev first started before s behind _ _ h
