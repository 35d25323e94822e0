-- ===== src/Gateway/Front/Restart.antt =====
-- `RestorePeers` after a restart of the daemon.
use ssh_vpn.Common.{
  ℕ, ◌==◌, if◌then◌else◌, Bool, true, false, List, [], ◌∷◌, Option, none, some, ◌≡◌, refl, ◌∙◌,
  Bool-cases, inl, inr, ==_iff, ap, sym,
}
use ssh_vpn.Common.Assoc.{lookup, lookup-insert}
use ssh_vpn.Gateway.Front.{PeerEntry, load_or_store, restore_peers}

-- The entry that a restart finds for a process.
abbrev pub kept_or : Option PeerEntry → Option PeerEntry → Option PeerEntry
kept_or (some e) saved = some e
kept_or none saved = saved

abbrev pub if_alive : Bool → Option PeerEntry → Option PeerEntry
if_alive alive saved = if alive then saved else none

or_none : (o : Option PeerEntry) → o ≡ kept_or o none
or_none none = refl
or_none (some e) = refl

lookup-load_or_store :
    (k pid : ℕ) (e : PeerEntry) (m : List (ℕ × PeerEntry)) (o : Option PeerEntry)
    → lookup pid m ≡ o
    → lookup k (load_or_store o pid e m) ≡ kept_or (lookup k m) (if pid == k then some e else none)
lookup-load_or_store k pid e m none absent = elim (Bool-cases (pid == k)) [
  | inl same ↦
      rw
        (lookup-insert pid k e m, same, ap (λ n. lookup n m) (sym ((==_iff pid k).0 same)) ∙ absent)
        refl
  | inr other ↦ rw (lookup-insert pid k e m, other) (or_none (lookup k m))
]
lookup-load_or_store k pid e m (some old) there = elim (Bool-cases (pid == k)) [
  | inl same ↦ rw (ap (λ n. lookup n m) (sym ((==_iff pid k).0 same)) ∙ there) refl
  | inr other ↦ rw other (or_none (lookup k m))
]

-- What one saved entry does to the entry of a process.
restored :
    (alive : Bool) (k pid : ℕ) (e : PeerEntry) (m : List (ℕ × PeerEntry))
    → lookup k (if alive then load_or_store (lookup pid m) pid e m else m)
      ≡ kept_or (lookup k m) (if_alive alive (if pid == k then some e else none))
restored true k pid e m = lookup-load_or_store k pid e m (lookup pid m) refl
restored false k pid e m = or_none (lookup k m)

kept_or_twice :
    (alive : ℕ → Bool) (k pid : ℕ) (e : PeerEntry) (before saved : Option PeerEntry)
    → kept_or
        (kept_or before (if_alive (alive pid) (if pid == k then some e else none)))
        (if_alive (alive k) saved)
      ≡ kept_or before (if_alive (alive k) (if pid == k then some e else saved))
kept_or_twice alive k pid e (some x) saved = refl
kept_or_twice alive k pid e none saved = elim (Bool-cases (pid == k)) [
  | inl same ↦ rw (same, ap alive ((==_iff pid k).0 same)) (gone (alive k) saved)
  | inr other ↦ rw other (nothing (alive pid) (if_alive (alive k) saved))
]
  where
    gone :
        (a : Bool) (saved : Option PeerEntry)
        → kept_or (if_alive a (some e)) (if_alive a saved) ≡ if_alive a (some e)
    gone true saved = refl
    gone false saved = refl

    nothing : (a : Bool) (o : Option PeerEntry) → kept_or (if_alive a none) o ≡ o
    nothing true o = refl
    nothing false o = refl

-- After `RestorePeers`, a process has the entry that it had before; or else, where it is alive, the
-- first entry that was saved for it; or else none.
pub lookup-restore_peers :
    (alive : ℕ → Bool) (saved m : List (ℕ × PeerEntry)) (k : ℕ)
    → lookup k (restore_peers alive saved m)
      ≡ kept_or (lookup k m) (if_alive (alive k) (lookup k saved))
unfolding restore_peers lookup
lookup-restore_peers alive [] m k = none_alive (alive k)
  where
    none_alive : (a : Bool) → lookup k m ≡ kept_or (lookup k m) (if_alive a none)
    none_alive true = or_none (lookup k m)
    none_alive false = or_none (lookup k m)
lookup-restore_peers alive ((pid, e) ∷ saved) m k =
    lookup-restore_peers alive saved (if alive pid then load_or_store (lookup pid m) pid e m else m)
      k
    ∙ ap (λ o. kept_or o (if_alive (alive k) (lookup k saved))) (restored (alive pid) k pid e m)
    ∙ kept_or_twice alive k pid e (lookup k m) (lookup k saved)
