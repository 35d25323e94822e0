-- ===== src/User/Scan/Genuine.antt =====
-- What `Scan` reports are logged-in users.
use ssh_vpn.Common.{
  ℕ, ◌≤◌, ◌⊎◌, Bytes, ◌==◌, All, All-append, Bool, true, false, List, [], ◌∷◌, Option, none, some,
  ◌≡◌, refl, sym, ap, ◌∙◌, inl, inr, if-both, arith,
}
use ssh_vpn.Common.Assoc.{lookup}
use ssh_vpn.Gateway.Front.{Peer}
use ssh_vpn.User.Session.{Session}
use ssh_vpn.User.Scan.{
  Proc, Kernel, Scanner, Sock, by_pid, attach_client, attach_udpgw, attach_live, attach_sock,
  attach_sockets, with_peer, session_of, with_parent, with_user, scan_one, scan_all, before,
  put_session, oldest_first, scan,
}

-- The two say the same of whose session it is.
unfoldable Same : Session → Session → Type 0
Same a b =
    (a.pid ≡ b.pid) × (a.monitor_pid ≡ b.monitor_pid) × (a.uid ≡ b.uid) × (a.username ≡ b.username)

with_peer-Same : (o : Option Peer) (a : Session) → Same (with_peer o a) a
unfolding Same
with_peer-Same none a = (refl, refl, refl, refl)
with_peer-Same (some p) a = (refl, refl, refl, refl)

Same-refl : (a : Session) → Same a a
unfolding Same
Same-refl a = (refl, refl, refl, refl)

Same-trans : (a b c : Session) → Same a b → Same b c → Same a c
unfolding Same
Same-trans a b c (p, m, u, n) (q, l, v, o) = (p ∙ q, m ∙ l, u ∙ v, n ∙ o)

attach_client-Same :
    (k : Kernel) (sk : Sock) (a : Session) (b : Bool) → Same (attach_client k sk a b) a
unfolding Same
attach_client-Same k sk a true = (refl, refl, refl, refl)
attach_client-Same k sk a false = (refl, refl, refl, refl)

attach_udpgw-Same :
    (k : Kernel) (sk : Sock) (a : Session) (b : Bool) → Same (attach_udpgw k sk a b) a
attach_udpgw-Same k sk a true = unfold Same in (refl, refl, refl, refl)
attach_udpgw-Same k sk a false = attach_client-Same k sk a _

attach_sock-Same :
    (k : Kernel) (s : Scanner) (a : Session) (o : Option Sock) → Same (attach_sock k s a o) a
attach_sock-Same k s a none = Same-refl a
attach_sock-Same k s a (some sk) = live (sk.established)
  where
    live : (b : Bool) → Same (attach_live k s sk a b) a
    live true = attach_udpgw-Same k sk a _
    live false = Same-refl a

attach_sockets-Same :
    (k : Kernel) (s : Scanner) (inos : List ℕ) (a : Session) → Same (attach_sockets k s inos a) a
unfolding attach_sockets
attach_sockets-Same k s [] a = Same-refl a
attach_sockets-Same k s (i ∷ inos) a =
    let next = attach_sock k s a (k.sock i) in
    Same-trans _ next a (attach_sockets-Same k s inos next) (attach_sock-Same k s a (k.sock i))

pub In : Proc → List Proc → Type 0
In p [] = ⊥
In p (q ∷ qs) = (p ≡ q) ⊎ In p qs

-- The session of a process of a user that has a name and is not skipped, whose parent is a process
-- of root.
unfoldable pub Genuine : Kernel → Scanner → List (ℕ × Proc) → List Proc → Session → Type 0
Genuine k s m procs a =
    (p parent : Proc) × In p procs
    × ((p.uid == 0) ≡ false)
    × (a.pid ≡ p.pid)
    × (a.monitor_pid ≡ p.ppid)
    × (a.uid ≡ p.uid)
    × (k.passwd (p.uid) ≡ some (a.username))
    × (s.skips (a.username) ≡ false)
    × (lookup (p.ppid) m ≡ some parent)
    × ((parent.uid == 0) ≡ true)

-- The session of one process, with what `scan_one` has tested.
session_of-Genuine :
    (k : Kernel) (s : Scanner) (m : List (ℕ × Proc)) (procs : List Proc) (p parent : Proc)
    (name : Bytes)
    → In p procs
    → (p.uid == 0) ≡ false
    → k.passwd (p.uid) ≡ some name
    → s.skips name ≡ false
    → lookup (p.ppid) m ≡ some parent
    → (parent.uid == 0) ≡ true
    → Genuine k s m procs (session_of k s p name)
unfolding session_of Genuine Same
session_of-Genuine k s m procs p parent name there user named kept found root =
    let (a, b, c, d) = with_peer-Same (s.peer (p.ppid)) _ in
    let (e, f, g, h) = attach_sockets-Same k s (k.inodes (p.pid)) _ in
    let who = d ∙ h in
    (
      p,
      parent,
      there,
      user,
      a ∙ e,
      b ∙ f,
      c ∙ g,
      named ∙ ap some (sym who),
      ap (s.skips) who ∙ kept,
      found,
      root,
    )

module _ (k : Kernel) (s : Scanner) (m : List (ℕ × Proc)) (procs : List Proc) where
  with_parent-Genuine :
      (p : Proc) (name : Bytes) (o : Option Proc)
      → In p procs
      → (p.uid == 0) ≡ false
      → k.passwd (p.uid) ≡ some name
      → s.skips name ≡ false
      → lookup (p.ppid) m ≡ o
      → All (Genuine k s m procs) (with_parent k s p name o)
  with_parent-Genuine p name none there user named kept found = tt
  with_parent-Genuine p name (some parent) there user named kept found =
      if-both (All (Genuine k s m procs)) (parent.uid == 0) _ _
        (λ root.
          (session_of-Genuine k s m procs p parent name there user named kept found root, tt))
        (λ _. tt)

  with_user-Genuine :
      (p : Proc) (o : Option Bytes)
      → In p procs
      → (p.uid == 0) ≡ false
      → k.passwd (p.uid) ≡ o
      → All (Genuine k s m procs) (with_user k s m p o)
  with_user-Genuine p none there user named = tt
  with_user-Genuine p (some name) there user named =
      if-both (All (Genuine k s m procs)) (s.skips name) _ _ (λ _. tt)
        (λ kept. with_parent-Genuine p name (lookup (p.ppid) m) there user named kept refl)

  scan_one-Genuine : (p : Proc) → In p procs → All (Genuine k s m procs) (scan_one k s m p)
  unfolding scan_one
  scan_one-Genuine p there =
      if-both (All (Genuine k s m procs)) (p.uid == 0) _ _ (λ _. tt)
        (λ user. with_user-Genuine p (k.passwd (p.uid)) there user refl)

  scan_all-Genuine :
      (ps : List Proc)
      → ((p : Proc) → In p ps → In p procs)
      → All (Genuine k s m procs) (scan_all k s m ps)
  unfolding scan_all In
  scan_all-Genuine [] sub = tt
  scan_all-Genuine (p ∷ ps) sub =
      All-append (Genuine k s m procs) (scan_one k s m p) (scan_all k s m ps)
        (scan_one-Genuine p (sub p (inl refl))) (scan_all-Genuine ps (λ q h. sub q (inr h)))

module _ (P : Session → Type 0) where
  put_session-All : (a : Session) (bs : List Session) → P a → All P bs → All P (put_session a bs)
  put_session-All a [] p h = (p, tt)
  put_session-All a (b ∷ bs) p h =
      if-both (All P) (before b a) (b ∷ put_session a bs) (a ∷ b ∷ bs)
        (λ _. (h.0, put_session-All a bs p h.1)) (λ _. (p, h))

  oldest_first-All : (bs : List Session) → All P bs → All P (oldest_first bs)
  unfolding oldest_first
  oldest_first-All [] h = tt
  oldest_first-All (b ∷ bs) h = put_session-All b (oldest_first bs) h.0 (oldest_first-All bs h.1)

-- None started before one in front of it.
unfoldable pub Ordered : List Session → Type 0
Ordered [] = Unit {0}
Ordered (a ∷ bs) = All (λ (b : Session). a.started_at ≤ b.started_at) bs × Ordered bs

before-le : (a b : Session) → before a b ≡ true → a.started_at ≤ b.started_at
unfolding before
before-le a b h = ground arith

not_before-le : (a b : Session) → before b a ≡ false → a.started_at ≤ b.started_at
unfolding before
not_before-le a b h = ground arith

All-le :
    (a b : Session) (bs : List Session)
    → a.started_at ≤ b.started_at
    → All (λ (c : Session). b.started_at ≤ c.started_at) bs
    → All (λ (c : Session). a.started_at ≤ c.started_at) bs
All-le a b [] le h = tt
All-le a b (c ∷ bs) le h = (omega (arith, le, h.0), All-le a b bs le h.1)

put_session-Ordered : (a : Session) (bs : List Session) → Ordered bs → Ordered (put_session a bs)
unfolding Ordered
put_session-Ordered a [] h = (tt, tt)
put_session-Ordered a (b ∷ bs) h =
    if-both Ordered (before b a) (b ∷ put_session a bs) (a ∷ b ∷ bs)
      (λ e. (
        put_session-All (λ (c : Session). b.started_at ≤ c.started_at) a bs (before-le b a e) h.0,
        put_session-Ordered a bs h.1,
      ))
      (λ e. let le = not_before-le a b e in ((le, All-le a b bs le h.0), h))

oldest_first-Ordered : (bs : List Session) → Ordered (oldest_first bs)
unfolding oldest_first Ordered
oldest_first-Ordered [] = tt
oldest_first-Ordered (b ∷ bs) = put_session-Ordered b (oldest_first bs) (oldest_first-Ordered bs)

-- Every session that `Scan` reports is that of a process among those scanned which runs as a user
-- other than root that has a name and is not skipped, and whose parent is a process of root; and the
-- sessions stand in the order of their start.
pub scan-Genuine :
    (k : Kernel) (s : Scanner) (procs : List Proc)
    → All (Genuine k s (by_pid procs []) procs) (scan k s procs) × Ordered (scan k s procs)
unfolding scan
scan-Genuine k s procs =
    let found = scan_all k s (by_pid procs []) procs in
    (
      oldest_first-All (Genuine k s (by_pid procs []) procs) found
          (scan_all-Genuine k s (by_pid procs []) procs procs (λ p h. h)),
      oldest_first-Ordered found,
    )
