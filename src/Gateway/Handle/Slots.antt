-- ===== src/Gateway/Handle/Slots.antt =====
-- What a handler holds of the two gauges, and that every step of it keeps the books.
use ssh_vpn.Common.{
  ℕ, suc, ◌+◌, Bytes, if◌then◌else◌, Bool, true, false, Option, none, some, pos, ◌≡◌, refl, sym,
  subst, ap, ◌∙◌, if-both, arith,
}
use ssh_vpn.Gateway.Front.{Peer, Gateway, pred_ℤ, suc_ℤ, count_via}
use ssh_vpn.Gateway.Handle.{
  World, Route, raw, pumped, Outcome, talk_on, serve, give_up, converse, Phase, talking, releasing,
  preparing, checking, launching, launched, storing, tallying, forking, pumping, leaving, ended,
  Thread, Turn, moved, finish, follow, check, within_budget, launch, after_fork, shut, by_phase,
  advance,
}

-- The handshake slot that a handler holds.
unfoldable pub slot : Thread → ℕ
slot t = if t.done_handshake then 0 else 1

-- The child that a handler has counted and no waiter looks after yet.
abbrev pub child_at : Phase → ℕ
child_at (storing r p pid) = 1
child_at (tallying r p pid) = 1
child_at (forking r pid) = 1
child_at _ = 0

unfoldable pub child : Thread → ℕ
child t = child_at (t.phase)

abbrev pub forks : Option ℕ → ℕ
forks none = 0
forks (some pid) = 1

-- What `doneHandshake`, `owned` and the socket are in each phase.
abbrev pub SoundAt : Phase → Bool → Bool → Bool → Type 0
SoundAt (talking k) done owned shut = (done ≡ false) × (owned ≡ false)
SoundAt (releasing r p) done owned shut = (done ≡ false) × (owned ≡ false)
SoundAt leaving done owned shut = owned ≡ true → (done ≡ true) × (shut ≡ true)
SoundAt ended done owned shut = (done ≡ true) × (shut ≡ true)
SoundAt _ done owned shut = (done ≡ true) × (owned ≡ false)

unfoldable pub Sound : Thread → Type 0
Sound t = SoundAt (t.phase) (t.done_handshake) (t.owned) (t.socket_closed)

-- With `h` slots and `c` children on other hands, the gauges are right after the turn if they were
-- before it.
unfoldable pub Balanced : Thread → Gateway → Turn → Type 0
Balanced t g u =
    (h c : ℕ)
    → g.handshaking ≡ pos (h + slot t)
    → g.children ≡ pos (c + child t)
    → (u.gateway.handshaking ≡ pos (h + slot (u.thread)))
      × (u.gateway.children ≡ pos (c + child (u.thread) + forks (u.forked)))

-- A turn that leaves the thread sound and the gauges right.
unfoldable pub Fine : Thread → Gateway → Turn → Type 0
Fine t g u = Sound (u.thread) × Balanced t g u

plus-zero : (c k : ℕ) → c + k ≡ c + k + 0
plus-zero c k = omega arith

module _ (t : Thread) (g : Gateway) where
  -- A turn that only goes to another phase.
  moved-Fine :
      (p : Phase) (f : Gateway)
      → SoundAt p (t.done_handshake) (t.owned) (t.socket_closed)
      → child_at p ≡ child t
      → f.handshaking ≡ g.handshaking
      → f.children ≡ g.children
      → Fine t g (moved p t f)
  unfolding Fine Balanced Sound slot child
  moved-Fine p f sound kept eh ec =
      (sound, λ h c bh bc. (eh ∙ bh, ec ∙ bc ∙ ap (λ k. pos k) (omega (arith, kept))))

pub pred_ℤ-pos : (n h : ℕ) → n ≡ h + 1 → pred_ℤ (pos n) ≡ pos h
pred_ℤ-pos n h e = ap (λ k. pred_ℤ (pos k)) (e ∙ next h)
  where
    next : (h : ℕ) → h + 1 ≡ suc h
    next h = omega arith

-- A thread that does not own the connection may leave.
may_leave : (done owned shut : Bool) → owned ≡ false → SoundAt leaving done owned shut
may_leave done owned shut free mine = absurd (cc)

-- `finishHandshake`, wherever it is called: it gives the slot back once.
finish-Fine :
    (p : Phase) (t : Thread) (g : Gateway)
    → SoundAt p true (t.owned) (t.socket_closed)
    → child_at p ≡ child t
    → Fine t g (finish p t g)
unfolding finish Fine Balanced Sound slot child
finish-Fine p t g sound kept =
    if-both (Fine t g) (t.done_handshake) _ _
      (λ done.
        moved-Fine t g p g (subst (λ b. SoundAt p b (t.owned) (t.socket_closed)) (sym done) sound)
          kept refl refl)
      (λ held. (
        sound,
        λ h c bh bc. (
          ap pred_ℤ (bh ∙ ap (λ b. pos (h + (if b then 0 else 1))) held)
              ∙ pred_ℤ-pos (h + 1) (h + 0) (omega arith),
          bc ∙ ap pos (omega (arith, kept)),
        ),
      ))

abbrev Talks : Thread → Type 0
Talks t = (t.done_handshake ≡ false) × (t.owned ≡ false)

follow-Fine :
    (o : Outcome) (t : Thread) (g : Gateway) → Talks t → child t ≡ 0 → Fine t g (follow o t g)
unfolding follow
follow-Fine (talk_on k) t g h free = moved-Fine t g (talking k) g h (sym free) refl refl
follow-Fine (serve r p) t g h free = moved-Fine t g (releasing r p) g h (sym free) refl refl
follow-Fine (give_up true) t g h free =
    moved-Fine t g leaving _ (may_leave _ _ _ h.1) (sym free) refl refl
follow-Fine (give_up false) t g h free =
    moved-Fine t g leaving _ (may_leave _ _ _ h.1) (sym free) refl refl

launch-Fine :
    (r : Route) (p : Peer) (o : Option ℕ) (t : Thread) (g : Gateway)
    → (t.done_handshake ≡ true) × (t.owned ≡ false)
    → child t ≡ 0
    → Fine t g (launch r p o t g)
unfolding launch
launch-Fine r p none t g h free =
    moved-Fine t g leaving g (may_leave _ _ _ h.1) (sym free) refl refl
launch-Fine r p (some pid) t g h free = moved-Fine t g (launched r p pid) g h (sym free) refl refl

after_fork-Fine :
    (r : Route) (pid : ℕ) (t : Thread) (g : Gateway)
    → (t.done_handshake ≡ true) × (t.owned ≡ false)
    → child t ≡ 1
    → Fine t g (after_fork r pid t g)
unfolding after_fork Fine Balanced Sound slot child
after_fork-Fine raw pid t g h held =
    ((λ mine. (h.0, refl)), λ a c bh bc. (bh, bc ∙ ap pos (omega (arith, held))))
after_fork-Fine pumped pid t g h held = (h, λ a c bh bc. (bh, bc ∙ ap pos (omega (arith, held))))

within_budget-Fine :
    (b : Bool) (r : Route) (p : Peer) (t : Thread) (g : Gateway)
    → (t.done_handshake ≡ true) × (t.owned ≡ false)
    → child t ≡ 0
    → Fine t g (within_budget b r p t g)
within_budget-Fine true r p t g h free = moved-Fine t g (launching r p) g h (sym free) refl refl
within_budget-Fine false r p t g h free =
    moved-Fine t g leaving _ (may_leave _ _ _ h.1) (sym free) refl refl

-- `children.Add(1)`
counted-Fine :
    (r : Route) (p : Peer) (pid : ℕ) (t : Thread) (g : Gateway)
    → (t.done_handshake ≡ true) × (t.owned ≡ false)
    → child t ≡ 0
    → Fine t g (moved (storing r p pid) t (record g { children = suc_ℤ (g.children) }))
unfolding Fine Balanced Sound slot child
counted-Fine r p pid t g h free =
    (h, λ a c bh bc. (bh, ap suc_ℤ (bc ∙ ap (λ k. pos (c + k)) free) ∙ ap pos (omega arith)))

pumped-Fine :
    (b : Bool) (t : Thread) (g : Gateway)
    → (t.done_handshake ≡ true) × (t.owned ≡ false)
    → child t ≡ 0
    → Fine t g
        (if b then moved leaving (record t { socket_closed = true }) g else moved pumping t g)
unfolding Fine Balanced Sound slot child
pumped-Fine true t g h free =
    (may_leave _ _ _ h.1, λ a c bh bc. (bh, bc ∙ ap pos (omega (arith, free))))
pumped-Fine false t g h free = moved-Fine t g pumping g h (sym free) refl refl

leaving-Fine :
    (t : Thread) (g : Gateway)
    → (t.owned ≡ true → (t.done_handshake ≡ true) × (t.socket_closed ≡ true))
    → child t ≡ 0
    → Fine t g (finish ended (shut t) g)
unfolding Fine Balanced Sound slot child
leaving-Fine t g h free =
    if-both (λ s. Fine t g (finish ended s g)) (t.owned) t (record t { socket_closed = true })
      (λ mine. finish-Fine ended t g (refl, (h mine).1) (sym free))
      (λ _. finish-Fine ended (record t { socket_closed = true }) g (refl, refl) (sym free))

module _ (parse_ip : Bytes → Option Bytes) (w : World) where
  by_phase-Fine :
      (p : Phase) (t : Thread) (g : Gateway)
      → t.phase ≡ p
      → SoundAt p (t.done_handshake) (t.owned) (t.socket_closed)
      → Fine t g (by_phase parse_ip w p t g)
  unfolding by_phase child check
  by_phase-Fine (talking k) t g e h =
      if-both (Fine t g) (w.panics) _ _
        (λ _. moved-Fine t g leaving g (may_leave _ _ _ h.1) (sym (ap child_at e)) refl refl)
        (λ _. follow-Fine (converse parse_ip w k) t g h (ap child_at e))
  by_phase-Fine (releasing r p) t g e h =
      finish-Fine (preparing r p) t g (refl, h.1) (sym (ap child_at e))
  by_phase-Fine (preparing r p) t g e h =
      if-both (Fine t g) (w.opened) _ _
        (λ _. moved-Fine t g (checking r p) g h (sym (ap child_at e)) refl refl)
        (λ _. moved-Fine t g leaving g (may_leave _ _ _ h.1) (sym (ap child_at e)) refl refl)
  by_phase-Fine (checking r p) t g e h = within_budget-Fine _ r p t g h (ap child_at e)
  by_phase-Fine (launching r p) t g e h = launch-Fine r p (w.spawned) t g h (ap child_at e)
  by_phase-Fine (launched r p pid) t g e h = counted-Fine r p pid t g h (ap child_at e)
  by_phase-Fine (storing r p pid) t g e h =
      moved-Fine t g (tallying r p pid) _ h (sym (ap child_at e)) refl refl
  by_phase-Fine (tallying r p pid) t g e h =
      moved-Fine t g (forking r pid) _ h (sym (ap child_at e)) (unfold count_via in refl)
        (unfold count_via in refl)
  by_phase-Fine (forking r pid) t g e h = after_fork-Fine r pid t g h (ap child_at e)
  by_phase-Fine pumping t g e h = pumped-Fine (w.copied) t g h (ap child_at e)
  by_phase-Fine leaving t g e h = leaving-Fine t g h (ap child_at e)
  by_phase-Fine ended t g e h = moved-Fine t g ended g h (sym (ap child_at e)) refl refl

  -- Every step of a handler keeps it sound and keeps the books of both gauges.
  pub advance-Fine : (t : Thread) (g : Gateway) → Sound t → Fine t g (advance parse_ip w t g)
  unfolding advance Sound
  advance-Fine t g h = by_phase-Fine (t.phase) t g refl h
