-- ===== src/Gateway/Handle/Lifecycle.antt =====
-- A handler comes to its end: it cannot keep its handshake slot.
use ssh_vpn.Common.{
  ℕ, suc, ◌-◌, ◌≤◌, ◌<◌, Bytes, if◌then◌else◌, length, Bool, true, false, List, [], ◌∷◌, Option,
  none, some, ◌≡◌, refl, ◌∙◌, Bool-cases, inl, inr, if-both, arith,
}
use ssh_vpn.Gateway.Front.{Peer, Gateway}
use ssh_vpn.Gateway.Handle.{
  World, Route, raw, pumped, Outcome, talk_on, serve, give_up, converse, Phase, talking, releasing,
  preparing, checking, launching, launched, storing, tallying, forking, pumping, leaving, ended,
  Thread, new_thread, Turn, finish, follow, check, within_budget, launch, after_fork, shut,
  by_phase, advance,
}
use ssh_vpn.Gateway.Handle.Rounds.{talk_rank, outcome_rank, converse-rank}
use ssh_vpn.Gateway.Handle.Slots.{slot, Sound, SoundAt, Fine, advance-Fine}

-- The steps in which a handler still holds its slot, at most.
phase_rank : Phase → ℕ
phase_rank (talking k) = suc (suc (talk_rank k))
phase_rank _ = 1

slot_rank : Thread → ℕ
unfolding phase_rank
slot_rank t = if t.done_handshake then 0 else phase_rank (t.phase)

if_true : (b : Bool) (m n : ℕ) → b ≡ true → (if b then m else n) ≡ m
if_true true m n h = refl
if_true false m n h = absurd (cc)

if_false : (b : Bool) (n : ℕ) → b ≡ false → n ≡ (if b then 0 else n)
if_false true n h = absurd (cc)
if_false false n h = refl

if_le : (b : Bool) (n : ℕ) → (if b then 0 else n) ≤ n
if_le true n = omega arith
if_le false n = omega arith

finish-rank : (p : Phase) (t : Thread) (g : Gateway) → slot_rank ((finish p t g).thread) ≡ 0
unfolding finish slot_rank
finish-rank p t g =
    if-both (λ (u : Turn). slot_rank (u.thread) ≡ 0) (t.done_handshake) _ _
      (λ done. if_true (t.done_handshake) 0 (phase_rank p) done) (λ _. refl)

follow-rank :
    (o : Outcome) (t : Thread) (g : Gateway)
    → slot_rank ((follow o t g).thread) ≤ suc (outcome_rank o)
unfolding follow slot_rank outcome_rank
follow-rank (talk_on k) t g = if_le (t.done_handshake) _
follow-rank (serve r p) t g = if_le (t.done_handshake) _
follow-rank (give_up u) t g = if_le (t.done_handshake) _

-- A slot that was given back stays so.
Done : Turn → Type 0
Done u = u.thread.done_handshake ≡ true

finish-Done : (p : Phase) (t : Thread) (g : Gateway) → Done (finish p t g)
unfolding finish Done
finish-Done p t g = if-both Done (t.done_handshake) _ _ (λ done. done) (λ _. refl)

follow-Done :
    (o : Outcome) (t : Thread) (g : Gateway) → t.done_handshake ≡ true → Done (follow o t g)
unfolding follow Done
follow-Done (talk_on k) t g h = h
follow-Done (serve r p) t g h = h
follow-Done (give_up u) t g h = h

launch-Done :
    (r : Route) (p : Peer) (o : Option ℕ) (t : Thread) (g : Gateway)
    → t.done_handshake ≡ true
    → Done (launch r p o t g)
unfolding launch Done
launch-Done r p none t g h = h
launch-Done r p (some pid) t g h = h

within_budget-Done :
    (b : Bool) (r : Route) (p : Peer) (t : Thread) (g : Gateway)
    → t.done_handshake ≡ true
    → Done (within_budget b r p t g)
unfolding Done
within_budget-Done true r p t g h = h
within_budget-Done false r p t g h = h

module _ (parse_ip : Bytes → Option Bytes) (w : World) where
  by_phase-Done :
      (p : Phase) (t : Thread) (g : Gateway)
      → t.done_handshake ≡ true
      → Done (by_phase parse_ip w p t g)
  unfolding by_phase check after_fork
  by_phase-Done (talking k) t g h =
      if-both Done (w.panics) _ _ (λ _. unfold Done in h)
        (λ _. follow-Done (converse parse_ip w k) t g h)
  by_phase-Done (releasing r p) t g h = finish-Done (preparing r p) t g
  by_phase-Done (preparing r p) t g h =
      if-both Done (w.opened) _ _ (λ _. unfold Done in h) (λ _. unfold Done in h)
  by_phase-Done (checking r p) t g h = within_budget-Done _ r p t g h
  by_phase-Done (launching r p) t g h = launch-Done r p (w.spawned) t g h
  by_phase-Done (launched r p pid) t g h = unfold Done in h
  by_phase-Done (storing r p pid) t g h = unfold Done in h
  by_phase-Done (tallying r p pid) t g h = unfold Done in h
  by_phase-Done (forking raw pid) t g h = unfold Done in h
  by_phase-Done (forking pumped pid) t g h = unfold Done in h
  by_phase-Done pumping t g h =
      if-both Done (w.copied) _ _ (λ _. unfold Done in h) (λ _. unfold Done in h)
  by_phase-Done leaving t g h = finish-Done ended (shut t) g
  by_phase-Done ended t g h = unfold Done in h

  -- A step of a handler that holds its slot brings it nearer to giving it back.
  by_phase-rank :
      (p : Phase) (t : Thread) (g : Gateway)
      → t.done_handshake ≡ false
      → SoundAt p (t.done_handshake) (t.owned) (t.socket_closed)
      → suc (slot_rank ((by_phase parse_ip w p t g).thread)) ≤ phase_rank p
  unfolding by_phase phase_rank
  by_phase-rank (talking k) t g busy h =
      if-both (λ (u : Turn). suc (slot_rank (u.thread)) ≤ suc (suc (talk_rank k))) (w.panics) _ _
        (λ _. unfold slot_rank in omega (arith, if_le (t.done_handshake) 1))
        (λ _. omega (arith, follow-rank (converse parse_ip w k) t g, converse-rank parse_ip w k))
  by_phase-rank (releasing r p) t g busy h = omega (arith, finish-rank (preparing r p) t g)
  by_phase-rank leaving t g busy h = omega (arith, finish-rank ended (shut t) g)
  by_phase-rank (preparing r p) t g busy h = absurd (cc (h.0))
  by_phase-rank (checking r p) t g busy h = absurd (cc (h.0))
  by_phase-rank (launching r p) t g busy h = absurd (cc (h.0))
  by_phase-rank (launched r p pid) t g busy h = absurd (cc (h.0))
  by_phase-rank (storing r p pid) t g busy h = absurd (cc (h.0))
  by_phase-rank (tallying r p pid) t g busy h = absurd (cc (h.0))
  by_phase-rank (forking r pid) t g busy h = absurd (cc (h.0))
  by_phase-rank pumping t g busy h = absurd (cc (h.0))
  by_phase-rank ended t g busy h = absurd (cc (h.0))

  advance-rank :
      (t : Thread) (g : Gateway)
      → Sound t
      → slot_rank ((advance parse_ip w t g).thread) ≤ slot_rank t - 1
  unfolding advance Sound slot_rank Done
  advance-rank t g h = elim (Bool-cases (t.done_handshake)) [
    | inl done ↦
        let u = by_phase parse_ip w (t.phase) t g in
        omega (
          arith,
          if_true (u.thread.done_handshake) 0 (phase_rank (u.thread.phase))
              (by_phase-Done (t.phase) t g done),
        )
    | inr busy ↦ omega (
      arith,
      if_false (t.done_handshake) (phase_rank (t.phase)) busy,
      by_phase-rank (t.phase) t g busy h,
    )
  ]

phase_rank_pos : (p : Phase) → 0 < phase_rank p
unfolding phase_rank
phase_rank_pos (talking k) = omega arith
phase_rank_pos _ = omega arith

slot_rank-slot : (t : Thread) → slot_rank t ≡ 0 → slot t ≡ 0
unfolding slot_rank slot
slot_rank-slot t e = elim (Bool-cases (t.done_handshake)) [
  | inl done ↦ rw done refl
  | inr busy ↦ absurd (omega (arith, phase_rank_pos (t.phase), if_false _ _ busy ∙ e))
]

new_thread-Sound : Sound new_thread
unfolding Sound
new_thread-Sound = (refl, refl)

-- The steps of one handler, each on the shared state as the others have left it.
module _ (parse_ip : Bytes → Option Bytes) where
  unfoldable pub steps : List (World × Gateway) → Thread → Thread
  steps [] t = t
  steps ((w, g) ∷ ws) t = steps ws ((advance parse_ip w t g).thread)

  steps-rank :
      (ws : List (World × Gateway)) (t : Thread)
      → Sound t
      → slot_rank t ≤ length ws
      → slot_rank (steps ws t) ≡ 0
  unfolding steps Fine
  steps-rank [] t h le = omega (arith, le)
  steps-rank ((w, g) ∷ ws) t h le =
      steps-rank ws ((advance parse_ip w t g).thread) (advance-Fine parse_ip w t g h).0
        (omega (arith, le, advance-rank parse_ip w t g h))

  -- Every handler has given its handshake slot back after nine of its steps, whatever the network and
  -- the kernel answer and whatever other goroutines do in between.
  pub steps-slot : (ws : List (World × Gateway)) → 9 ≤ length ws → slot (steps ws new_thread) ≡ 0
  unfolding slot
  steps-slot ws enough =
      slot_rank-slot (steps ws new_thread) (
        steps-rank ws new_thread new_thread-Sound (unfold slot_rank phase_rank talk_rank in enough))
