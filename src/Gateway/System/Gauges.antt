-- ===== src/Gateway/System/Gauges.antt =====
-- Whatever the schedule, the gauges count the goroutines.
use ssh_vpn.Common.{
  ℕ, ◌+◌, Bytes, if◌then◌else◌, Bool, true, false, List, [], ◌∷◌, Option, none, some, ◌||◌, ℤ, pos,
  ◌≡◌, refl, ap, ◌∙◌, if-both, arith, get_elem?, All, All-append,
}
use ssh_vpn.Common.Sums.{
  sum, sum-append_one, beside, sum-get_elem?, sum-set, All-get_elem?, All-set,
}
use ssh_vpn.Gateway.Front.{Gateway, Limits, pred_ℤ, suc_ℤ, close}
use ssh_vpn.Gateway.Handle.{World, Thread, new_thread, advance}
use ssh_vpn.Gateway.Handle.Slots.{
  slot, child, forks, Sound, Balanced, Fine, advance-Fine, pred_ℤ-pos,
}
use ssh_vpn.Gateway.System.{
  Arrival, connection, accept_error, Acceptor, listening, loaded, admitted, counted, stopped,
  Accepted, accepted, arrive, admit, accept_step, Waiter, waiting, reaped, finished, wait_step,
  System, Event, opens, accepts, handles, waits, closes, restores, begin, fork, on_acceptor,
  on_thread, on_waiter, open_port, happen, run, new_system,
}

-- The slot that an `acceptLoop` has counted and no handler holds yet; the child of a waiter.
abbrev pub held : Acceptor → ℕ
held counted = 1
held _ = 0

abbrev pub watched : Waiter → ℕ
watched finished = 0
watched _ = 1

-- The gauges are the numbers of slots and of children that the goroutines hold.
pub record IsCounted (s : System) : Type 0 where
  pub sound : All Sound (s.threads)
  pub slots : s.front.handshaking ≡ pos (sum held (s.acceptors) + sum slot (s.threads))
  pub live : s.front.children ≡ pos (sum watched (s.waiters) + sum child (s.threads))

new_system-IsCounted : (c : Limits) → IsCounted (new_system c)
unfolding new_system sum
new_system-IsCounted c = record { sound = tt; slots = refl; live = refl }

sum-begin :
    (f : Thread → ℕ) (b : Bool) (ts : List Thread)
    → sum f (begin b ts) ≡ sum f ts + (if b then f new_thread else 0)
sum-begin f true ts = sum-append_one f ts new_thread
sum-begin f false ts = omega arith

begin-Sound : (b : Bool) (ts : List Thread) → All Sound ts → All Sound (begin b ts)
unfolding Sound
begin-Sound true ts h = All-append Sound ts (new_thread ∷ []) h ((refl, refl), tt)
begin-Sound false ts h = h

-- A step of `acceptLoop` moves the gauge of handshakes and what it holds, in step.
unfoldable Kept : Acceptor → Gateway → Accepted → Type 0
Kept a g r =
    ((n : ℕ)
      → g.handshaking ≡ pos (n + held a)
      → r.gateway.handshaking ≡ pos (n + held (r.acceptor) + (if r.starts then 1 else 0)))
    × (r.gateway.children ≡ g.children)

accepted-Kept :
    (a b : Acceptor) (g f : Gateway)
    → held b ≡ held a
    → f.handshaking ≡ g.handshaking
    → f.children ≡ g.children
    → Kept a g (accepted b f)
unfolding Kept
accepted-Kept a b g f h e k = ((λ n m. e ∙ m ∙ ap pos (omega (arith, h))), k)

arrive-Kept : (e : Arrival) (b : ℕ) (g : Gateway) → Kept (listening b) g (arrive e b g)
arrive-Kept (connection true) b g = accepted-Kept _ _ g g refl refl refl
arrive-Kept (connection false) b g = accepted-Kept _ _ g g refl refl refl
arrive-Kept (accept_error gone) b g =
    if-both (Kept (listening b) g) (g.closed || gone) _ _
      (λ _. accepted-Kept _ _ g g refl refl refl) (λ _. accepted-Kept _ _ g g refl refl refl)

admit-Kept : (b : Bool) (h : ℤ) (g : Gateway) → Kept (loaded h) g (admit b g)
admit-Kept true h g = accepted-Kept _ _ g _ refl refl refl
admit-Kept false h g = accepted-Kept _ _ g g refl refl refl

accept_step-Kept : (e : Arrival) (a : Acceptor) (g : Gateway) → Kept a g (accept_step e a g)
unfolding accept_step
accept_step-Kept e (listening b) g = arrive-Kept e b g
accept_step-Kept e (loaded h) g = admit-Kept _ h g
accept_step-Kept e admitted g = unfold Kept in ((λ n m. ap suc_ℤ m ∙ ap pos (omega arith)), refl)
accept_step-Kept e counted g = unfold Kept in ((λ n m. m ∙ ap pos (omega arith)), refl)
accept_step-Kept e stopped g = accepted-Kept _ _ g g refl refl refl

if_same : (b : Bool) (n : ℕ) → (if b then n else n) ≡ n
if_same true n = refl
if_same false n = refl

on_acceptor-IsCounted :
    (i : ℕ) (e : Arrival) (o : Option Acceptor) (s : System)
    → get_elem? (s.acceptors) i ≡ o
    → IsCounted s
    → IsCounted (on_acceptor i e o s)
unfolding on_acceptor slot child Kept
on_acceptor-IsCounted i e none s at k = k
on_acceptor-IsCounted i e (some a) s at k =
    let r = accept_step e a (s.front) in
    let kept = accept_step-Kept e a (s.front) in
    let others = beside held (s.acceptors) i + sum slot (s.threads) in
    let before = sum-get_elem? held (s.acceptors) i a at in
    let after = sum-set held (s.acceptors) i a (r.acceptor) at in
    record {
      sound = begin-Sound (r.starts) (s.threads) k.sound;
      slots =
          kept.0 others (k.slots ∙ ap pos (omega (arith, before)))
          ∙ ap pos (omega (arith, after, sum-begin slot (r.starts) (s.threads)));
      live =
          kept.1
          ∙ k.live
          ∙ ap pos (omega (arith, sum-begin child (r.starts) (s.threads), if_same (r.starts) 0));
    }

sum-fork : (o : Option ℕ) (ws : List Waiter) → sum watched (fork o ws) ≡ sum watched ws + forks o
sum-fork none ws = omega arith
sum-fork (some pid) ws = sum-append_one watched ws (waiting pid)

module _ (parse_ip : Bytes → Option Bytes) where
  on_thread-IsCounted :
      (i : ℕ) (w : World) (o : Option Thread) (s : System)
      → get_elem? (s.threads) i ≡ o
      → IsCounted s
      → IsCounted (on_thread parse_ip i w o s)
  unfolding on_thread Fine Balanced
  on_thread-IsCounted i w none s at k = k
  on_thread-IsCounted i w (some t) s at k =
      let u = advance parse_ip w t (s.front) in
      let fine =
        advance-Fine parse_ip w t (s.front) (All-get_elem? Sound (s.threads) i t k.sound at) in
      let slots_before = sum-get_elem? slot (s.threads) i t at in
      let slots_after = sum-set slot (s.threads) i t (u.thread) at in
      let live_before = sum-get_elem? child (s.threads) i t at in
      let live_after = sum-set child (s.threads) i t (u.thread) at in
      let books =
        fine.1 (sum held (s.acceptors) + beside slot (s.threads) i)
          (sum watched (s.waiters) + beside child (s.threads) i)
          (k.slots ∙ ap pos (omega (arith, slots_before)))
          (k.live ∙ ap pos (omega (arith, live_before))) in
      record {
        sound = All-set Sound (s.threads) i (u.thread) k.sound fine.0;
        slots = books.0 ∙ ap pos (omega (arith, slots_after));
        live = books.1 ∙ ap pos (omega (arith, live_after, sum-fork (u.forked) (s.waiters)));
      }

on_waiter-IsCounted :
    (i : ℕ) (o : Option Waiter) (s : System)
    → get_elem? (s.waiters) i ≡ o
    → IsCounted s
    → IsCounted (on_waiter i o s)
unfolding on_waiter wait_step
on_waiter-IsCounted i none s at k = k
on_waiter-IsCounted i (some (waiting pid)) s at k = record {
  sound = k.sound;
  slots = k.slots;
  live =
      k.live
      ∙ ap pos (
          omega (
            arith,
            sum-get_elem? watched (s.waiters) i (waiting pid) at,
            sum-set watched (s.waiters) i (waiting pid) (reaped pid) at,
          ));
}
on_waiter-IsCounted i (some (reaped pid)) s at k = record {
  sound = k.sound;
  slots = k.slots;
  live =
      ap pred_ℤ k.live
      ∙ pred_ℤ-pos _ _ (
          omega (
            arith,
            sum-get_elem? watched (s.waiters) i (reaped pid) at,
            sum-set watched (s.waiters) i (reaped pid) finished at,
          ));
}
on_waiter-IsCounted i (some finished) s at k = record {
  sound = k.sound;
  slots = k.slots;
  live =
      k.live
      ∙ ap pos (
          omega (
            arith,
            sum-get_elem? watched (s.waiters) i finished at,
            sum-set watched (s.waiters) i finished finished at,
          ));
}

module _ (parse_ip : Bytes → Option Bytes) where
  happen-IsCounted : (e : Event) (s : System) → IsCounted s → IsCounted (happen parse_ip e s)
  unfolding happen open_port close
  happen-IsCounted (opens p) s k = record {
    sound = k.sound;
    slots = k.slots ∙ ap pos (omega (arith, sum-append_one held (s.acceptors) (listening 0)));
    live = k.live;
  }
  happen-IsCounted (accepts i e) s k = on_acceptor-IsCounted i e _ s refl k
  happen-IsCounted (handles i w) s k = on_thread-IsCounted parse_ip i w _ s refl k
  happen-IsCounted (waits i) s k = on_waiter-IsCounted i _ s refl k
  happen-IsCounted closes s k = record { sound = k.sound; slots = k.slots; live = k.live }
  happen-IsCounted (restores alive saved) s k = record {
    sound = k.sound;
    slots = k.slots;
    live = k.live;
  }

  run-IsCounted : (es : List Event) (s : System) → IsCounted s → IsCounted (run parse_ip es s)
  unfolding run
  run-IsCounted [] s k = k
  run-IsCounted (e ∷ es) s k = run-IsCounted es (happen parse_ip e s) (happen-IsCounted e s k)

  -- After every schedule from a new gateway, the gauge of handshakes is the number of connections
  -- that were counted and have not given their slot back, and the gauge of sessions is the number of
  -- children that were counted and not yet taken off; neither is ever negative.
  pub run-Counts : (c : Limits) (es : List Event) → IsCounted (run parse_ip es (new_system c))
  run-Counts c es = run-IsCounted es (new_system c) (new_system-IsCounted c)
