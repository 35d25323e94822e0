-- ===== src/Udpgw/Client/Owned.antt =====
-- Which flow objects a client's map owns, and closing some of them while the rest stays.
use ssh_vpn.Common.{
  ℕ, zero, suc, ◌+◌, ◌≤◌, true, false, List, [], ◌∷◌, some, ◌==◌, if◌then◌else◌, length, get_elem?,
  set, ◌≡◌, ◌≢◌, refl, sym, ap, ◌∙◌, arith, get_elem?-set_self, get_elem?-set_ne, get_elem?-lt, ◌⊎◌,
  inl, inr, Bool-cases, Option-cases, ==_iff,
}
use ssh_vpn.Udpgw.Flow.{Flow, Counters, u64, pred64, close_flow, close_flows, touch}

-- `i` points to an open flow of connection `k`.
abbrev pub IsOpen : List Flow → ℕ → ℕ → Type 0
IsOpen objs k i = (f : Flow) × (get_elem? objs i ≡ some f) × (f.conid ≡ k) × (f.closed ≡ false)

-- Every entry points to an open flow that carries the entry's key.
abbrev pub Opens : List Flow → List (ℕ × ℕ) → Type 0
Opens objs [] = Unit {0}
Opens objs ((k, i) ∷ m) = IsOpen objs k i × Opens objs m

abbrev pub Fresh : ℕ → List (ℕ × ℕ) → Type 0
Fresh k [] = Unit {0}
Fresh k ((j, i) ∷ m) = (j ≢ k) × Fresh k m

-- No key twice.
abbrev pub Distinct : List (ℕ × ℕ) → Type 0
Distinct [] = Unit {0}
Distinct ((k, i) ∷ m) = Fresh k m × Distinct m

-- No key of the first list in the second.
abbrev pub Apart : List (ℕ × ℕ) → List (ℕ × ℕ) → Type 0
Apart [] ks = Unit {0}
Apart ((k, i) ∷ es) ks = Fresh k ks × Apart es ks

abbrev pub open_value : Flow → ℕ
open_value f = if f.closed then 0 else 1

abbrev pub count_open : List Flow → ℕ
count_open [] = 0
count_open (f ∷ objs) = open_value f + count_open objs

-- The server's gauge of flows, when `others` flows of other clients are open.
abbrev pub Tracks : ℕ → Counters → List Flow → Type 0
Tracks others n objs = n.flows ≡ u64 (others + count_open objs)

abbrev shut : Flow → Flow
shut f = record f { closed = true }

count_open-set :
    (objs : List Flow) (i : ℕ) (f g : Flow)
    → get_elem? objs i ≡ some f
    → count_open (set objs i g) + open_value f ≡ count_open objs + open_value g
count_open-set [] i f g e = absurd (cc)
count_open-set (x ∷ objs) zero f g e = ground arith
count_open-set (x ∷ objs) (suc i) f g e = omega (arith, count_open-set objs i f g e)

IsOpen-ne : (objs : List Flow) (i j k l : ℕ) → IsOpen objs k i → IsOpen objs l j → k ≢ l → i ≢ j
IsOpen-ne objs i j k l (f, e, a, u) (g, d, b, v) ne same =
    let one : f ≡ g = cc (e, d, same) in ne (cc (a, b, ap (λ (x : Flow). x.conid) one))

IsOpen-set :
    (objs : List Flow) (i j k l : ℕ) (g : Flow)
    → IsOpen objs k i
    → IsOpen objs l j
    → k ≢ l
    → IsOpen (set objs i g) l j
IsOpen-set objs i j k l g p q ne =
    let (f, e, b, v) = q in
    (f, get_elem?-set_ne objs i j g (IsOpen-ne objs i j k l p q ne) ∙ e, b, v)

Opens-set :
    (objs : List Flow) (i k : ℕ) (g : Flow) (m : List (ℕ × ℕ))
    → IsOpen objs k i
    → Opens objs m
    → Fresh k m
    → Opens (set objs i g) m
Opens-set objs i k g [] p h f = tt
Opens-set objs i k g ((l, j) ∷ m) p (q, h) (ne, f) =
    (IsOpen-set objs i j k l g p q (λ e. ne (sym e)), Opens-set objs i k g m p h f)

-- Closing an open flow takes it off the gauge; it was counted once.
close_flow-set :
    (objs : List Flow) (i : ℕ) (n : Counters) (f : Flow)
    → get_elem? objs i ≡ some f
    → f.closed ≡ false
    → close_flow i objs n ≡ (set objs i (shut f), record n { flows = pred64 n.flows })
unfolding close_flow
close_flow-set objs i n f e up = rw (e, close_flow) (rw up refl)

pub record Closed (objs : List Flow) (others : ℕ) (r : List Flow × Counters) (size : ℕ)
    : Type 0 where
  pub counted : count_open r.0 + size ≡ count_open objs
  pub tracked : Tracks others r.1 r.0

pub close_flow-Closed :
    (objs : List Flow) (i k others : ℕ) (n : Counters)
    → IsOpen objs k i
    → Tracks others n objs
    → Closed objs others (close_flow i objs n) 1
close_flow-Closed objs i k others n (f, e, same, up) t = rw (close_flow-set objs i n f e up) (
    let fewer : count_open (set objs i (shut f)) + 1 ≡ count_open objs =
      ground (arith, count_open-set objs i f (shut f) e) in
    record { counted = fewer; tracked = omega arith })

pub close_flow-Opens :
    (objs : List Flow) (i k : ℕ) (n : Counters) (m : List (ℕ × ℕ))
    → IsOpen objs k i
    → Opens objs m
    → Fresh k m
    → Opens (close_flow i objs n).0 m
close_flow-Opens objs i k n m (f, e, same, up) h fr =
    rw (close_flow-set objs i n f e up) (Opens-set objs i k (shut f) m (f, e, same, up) h fr)

-- Closing the flows of `es` leaves those of `ks` open, and takes each of `es` off the gauge.
pub close_flows-Opens :
    (es ks : List (ℕ × ℕ)) (objs : List Flow) (n : Counters)
    → Opens objs es
    → Distinct es
    → Opens objs ks
    → Apart es ks
    → Opens (close_flows es objs n).0 ks
unfolding close_flows
close_flows-Opens [] ks objs n o d k a = k
close_flows-Opens ((x, i) ∷ es) ks objs n (p, o) (f, d) k (g, a) =
    let (objs', n') = close_flow i objs n in
    close_flows-Opens es ks objs' n' (close_flow-Opens objs i x n es p o f) d
      (close_flow-Opens objs i x n ks p k g) a

pub close_flows-Closed :
    (es : List (ℕ × ℕ)) (objs : List Flow) (others : ℕ) (n : Counters)
    → Opens objs es
    → Distinct es
    → Tracks others n objs
    → Closed objs others (close_flows es objs n) (length es)
unfolding close_flows
close_flows-Closed [] objs others n o d t = record { counted = omega arith; tracked = t }
close_flows-Closed ((x, i) ∷ es) objs others n (p, o) (f, d) t =
    let one = close_flow-Closed objs i x others n p t in
    let (objs', n') = close_flow i objs n in
    let more =
      close_flows-Closed es objs' others n' (close_flow-Opens objs i x n es p o f) d one.tracked in
    record { counted = omega (arith, one.counted, more.counted); tracked = more.tracked }

-- A write of `lastUse` neither opens nor closes anything.
IsOpen-touch : (objs : List Flow) (i now j k : ℕ) → IsOpen objs k j → IsOpen (touch i now objs) k j
unfolding touch
IsOpen-touch objs i now j k (f, e, a, u) = elim (Option-cases (get_elem? objs i)) [
  | inl nothing ↦ rw (nothing, touch) (f, e, a, u)
  | inr (g, d) ↦
      rw (d, touch)
        (elim (Bool-cases (i == j)) [
          | inl same ↦
              let i≡j : i ≡ j = (==_iff i j).0 same in
              let one : g ≡ f = cc (d, e, i≡j) in
              (
                record g { last_use = now },
                ap (get_elem? (set objs i (record g { last_use = now }))) (sym i≡j)
                    ∙ get_elem?-set_self objs i (record g { last_use = now })
                        (get_elem?-lt objs i d),
                ap (λ (x : Flow). x.conid) one ∙ a,
                ap (λ (x : Flow). x.closed) one ∙ u,
              )
          | inr other ↦
              (f, get_elem?-set_ne objs i j (record g { last_use = now }) (ground arith) ∙ e, a, u)
        ])
]

pub Opens-touch :
    (objs : List Flow) (i now : ℕ) (m : List (ℕ × ℕ)) → Opens objs m → Opens (touch i now objs) m
Opens-touch objs i now [] o = tt
Opens-touch objs i now ((k, j) ∷ m) (p, o) =
    (IsOpen-touch objs i now j k p, Opens-touch objs i now m o)

pub count_open-touch :
    (objs : List Flow) (i now : ℕ) → count_open (touch i now objs) ≡ count_open objs
unfolding touch
count_open-touch objs i now = elim (Option-cases (get_elem? objs i)) [
  | inl nothing ↦ rw (nothing, touch) refl
  | inr (g, d) ↦
      rw (d, touch) (omega (arith, count_open-set objs i g (record g { last_use = now }) d))
]

shut_one :
    (objs : List Flow) (i : ℕ) (f : Flow)
    → get_elem? objs i ≡ some f
    → f.closed ≡ false
    → suc (count_open (set objs i (shut f))) ≡ count_open objs
shut_one objs i f e up = ground (arith, count_open-set objs i f (shut f) e)

-- Some entry holds this pointer.
abbrev pub PointsTo : ℕ → List (ℕ × ℕ) → Type 0
PointsTo i [] = ⊥
PointsTo i ((k, j) ∷ m) = (j ≡ i) ⊎ PointsTo i m

pub PointsTo-dec : (i : ℕ) (m : List (ℕ × ℕ)) → PointsTo i m ⊎ (¬ PointsTo i m)
PointsTo-dec i [] = inr (λ h. h)
PointsTo-dec i ((k, j) ∷ m) = elim (PointsTo-dec i m) [
  | inl there ↦ inl (inr there)
  | inr not_there ↦ elim (Bool-cases (j == i)) [
    | inl same ↦ inl (inl ((==_iff j i).0 same))
    | inr other ↦ inr (elim [ inl e ↦ ground arith | inr h ↦ not_there h ])
  ]
]

-- An open flow that no entry points to is one more than the entries.
pub open_uncounted :
    (m : List (ℕ × ℕ)) (objs : List Flow) (i : ℕ) (f : Flow)
    → get_elem? objs i ≡ some f
    → f.closed ≡ false
    → ¬ PointsTo i m
    → Opens objs m
    → Distinct m
    → suc (length m) ≤ count_open objs
open_uncounted [] objs i f e up apart o d = omega (arith, shut_one objs i f e up)
open_uncounted ((k, j) ∷ m) objs i f e up apart ((g, q, a, u), o) (fr, d) =
    let rest =
      open_uncounted m (set objs j (shut g)) i f
        (get_elem?-set_ne objs j i (shut g) (λ s. apart (inl s)) ∙ e) up (λ h. apart (inr h))
        (Opens-set objs j k (shut g) m (g, q, a, u) o fr) d in
    omega (arith, shut_one objs j g q u, rest)
