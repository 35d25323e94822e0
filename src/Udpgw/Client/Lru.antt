-- ===== src/Udpgw/Client/Lru.antt =====
-- The victim of `handle` at the flow limit.
use ssh_vpn.Common.{
  ℕ, ◌≤◌, List, [], ◌∷◌, none, some, ltb, if◌then◌else◌, ◌≡◌, refl, ap, arith, ◌⊎◌, inl, inr,
  Bool-cases, ltb→lt, ltb→le,
}
use native.Mathlib.Nat.{le_refl}
use ssh_vpn.Common.Assoc.{lookup}
use ssh_vpn.Udpgw.Flow.{Flow, conid_at, last_use_at}
use ssh_vpn.Udpgw.Client.{lru}
use ssh_vpn.Udpgw.Client.Owned.{IsOpen, Opens, Distinct, PointsTo}
use ssh_vpn.Udpgw.Client.Entries.{lookup-Fresh}

pub conid_at-IsOpen : (objs : List Flow) (k i : ℕ) → IsOpen objs k i → conid_at objs i ≡ k
unfolding conid_at
conid_at-IsOpen objs k i (f, e, a, u) = rw e a

-- A flow that the map points to stands under its own connection id.
pub PointsTo-lookup :
    (objs : List Flow) (i : ℕ) (m : List (ℕ × ℕ))
    → Opens objs m
    → Distinct m
    → PointsTo i m
    → lookup (conid_at objs i) m ≡ some i
unfolding lookup
PointsTo-lookup objs i [] o d h = absurd h
PointsTo-lookup objs i ((k, j) ∷ m) (p, o) (f, d) (inl e) =
    ground (arith, conid_at-IsOpen objs k j p, ap (conid_at objs) e)
PointsTo-lookup objs i ((k, j) ∷ m) (p, o) (f, d) (inr h) =
    ground (arith, PointsTo-lookup objs i m o d h, lookup-Fresh k m f)

lru-PointsTo' :
    (objs : List Flow) (b : ℕ) (m : List (ℕ × ℕ)) {i : ℕ}
    → lru objs (some b) m ≡ some i
    → (b ≡ i) ⊎ PointsTo i m
unfolding lru
lru-PointsTo' objs b [] e = inl (cc)
lru-PointsTo' objs b ((k, j) ∷ m) {i} e =
    elim (Bool-cases (ltb (last_use_at objs j) (last_use_at objs b))) [
      | inl older ↦ inr (lru-PointsTo' objs j m (rw older at e))
      | inr newer ↦ elim (lru-PointsTo' objs b m (rw newer at e)) [
        | inl h ↦ inl h
        | inr h ↦ inr (inr h)
      ]
    ]

pub lru-PointsTo :
    (objs : List Flow) (m : List (ℕ × ℕ)) {i : ℕ} → lru objs none m ≡ some i → PointsTo i m
unfolding lru
lru-PointsTo objs [] e = cc
lru-PointsTo objs ((k, j) ∷ m) e = lru-PointsTo' objs j m e

pub lru-cons :
    (objs : List Flow) (b : ℕ) (m : List (ℕ × ℕ)) → (i : ℕ) × (lru objs (some b) m ≡ some i)
unfolding lru
lru-cons objs b [] = (b, refl)
lru-cons objs b ((k, j) ∷ m) =
    lru-cons objs (if ltb (last_use_at objs j) (last_use_at objs b) then j else b) m

-- There is a victim unless there is no flow.
pub lru_empty : (objs : List Flow) (m : List (ℕ × ℕ)) → lru objs none m ≡ none → m ≡ []
unfolding lru
lru_empty objs [] e = refl
lru_empty objs ((k, j) ∷ m) e = let (i, found) = lru-cons objs j m in cc (e, found)

-- No entry of the map was used before the flow that time `t` belongs to.
abbrev pub NoneOlder : List Flow → ℕ → List (ℕ × ℕ) → Type 0
NoneOlder objs t [] = Unit {0}
NoneOlder objs t ((k, j) ∷ m) = (t ≤ last_use_at objs j) × NoneOlder objs t m

lru-NoneOlder' :
    (objs : List Flow) (b : ℕ) (m : List (ℕ × ℕ)) {i : ℕ}
    → lru objs (some b) m ≡ some i
    → (last_use_at objs i ≤ last_use_at objs b) × NoneOlder objs (last_use_at objs i) m
unfolding lru
lru-NoneOlder' objs b [] {i} e = let same : b ≡ i = cc in (rw same (le_refl _), tt)
lru-NoneOlder' objs b ((k, j) ∷ m) {i} e =
    elim (Bool-cases (ltb (last_use_at objs j) (last_use_at objs b))) [
      | inl older ↦
          let (le, all) = lru-NoneOlder' objs j m (rw older at e) in
          (omega (arith, ltb→lt _ _ older), (le, all))
      | inr newer ↦
          let (le, all) = lru-NoneOlder' objs b m (rw newer at e) in
          (le, (omega (arith, ltb→le _ _ newer), all))
    ]

-- The victim of the search was used no later than any flow in the map.
pub lru-NoneOlder :
    (objs : List Flow) (m : List (ℕ × ℕ)) {i : ℕ}
    → lru objs none m ≡ some i
    → NoneOlder objs (last_use_at objs i) m
unfolding lru
lru-NoneOlder objs [] e = tt
lru-NoneOlder objs ((k, j) ∷ m) e = lru-NoneOlder' objs j m e
