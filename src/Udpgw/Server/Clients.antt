-- ===== src/Udpgw/Server/Clients.antt =====
-- The set of clients under lookup, insertion and `delete`: soundness, distinct keys, and how many
-- sockets are open.
use ssh_vpn.Common.{
  ℕ, suc, ◌+◌, List, [], ◌∷◌, none, some, ◌==◌, ℤ, length, ◌≡◌, ◌≢◌, refl, ap, subst, arith, inl,
  inr, Bool-cases, ==_iff,
}
use ssh_vpn.Common.Assoc.{lookup, erase, insert}
use ssh_vpn.Udpgw.Client.{Client}
use ssh_vpn.Udpgw.Client.Owned.{count_open}
use ssh_vpn.Udpgw.Client.Invariant.{IsSound}

abbrev pub Clients : Type 0
Clients = List (ℕ × Client)

-- The open sockets of all clients.
abbrev pub total_open : Clients → ℕ
total_open [] = 0
total_open ((id, c) ∷ m) = count_open c.objs + total_open m

abbrev pub AllSound : ℤ → Clients → Type 0
AllSound limit [] = Unit {0}
AllSound limit ((id, c) ∷ m) = IsSound limit c × AllSound limit m

abbrev pub FreshKey : ℕ → Clients → Type 0
FreshKey k [] = Unit {0}
FreshKey k ((j, c) ∷ m) = (j ≢ k) × FreshKey k m

abbrev pub DistinctKeys : Clients → Type 0
DistinctKeys [] = Unit {0}
DistinctKeys ((k, c) ∷ m) = FreshKey k m × DistinctKeys m

pub lookup-AllSound :
    (limit : ℤ) (id : ℕ) (m : Clients) {c : Client}
    → AllSound limit m
    → lookup id m ≡ some c
    → IsSound limit c
unfolding lookup
lookup-AllSound limit id [] a e = absurd (cc)
lookup-AllSound limit id ((j, d) ∷ m) (s, a) e = elim (Bool-cases (j == id)) [
  | inl hit ↦ let same : d ≡ _ = ground (arith, rw hit at e) in subst (IsSound limit) same s
  | inr miss ↦ lookup-AllSound limit id m a (rw miss at e)
]

pub total_open-insert :
    (id : ℕ) (c c' : Client) (m : Clients)
    → lookup id m ≡ some c
    → (total_open (insert id c' m) + count_open c.objs ≡ total_open m + count_open c'.objs)
      × (length (insert id c' m) ≡ length m)
unfolding lookup insert
total_open-insert id c c' [] e = absurd (cc)
total_open-insert id c c' ((j, d) ∷ m) e = elim (Bool-cases (j == id)) [
  | inl hit ↦
      let same : d ≡ c = ground (arith, rw hit at e) in
      rw hit (omega (arith, ap (λ (x : Client). count_open x.objs) same), refl)
  | inr miss ↦
      let (sum, len) = total_open-insert id c c' m (rw miss at e) in
      rw miss (omega (arith, sum), ap suc len)
]

pub total_open-insert_new :
    (id : ℕ) (c : Client) (m : Clients)
    → lookup id m ≡ none
    → total_open (insert id c m) ≡ total_open m + count_open c.objs
unfolding lookup insert
total_open-insert_new id c [] e = omega arith
total_open-insert_new id c ((j, d) ∷ m) e = ground (arith, total_open-insert_new id c m)

pub AllSound-insert :
    (limit : ℤ) (id : ℕ) (c : Client) (m : Clients)
    → IsSound limit c
    → AllSound limit m
    → AllSound limit (insert id c m)
unfolding insert
AllSound-insert limit id c [] s a = (s, tt)
AllSound-insert limit id c ((j, d) ∷ m) s (q, a) = elim (Bool-cases (j == id)) [
  | inl hit ↦ rw hit (s, a)
  | inr miss ↦ rw miss (q, AllSound-insert limit id c m s a)
]

pub AllSound-erase :
    (limit : ℤ) (id : ℕ) (m : Clients) → AllSound limit m → AllSound limit (erase id m)
unfolding erase
AllSound-erase limit id [] a = tt
AllSound-erase limit id ((j, d) ∷ m) (q, a) = elim (Bool-cases (j == id)) [
  | inl hit ↦ rw hit (AllSound-erase limit id m a)
  | inr miss ↦ rw miss (q, AllSound-erase limit id m a)
]

FreshKey-insert :
    (k id : ℕ) (c : Client) (m : Clients) → id ≢ k → FreshKey k m → FreshKey k (insert id c m)
unfolding insert
FreshKey-insert k id c [] ne f = (ne, tt)
FreshKey-insert k id c ((j, d) ∷ m) ne (g, f) = elim (Bool-cases (j == id)) [
  | inl hit ↦ rw hit (ne, f)
  | inr miss ↦ rw miss (g, FreshKey-insert k id c m ne f)
]

pub DistinctKeys-insert :
    (id : ℕ) (c : Client) (m : Clients) → DistinctKeys m → DistinctKeys (insert id c m)
unfolding insert
DistinctKeys-insert id c [] d = (tt, tt)
DistinctKeys-insert id c ((j, x) ∷ m) (f, d) = elim (Bool-cases (j == id)) [
  | inl hit ↦ rw hit (subst (λ (k : ℕ). FreshKey k m) ((==_iff j id).0 hit) f, d)
  | inr miss ↦ rw miss (FreshKey-insert j id c m (ground arith) f, DistinctKeys-insert id c m d)
]

FreshKey-erase : (k id : ℕ) (m : Clients) → FreshKey k m → FreshKey k (erase id m)
unfolding erase
FreshKey-erase k id [] f = tt
FreshKey-erase k id ((j, x) ∷ m) (g, f) = elim (Bool-cases (j == id)) [
  | inl hit ↦ rw hit (FreshKey-erase k id m f)
  | inr miss ↦ rw miss (g, FreshKey-erase k id m f)
]

pub DistinctKeys-erase : (id : ℕ) (m : Clients) → DistinctKeys m → DistinctKeys (erase id m)
unfolding erase
DistinctKeys-erase id [] d = tt
DistinctKeys-erase id ((j, x) ∷ m) (f, d) = elim (Bool-cases (j == id)) [
  | inl hit ↦ rw hit (DistinctKeys-erase id m d)
  | inr miss ↦ rw miss (FreshKey-erase j id m f, DistinctKeys-erase id m d)
]

erase-FreshKey : (id : ℕ) (m : Clients) → FreshKey id m → erase id m ≡ m
unfolding erase
erase-FreshKey id [] f = refl
erase-FreshKey id ((j, x) ∷ m) (g, f) = elim (Bool-cases (j == id)) [
  | inl hit ↦ absurd (g ((==_iff j id).0 hit))
  | inr miss ↦ rw miss (ap (◌∷◌ (j, x)) (erase-FreshKey id m f))
]

pub total_open-erase :
    (id : ℕ) (c : Client) (m : Clients)
    → DistinctKeys m
    → lookup id m ≡ some c
    → total_open (erase id m) + count_open c.objs ≡ total_open m
unfolding lookup erase
total_open-erase id c [] d e = absurd (cc)
total_open-erase id c ((j, x) ∷ m) (f, d) e = elim (Bool-cases (j == id)) [
  | inl hit ↦
      let same : x ≡ c = ground (arith, rw hit at e) in
      let gone = erase-FreshKey id m (subst (λ (k : ℕ). FreshKey k m) ((==_iff j id).0 hit) f) in
      rw hit (omega (arith, ap total_open gone, ap (λ (y : Client). count_open y.objs) same))
  | inr miss ↦ rw miss (omega (arith, total_open-erase id c m d (rw miss at e)))
]
