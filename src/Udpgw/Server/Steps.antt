-- ===== src/Udpgw/Server/Steps.antt =====
-- `startClient`: the oldest client is the victim at the limit, and the new one is registered.
use ssh_vpn.Common.{
  ℕ, ◌+◌, ◌<◌, ◌≤◌, Bool, true, false, List, [], ◌∷◌, none, some, ltb, ◌==◌, pos, pos_part, ◌≤ℤ◌,
  leb_ℤ, if◌then◌else◌, length, ◌≡◌, refl, ap, ◌∙◌, arith, ◌⊎◌, inl, inr, Bool-cases, if-both,
  Option,
}
use ssh_vpn.Common.Assoc.{lookup, insert, lookup-insert, length-insert_new}
use ssh_vpn.Udpgw.Flow.{u64}
use ssh_vpn.Udpgw.Client.{Client}
use ssh_vpn.Udpgw.Server.{Server, new_client, oldest, victim, admit_client}
use ssh_vpn.Udpgw.Server.Clients.{
  Clients, total_open-insert_new, AllSound-insert, DistinctKeys-insert,
}
use ssh_vpn.Udpgw.Server.Invariant.{IsCoherent, is_some}

-- How many of these clients are registered.
abbrev pub registered : ℕ → Clients → ℕ
registered v m = if is_some (lookup v m) then 1 else 0

abbrev pub extra : List ℕ → Clients → ℕ
extra [] m = 0
extra (v ∷ vs) m = registered v m + extra vs m

abbrev HasKey : ℕ → Clients → Type 0
HasKey k [] = ⊥
HasKey k ((j, c) ∷ m) = (j ≡ k) ⊎ HasKey k m

HasKey-lookup : (k : ℕ) (m : Clients) → HasKey k m → (c : Client) × (lookup k m ≡ some c)
unfolding lookup
HasKey-lookup k [] h = absurd h
HasKey-lookup k ((j, c) ∷ m) h = elim (Bool-cases (j == k)) [
  | inl hit ↦ (c, rw hit)
  | inr miss ↦ rw miss (HasKey-lookup k m (elim h [ inl e ↦ absurd (ground arith) | inr t ↦ t ]))
]

oldest-HasKey :
    (b t : ℕ) (m : Clients)
    → (r : ℕ × ℕ) × (oldest (some (b, t)) m ≡ some r) × ((b ≡ r.0) ⊎ HasKey r.0 m)
unfolding oldest
oldest-HasKey b t [] = ((b, t), refl, inl refl)
oldest-HasKey b t ((j, c) ∷ m) = elim (Bool-cases (ltb c.since t)) [
  | inl older ↦ rw older (let (r, e, w) = oldest-HasKey j c.since m in (r, e, inr w))
  | inr newer ↦ rw newer (
      let (r, e, w) = oldest-HasKey b t m in
      (r, e, elim w [ inl same ↦ inl same | inr there ↦ inr (inr there) ]))
]

-- There is an oldest client unless there is none, and it is registered.
oldest-lookup :
    (m : Clients)
    → 0 < length m
    → (r : ℕ × ℕ) × (oldest none m ≡ some r) × ((c : Client) × (lookup r.0 m ≡ some c))
unfolding oldest
oldest-lookup [] h = absurd (omega arith)
oldest-lookup ((j, c) ∷ m) h =
    let (r, e, w) = oldest-HasKey j c.since m in (r, e, HasKey-lookup r.0 ((j, c) ∷ m) w)

add_client-IsCoherent :
    (id now remote_port local_port : ℕ) (s : Server)
    → lookup id s.clients ≡ none
    → IsCoherent s
    → IsCoherent
        (record s { clients = insert id (new_client now remote_port local_port) s.clients })
add_client-IsCoherent id now remote_port local_port s new k =
    let c = new_client now remote_port local_port in
    record {
      some_flow = k.some_flow;
      sound =
          AllSound-insert s.cfg.max_flows id c s.clients
            (record {
              opens = tt;
              distinct = tt;
              no_leak = refl;
              within = omega (arith, k.some_flow);
              closed_empty = λ _. refl;
            })
            k.sound;
      distinct = DistinctKeys-insert id c s.clients k.distinct;
      gauge = k.gauge ∙ ap u64 (omega (arith, total_open-insert_new id c s.clients new));
    }

registered-insert :
    (id b : ℕ) (c : Client) (m : Clients) {d : Client}
    → lookup b m ≡ some d
    → registered b (insert id c m) ≡ 1
registered-insert id b c m e = elim (Bool-cases (id == b)) [
  | inl same ↦ rw (lookup-insert id b c m, same) refl
  | inr other ↦ rw (lookup-insert id b c m, other, e) refl
]

-- Behind the locked section the new client is over the limit only if it has a victim, which is
-- still registered then.
unfoldable pub Admitted : Server → Server × List ℕ → Type 0
Admitted s (s', victims) =
    IsCoherent s'
    × (s'.cfg ≡ s.cfg)
    × (length victims ≤ 1)
    × (length s'.clients ≤ pos_part s.cfg.max_clients + extra victims s'.clients)

module _ (id now remote_port local_port : ℕ) (s : Server) (new : lookup id s.clients ≡ none)
    (k : IsCoherent s) (some_client : pos 1 ≤ℤ s.cfg.max_clients)
    (within : length s.clients ≤ pos_part s.cfg.max_clients) where
  abbrev added : Server
  added = record s { clients = insert id (new_client now remote_port local_port) s.clients }

  length-added : length added.clients ≡ length s.clients + 1
  length-added = length-insert_new id (new_client now remote_port local_port) s.clients new

  added-IsCoherent : IsCoherent added
  added-IsCoherent = add_client-IsCoherent id now remote_port local_port s new k

  full-Admitted :
      (full : Bool)
      → leb_ℤ s.cfg.max_clients (pos (length s.clients)) ≡ full
      → Admitted s (added, victim (if full then oldest none s.clients else none))
  unfolding Admitted admit_client
  full-Admitted true full =
      let (r, e, (c, found)) = oldest-lookup s.clients (ground (arith, some_client)) in
      let here = registered-insert id r.0 (new_client now remote_port local_port) s.clients found in
      rw e (added-IsCoherent, refl, omega arith, omega (arith, length-added, here, within))
  full-Admitted false room =
      (added-IsCoherent, refl, omega arith, ground (arith, length-added, some_client))

  pub admit_client-Admitted : Admitted s (admit_client id now remote_port local_port s)
  unfolding Admitted admit_client
  admit_client-Admitted =
      if-both {A = Server × List ℕ} (Admitted s) s.closed _ _
        (λ down. (k, refl, omega arith, omega (arith, within))) (λ up. full-Admitted _ refl)

-- With several goroutines in `startClient` the limit may be passed, and the rest holds.
pub admit_client-IsCoherent :
    (id now remote_port local_port : ℕ) (s : Server)
    → lookup id s.clients ≡ none
    → IsCoherent s
    → let r = admit_client id now remote_port local_port s in
      IsCoherent r.0 × (r.0.cfg ≡ s.cfg) × (length r.1 ≤ 1)
unfolding admit_client
admit_client-IsCoherent id now remote_port local_port s new k =
    if-both {A = Server × List ℕ} (λ r. IsCoherent r.0 × (r.0.cfg ≡ s.cfg) × (length r.1 ≤ 1))
      s.closed _ _ (λ down. (k, refl, omega arith))
      (λ up. (
        add_client-IsCoherent id now remote_port local_port s new k,
        refl,
        one (
            if leb_ℤ s.cfg.max_clients (pos (length s.clients))
            then oldest none s.clients
            else none),
      ))
  where
    one : (o : Option (ℕ × ℕ)) → length (victim o) ≤ 1
    one none = omega arith
    one (some (b, t)) = omega arith
