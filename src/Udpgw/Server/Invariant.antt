-- ===== src/Udpgw/Server/Invariant.antt =====
-- What holds of the server at every step: every client is sound, and the gauge of flows is the
-- number of open sockets.
use ssh_vpn.Common.{
  ℕ, ◌-◌, ◌≤◌, [], ◌∷◌, Option, none, some, ◌==◌, pos, ◌≤ℤ◌, length, ◌≡◌, refl, sym, ap, ◌∙◌, arith,
  inl, inr, Bool-cases, ==_iff, Bool, true, false,
}
use ssh_vpn.Common.Assoc.{lookup, lookup-insert}
use ssh_vpn.Udpgw.Flow.{Counters, u64}
use ssh_vpn.Udpgw.Client.{Client}
use ssh_vpn.Udpgw.Client.Owned.{count_open}
use ssh_vpn.Udpgw.Client.Invariant.{Holds}
use ssh_vpn.Udpgw.Server.{Server, remove_client, with_client, on_client}
use ssh_vpn.Udpgw.Server.Clients.{
  Clients, total_open, AllSound, DistinctKeys, lookup-AllSound, total_open-insert, AllSound-insert,
  AllSound-erase, DistinctKeys-insert, DistinctKeys-erase, total_open-erase,
}

abbrev pub is_some : Option Client → Bool
is_some none = false
is_some (some c) = true

pub record IsCoherent (s : Server) : Type 0 where
  pub some_flow : pos 1 ≤ℤ s.cfg.max_flows
  pub sound : AllSound s.cfg.max_flows s.clients
  pub distinct : DistinctKeys s.clients
  pub gauge : s.counters.flows ≡ u64 (total_open s.clients)

-- A registered client, with the sockets of all the others.
others_of : (s : Server) (id : ℕ) (c : Client) → ℕ
others_of s id c = total_open s.clients - count_open c.objs

count_open-le :
    (id : ℕ) {c : Client} (m : Clients) → lookup id m ≡ some c → count_open c.objs ≤ total_open m
unfolding lookup
count_open-le id [] e = absurd (cc)
count_open-le id {c} ((j, d) ∷ m) e = elim (Bool-cases (j == id)) [
  | inl hit ↦
      let same : d ≡ c = ground (arith, rw hit at e) in
      omega (arith, ap (λ (x : Client). count_open x.objs) same)
  | inr miss ↦ omega (arith, count_open-le id m (rw miss at e))
]

client-Holds :
    (s : Server) (id : ℕ) (c : Client)
    → IsCoherent s
    → lookup id s.clients ≡ some c
    → Holds s.cfg.max_flows (others_of s id c) c s.counters
unfolding others_of
client-Holds s id c k e = record {
  sound = lookup-AllSound s.cfg.max_flows id s.clients k.sound e;
  tracks = omega (arith, k.gauge, count_open-le id s.clients e);
}

-- An operation of a client that keeps that client sound keeps the server consistent.
pub on_client-IsCoherent :
    (id : ℕ) (op : Client → Counters → Client × Counters) (s : Server)
    → ((others : ℕ) (c : Client) (n : Counters)
        → Holds s.cfg.max_flows others c n
        → Holds s.cfg.max_flows others (op c n).0 (op c n).1)
    → IsCoherent s
    → IsCoherent (on_client id op s)
unfolding on_client
on_client-IsCoherent id op s keeps k = by_client (lookup id s.clients) refl
  where
    by_client : (o : Option Client) → lookup id s.clients ≡ o → IsCoherent (with_client o op id s)
    by_client none e = k
    by_client (some c) e =
        let h = keeps (others_of s id c) c s.counters (client-Holds s id c k e) in
        let c' = (op c s.counters).0 in
        let (sum, len) = total_open-insert id c c' s.clients e in
        let le = count_open-le id s.clients e in
        record {
          some_flow = k.some_flow;
          sound = AllSound-insert s.cfg.max_flows id c' s.clients h.sound k.sound;
          distinct = DistinctKeys-insert id c' s.clients k.distinct;
          gauge = unfold others_of in omega (arith, sum, le, h.tracks);
        }

-- `removeClient` of a client that was closed.
pub remove_client-IsCoherent :
    (id : ℕ) (c : Client) (s : Server)
    → lookup id s.clients ≡ some c
    → c.closed ≡ true
    → IsCoherent s
    → IsCoherent (remove_client id s)
unfolding remove_client
remove_client-IsCoherent id c s e down k =
    let h = client-Holds s id c k e in
    let none_open = h.sound.no_leak ∙ ap (length {A = ℕ × ℕ}) (h.sound.closed_empty down) in
    record {
      some_flow = k.some_flow;
      sound = AllSound-erase s.cfg.max_flows id s.clients k.sound;
      distinct = DistinctKeys-erase id s.clients k.distinct;
      gauge =
          k.gauge ∙ ap u64 (omega (arith, total_open-erase id c s.clients k.distinct e, none_open));
    }

pub on_client-length :
    (id : ℕ) (op : Client → Counters → Client × Counters) (s : Server)
    → length (on_client id op s).clients ≡ length s.clients
unfolding on_client
on_client-length id op s = by_client (lookup id s.clients) refl
  where
    by_client :
        (o : Option Client)
        → lookup id s.clients ≡ o
        → length (with_client o op id s).clients ≡ length s.clients
    by_client none e = refl
    by_client (some c) e = (total_open-insert id c (op c s.counters).0 s.clients e).1

pub on_client-cfg :
    (id : ℕ) (op : Client → Counters → Client × Counters) (s : Server)
    → (on_client id op s).cfg ≡ s.cfg
unfolding on_client
on_client-cfg id op s = by_client (lookup id s.clients)
  where
    by_client : (o : Option Client) → (with_client o op id s).cfg ≡ s.cfg
    by_client none = refl
    by_client (some c) = refl

-- An operation of a client adds no key and takes none away.
pub lookup-on_client :
    (id j : ℕ) (op : Client → Counters → Client × Counters) (s : Server)
    → is_some (lookup j (on_client id op s).clients) ≡ is_some (lookup j s.clients)
unfolding on_client
lookup-on_client id j op s = by_client (lookup id s.clients) refl
  where
    by_client :
        (o : Option Client)
        → lookup id s.clients ≡ o
        → is_some (lookup j (with_client o op id s).clients) ≡ is_some (lookup j s.clients)
    by_client none e = refl
    by_client (some c) e =
        ap is_some (lookup-insert id j (op c s.counters).0 s.clients)
        ∙ (elim (Bool-cases (id == j)) [
          | inl same ↦ rw same (
              ap is_some
                (sym (ap (λ (k : ℕ). lookup k s.clients) (sym ((==_iff id j).0 same)) ∙ e)))
          | inr apart ↦ rw apart refl
        ])
