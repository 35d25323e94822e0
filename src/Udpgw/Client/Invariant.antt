-- ===== src/Udpgw/Client/Invariant.antt =====
-- What holds of a client between two calls on its flows, and that every call keeps it.
use ssh_vpn.Common.{
  ℕ, suc, ◌+◌, true, false, [], ◌∷◌, ◌++◌, Option, none, some, ℤ, pos, ◌≤ℤ◌, leb_ℤ, length,
  get_elem?, ◌≡◌, refl, sym, ap, ◌∙◌, subst, arith, get_elem?-append_length, inl, inr, Bool-cases,
}
use ssh_vpn.Common.Assoc.{lookup, erase, lookup-erase, length-insert_new}
use ssh_vpn.Udpgw.Proto.{AddrPort, Packet}
use ssh_vpn.Udpgw.Flow.{Flow, Counters, u64, conid_at}
use ssh_vpn.Udpgw.Client.{
  Client, flow_target, drop_flow, lru, evict_flow, make_room, open_flow, is_rebound, rebind,
  open_if_none, admit,
}
use ssh_vpn.Udpgw.Client.Owned.{
  PointsTo-dec, open_uncounted, Opens, Distinct, count_open, Tracks, close_flow-Opens,
  close_flow-Closed,
}
use ssh_vpn.Udpgw.Client.Entries.{
  lookup-Opens, Fresh-of_lookup, Fresh-erase_self, Distinct-erase, Opens-erase, length-erase_exact,
  insert-Opens, Distinct-insert, Opens-append, count_open-append,
}
use ssh_vpn.Udpgw.Client.Lru.{conid_at-IsOpen, PointsTo-lookup, lru-PointsTo, lru_empty}

-- The map has each key once and points to open flows of that key, every open socket is in the
-- map, the limit holds, and a closed client has no flows.
pub record IsSound (limit : ℤ) (c : Client) : Type 0 where
  pub opens : Opens c.objs c.flows
  pub distinct : Distinct c.flows
  pub no_leak : count_open c.objs ≡ length c.flows
  pub within : pos (length c.flows) ≤ℤ limit
  pub closed_empty : c.closed ≡ true → c.flows ≡ []

-- A client and the counters that go with it, when `others` flows of other clients are open.
pub record Holds (limit : ℤ) (others : ℕ) (c : Client) (n : Counters) : Type 0 where
  pub sound : IsSound limit c
  pub tracks : Tracks others n c.objs

-- No socket is forgotten: every flow object that is open stands in the map, under its own
-- connection id.
pub open_is_mapped :
    (limit : ℤ) (c : Client) (i : ℕ) (f : Flow)
    → IsSound limit c
    → get_elem? c.objs i ≡ some f
    → f.closed ≡ false
    → lookup f.conid c.flows ≡ some i
open_is_mapped limit c i f s e up = elim (PointsTo-dec i c.flows) [
  | inl there ↦
      rw (← conid_at-IsOpen c.objs f.conid i (f, e, refl, up))
        (PointsTo-lookup c.objs i c.flows s.opens s.distinct there)
  | inr lost ↦
      absurd
        (omega (arith, open_uncounted c.flows c.objs i f e up lost s.opens s.distinct, s.no_leak))
]

module _ (limit : ℤ) (others : ℕ) where
  pub drop_flow-Holds :
      (k i : ℕ) (c : Client) (n : Counters)
      → lookup k c.flows ≡ some i
      → c.closed ≡ false
      → Holds limit others c n
      → Holds limit others (drop_flow k i c n).0 (drop_flow k i c n).1
  unfolding drop_flow
  drop_flow-Holds k i c n e up h =
      let s = h.sound in
      let fresh_key = Fresh-erase_self k c.flows in
      let at_key = lookup-Opens c.objs k i c.flows s.opens e in
      let one = close_flow-Closed c.objs i k others n at_key h.tracks in
      let fewer = length-erase_exact k i c.flows s.distinct e in
      record {
        sound = record {
          opens =
              close_flow-Opens c.objs i k n (erase k c.flows) at_key
                (Opens-erase c.objs k c.flows s.opens) fresh_key;
          distinct = Distinct-erase k c.flows s.distinct;
          no_leak = omega (arith, one.counted, s.no_leak);
          within = omega (arith, s.within);
          closed_empty = λ down. cc (up, down);
        };
        tracks = one.tracked;
      }

  -- What `handle` needs before it opens a flow for connection `k`.
  abbrev Ready : ℕ → Client → Counters → Type 0
  Ready k c n =
      Holds limit others c n
      × (pos (suc (length c.flows)) ≤ℤ limit)
      × (c.closed ≡ false)
      × (lookup k c.flows ≡ none)

  evict-Ready :
      (k i : ℕ) (c : Client) (n : Counters)
      → lru c.objs none c.flows ≡ some i
      → c.closed ≡ false
      → lookup k c.flows ≡ none
      → Holds limit others c n
      → let r = drop_flow (conid_at c.objs i) i c n in Ready k r.0 r.1
  unfolding drop_flow
  evict-Ready k i c n victim up new h =
      let s = h.sound in
      let own =
        PointsTo-lookup c.objs i c.flows s.opens s.distinct (lru-PointsTo c.objs c.flows victim) in
      let fewer = length-erase_exact (conid_at c.objs i) i c.flows s.distinct own in
      (
        drop_flow-Holds (conid_at c.objs i) i c n own up h,
        ground (arith, fewer, s.within),
        up,
        ground (arith, lookup-erase (conid_at c.objs i) k c.flows),
      )

  make_room-Ready :
      (k : ℕ) (c : Client) (n : Counters)
      → pos 1 ≤ℤ limit
      → c.closed ≡ false
      → lookup k c.flows ≡ none
      → Holds limit others c n
      → Ready k (make_room limit c n).0 (make_room limit c n).1
  unfolding make_room
  make_room-Ready k c n some_room up new h =
      elim (Bool-cases (leb_ℤ limit (pos (length c.flows)))) [
        | inl full ↦ rw full (by_victim (lru c.objs none c.flows) refl full)
        | inr room ↦ rw room (h, ground arith, up, new)
      ]
    where
      by_victim :
          (v : Option ℕ)
          → lru c.objs none c.flows ≡ v
          → leb_ℤ limit (pos (length c.flows)) ≡ true
          → Ready k (evict_flow v c n).0 (evict_flow v c n).1
      by_victim none e full =
          absurd (ground (arith, ap (length {A = ℕ × ℕ}) (lru_empty c.objs c.flows e)))
      by_victim (some i) e full = evict-Ready k i c n e up new h

  open_flow-Holds :
      (sock : Option ℕ) (now : ℕ) (dns : Option AddrPort) (p : Packet) (c : Client) (n : Counters)
      → Ready p.con_id c n
      → let r = open_flow sock now dns p c n in Holds limit others r.0 r.1
  unfolding open_flow
  open_flow-Holds none now dns p c n (h, room, up, new) = h
  open_flow-Holds (some pc) now dns p c n (h, room, up, new) =
      let s = h.sound in
      let f : Flow = record {
        conid = p.con_id;
        orig = p.addr;
        target = flow_target dns p;
        pc = pc;
        last_use = now;
        closed = false;
      } in
      let i = length c.objs in
      let one_more = count_open-append c.objs f in
      let longer = length-insert_new p.con_id i c.flows new in
      record {
        sound = record {
          opens =
              insert-Opens (c.objs ++ (f ∷ [])) p.con_id i c.flows
                (f, get_elem?-append_length c.objs f, refl, refl)
                (Opens-append c.objs f c.flows s.opens);
          distinct =
              Distinct-insert p.con_id i c.flows (Fresh-of_lookup p.con_id c.flows new) s.distinct;
          no_leak = omega (arith, one_more, longer, s.no_leak);
          within = omega (arith, longer, room);
          closed_empty = λ down. cc (up, down);
        };
        tracks = omega (arith, one_more, h.tracks);
      }

  -- The locked part of `handle` keeps the invariant.
  pub admit-Holds :
      (sock : Option ℕ) (now : ℕ) (dns : Option AddrPort) (p : Packet) (c : Client) (n : Counters)
      → pos 1 ≤ℤ limit
      → Holds limit others c n
      → let r = admit limit sock now dns p c n in Holds limit others r.0 r.1
  unfolding admit drop_flow
  admit-Holds sock now dns p c n some_room h = elim (Bool-cases c.closed) [
    | inl down ↦ simp down h
    | inr up ↦ simp up (by_flow up (lookup p.con_id c.flows) refl)
  ]
    where
      opened :
          (c' : Client) (n' : Counters)
          → c'.closed ≡ false
          → lookup p.con_id c'.flows ≡ none
          → Holds limit others c' n'
          → let r = open_if_none limit sock now dns p c' n' none in Holds limit others r.0 r.1
      opened c' n' up new h' =
          open_flow-Holds sock now dns p _ _ (make_room-Ready p.con_id c' n' some_room up new h')

      by_flow :
          c.closed ≡ false
          → (o : Option ℕ) → lookup p.con_id c.flows ≡ o
          → let q = rebind o p c n in
            let r = open_if_none limit sock now dns p q.0 q.1 q.2 in Holds limit others r.0 r.1
      by_flow up none e = opened c n up e h
      by_flow up (some i) e = elim (Bool-cases (is_rebound p c i)) [
        | inl other ↦ rw other (
            opened (drop_flow p.con_id i c n).0 (drop_flow p.con_id i c n).1 up
              (ground (arith, lookup-erase p.con_id p.con_id c.flows))
              (drop_flow-Holds p.con_id i c n e up h))
        | inr same ↦ rw same h
      ]

  -- Whatever leaves the map and the set of open flows alone keeps the invariant.
  pub keep_flows-Holds :
      (c c' : Client) (n n' : Counters)
      → c'.flows ≡ c.flows
      → c'.closed ≡ c.closed
      → Opens c'.objs c.flows
      → count_open c'.objs ≡ count_open c.objs
      → n'.flows ≡ n.flows
      → Holds limit others c n
      → Holds limit others c' n'
  keep_flows-Holds c c' n n' same_map same_closed o same_count same_gauge h =
      let s = h.sound in
      let same_length = ap (length {A = ℕ × ℕ}) same_map in
      record {
        sound = record {
          opens = subst (Opens c'.objs) (sym same_map) o;
          distinct = subst Distinct (sym same_map) s.distinct;
          no_leak = omega (arith, same_length, s.no_leak);
          within = omega (arith, same_length, s.within);
          closed_empty = λ down. same_map ∙ s.closed_empty (sym same_closed ∙ down);
        };
        tracks = same_gauge ∙ h.tracks ∙ ap (λ (t : ℕ). u64 (others + t)) (sym same_count);
      }
