-- ===== src/Udpgw/Client/Teardown.antt =====
-- Closing flows keeps the invariant of a client.
use ssh_vpn.Common.{
  ℕ, false, [], Option, none, some, ℤ, length, get_elem?, ◌≡◌, refl, ap, ◌∙◌, arith, inl, inr,
  Bool-cases, ==_refl,
}
use ssh_vpn.Common.Assoc.{lookup}
use ssh_vpn.Udpgw.Flow.{Flow, Counters, close_flows}
use ssh_vpn.Udpgw.Client.{
  Client, drop_flow, stale, fresh, reap_flows, close_client, flow_broken, drop_broken,
}
use ssh_vpn.Udpgw.Client.Owned.{count_open, close_flows-Opens, close_flows-Closed}
use ssh_vpn.Udpgw.Client.Entries.{
  Distinct-fresh, Distinct-stale, Opens-fresh, Opens-stale, Apart-stale-fresh, length-stale-fresh,
}
use ssh_vpn.Udpgw.Client.Invariant.{open_is_mapped, IsSound, Holds, drop_flow-Holds}

has_flow-not_closed :
    (limit : ℤ) (k i : ℕ) (c : Client)
    → IsSound limit c
    → lookup k c.flows ≡ some i
    → c.closed ≡ false
has_flow-not_closed limit k i c s e = elim (Bool-cases c.closed) [
  | inl down ↦
      let gone : lookup k c.flows ≡ none =
        ap (lookup k) (s.closed_empty down) ∙ (unfold lookup in refl) in
      cc (e, gone)
  | inr up ↦ up
]

module _ (limit : ℤ) (others : ℕ) where
  -- So does `reapFlows`.
  pub reap_flows-Holds :
      (cutoff : ℕ) (c : Client) (n : Counters)
      → Holds limit others c n
      → let r = reap_flows cutoff c n in Holds limit others r.0 r.1
  unfolding reap_flows
  reap_flows-Holds cutoff c n h =
      let s = h.sound in
      let old = stale c.objs cutoff c.flows in
      let new = fresh c.objs cutoff c.flows in
      let old_open = Opens-stale c.objs c.objs cutoff c.flows s.opens in
      let old_distinct = Distinct-stale c.objs cutoff c.flows s.distinct in
      let shut = close_flows-Closed old c.objs others n old_open old_distinct h.tracks in
      let split = length-stale-fresh c.objs cutoff c.flows in
      record {
        sound = record {
          opens =
              close_flows-Opens old new c.objs n old_open old_distinct
                (Opens-fresh c.objs c.objs cutoff c.flows s.opens)
                (Apart-stale-fresh c.objs cutoff c.flows s.distinct);
          distinct = Distinct-fresh c.objs cutoff c.flows s.distinct;
          no_leak = omega (arith, shut.counted, split, s.no_leak);
          within = omega (arith, split, s.within);
          closed_empty =
              λ down. ap (fresh c.objs cutoff) (s.closed_empty down) ∙ (unfold fresh in refl);
        };
        tracks = shut.tracked;
      }

  -- `close` of a client that keeps the invariant keeps it, leaves no socket open and empties the
  -- map of flows.
  pub close_client-Holds :
      (c : Client) (n : Counters)
      → Holds limit others c n
      → let r = close_client c n in
        Holds limit others r.0 r.1 × (count_open r.0.objs ≡ 0) × (r.0.flows ≡ [])
  unfolding close_client
  close_client-Holds c n h = elim (Bool-cases c.closed) [
    | inl down ↦ simp down (
      h,
      h.sound.no_leak ∙ ap (length {A = ℕ × ℕ}) (h.sound.closed_empty down),
      h.sound.closed_empty down,
    )
    | inr up ↦ simp up (
        let s = h.sound in
        let shut = close_flows-Closed c.flows c.objs others n s.opens s.distinct h.tracks in
        let none_open : count_open (close_flows c.flows c.objs n).0 ≡ 0 =
          omega (arith, shut.counted, s.no_leak) in
        (
          record {
            sound = record {
              opens = tt;
              distinct = tt;
              no_leak = none_open;
              within = omega (arith, s.within);
              closed_empty = λ _. refl;
            };
            tracks = shut.tracked;
          },
          none_open,
          refl,
        ))
  ]

  -- And so does `flowReader` when the socket of a flow fails, whether or not it is still open.
  pub flow_broken-Holds :
      (i : ℕ) (c : Client) (n : Counters)
      → Holds limit others c n
      → let r = flow_broken i c n in Holds limit others r.0 r.1
  unfolding flow_broken
  flow_broken-Holds i c n h = by_flow (get_elem? c.objs i) refl
    where
      by_flow :
          (o : Option Flow)
          → get_elem? c.objs i ≡ o
          → let r = drop_broken o i c n in Holds limit others r.0 r.1
      by_flow none e = h
      by_flow (some f) e = elim (Bool-cases f.closed) [
        | inl down ↦ simp down h
        | inr up ↦
            let mapped = open_is_mapped limit c i f h.sound e up in
            simp up (
              simp (mapped, ==_refl)
                (unfold drop_flow in
                  drop_flow-Holds limit others f.conid i c n mapped
                    (has_flow-not_closed limit f.conid i c h.sound mapped) h))
      ]
