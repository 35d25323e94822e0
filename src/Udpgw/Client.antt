-- ===== src/Udpgw/Client.antt =====
-- The client half of internal/udpgw/server.go: what `handle`, `reapFlows`, `close` and
-- `flowReader` do to a client's UDP flows. `objs` holds the flow objects that the client has made,
-- and `flows` is the map from connection ids to indices into it.
-- Times are UnixNano values. A call is one function, with the sockets that it closes behind its
-- unlock; the kernel's answers (a new socket, a failed write) are arguments.
pub mod Owned
mod Entries
pub mod Lru
pub mod Invariant
pub mod Traffic
pub mod Teardown
use ssh_vpn.Common.{
  ℕ, ◌+◌, ◌%◌, ◌^◌, Bytes, bytes_eq, has_prefix, ltb, leb, ◌==◌, if◌then◌else◌, length, drop,
  get_elem?, set, Bool, true, false, not, ◌&&◌, ◌||◌, List, [], ◌∷◌, ◌++◌, Option, none, some, ℤ,
  pos, leb_ℤ,
}
use ssh_vpn.Common.Assoc.{lookup, erase, insert}
use ssh_vpn.Udpgw.Proto.{
  flag_rebind, flag_dns, Addr, invalid, v4, v6, AddrPort, Packet, has_flag, Result, ok, err,
  append_frame,
}
use ssh_vpn.Udpgw.Flow.{
  Flow, Counters, u64, addr_port_eq, unmap, close_flow, close_flows, conid_at, last_use_at, touch,
}

pub record Client : Type 0 where
  pub remote_port : ℕ
  pub local_port : ℕ
  pub since : ℕ
  pub last_recv : ℕ
  pub bytes_up : ℕ
  pub bytes_down : ℕ
  pub out : List Bytes  -- the queue of frames on their way to the client
  pub flows : List (ℕ × ℕ)
  pub objs : List Flow
  pub closed : Bool

-- `delete(c.flows, id)` and `c.closeFlow(f)`.
unfoldable pub drop_flow : ℕ → ℕ → Client → Counters → Client × Counters
drop_flow k i c n =
    let (objs', n') = close_flow i c.objs n in
    (record c { flows = erase k c.flows; objs = objs' }, n')

-- The search for the least recently used flow, in the order of the `range`.
unfoldable pub lru : List Flow → Option ℕ → List (ℕ × ℕ) → Option ℕ
lru objs best [] = best
lru objs none ((k, i) ∷ m) = lru objs (some i) m
lru objs (some b) ((k, i) ∷ m) =
    lru objs (some (if ltb (last_use_at objs i) (last_use_at objs b) then i else b)) m

evict_flow : Option ℕ → Client → Counters → Client × Counters
evict_flow none c n = (c, n)
evict_flow (some i) c n = drop_flow (conid_at c.objs i) i c n

-- The guard on `MaxFlows`: at the limit the least recently used flow is closed.
unfoldable pub make_room : ℤ → Client → Counters → Client × Counters
unfolding evict_flow
make_room max_flows c n =
    if leb_ℤ max_flows (pos (length c.flows))
    then evict_flow (lru c.objs none c.flows) c n
    else (c, n)

dns_target : Option AddrPort → AddrPort → AddrPort
dns_target none target = target
dns_target (some dns) target = dns

-- Where the datagrams of a new flow go; `dns` is the answer of `cfg.DNS()`.
unfoldable pub flow_target : Option AddrPort → Packet → AddrPort
unfolding dns_target unmap
flow_target dns p =
    let target = if has_flag p.flags flag_dns then dns_target dns p.addr else p.addr in
    record { addr = unmap target.addr; port = target.port }

-- A new flow behind `net.ListenUDP`; `none` is its error.
unfoldable pub open_flow :
    Option ℕ → ℕ → Option AddrPort → Packet → Client → Counters → Client × Counters × Option ℕ
open_flow none now dns p c n = (c, n, none)
open_flow (some pc) now dns p c n =
    let f : Flow = record {
      conid = p.con_id;
      orig = p.addr;
      target = flow_target dns p;
      pc = pc;
      last_use = now;
      closed = false;
    } in
    let i = length c.objs in
    (
      record c { flows = insert p.con_id i c.flows; objs = c.objs ++ (f ∷ []) },
      record n { flows = u64 (n.flows + 1) },
      some i,
    )

orig_of : Option Flow → AddrPort → Bool
orig_of none addr = false
orig_of (some f) addr = addr_port_eq f.orig addr

-- `p.Flags&FlagRebind != 0 || f.orig != p.Addr`
unfoldable pub is_rebound : Packet → Client → ℕ → Bool
unfolding orig_of addr_port_eq
is_rebound p c i = has_flag p.flags flag_rebind || not (orig_of (get_elem? c.objs i) p.addr)

-- A flow whose packet asks for another address is closed before a new one is opened.
rebind : Option ℕ → Packet → Client → Counters → Client × Counters × Option ℕ
rebind none p c n = (c, n, none)
rebind (some i) p c n =
    if is_rebound p c i
    then (let (c', n') = drop_flow p.con_id i c n in (c', n', none))
    else (c, n, some i)

open_if_none :
    ℤ
    → Option ℕ
    → ℕ
    → Option AddrPort
    → Packet
    → Client
    → Counters
    → Option ℕ
    → Client × Counters × Option ℕ
open_if_none max_flows sock now dns p c n (some i) = (c, n, some i)
open_if_none max_flows sock now dns p c n none =
    let (c', n') = make_room max_flows c n in open_flow sock now dns p c' n'

-- The locked part of `handle`: the flow that the packet goes through, if there is one.
unfoldable pub admit :
    ℤ → Option ℕ → ℕ → Option AddrPort → Packet → Client → Counters → Client × Counters × Option ℕ
unfolding rebind open_if_none
admit max_flows sock now dns p c n =
    if c.closed
    then (c, n, none)
    else (let (c', n', f) = rebind (lookup p.con_id c.flows) p c n in
        open_if_none max_flows sock now dns p c' n' f)

-- What follows the unlock: the datagram is written to the flow's target.
unfoldable pub send : Bool → ℕ → Packet → Client → Counters → Option ℕ → Client × Counters
send written now p c n none = (c, n)
send written now p c n (some i) =
    let c' = record c { objs = touch i now c.objs } in
    let size = length p.payload in
    if written
    then (
      record c' { bytes_up = u64 (c'.bytes_up + size) },
      record n { packets_up = u64 (n.packets_up + 1); bytes_up = u64 (n.bytes_up + size) },
    )
    else (c', record n { dropped = u64 (n.dropped + 1) })

unfoldable pub handle :
    ℤ → Option ℕ → Bool → ℕ → Option AddrPort → Packet → Client → Counters → Client × Counters
handle max_flows sock written now dns p c n =
    let (c', n', f) = admit max_flows sock now dns p c n in send written now p c' n' f

-- `reapFlows`: the entries that have not been used since `cutoff`, and those that stay.
unfoldable pub is_stale : List Flow → ℕ → ℕ → Bool
is_stale objs cutoff i = ltb (last_use_at objs i) cutoff

unfoldable pub stale : List Flow → ℕ → List (ℕ × ℕ) → List (ℕ × ℕ)
stale objs cutoff [] = []
stale objs cutoff ((k, i) ∷ m) =
    let rest = stale objs cutoff m in if is_stale objs cutoff i then (k, i) ∷ rest else rest

unfoldable pub fresh : List Flow → ℕ → List (ℕ × ℕ) → List (ℕ × ℕ)
fresh objs cutoff [] = []
fresh objs cutoff ((k, i) ∷ m) =
    let rest = fresh objs cutoff m in if is_stale objs cutoff i then rest else (k, i) ∷ rest

unfoldable pub reap_flows : ℕ → Client → Counters → Client × Counters
reap_flows cutoff c n =
    let (objs', n') = close_flows (stale c.objs cutoff c.flows) c.objs n in
    (record c { flows = fresh c.objs cutoff c.flows; objs = objs' }, n')

-- The body of `client.close`; `closeOnce` lets it run while `closed` is unset, which it sets.
unfoldable pub close_client : Client → Counters → Client × Counters
close_client c n =
    if c.closed
    then (c, n)
    else (let (objs', n') = close_flows c.flows c.objs n in
        (record c { flows = []; objs = objs'; closed = true }, n'))

-- `if c.flows[f.conid] == f { delete(c.flows, f.conid) }`
erase_if_same : Option ℕ → ℕ → ℕ → List (ℕ × ℕ) → List (ℕ × ℕ)
erase_if_same none k i m = m
erase_if_same (some j) k i m = if j == i then erase k m else m

drop_broken : Option Flow → ℕ → Client → Counters → Client × Counters
drop_broken none i c n = (c, n)
drop_broken (some f) i c n =
    if f.closed
    then (c, n)
    else (let (objs', n') = close_flow i c.objs n in
        (
          record c {
            flows = erase_if_same (lookup f.conid c.flows) f.conid i c.flows;
            objs = objs';
          },
          n',
        ))

-- `flowReader` on a read error: a flow that is still open is forgotten and closed.
unfoldable pub flow_broken : ℕ → Client → Counters → Client × Counters
unfolding drop_broken erase_if_same
flow_broken i c n = drop_broken (get_elem? c.objs i) i c n

-- The `select` on a framed reply. It is random where the queue has room and the client is done,
-- so `leave` says whether the second case is taken then.
enqueue : ℤ → Bool → Result Bytes → ℕ → Client → Counters → Client × Counters
enqueue queue_len leave (err e) size c n = (c, record n { dropped = u64 (n.dropped + 1) })
enqueue queue_len leave (ok frame) size c n =
    if c.closed && (leave || leb_ℤ queue_len (pos (length c.out)))
    then (c, n)
    else if leb_ℤ queue_len (pos (length c.out))
    then (c, record n { dropped = u64 (n.dropped + 1) })
    else (
      record c { out = c.out ++ (frame ∷ []); bytes_down = u64 (c.bytes_down + size) },
      record n { packets_down = u64 (n.packets_down + 1); bytes_down = u64 (n.bytes_down + size) },
    )

reply_from : Option Flow → ℤ → Bool → ℕ → ℕ → Bytes → Client → Counters → Client × Counters
reply_from none queue_len leave now i reply c n = (c, n)
reply_from (some f) queue_len leave now i reply c n =
    enqueue queue_len leave (append_frame [] 0 f.conid f.orig reply) (length reply)
      (record c { objs = touch i now c.objs }) n

-- `flowReader` on a datagram, from any source: it goes back under the flow's original address.
unfoldable pub flow_reply : ℤ → Bool → ℕ → ℕ → Bytes → Client → Counters → Client × Counters
unfolding reply_from enqueue
flow_reply queue_len leave now i reply c n =
    reply_from (get_elem? c.objs i) queue_len leave now i reply c n
