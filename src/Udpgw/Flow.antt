-- ===== src/Udpgw/Flow.antt =====
-- The flows of internal/udpgw/server.go: one UDP socket each, and the counters they move. A
-- `*flow` is an index into the list of flow objects that one client has made.
use ssh_vpn.Common.{
  ℕ, ◌+◌, ◌%◌, ◌^◌, bytes_eq, has_prefix, ◌==◌, if◌then◌else◌, drop, get_elem?, set, Bool, true,
  false, ◌&&◌, List, [], ◌∷◌, Option, none, some,
}
use ssh_vpn.Udpgw.Proto.{Addr, invalid, v4, v6, AddrPort}

pub record Flow : Type 0 where
  pub conid : ℕ
  pub orig : AddrPort
  pub target : AddrPort
  pub pc : ℕ  -- the socket
  pub last_use : ℕ
  pub closed : Bool

-- The server's atomic counters that the clients share, each modulo 2 ^ 64.
pub record Counters : Type 0 where
  pub flows : ℕ
  pub packets_up : ℕ
  pub packets_down : ℕ
  pub bytes_up : ℕ
  pub bytes_down : ℕ
  pub dropped : ℕ

abbrev pub u64 : ℕ → ℕ
u64 n = n % 2 ^ 64

-- `atomic.Int64.Add(-1)` in two's complement.
abbrev pub pred64 : ℕ → ℕ
pred64 n = u64 (n + 18446744073709551615)

addr_eq : Addr → Addr → Bool
addr_eq invalid invalid = true
addr_eq (v4 a) (v4 b) = bytes_eq a b
addr_eq (v6 a) (v6 b) = bytes_eq a b
addr_eq _ _ = false

-- `==` on `netip.AddrPort`.
unfoldable pub addr_port_eq : AddrPort → AddrPort → Bool
unfolding addr_eq
addr_port_eq a b = addr_eq a.addr b.addr && a.port == b.port

-- `netip.Addr.Unmap`.
unfoldable pub unmap : Addr → Addr
unmap (v6 b) =
    let mapped = 0 ∷ 0 ∷ 0 ∷ 0 ∷ 0 ∷ 0 ∷ 0 ∷ 0 ∷ 0 ∷ 0 ∷ 255 ∷ 255 ∷ [] in
    if has_prefix b mapped then v4 (drop 12 b) else v6 b
unmap (v4 b) = v4 b
unmap invalid = invalid

-- `closeFlow`: the compare-and-swap on `closed` lets one caller through.
close_flow_obj : Option Flow → ℕ → List Flow → Counters → List Flow × Counters
close_flow_obj none i objs n = (objs, n)
close_flow_obj (some f) i objs n =
    if f.closed
    then (objs, n)
    else (set objs i (record f { closed = true }), record n { flows = pred64 n.flows })

unfoldable pub close_flow : ℕ → List Flow → Counters → List Flow × Counters
unfolding close_flow_obj
close_flow i objs n = close_flow_obj (get_elem? objs i) i objs n

-- `for _, f := range fl { c.closeFlow(f) }`
unfoldable pub close_flows : List (ℕ × ℕ) → List Flow → Counters → List Flow × Counters
close_flows [] objs n = (objs, n)
close_flows ((k, i) ∷ m) objs n = let (objs', n') = close_flow i objs n in close_flows m objs' n'

conid_of : Option Flow → ℕ
conid_of none = 0
conid_of (some f) = f.conid

-- `f.conid` through a pointer.
unfoldable pub conid_at : List Flow → ℕ → ℕ
unfolding conid_of
conid_at objs i = conid_of (get_elem? objs i)

last_use_of : Option Flow → ℕ
last_use_of none = 0
last_use_of (some f) = f.last_use

-- `o.lastUse.Load()` through a pointer.
unfoldable pub last_use_at : List Flow → ℕ → ℕ
unfolding last_use_of
last_use_at objs i = last_use_of (get_elem? objs i)

touch_obj : Option Flow → ℕ → ℕ → List Flow → List Flow
touch_obj none i now objs = objs
touch_obj (some f) i now objs = set objs i (record f { last_use = now })

unfoldable pub touch : ℕ → ℕ → List Flow → List Flow
unfolding touch_obj
touch i now objs = touch_obj (get_elem? objs i) i now objs
