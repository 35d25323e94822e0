-- ===== src/Udpgw/Proto.antt =====
-- internal/udpgw/proto.go: the wire format of badvpn-udpgw. A byte is a number below 256, a byte
-- slice a list of them. `netip.Addr` is its zero value, an IPv4 or an IPv6 address in its bytes.
pub mod RoundTrip
use ssh_vpn.Common.{
  ℕ, ◌+◌, ◌-◌, ◌<◌, bit_and, bit_or, Bool, true, false, not, List, [], ◌∷◌, ◌++◌, Bytes, ltb, ◌==◌,
  if◌then◌else◌, length, take, drop, le16, be16, from_le16, from_be16,
}

abbrev pub flag_keepalive : ℕ
flag_keepalive = 1

abbrev pub flag_rebind : ℕ
flag_rebind = 2

abbrev pub flag_dns : ℕ
flag_dns = 4

abbrev pub flag_ipv6 : ℕ
flag_ipv6 = 8

abbrev pub header_len : ℕ
header_len = 3

abbrev pub addr4_len : ℕ
addr4_len = 6

abbrev pub addr6_len : ℕ
addr6_len = 18

abbrev pub max_payload : ℕ
max_payload = 65535

pub data Error : Type 0 where
  short large : Error

pub data Result {ℓ} (A : Type ℓ) : Type ℓ where
  ok : A → Result A
  err : Error → Result A

-- netip.Addr; `AddrFrom16` does not unmap, so `v6` also holds IPv4-mapped addresses.
pub data Addr : Type 0 where
  invalid : Addr
  v4 : Bytes → Addr
  v6 : Bytes → Addr

pub record AddrPort : Type 0 where
  pub addr : Addr
  pub port : ℕ

abbrev pub no_addr : AddrPort
no_addr = record { addr = invalid; port = 0 }

pub record Packet : Type 0 where
  pub flags : ℕ
  pub con_id : ℕ
  pub addr : AddrPort
  pub payload : Bytes

-- `flags & f != 0`
abbrev pub has_flag : ℕ → ℕ → Bool
has_flag flags f = not (bit_and flags f == 0)

-- The part of `ParsePacket` behind the header, once for each address length `n`.
parse_addr : ℕ → (Bytes → Addr) → ℕ → ℕ → Bytes → Result Packet
parse_addr n make flags id b =
    if ltb (length b) (n + 2)
    then err short
    else ok (record {
      flags = flags;
      con_id = id;
      addr = record { addr = make (take n b); port = from_be16 (drop n b) };
      payload = drop (n + 2) b;
    })

unfoldable pub parse_packet : Bytes → Result Packet
unfolding parse_addr
parse_packet [] = err short
parse_packet (flags ∷ []) = err short
parse_packet (flags ∷ c0 ∷ []) = err short
parse_packet (flags ∷ c0 ∷ c1 ∷ b) =
    let id = from_le16 (c0 ∷ c1 ∷ []) in
    if has_flag flags flag_keepalive
    then ok (record { flags = flags; con_id = id; addr = no_addr; payload = [] })
    else if has_flag flags flag_ipv6
    then parse_addr 16 v6 flags id b
    else parse_addr 4 v4 flags id b

abbrev pub is4 : Addr → Bool
is4 (v4 _) = true
is4 _ = false

-- `As4` and `As16`; the zero `Addr` gives sixteen zero bytes.
abbrev pub addr_bytes : Addr → Bytes
addr_bytes (v4 b) = b
addr_bytes (v6 b) = b
addr_bytes invalid = 0 ∷ 0 ∷ 0 ∷ 0 ∷ 0 ∷ 0 ∷ 0 ∷ 0 ∷ 0 ∷ 0 ∷ 0 ∷ 0 ∷ 0 ∷ 0 ∷ 0 ∷ 0 ∷ []

unfoldable pub frame_len : AddrPort → ℕ → ℕ
frame_len addr n =
    if is4 addr.addr then 2 + header_len + addr4_len + n else 2 + header_len + addr6_len + n

-- The flags that `AppendFrame` writes: IPV6 set or cleared by the address.
abbrev pub frame_flags : ℕ → AddrPort → ℕ
frame_flags flags addr =
    if is4 addr.addr then bit_and flags (255 - flag_ipv6) else bit_or flags flag_ipv6

abbrev pub addr_len : AddrPort → ℕ
addr_len addr = if is4 addr.addr then addr4_len else addr6_len

-- On an error Go returns `dst` unchanged beside it.
unfoldable pub append_frame : Bytes → ℕ → ℕ → AddrPort → Bytes → Result Bytes
append_frame dst flags conid addr payload =
    let n = header_len + addr_len addr + length payload in
    if ltb max_payload n
    then err large
    else ok (
        dst
        ++ (le16 n
            ++ (frame_flags flags addr
                ∷ (le16 conid ++ (addr_bytes addr.addr ++ (be16 addr.port ++ payload))))))

unfoldable pub append_keepalive : Bytes → Bytes
append_keepalive dst = dst ++ (le16 header_len ++ (flag_keepalive ∷ 0 ∷ 0 ∷ []))
