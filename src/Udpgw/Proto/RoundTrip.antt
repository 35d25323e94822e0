-- ===== src/Udpgw/Proto/RoundTrip.antt =====
-- `AppendFrame` against `ParsePacket`.
use ssh_vpn.Common.{
  ℕ, ◌+◌, ◌*◌, ◌%◌, ◌/◌, ◌≤◌, ◌<◌, false, not, ◌∷◌, ◌++◌, Bytes, if◌then◌else◌, length, drop, le16,
  be16, ◌≡◌, arith, length-append, take-append, drop-append, drop-append_add,
}
use ssh_vpn.Common.Bits.{bit_and_1, bit_and_8, bit_or_8, bit_clear_8}
use ssh_vpn.Udpgw.Proto.{
  flag_keepalive, flag_ipv6, header_len, max_payload, ok, Addr, invalid, v4, v6, AddrPort, Packet,
  has_flag, parse_addr, parse_packet, is4, addr_bytes, frame_flags, addr_len, append_frame,
}

-- An address with as many bytes as its family has, and a 16-bit port.
abbrev pub IsAddr : Addr → Type 0
IsAddr invalid = ⊥
IsAddr (v4 b) = length b ≡ 4
IsAddr (v6 b) = length b ≡ 16

pub record IsSendable (flags conid : ℕ) (addr : AddrPort) (payload : Bytes) : Type 0 where
  pub flags_byte : flags < 256
  pub conid_u16 : conid < 65536
  pub port_u16 : addr.port < 65536
  pub addr_whole : IsAddr addr.addr
  pub fits : header_len + addr_len addr + length payload ≤ max_payload

-- What stands in a frame behind its length.
abbrev pub frame_payload : ℕ → ℕ → AddrPort → Bytes → Bytes
frame_payload flags conid addr payload =
    frame_flags flags addr ∷ (le16 conid ++ (addr_bytes addr.addr ++ (be16 addr.port ++ payload)))

pub append_frame-frame_payload :
    (dst : Bytes) (flags conid : ℕ) (addr : AddrPort) (payload : Bytes)
    → header_len + addr_len addr + length payload ≤ max_payload
    → append_frame dst flags conid addr payload
      ≡ ok (
          dst
          ++ (le16 (header_len + addr_len addr + length payload)
              ++ frame_payload flags conid addr payload))
unfolding append_frame
append_frame-frame_payload dst flags conid addr payload h = ground arith

length-addr_bytes : (a : Addr) → IsAddr a → length (addr_bytes a) + 2 ≡ (if is4 a then 6 else 18)
length-addr_bytes invalid h = absurd h
length-addr_bytes (v4 b) h = omega arith
length-addr_bytes (v6 b) h = omega arith

pub length-frame_payload :
    (flags conid : ℕ) (addr : AddrPort) (payload : Bytes)
    → IsAddr addr.addr
    → length (frame_payload flags conid addr payload) ≡ header_len + addr_len addr + length payload
length-frame_payload flags conid addr payload h = omega (
  arith,
  length-append (addr_bytes addr.addr) (be16 addr.port ++ payload),
  length-addr_bytes addr.addr h,
)

-- `ParsePacket` behind the header reads back an address, a port and the data.
parse_addr_lem :
    (n : ℕ) (make : Bytes → Addr) (flags id port : ℕ) (b payload : Bytes)
    → length b ≡ n
    → port < 65536
    → parse_addr n make flags id (b ++ (be16 port ++ payload))
      ≡ ok (record {
        flags = flags;
        con_id = id;
        addr = record { addr = make b; port = port };
        payload = payload;
      })
unfolding parse_addr
parse_addr_lem n make flags id port b payload h p = ground (
  arith,
  length-append b (be16 port ++ payload),
  take-append n b (be16 port ++ payload) h,
  drop-append n b (be16 port ++ payload) h,
  drop-append_add n 2 b (be16 port ++ payload) h,
)

-- The flag byte that is written, as a sum: bit 3 is replaced and the others are kept.
frame_flags_value :
    (flags : ℕ) (addr : AddrPort)
    → flags < 256
    → frame_flags flags addr ≡ flags / 16 * 16 + flags % 8 + (if is4 addr.addr then 0 else 8)
frame_flags_value flags addr h = ground (arith, bit_clear_8 flags h, bit_or_8 flags h)

frame_flags-IsByte : (flags : ℕ) (addr : AddrPort) → flags < 256 → frame_flags flags addr < 256
frame_flags-IsByte flags addr h = ground (arith, frame_flags_value flags addr h)

pub frame_flags_keepalive :
    (flags : ℕ) (addr : AddrPort)
    → flags < 256
    → has_flag (frame_flags flags addr) flag_keepalive ≡ has_flag flags flag_keepalive
frame_flags_keepalive flags addr h = ground (
  arith,
  frame_flags_value flags addr h,
  bit_and_1 flags h,
  bit_and_1 (frame_flags flags addr) (frame_flags-IsByte flags addr h),
)

pub frame_flags_ipv6 :
    (flags : ℕ) (addr : AddrPort)
    → flags < 256
    → has_flag (frame_flags flags addr) flag_ipv6 ≡ not (is4 addr.addr)
frame_flags_ipv6 flags addr h = ground (
  arith,
  frame_flags_value flags addr h,
  bit_and_8 (frame_flags flags addr) (frame_flags-IsByte flags addr h),
)

-- The packet that a receiver is meant to see.
abbrev pub sent_packet : ℕ → ℕ → AddrPort → Bytes → Packet
sent_packet flags conid addr payload = record {
  flags = frame_flags flags addr;
  con_id = conid;
  addr = addr;
  payload = payload;
}

pub u16_value : (n : ℕ) → n < 65536 → n % 256 + 256 * (n / 256 % 256) ≡ n
u16_value n h = omega arith

parse_packet-family :
    (flags conid port : ℕ) (a : Addr) (payload : Bytes)
    → let addr : AddrPort = record { addr = a; port = port } in
      IsSendable flags conid addr payload
      → has_flag flags flag_keepalive ≡ false
      → parse_packet (frame_payload flags conid addr payload)
        ≡ ok (sent_packet flags conid addr payload)
unfolding parse_packet
parse_packet-family flags conid port invalid payload s k = absurd s.addr_whole
parse_packet-family flags conid port (v4 b) payload s k =
    let addr : AddrPort = record { addr = v4 b; port = port } in
    rw
      (
        frame_flags_keepalive flags addr s.flags_byte,
        k,
        frame_flags_ipv6 flags addr s.flags_byte,
        u16_value conid s.conid_u16,
      )
      (parse_addr_lem 4 v4 (frame_flags flags addr) conid port b payload s.addr_whole s.port_u16)
parse_packet-family flags conid port (v6 b) payload s k =
    let addr : AddrPort = record { addr = v6 b; port = port } in
    rw
      (
        frame_flags_keepalive flags addr s.flags_byte,
        k,
        frame_flags_ipv6 flags addr s.flags_byte,
        u16_value conid s.conid_u16,
      )
      (parse_addr_lem 16 v6 (frame_flags flags addr) conid port b payload s.addr_whole s.port_u16)

-- `ParsePacket` on what stands behind the length.
pub parse_packet-frame_payload :
    (flags conid : ℕ) (addr : AddrPort) (payload : Bytes)
    → IsSendable flags conid addr payload
    → has_flag flags flag_keepalive ≡ false
    → parse_packet (frame_payload flags conid addr payload)
      ≡ ok (sent_packet flags conid addr payload)
parse_packet-frame_payload flags conid addr payload s k =
    parse_packet-family flags conid addr.port addr.addr payload s k

-- `AppendFrame` puts one frame behind the bytes that it is given, and `ParsePacket` reads back from
-- that frame, without its two length bytes, the flags, connection id, address, port and data that
-- were written, for IPv4 and IPv6 alike, when the keepalive bit is clear.
pub parse_packet-append_frame :
    (dst : Bytes) (flags conid : ℕ) (addr : AddrPort) (payload : Bytes)
    → IsSendable flags conid addr payload
    → has_flag flags flag_keepalive ≡ false
    → (f : Bytes) × (append_frame dst flags conid addr payload ≡ ok (dst ++ f))
      × (parse_packet (drop 2 f) ≡ ok (sent_packet flags conid addr payload))
parse_packet-append_frame dst flags conid addr payload s k = (
  le16 (header_len + addr_len addr + length payload) ++ frame_payload flags conid addr payload,
  append_frame-frame_payload dst flags conid addr payload s.fits,
  parse_packet-frame_payload flags conid addr payload s k,
)
