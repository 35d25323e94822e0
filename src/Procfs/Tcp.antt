-- ===== src/Procfs/Tcp.antt =====
-- The tables of TCP sockets of internal/procfs/procfs.go.
use ssh_vpn.Common.{
  ℕ, ◌+◌, ◌*◌, Bytes, ltb, ◌==◌, if◌then◌else◌, length, drop, Bool, true, List, [], ◌∷◌, ◌++◌,
  Option, none, some, ℤ,
}
use ssh_vpn.Common.Assoc.{insert}
use ssh_vpn.Common.Text.{cut, split, fields}
use ssh_vpn.Udpgw.Proto.{Addr, v4, v6, AddrPort}
use ssh_vpn.Udpgw.Flow.{unmap}
use ssh_vpn.Procfs.{digit_of, parse_uint, atoi_value, field}

pub record TcpSock : Type 0 where
  pub local : AddrPort
  pub remote : AddrPort
  pub state : ℕ
  pub owner : ℤ
  pub inode : ℕ

pub record TcpTable : Type 0 where
  pub by_inode : List (ℕ × TcpSock)
  pub listen_ports : List ℕ

-- `hex.DecodeString`
unfoldable pub decode_hex : Bytes → Option Bytes
decode_hex [] = some []
decode_hex (a ∷ []) = none
decode_hex (a ∷ b ∷ s) = elim (digit_of 16 a) [
  | none ↦ none
  | some x ↦ elim (digit_of 16 b) [
    | none ↦ none
    | some y ↦ elim (decode_hex s) [ none ↦ none | some r ↦ some ((x * 16 + y) ∷ r) ]
  ]
]

-- The words of an address, each in host byte order; `little` says which that is.
unfoldable pub host_words : Bool → Bytes → Bytes
host_words little (a ∷ b ∷ c ∷ d ∷ s) =
    (if little then d ∷ c ∷ b ∷ a ∷ [] else a ∷ b ∷ c ∷ d ∷ []) ++ host_words little s
host_words little _ = []

abbrev pub addr_of : Bool → Option Bytes → Option Addr
addr_of little none = none
addr_of little (some raw) =
    if length raw == 4
    then some (v4 (host_words little raw))
    else if length raw == 16
    then some (unmap (v6 (host_words little raw)))
    else none

abbrev pub addr_port : Option Addr → ℕ × Bool → Option AddrPort
addr_port (some a) (p, true) = some (record { addr = a; port = p })
addr_port _ _ = none

abbrev pub hex_parts : Bool → Option (Bytes × Bytes) → Option AddrPort
hex_parts little none = none
hex_parts little (some (ip, port)) =
    addr_port (addr_of little (decode_hex ip)) (parse_uint 16 16 port)

-- `parseHexAddr`
unfoldable pub parse_hex_addr : Bool → Bytes → Option AddrPort
unfolding host_words decode_hex parse_uint
parse_hex_addr little s = hex_parts little (cut b':' s)

abbrev pub tcp_listen : ℕ
tcp_listen = 0x0A

abbrev pub put_sock : TcpSock → TcpTable → TcpTable
put_sock s t = record {
  by_inode = if s.inode == 0 then t.by_inode else insert (s.inode) s (t.by_inode);
  listen_ports = if s.state == tcp_listen then s.local.port ∷ t.listen_ports else t.listen_ports;
}

abbrev pub put_row :
    ℤ → Option AddrPort → Option AddrPort → ℕ × Bool → ℕ × Bool → TcpTable → TcpTable
put_row uid (some l) (some r) (st, true) (ino, true) t =
    put_sock (record { local = l; remote = r; state = st; owner = uid; inode = ino }) t
put_row uid _ _ _ _ t = t

unfoldable pub parse_row : Bool → List Bytes → TcpTable → TcpTable
unfolding parse_hex_addr atoi_value parse_uint
parse_row little f t =
    if ltb (length f) 10
    then t
    else put_row (atoi_value (field 7 f)) (parse_hex_addr little (field 1 f))
        (parse_hex_addr little (field 2 f)) (parse_uint 16 8 (field 3 f))
        (parse_uint 10 64 (field 9 f)) t

abbrev pub rows : Bool → List Bytes → TcpTable → TcpTable
rows little [] t = t
rows little (l ∷ ls) t = rows little ls (parse_row little (fields l) t)

-- `parseTCP`, which skips the first line.
unfoldable pub parse_tcp : Bool → Bytes → TcpTable → TcpTable
unfolding parse_row
parse_tcp little text t = rows little (drop 1 (split 10 text)) t
