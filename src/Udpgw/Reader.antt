-- ===== src/Udpgw/Reader.antt =====
-- `client.reader` of internal/udpgw/server.go: cutting the byte stream of a client into frames
-- and deciding what each is. The stream is the list of bytes that arrive before the connection
-- ends; `handle` is called on each `packet`, in order.
pub mod Stream
use ssh_vpn.Common.{
  ℕ, zero, suc, Bytes, ltb, if◌then◌else◌, length, take, drop, from_le16, Option, none, some, List,
  [], ◌∷◌,
}
use ssh_vpn.Udpgw.Proto.{flag_keepalive, Result, ok, err, Packet, has_flag, parse_packet}
use mathlib.Core.Option

-- What one turn of the loop does with a frame: log it, skip it, or handle it.
pub data Received : Type 0 where
  bad_packet : Received
  keepalive : Received
  packet : Packet → Received

-- The two calls of `io.ReadFull`; `none` when the stream ends inside them.
unfoldable pub read_frame : Bytes → Option (Bytes × Bytes)
read_frame [] = none
read_frame (a ∷ []) = none
read_frame (a ∷ b ∷ r) =
    let n = from_le16 (a ∷ b ∷ []) in if ltb (length r) n then none else some (take n r, drop n r)

receive_parsed : Result Packet → Received
receive_parsed (err e) = bad_packet
receive_parsed (ok p) = if has_flag p.flags flag_keepalive then keepalive else packet p

unfoldable pub receive : Bytes → Received
unfolding receive_parsed
receive b = receive_parsed (parse_packet b)

-- The loop, on fuel; `none` means that the fuel ran out.
unfoldable pub reader : ℕ → Bytes → Option (List Received)
reader zero b = none
reader (suc fuel) b = elim (read_frame b) [
  | none ↦ some []
  | some (payload, rest) ↦ Option.map (λ rs. receive payload ∷ rs) (reader fuel rest)
]
