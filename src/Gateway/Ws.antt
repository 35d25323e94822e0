-- ===== src/Gateway/Ws.antt =====
-- `wsConn` of internal/gateway/ws.go: RFC 6455 frames as a byte stream. `input` is what the
-- buffered reader still has to deliver, `output` what was written to the socket, and `room` how
-- many bytes the socket still takes before its writes fail. The mutex of `writeFrame` makes a call
-- one step.
pub mod Header
pub mod Data
pub mod Reads
pub mod Control
use ssh_vpn.Common.{
  ℕ, zero, suc, ◌+◌, ◌-◌, ◌%◌, min, bit_and, bit_or, bit_xor, Bytes, ltb, leb, ◌==◌, if◌then◌else◌,
  length, take, drop, get_elem?, Bool, true, false, not, ◌&&◌, List, [], ◌∷◌, ◌++◌, Option, none,
  some, be16, from_be16, be_bytes, from_be,
}
use mathlib.Core.Option

pub record Conn : Type 0 where
  pub input : Bytes
  pub output : Bytes
  pub room : ℕ
  pub remaining : ℕ
  pub masked : Bool
  pub mask : Bytes
  pub mask_pos : ℕ
  pub closed : Bool

pub data Error : Type 0 where
  eof read_failed write_failed oversized : Error

-- The bytes of a frame that the server sends.
unfoldable pub frame : ℕ → Bytes → Bytes
frame opcode p =
    let n = length p in
    let size =
      if ltb n 126
      then (n % 256) ∷ []
      else if leb n 0xFFFF
      then 126 ∷ be16 n
      else 127 ∷ be_bytes 8 n in
    bit_or 0x80 opcode ∷ (size ++ p)

-- `writeFrame`: a write that fails has sent a part of the frame.
unfoldable pub write_frame : ℕ → Bytes → Conn → Conn × Option Error
write_frame opcode p c =
    let f = frame opcode p in
    if leb (length f) c.room
    then (record c { output = c.output ++ f; room = c.room - length f }, none)
    else (record c { output = c.output ++ take c.room f; room = 0 }, some write_failed)

-- `c.mask[i & 3]`
abbrev pub mask_at : Bytes → ℕ → ℕ
mask_at mask i = Option.get_or (get_elem? mask (bit_and i 3)) 0

unfoldable pub unmask : Bytes → ℕ → Bytes → Bytes
unmask mask i [] = []
unmask mask i (b ∷ bs) = bit_xor b (mask_at mask i) ∷ unmask mask (i + 1) bs

-- `io.ReadFull` of `n` bytes; an error where the stream is shorter.
unfoldable pub read_full : ℕ → Bytes → Option (Bytes × Bytes)
read_full n b = if ltb (length b) n then none else some (take n b, drop n b)

-- A stream that ends inside a header or payload is used up.
failed : Conn → Conn × Option Error
failed c = (record c { input = [] }, some read_failed)

-- The `switch` on the opcode of a control frame, with its payload unmasked.
unfoldable pub control : ℕ → Bytes → Conn → Conn × Option Error
control opcode payload c =
    if opcode == 8
    then (record (write_frame 8 payload c).0 { closed = true }, some eof)
    else if opcode == 9
    then write_frame 10 payload c
    else (c, none)

control_payload : ℕ → Option (Bytes × Bytes) → Conn → Conn × Option Error
control_payload opcode none c = failed c
control_payload opcode (some (p, rest)) c =
    control opcode (if c.masked then unmask c.mask 0 p else p) (record c { input = rest })

-- What follows the mask in `nextFrame`.
start_payload : ℕ → ℕ → Conn → Conn × Option Error
start_payload opcode size c =
    if leb 8 opcode
    then (if ltb 125 size
        then (c, some oversized)
        else control_payload opcode (read_full size c.input) c)
    else (record c { remaining = size }, none)

read_mask : ℕ → ℕ → Option (Bytes × Bytes) → Conn → Conn × Option Error
read_mask opcode size none c = failed c
read_mask opcode size (some (m, rest)) c =
    start_payload opcode size (record c { mask = m; mask_pos = 0; input = rest })

unfoldable pub after_size : ℕ → ℕ → Conn → Conn × Option Error
unfolding failed control_payload start_payload read_mask
after_size opcode size c =
    if c.masked
    then read_mask opcode size (read_full 4 c.input) c
    else start_payload opcode size (record c { mask_pos = 0 })

read_size : ℕ → Option (Bytes × Bytes) → Conn → Conn × Option Error
read_size opcode none c = failed c
read_size opcode (some (b, rest)) c = after_size opcode (from_be 0 b) (record c { input = rest })

header : Option (Bytes × Bytes) → Conn → Conn × Option Error
header none c = failed c
header (some (h0 ∷ h1 ∷ [], rest)) c =
    let c' = record c { input = rest; masked = not (bit_and h1 0x80 == 0) } in
    let opcode = bit_and h0 0x0F in
    let size = bit_and h1 0x7F in
    if size == 126
    then read_size opcode (read_full 2 rest) c'
    else if size == 127
    then read_size opcode (read_full 8 rest) c'
    else after_size opcode size c'
header (some (_, rest)) c = failed c

-- `nextFrame`: one frame header, and all of a control frame.
unfoldable pub next_frame : Conn → Conn × Option Error
unfolding failed control_payload start_payload read_mask after_size read_size header
next_frame c = header (read_full 2 c.input) c

-- `c.r.Read` of up to `n` bytes: an error where bytes are wanted and the stream is over.
unfoldable pub read_error : ℕ → Bytes → Option Error
read_error n got = if ltb 0 n && length got == 0 then some read_failed else none

-- `Read` behind its loop: at most `size` bytes, and as many as `avail` is what the buffered
-- reader has at hand.
unfoldable pub read_some : ℕ → ℕ → Conn → Conn × Bytes × Option Error
unfolding read_error
read_some size avail c =
    let n = min (min size c.remaining) avail in
    let got = take n c.input in
    let c' = record c { input = drop n c.input; remaining = c.remaining - length got } in
    if c.masked
    then (
      record c' { mask_pos = c.mask_pos + length got },
      unmask c.mask c.mask_pos got,
      read_error n got,
    )
    else (c', got, read_error n got)

-- The loop at the top of `Read`, on fuel; `none` means that it ran out.
unfoldable pub await_data : ℕ → Conn → Option (Conn × Option Error)
await_data zero c = none
await_data (suc fuel) c =
    if not (c.remaining == 0)
    then some (c, none)
    else if c.closed
    then some (c, some eof)
    else (let (c', stop) = next_frame c in
        elim stop [ some e ↦ some (c', some e) | none ↦ await_data fuel c' ])

-- `Read`: the data, or the error with nothing read.
unfoldable pub read : ℕ → ℕ → ℕ → Conn → Option (Conn × Bytes × Option Error)
read fuel size avail c = elim (await_data fuel c) [
  | none ↦ none
  | some (c', some e) ↦ some (c', [], some e)
  | some (c', none) ↦ some (read_some size avail c')
]

-- `Write`: one binary frame; the count is 0 with an error, and else all of the bytes.
unfoldable pub write : Bytes → Conn → Conn × Option Error
write p c = write_frame 2 p c
