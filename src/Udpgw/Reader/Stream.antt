-- ===== src/Udpgw/Reader/Stream.antt =====
-- A stream written frame by frame is read back frame by frame.
use ssh_vpn.Common.{
  ℕ, zero, suc, ◌+◌, ◌*◌, ◌≤◌, ◌<◌, false, List, [], ◌∷◌, ◌++◌, Bytes, length, le16, some, map, ◌≡◌,
  refl, sym, ap, ◌∙◌, arith, All, length-append, length-drop, take-append, drop-append,
  append_assoc, append-nil, inl, inr, Option-cases,
}
use ssh_vpn.Udpgw.Proto.{
  flag_keepalive, max_payload, Result, ok, err, AddrPort, has_flag, parse_packet, append_frame,
  append_keepalive,
}
use ssh_vpn.Udpgw.Proto.RoundTrip.{
  IsSendable, frame_payload, sent_packet, append_frame-frame_payload, length-frame_payload,
  frame_flags_keepalive, parse_packet-frame_payload, u16_value,
}
use ssh_vpn.Udpgw.Reader.{Received, keepalive, packet, read_frame, receive, reader}

-- What a peer may put on the wire with `AppendFrame` and `AppendKeepalive`.
pub data Message : Type 0 where
  ping : Message
  datagram : ℕ → ℕ → AddrPort → Bytes → Message

abbrev pub IsSound : Message → Type 0
IsSound ping = Unit {0}
IsSound (datagram flags conid addr payload) =
    IsSendable flags conid addr payload × (has_flag flags flag_keepalive ≡ false)

abbrev append_message : Bytes → Message → Result Bytes
append_message dst ping = ok (append_keepalive dst)
append_message dst (datagram flags conid addr payload) = append_frame dst flags conid addr payload

-- The writer: one message after the other onto `dst`.
abbrev pub append_messages : Bytes → List Message → Result Bytes
append_messages dst [] = ok dst
append_messages dst (m ∷ ms) = elim (append_message dst m) [
  | ok dst' ↦ append_messages dst' ms
  | err e ↦ err e
]

abbrev pub seen : Message → Received
seen ping = keepalive
seen (datagram flags conid addr payload) = packet (sent_packet flags conid addr payload)

-- The bytes of one message.
abbrev wire_payload : Message → Bytes
wire_payload ping = flag_keepalive ∷ 0 ∷ 0 ∷ []
wire_payload (datagram flags conid addr payload) = frame_payload flags conid addr payload

abbrev wire : Message → Bytes
wire m = le16 (length (wire_payload m)) ++ wire_payload m

length-wire_payload : (m : Message) → IsSound m → length (wire_payload m) ≤ max_payload
length-wire_payload ping s = omega arith
length-wire_payload (datagram flags conid addr payload) (s, k) =
    omega (arith, s.fits, length-frame_payload flags conid addr payload s.addr_whole)

append_message-wire :
    (dst : Bytes) (m : Message) → IsSound m → append_message dst m ≡ ok (dst ++ wire m)
append_message-wire dst ping s = unfold append_keepalive in refl
append_message-wire dst (datagram flags conid addr payload) (s, k) =
    append_frame-frame_payload dst flags conid addr payload s.fits
    ∙ rw (length-frame_payload flags conid addr payload s.addr_whole) refl

receive-wire_payload : (m : Message) → IsSound m → receive (wire_payload m) ≡ seen m
unfolding receive
receive-wire_payload ping s = unfold parse_packet in refl
receive-wire_payload (datagram flags conid addr payload) (s, k) =
    rw (parse_packet-frame_payload flags conid addr payload s k)
      (rw (frame_flags_keepalive flags addr s.flags_byte, k) refl)

read_frame-append :
    (p rest : Bytes)
    → length p ≤ max_payload
    → read_frame ((le16 (length p) ++ p) ++ rest) ≡ some (p, rest)
unfolding read_frame
read_frame-append p rest h = rw (u16_value (length p) (omega arith)) (
    ground (
      arith,
      length-append p rest,
      take-append (length p) p rest refl,
      drop-append (length p) p rest refl,
    ))

read_frame_shrinks :
    (b : Bytes) {p rest : Bytes} → read_frame b ≡ some (p, rest) → length rest < length b
unfolding read_frame
read_frame_shrinks [] e = cc
read_frame_shrinks (x ∷ []) e = cc
read_frame_shrinks (x ∷ y ∷ r) e = ground (arith, length-drop (x + 256 * y) r)

reader_step :
    (fuel : ℕ) (b : Bytes) {p rest : Bytes} {rs : List Received}
    → read_frame b ≡ some (p, rest)
    → reader fuel rest ≡ some rs
    → reader (suc fuel) b ≡ some (receive p ∷ rs)
unfolding reader
reader_step fuel b e r = rw (e, reader) (rw r refl)

abbrev wires : List Message → Bytes
wires [] = []
wires (m ∷ ms) = wire m ++ wires ms

append_messages-wires :
    (dst : Bytes) (ms : List Message)
    → All IsSound ms
    → append_messages dst ms ≡ ok (dst ++ wires ms)
append_messages-wires dst [] h = ap ok (sym (append-nil dst))
append_messages-wires dst (m ∷ ms) (s, h) =
    rw (append_message-wire dst m s, append_messages)
      (append_messages-wires (dst ++ wire m) ms h ∙ ap ok (append_assoc dst (wire m) (wires ms)))

reader-wires :
    (fuel : ℕ) (ms : List Message)
    → All IsSound ms
    → length (wires ms) < fuel
    → reader fuel (wires ms) ≡ some (map seen ms)
reader-wires zero ms h f = absurd (omega arith)
reader-wires (suc fuel) [] h f = unfold reader read_frame in refl
reader-wires (suc fuel) (m ∷ ms) (s, h) f = rw (← receive-wire_payload m s) (
    reader_step fuel (wire m ++ wires ms)
      (read_frame-append (wire_payload m) (wires ms) (length-wire_payload m s))
      (reader-wires fuel ms h (omega (arith, length-append (wire_payload m) (wires ms)))))

-- Reading the stream that was written message by message gives each message, once and in order:
-- pings are skipped and datagrams come out as they were sent.
pub reader-append_messages :
    (ms : List Message) {stream : Bytes}
    → All IsSound ms
    → append_messages [] ms ≡ ok stream
    → reader (length stream + 1) stream ≡ some (map seen ms)
reader-append_messages ms {stream} h e =
    let whole : stream ≡ wires ms = cc (e, append_messages-wires [] ms h) in
    rw whole (reader-wires (length (wires ms) + 1) ms h (omega arith))

-- The loop ends on every stream: one turn more than the stream has bytes is fuel enough.
pub reader_total :
    (fuel : ℕ) (b : Bytes) → length b < fuel → (rs : List Received) × (reader fuel b ≡ some rs)
unfolding reader
reader_total zero b h = absurd (omega arith)
reader_total (suc fuel) b h = elim (Option-cases (read_frame b)) [
  | inl ended ↦ ([], rw (ended, reader))
  | inr ((p, rest), e) ↦
      let (rs, r) = reader_total fuel rest (omega (arith, read_frame_shrinks b e)) in
      (receive p ∷ rs, reader_step fuel b e r)
]
