-- ===== src/Gateway/Ws/Control.antt =====
-- Control frames from a client: they are answered or refused inside `nextFrame`.
use ssh_vpn.Common.{
  ℕ, ◌+◌, ◌^◌, ◌≤◌, ◌<◌, bit_or, Bytes, IsByte, All, ltb, leb, ◌==◌, length, take, true, false, ◌∷◌,
  ◌++◌, Option, none, some, append_assoc, ◌≡◌, refl, ap, ◌∙◌, arith, Bool-cases, inl, inr, ◌≢◌,
}
use ssh_vpn.Gateway.Ws.{
  Conn, Error, eof, write_failed, oversized, frame, write_frame, unmask, control, after_size,
  next_frame,
}
use ssh_vpn.Gateway.Ws.Header.{size_bits, size_bytes, next_frame_size, read_full-append}
use ssh_vpn.Gateway.Ws.Data.{masked_frame, opcode_lem, unmask-unmask, length-unmask}

-- The state behind a masked control frame.
abbrev behind : Conn → Bytes → Bytes → Conn
behind c mask rest = record c { input = rest; masked = true; mask = mask; mask_pos = 0 }

at_payload :
    (c : Conn) (opcode : ℕ) (mask p rest : Bytes)
    → opcode < 16
    → length mask ≡ 4
    → length p < 2 ^ 64
    → c.input ≡ masked_frame opcode mask p ++ rest
    → next_frame c
      ≡ after_size opcode
          (length p)
          (record c { input = mask ++ (unmask mask 0 p ++ rest); masked = true })
at_payload c opcode mask p rest op m h e =
    next_frame_size c (bit_or 0x80 opcode) (length p) true (mask ++ (unmask mask 0 p ++ rest)) h (
      e
      ∙ ap (λ (t : Bytes). bit_or 0x80 opcode ∷ (size_bits (length p) + 128) ∷ t)
          (append_assoc (size_bytes (length p)) (mask ++ unmask mask 0 p) rest
            ∙ ap (◌++◌ (size_bytes (length p))) (append_assoc mask (unmask mask 0 p) rest)))
    ∙ rw (opcode_lem opcode op) refl

-- A control frame of at most 125 bytes is taken whole, and its unmasked payload decides.
pub next_frame-control :
    (c : Conn) (opcode : ℕ) (mask p rest : Bytes)
    → 8 ≤ opcode
    → opcode < 16
    → length mask ≡ 4
    → length p ≤ 125
    → All IsByte mask
    → All IsByte p
    → c.input ≡ masked_frame opcode mask p ++ rest
    → next_frame c ≡ control opcode p (behind c mask rest)
unfolding after_size
next_frame-control c opcode mask p rest lo hi m short mb pb e =
    at_payload c opcode mask p rest hi m (omega arith) e
    ∙ rw (read_full-append 4 mask (unmask mask 0 p ++ rest) m) (
        let is_control : leb 8 opcode ≡ true = ground arith in
        let small : ltb 125 (length p) ≡ false = ground arith in
        rw
          (
            is_control,
            small,
            read_full-append (length p) (unmask mask 0 p) rest (length-unmask mask 0 p),
          )
          (ap (λ (t : Bytes). control opcode t (behind c mask rest))
            (unmask-unmask mask 0 p mb pb)))

-- A masked control frame that claims more than 125 bytes is refused before its payload is read:
-- what stands behind the mask is still to be read, whatever it is, and nothing is written.
pub next_frame_oversized :
    (c : Conn) (opcode claimed : ℕ) (mask rest : Bytes)
    → 8 ≤ opcode
    → opcode < 16
    → length mask ≡ 4
    → 125 < claimed
    → claimed < 2 ^ 64
    → c.input
      ≡ bit_or 0x80 opcode ∷ ((size_bits claimed + 128) ∷ (size_bytes claimed ++ (mask ++ rest)))
    → ((next_frame c).1 ≡ some oversized)
      × ((next_frame c).0.input ≡ rest)
      × ((next_frame c).0.output ≡ c.output)
unfolding after_size
next_frame_oversized c opcode claimed mask rest lo hi m long h e =
    rw (next_frame_size c (bit_or 0x80 opcode) claimed true (mask ++ rest) h e) (
      rw (opcode_lem opcode hi, read_full-append 4 mask rest m)
        (let is_control : leb 8 opcode ≡ true = ground arith in
          let big : ltb 125 claimed ≡ true = ground arith in
          rw (is_control, big) (refl, refl, refl)))

-- A frame goes out whole where the socket takes so many bytes, and else the part that it takes.
abbrev pub Sent : Bytes → Conn → Conn → Type 0
Sent f c c' =
    (length f ≤ c.room → c'.output ≡ c.output ++ f)
    × (c.room < length f → c'.output ≡ c.output ++ take c.room f)

-- What a control frame may do to the connection.
abbrev pub Replied : ℕ → Bytes → Conn → Conn × Option Error → Type 0
Replied opcode p c r =
    (opcode ≡ 9
      → Sent (frame 10 p) c r.0
        × (length (frame 10 p) ≤ c.room → r.1 ≡ none)
        × (c.room < length (frame 10 p) → r.1 ≡ some write_failed))
    × (opcode ≡ 8 → (r.1 ≡ some eof) × (r.0.closed ≡ true) × Sent (frame 8 p) c r.0)
    × (opcode ≢ 8 → opcode ≢ 9 → (r.1 ≡ none) × (r.0.output ≡ c.output))

-- What a reply leaves alone.
abbrev Apart : Conn → Conn × Option Error → Type 0
Apart c r = (r.0.input ≡ c.input) × (r.0.remaining ≡ c.remaining)

write_frame-Sent :
    (opcode : ℕ) (p : Bytes) (c : Conn)
    → let r = write_frame opcode p c in
      Sent (frame opcode p) c r.0
      × (length (frame opcode p) ≤ c.room → r.1 ≡ none)
      × (c.room < length (frame opcode p) → r.1 ≡ some write_failed)
      × Apart c r
unfolding write_frame
write_frame-Sent opcode p c = elim (Bool-cases (leb (length (frame opcode p)) c.room)) [
  | inl fits ↦ rw fits (
    ((λ h. refl), λ h. absurd (ground arith)),
    (λ h. refl),
    (λ h. absurd (ground arith)),
    (refl, refl),
  )
  | inr full ↦ rw full (
    ((λ h. absurd (ground arith)), λ h. refl),
    (λ h. absurd (ground arith)),
    (λ h. refl),
    (refl, refl),
  )
]

control-Replied :
    (opcode : ℕ) (p : Bytes) (c : Conn)
    → Replied opcode p c (control opcode p c) × Apart c (control opcode p c)
unfolding control
control-Replied opcode p c = elim (Bool-cases (opcode == 8)) [
  | inl is_close ↦
      let (sent, _, _, apart) = write_frame-Sent 8 p c in
      rw is_close (
        ((λ e. absurd (ground arith)), (λ e. (refl, refl, sent)), λ e f. absurd (ground arith)),
        apart,
      )
  | inr other ↦ rw other (elim (Bool-cases (opcode == 9)) [
    | inl is_ping ↦
        let (sent, well, bad, apart) = write_frame-Sent 10 p c in
        rw is_ping (
          ((λ e. (sent, well, bad)), (λ e. absurd (ground arith)), λ e f. absurd (ground arith)),
          apart,
        )
    | inr none_of ↦ rw none_of (
      ((λ e. absurd (ground arith)), (λ e. absurd (ground arith)), λ e f. (refl, refl)),
      (refl, refl),
    )
  ])
]

-- A masked control frame of at most 125 bytes is taken whole, up to the bytes behind it, and adds
-- no data: a ping is answered by a pong with the same payload, and by an error where the socket
-- does not take the whole pong; a close by the same close frame, as far as the socket takes it, and
-- the end of the stream; and any other is dropped without an answer.
pub next_frame-Replied :
    (c : Conn) (opcode : ℕ) (mask p rest : Bytes)
    → 8 ≤ opcode
    → opcode < 16
    → length mask ≡ 4
    → length p ≤ 125
    → All IsByte mask
    → All IsByte p
    → c.input ≡ masked_frame opcode mask p ++ rest
    → Replied opcode p c (next_frame c)
      × ((next_frame c).0.input ≡ rest)
      × ((next_frame c).0.remaining ≡ c.remaining)
next_frame-Replied c opcode mask p rest lo hi m short mb pb e =
    rw (next_frame-control c opcode mask p rest lo hi m short mb pb e) (
      let (replied, apart) = control-Replied opcode p (behind c mask rest) in
      (replied, apart.0, apart.1))
