-- ===== src/Gateway/Ws/Reads.antt =====
-- `Read` in pieces: the stream of a data frame comes out unmasked, whole and in order.
use ssh_vpn.Common.{
  ℕ, zero, suc, ◌+◌, ◌^◌, ◌≤◌, ◌<◌, min, bit_and, Option, Bytes, IsByte, All, if◌then◌else◌, length,
  take, drop, Bool, true, false, List, [], ◌∷◌, ◌++◌, none, length-take, length-drop,
  take-append-drop, append_assoc, ◌≡◌, refl, sym, ap, ap₂, ◌∙◌, arith, ◌⊎◌, inl, inr,
}
use ssh_vpn.Gateway.Ws.{Conn, Error, frame, unmask, next_frame, read_error, read_some}
use ssh_vpn.Gateway.Ws.Data.{
  masked_bytes, next_frame-frame, next_frame-masked_bytes, length-unmask, unmask-unmask,
  take-unmask, drop-unmask, take_within, drop_within,
}

abbrev covered : Conn → Bytes → Bytes
covered c p = if c.masked then unmask c.mask c.mask_pos p else p

-- The connection is inside a frame with `p` still to come, and `rest` behind the frame.
pub record Carries (c : Conn) (p rest : Bytes) : Type 0 where
  pub amount : c.remaining ≡ length p
  pub ahead : c.input ≡ covered c p ++ rest
  pub mask_bytes : All IsByte c.mask
  pub payload_bytes : All IsByte p

All-drop : (n : ℕ) (p : Bytes) → All IsByte p → All IsByte (drop n p)
All-drop zero p h = h
All-drop (suc n) [] h = h
All-drop (suc n) (b ∷ p) h = All-drop n p h.1

All-take : (n : ℕ) (p : Bytes) → All IsByte p → All IsByte (take n p)
All-take zero p h = tt
All-take (suc n) [] h = tt
All-take (suc n) (b ∷ p) h = (h.0, All-take n p h.1)

-- How much one `Read` of up to `size` bytes gets out of `left`.
abbrev pub piece : ℕ → ℕ → ℕ → ℕ
piece size avail left = min (min size left) avail

-- What a read that took the first `n` bytes of `p` leaves.
abbrev Took : ℕ → Conn × Bytes × Option Error → Bytes → Bytes → Type 0
Took n r p rest = (r.1 ≡ take n p) × Carries r.0 (drop n p) rest × (r.2 ≡ none)

read_error-none : (n : ℕ) (got : Bytes) → length got ≡ n → read_error n got ≡ none
unfolding read_error
read_error-none n got h = ground arith

module _ (size avail : ℕ) (c : Conn) (p rest : Bytes) where
  abbrev n : ℕ
  n = piece size avail c.remaining

  read_masked-Took :
      let c' = record c { masked = true } in
      Carries c' p rest → Took n (read_some size avail c') p rest
  unfolding read_some
  read_masked-Took k =
      let le : n ≤ length p = omega (arith, k.amount) in
      let got : take n c.input ≡ unmask c.mask c.mask_pos (take n p) =
        ap (take n) k.ahead ∙ take-unmask n c.mask c.mask_pos p rest le in
      let size_got : length (take n c.input) ≡ n =
        ap (length {A = ℕ}) got
        ∙ length-unmask c.mask c.mask_pos (take n p)
        ∙ omega (arith, length-take n p) in
      (
        ap (unmask c.mask c.mask_pos) got
            ∙ unmask-unmask c.mask c.mask_pos (take n p) k.mask_bytes
                (All-take n p k.payload_bytes),
        record {
          amount = omega (arith, size_got, length-drop n p, k.amount);
          ahead =
              ap (drop n) k.ahead
              ∙ drop-unmask n c.mask c.mask_pos p rest le
              ∙ ap (λ (t : ℕ). unmask c.mask (c.mask_pos + t) (drop n p) ++ rest) (sym size_got);
          mask_bytes = k.mask_bytes;
          payload_bytes = All-drop n p k.payload_bytes;
        },
        read_error-none n (take n c.input) size_got,
      )

  read_plain-Took :
      let c' = record c { masked = false } in
      Carries c' p rest → Took n (read_some size avail c') p rest
  unfolding read_some
  read_plain-Took k =
      let le : n ≤ length p = omega (arith, k.amount) in
      let got : take n c.input ≡ take n p = ap (take n) k.ahead ∙ take_within n p rest le in
      let size_got : length (take n c.input) ≡ n =
        ap (length {A = ℕ}) got ∙ omega (arith, length-take n p) in
      (
        got,
        record {
          amount = omega (arith, size_got, length-drop n p, k.amount);
          ahead = ap (drop n) k.ahead ∙ drop_within n p rest le;
          mask_bytes = k.mask_bytes;
          payload_bytes = All-drop n p k.payload_bytes;
        },
        read_error-none n (take n c.input) size_got,
      )

  by_mask :
      (m : Bool)
      → let c' = record c { masked = m } in
        Carries c' p rest → Took n (read_some size avail c') p rest
  by_mask true k = read_masked-Took k
  by_mask false k = read_plain-Took k

  -- A `Read` inside a frame returns the next bytes of the payload, unmasked, and stands inside the
  -- same frame at what is left, with no error.
  pub read_some-Took : Carries c p rest → Took n (read_some size avail c) p rest
  read_some-Took k = by_mask c.masked k

-- A row of reads, each with its buffer size and what the reader has at hand.
unfoldable pub read_pieces : List (ℕ × ℕ) → Conn → Conn × Bytes
read_pieces [] c = (c, [])
read_pieces ((size, avail) ∷ sizes) c =
    let (c', got, e) = read_some size avail c in
    let (c'', more) = read_pieces sizes c' in (c'', got ++ more)

-- Whatever the sizes of the reads, the bytes that they return are a prefix of the payload, and the
-- rest of the payload is still to come.
pub read_pieces-Carries :
    (sizes : List (ℕ × ℕ)) (c : Conn) (p rest : Bytes)
    → Carries c p rest
    → (left : Bytes) × (p ≡ (read_pieces sizes c).1 ++ left)
      × Carries (read_pieces sizes c).0 left rest
unfolding read_pieces
read_pieces-Carries [] c p rest k = (p, refl, k)
read_pieces-Carries ((size, avail) ∷ sizes) c p rest k =
    let m = piece size avail c.remaining in
    let (got, k', _) = read_some-Took size avail c p rest k in
    let (left, e, k'') = read_pieces-Carries sizes (read_some size avail c).0 (drop m p) rest k' in
    (
      left,
      sym (take-append-drop m p)
          ∙ ap₂ ◌++◌ (sym got) e
          ∙ sym (append_assoc (read_some size avail c).1 _ left),
      k'',
    )

-- Writing a frame and reading it on the other side: `nextFrame` on what `Write` wrote, and on a
-- masked data frame of a client, whatever its opcode below 8 and whether or not it ends a message,
-- leaves the connection inside the frame with the whole payload to come.
pub next_frame-Carries :
    (c : Conn) (first : ℕ) (mask p rest : Bytes)
    → bit_and first 0x0F < 8
    → length p < 2 ^ 64
    → length mask ≡ 4
    → All IsByte mask
    → All IsByte c.mask
    → All IsByte p
    → (c.input ≡ frame 2 p ++ rest) ⊎ (c.input ≡ masked_bytes first mask p ++ rest)
    → ((next_frame c).1 ≡ none) × Carries (next_frame c).0 p rest
next_frame-Carries c first mask p rest op h m mb cb pb (inl e) =
    rw (next_frame-frame c 2 p rest (omega arith) h e)
      (refl, record { amount = refl; ahead = refl; mask_bytes = cb; payload_bytes = pb })
next_frame-Carries c first mask p rest op h m mb cb pb (inr e) =
    rw (next_frame-masked_bytes c first mask p rest op m h e)
      (refl, record { amount = refl; ahead = refl; mask_bytes = mb; payload_bytes = pb })
