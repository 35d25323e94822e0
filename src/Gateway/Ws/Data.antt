-- ===== src/Gateway/Ws/Data.antt =====
-- Data frames: what `Read` delivers is what the peer put in, however it is cut into reads.
use ssh_vpn.Common.{
  ℕ, zero, suc, ◌+◌, ◌%◌, ◌^◌, ◌≤◌, ◌<◌, bit_and, bit_or, bit_xor, Bytes, IsByte, All, ltb, leb,
  length, take, drop, get_elem?, true, false, [], ◌∷◌, ◌++◌, none, append_assoc, ◌≡◌, refl, ap, ap₂,
  ◌∙◌, arith, Bool-cases, inl, inr,
}
use mathlib.Core.Option
use native.Mathlib.Nat.{add-zero}
use ssh_vpn.Common.Bits.{low_four, set_top, bit_xor_twice}
use ssh_vpn.Gateway.Ws.{Conn, frame, mask_at, unmask, after_size, next_frame}
use ssh_vpn.Gateway.Ws.Header.{size_bits, size_bytes, next_frame_size, read_full-append}

-- A frame as a client must send it, behind its first byte with the FIN bit and the opcode: the
-- length with the mask bit, the mask, and the payload under the mask.
abbrev pub masked_bytes : ℕ → Bytes → Bytes → Bytes
masked_bytes first mask p =
    first ∷ ((size_bits (length p) + 128) ∷ (size_bytes (length p) ++ (mask ++ unmask mask 0 p)))

-- The last frame of a message.
abbrev pub masked_frame : ℕ → Bytes → Bytes → Bytes
masked_frame opcode mask p = masked_bytes (bit_or 0x80 opcode) mask p

pub frame_lem :
    (opcode : ℕ) (p : Bytes)
    → frame opcode p
      ≡ bit_or 0x80 opcode ∷ ((size_bits (length p) + 0) ∷ (size_bytes (length p) ++ p))
unfolding frame
frame_lem opcode p = elim (Bool-cases (ltb (length p) 126)) [
  | inl small ↦ rw (small) (
      let fits : length p % 256 ≡ length p + 0 = ground arith in
      ap (λ (t : ℕ). bit_or 0x80 opcode ∷ t ∷ p) fits)
  | inr big ↦ elim (Bool-cases (leb (length p) 0xFFFF)) [
    | inl medium ↦ rw (big, medium) refl
    | inr large ↦ rw (big, large) refl
  ]
]

pub opcode_lem : (opcode : ℕ) → opcode < 16 → bit_and (bit_or 0x80 opcode) 0x0F ≡ opcode
opcode_lem opcode h =
    ground (arith, set_top opcode (ground arith), low_four (opcode % 128 + 128) (ground arith))

-- `nextFrame` on a frame that `writeFrame` wrote, for a data opcode.
pub next_frame-frame :
    (c : Conn) (opcode : ℕ) (p rest : Bytes)
    → opcode < 8
    → length p < 2 ^ 64
    → c.input ≡ frame opcode p ++ rest
    → next_frame c
      ≡ (record c { input = p ++ rest; masked = false; mask_pos = 0; remaining = length p }, none)
unfolding after_size
next_frame-frame c opcode p rest op h e =
    next_frame_size c (bit_or 0x80 opcode) (length p) false (p ++ rest) h (
      e
      ∙ rw (frame_lem opcode p) (
          ap (λ (t : Bytes). bit_or 0x80 opcode ∷ (size_bits (length p) + 0) ∷ t)
            (append_assoc (size_bytes (length p)) p rest)))
    ∙ rw (opcode_lem opcode (omega arith))
        (let is_data : leb 8 opcode ≡ false = ground arith in rw is_data refl)

pub next_frame-masked_bytes :
    (c : Conn) (first : ℕ) (mask p rest : Bytes)
    → bit_and first 0x0F < 8
    → length mask ≡ 4
    → length p < 2 ^ 64
    → c.input ≡ masked_bytes first mask p ++ rest
    → next_frame c ≡ (
      record c {
        input = unmask mask 0 p ++ rest;
        masked = true;
        mask = mask;
        mask_pos = 0;
        remaining = length p;
      },
      none,
    )
unfolding after_size
next_frame-masked_bytes c first mask p rest op m h e =
    next_frame_size c first (length p) true (mask ++ (unmask mask 0 p ++ rest)) h (
      e
      ∙ ap (λ (t : Bytes). first ∷ (size_bits (length p) + 128) ∷ t)
          (append_assoc (size_bytes (length p)) (mask ++ unmask mask 0 p) rest
            ∙ ap (◌++◌ (size_bytes (length p))) (append_assoc mask (unmask mask 0 p) rest)))
    ∙ rw (read_full-append 4 mask (unmask mask 0 p ++ rest) m)
        (let is_data : leb 8 (bit_and first 0x0F) ≡ false = ground arith in rw is_data refl)

pub length-unmask : (mask : Bytes) (i : ℕ) (p : Bytes) → length (unmask mask i p) ≡ length p
unfolding unmask
length-unmask mask i [] = refl
length-unmask mask i (b ∷ p) = ap suc (length-unmask mask (i + 1) p)

mask_at-IsByte : (mask : Bytes) (i : ℕ) → All IsByte mask → mask_at mask i < 256
unfolding unmask
mask_at-IsByte mask i h = by_index mask (bit_and i 3) h
  where
    by_index : (m : Bytes) (j : ℕ) → All IsByte m → Option.get_or (get_elem? m j) 0 < 256
    by_index [] j g = omega arith
    by_index (x ∷ m) zero g = g.0
    by_index (x ∷ m) (suc j) g = by_index m j g.1

pub unmask-unmask :
    (mask : Bytes) (i : ℕ) (p : Bytes)
    → All IsByte mask
    → All IsByte p
    → unmask mask i (unmask mask i p) ≡ p
unfolding unmask
unmask-unmask mask i [] m h = refl
unmask-unmask mask i (b ∷ p) m (hb, h) =
    ap₂ ◌∷◌ (bit_xor_twice b (mask_at mask i) hb (mask_at-IsByte mask i m))
      (unmask-unmask mask (i + 1) p m h)

pub take-unmask :
    (n : ℕ) (mask : Bytes) (i : ℕ) (p rest : Bytes)
    → n ≤ length p
    → take n (unmask mask i p ++ rest) ≡ unmask mask i (take n p)
unfolding unmask
take-unmask zero mask i p rest h = refl
take-unmask (suc n) mask i [] rest h = absurd (omega arith)
take-unmask (suc n) mask i (b ∷ p) rest h =
    ap (◌∷◌ (bit_xor b (mask_at mask i))) (take-unmask n mask (i + 1) p rest (omega arith))

pub drop-unmask :
    (n : ℕ) (mask : Bytes) (i : ℕ) (p rest : Bytes)
    → n ≤ length p
    → drop n (unmask mask i p ++ rest) ≡ unmask mask (i + n) (drop n p) ++ rest
unfolding unmask
drop-unmask zero mask i p rest h = rw add-zero refl
drop-unmask (suc n) mask i [] rest h = absurd (omega arith)
drop-unmask (suc n) mask i (b ∷ p) rest h =
    drop-unmask n mask (i + 1) p rest (omega arith)
    ∙ ap (λ (t : ℕ). unmask mask t (drop n p) ++ rest) (omega arith)

pub take_within : (n : ℕ) (p rest : Bytes) → n ≤ length p → take n (p ++ rest) ≡ take n p
take_within zero p rest h = refl
take_within (suc n) [] rest h = absurd (omega arith)
take_within (suc n) (b ∷ p) rest h = ap (◌∷◌ b) (take_within n p rest (omega arith))

pub drop_within : (n : ℕ) (p rest : Bytes) → n ≤ length p → drop n (p ++ rest) ≡ drop n p ++ rest
drop_within zero p rest h = refl
drop_within (suc n) [] rest h = absurd (omega arith)
drop_within (suc n) (b ∷ p) rest h = drop_within n p rest (omega arith)
