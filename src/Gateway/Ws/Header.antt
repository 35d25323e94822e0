-- ===== src/Gateway/Ws/Header.antt =====
-- `nextFrame` on well-formed frames, masked or not.
use ssh_vpn.Common.{
  ℕ, ◌+◌, ◌^◌, ◌<◌, bit_and, Bytes, ltb, leb, ◌==◌, if◌then◌else◌, length, Bool, false, not, [],
  ◌∷◌, ◌++◌, some, be16, be_bytes, from_be, from_be-be_bytes, length-be_bytes, length-append,
  take-append, drop-append, ◌≡◌, refl, ap, arith, Bool-cases, inl, inr,
}
use ssh_vpn.Common.Bits.{low_seven, top_bit}
use ssh_vpn.Gateway.Ws.{Conn, read_full, after_size, read_size, next_frame}

pub read_full-append :
    (n : ℕ) (xs more : Bytes) → length xs ≡ n → read_full n (xs ++ more) ≡ some (xs, more)
unfolding read_full
read_full-append n xs more h =
    ground (arith, length-append xs more, take-append n xs more h, drop-append n xs more h)

-- The length of a payload as RFC 6455 writes it: seven bits, then two or eight bytes.
abbrev pub size_bits : ℕ → ℕ
size_bits n = if ltb n 126 then n else if leb n 0xFFFF then 126 else 127

abbrev pub size_bytes : ℕ → Bytes
size_bytes n = if ltb n 126 then [] else if leb n 0xFFFF then be16 n else be_bytes 8 n

abbrev pub mask_bit : Bool → ℕ
mask_bit masked = if masked then 128 else 0

module _ (n : ℕ) (masked : Bool) where
  size_bits_low : bit_and (size_bits n + mask_bit masked) 0x7F ≡ size_bits n
  size_bits_low = ground (arith, low_seven (size_bits n + mask_bit masked) (ground arith))

  size_bits_top : not (bit_and (size_bits n + mask_bit masked) 0x80 == 0) ≡ masked
  size_bits_top = ground (arith, top_bit (size_bits n + mask_bit masked) (ground arith))

be16_value : (n : ℕ) → n < 65536 → from_be 0 (be16 n) ≡ n
unfolding from_be
be16_value n h = omega arith

-- The `switch` on the seven bits, with the extended length behind them.
extended :
    (c : Conn) (op n : ℕ) (more : Bytes)
    → n < 2 ^ 64
    → (if size_bits n == 126
        then read_size op (read_full 2 (size_bytes n ++ more)) c
        else if size_bits n == 127
        then read_size op (read_full 8 (size_bytes n ++ more)) c
        else after_size op (size_bits n) (record c { input = size_bytes n ++ more }))
      ≡ after_size op n (record c { input = more })
unfolding next_frame
extended c op n more h = elim (Bool-cases (ltb n 126)) [
  | inl small ↦
      let not_126 : (n == 126) ≡ false = ground arith in
      let not_127 : (n == 127) ≡ false = ground arith in rw (small, not_126, not_127) refl
  | inr big ↦ elim (Bool-cases (leb n 0xFFFF)) [
    | inl medium ↦
        rw (big, medium)
          (rw (read_full-append 2 (be16 n) more refl) (
            ap (λ (t : ℕ). after_size op t (record c { input = more }))
              (be16_value n (ground arith))))
    | inr large ↦
        rw (big, large)
          (rw (read_full-append 8 (be_bytes 8 n) more (length-be_bytes 8 n))
            (rw (from_be-be_bytes 8 n (omega arith)) refl))
  ]
]

-- Reading the two header bytes and the length finds the length again, and whether there is a mask.
pub next_frame_size :
    (c : Conn) (b0 n : ℕ) (masked : Bool) (more : Bytes)
    → n < 2 ^ 64
    → c.input ≡ b0 ∷ ((size_bits n + mask_bit masked) ∷ (size_bytes n ++ more))
    → next_frame c ≡ after_size (bit_and b0 0x0F) n (record c { input = more; masked = masked })
unfolding next_frame
next_frame_size c b0 n masked more h e = rw e (
    rw (read_full-append 2 (b0 ∷ (size_bits n + mask_bit masked) ∷ []) (size_bytes n ++ more) refl)
      (rw (size_bits_low n masked, size_bits_top n masked)
        (extended (record c { input = size_bytes n ++ more; masked = masked }) (bit_and b0 0x0F) n
          more h)))
