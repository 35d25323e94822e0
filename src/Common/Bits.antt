-- ===== src/Common/Bits.antt =====
-- Facts about `&`, `|` and `^` on one byte, each a table checked by evaluation.
use Prim.Native.Nat.{ℕ, zero, suc, ◌+◌, ◌*◌, ◌/◌, ◌%◌, ◌<◌, bit_and, bit_or, bit_xor}
use mathlib.Core.Path.{◌≡◌, refl}
use mathlib.Core.Bool.{Bool, true, ◌&&◌}
use native.Mathlib.Omega.{arith}
use ssh_vpn.Common.Tests.{◌==◌, ==_iff}

-- The test holds of every number under the bound.
each_under : (ℕ → Bool) → ℕ → Bool
each_under test zero = true
each_under test (suc bound) = each_under test bound && test bound

each_under-at :
    (test : ℕ → Bool) (bound x : ℕ) → x < bound → each_under test bound ≡ true → test x ≡ true
unfolding each_under
each_under-at test zero x inside all = absurd (omega arith)
each_under-at test (suc bound) x inside all = ground (arith, each_under-at test bound x)

-- Two functions that agree on the table of all bytes agree at every byte.
byte_table : (f g : ℕ → ℕ) → each_under (λ x. f x == g x) 256 ≡ true → (x : ℕ) → x < 256 → f x ≡ g x
byte_table f g t x h = (==_iff (f x) (g x)).0 (each_under-at (λ y. f y == g y) 256 x h t)

module _ (b : ℕ) (h : b < 256) where
  pub bit_and_1 : bit_and b 1 ≡ b % 2
  unfolding each_under
  bit_and_1 = byte_table (λ x. bit_and x 1) (λ x. x % 2) refl b h

  pub bit_and_8 : bit_and b 8 ≡ b / 8 % 2 * 8
  unfolding each_under
  bit_and_8 = byte_table (λ x. bit_and x 8) (λ x. x / 8 % 2 * 8) refl b h

  pub bit_or_8 : bit_or b 8 ≡ b / 16 * 16 + 8 + b % 8
  unfolding each_under
  bit_or_8 = byte_table (λ x. bit_or x 8) (λ x. x / 16 * 16 + 8 + x % 8) refl b h

  pub bit_clear_8 : bit_and b 0xF7 ≡ b / 16 * 16 + b % 8
  unfolding each_under
  bit_clear_8 = byte_table (λ x. bit_and x 0xF7) (λ x. x / 16 * 16 + x % 8) refl b h

each_mask : each_under (λ m. each_under (λ b. bit_xor (bit_xor b m) m == b) 256) 256 ≡ true
unfolding each_under
each_mask = refl

-- A mask is taken off by putting it on again.
pub bit_xor_twice : (b m : ℕ) → b < 256 → m < 256 → bit_xor (bit_xor b m) m ≡ b
bit_xor_twice b m hb hm =
    let row =
      each_under-at (λ k. each_under (λ v. bit_xor (bit_xor v k) k == v) 256) 256 m hm each_mask in
    (==_iff (bit_xor (bit_xor b m) m) b).0
      (each_under-at (λ v. bit_xor (bit_xor v m) m == v) 256 b hb row)

pub low_seven : (b : ℕ) → b < 256 → bit_and b 0x7F ≡ b % 128
unfolding each_under
low_seven b h = byte_table (λ x. bit_and x 0x7F) (λ x. x % 128) refl b h

pub top_bit : (b : ℕ) → b < 256 → bit_and b 0x80 ≡ b / 128 * 128
unfolding each_under
top_bit b h = byte_table (λ x. bit_and x 0x80) (λ x. x / 128 * 128) refl b h

pub low_four : (b : ℕ) → b < 256 → bit_and b 0x0F ≡ b % 16
unfolding each_under
low_four b h = byte_table (λ x. bit_and x 0x0F) (λ x. x % 16) refl b h

pub set_top : (b : ℕ) → b < 256 → bit_or 0x80 b ≡ b % 128 + 128
unfolding each_under
set_top b h = byte_table (λ x. bit_or 0x80 x) (λ x. x % 128 + 128) refl b h
