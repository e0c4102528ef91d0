-- ===== src/Base/Bits.antt =====
-- `&` with a mask of low bits and `|` of a low and a high field, as arithmetic.
use Prim.Native.Nat.{ℕ, zero, suc, ◌+◌, ◌*◌, ◌/◌, ◌%◌, ◌^◌, ◌≤◌, ◌<◌, min, max}
use Prim.Native.Nat.{bit_and, bit_or, digits, bit_and-bitwise, bit_or-bitwise}
use mathlib.Core.Path.{◌≡◌, refl, ap, ◌∙◌, sym}
use native.Mathlib.Nat.{div-div-eq-div-mul, pow-suc}
use native.Mathlib.Omega.{arith}

-- More fuel than digits changes nothing.
module _ (rest : ℕ → ℕ) (digit : ℕ → ℕ → ℕ) where
  digits-eq : (f g a b : ℕ) → a ≤ f → a ≤ g → digits rest digit f a b ≡ digits rest digit g a b
  digits-eq zero zero zero b p q = refl
  digits-eq zero (suc g) zero b p q = refl
  digits-eq (suc f) zero zero b p q = refl
  digits-eq (suc f) (suc g) zero b p q = refl
  digits-eq zero g (suc a) b p q = absurd (omega arith)
  digits-eq (suc f) zero (suc a) b p q = absurd (omega arith)
  digits-eq (suc f) (suc g) (suc a) b p q =
      ap (λ n. n * 2 + digit (suc a % 2) (b % 2))
        (digits-eq f g (suc a / 2) (b / 2) (omega arith) (omega arith))

zero-or : (b : ℕ) → bit_or 0 b ≡ b
zero-or b = bit_or-bitwise 0 b

halves : (b : ℕ) → b ≡ b / 2 * 2 + max 0 (b % 2)
halves b = omega arith

or_low_digit : (a b : ℕ) → bit_or a b ≡ bit_or (a / 2) (b / 2) * 2 + max (a % 2) (b % 2)
or_low_digit zero b = zero-or b ∙ halves b ∙ ap (λ n. n * 2 + max 0 (b % 2)) (sym (zero-or (b / 2)))
or_low_digit (suc a) b =
    bit_or-bitwise (suc a) b
    ∙ ap (λ n. n * 2 + max (suc a % 2) (b % 2))
        (digits-eq (λ n. n) max a (suc a / 2) (suc a / 2) (b / 2) (omega arith) (omega arith)
          ∙ sym (bit_or-bitwise (suc a / 2) (b / 2)))

no_digit : (b : ℕ) → 0 ≡ 0 * 2 + min 0 (b % 2)
no_digit b = omega arith

and_low_digit : (a b : ℕ) → bit_and a b ≡ bit_and (a / 2) (b / 2) * 2 + min (a % 2) (b % 2)
and_low_digit zero b =
    bit_and-bitwise 0 b
    ∙ no_digit b
    ∙ ap (λ n. n * 2 + min 0 (b % 2)) (sym (bit_and-bitwise 0 (b / 2)))
and_low_digit (suc a) b =
    bit_and-bitwise (suc a) b
    ∙ ap (λ n. n * 2 + min (suc a % 2) (b % 2))
        (digits-eq (λ n. 0) min a (suc a / 2) (suc a / 2) (b / 2) (omega arith) (omega arith)
          ∙ sym (bit_and-bitwise (suc a / 2) (b / 2)))

double_pow : (b k : ℕ) → b * 2 ^ suc k ≡ b * 2 ^ k * 2
double_pow b k = omega (arith, ap (λ (t : ℕ). b * t) (pow-suc 2 k))

-- A field of `k` low bits beside a field above them.
pub or_fields : (k a b : ℕ) → a < 2 ^ k → bit_or a (b * 2 ^ k) ≡ a + b * 2 ^ k
or_fields zero zero b h = omega (arith, zero-or (b * 1))
or_fields zero (suc a) b h = absurd (omega arith)
or_fields (suc k) a b h = ground (
  arith,
  or_low_digit a (b * 2 ^ suc k),
  double_pow b k,
  pow-suc 2 k,
  or_fields k (a / 2) b (omega (arith, pow-suc 2 k)),
)

or-zero_fuel : (n b : ℕ) → b ≤ n → bit_or b 0 ≡ b
or-zero_fuel zero zero h = refl
or-zero_fuel zero (suc b) h = absurd (omega arith)
or-zero_fuel (suc n) zero h = refl
or-zero_fuel (suc n) (suc b) h =
    omega (arith, or_low_digit (suc b) 0, or-zero_fuel n (suc b / 2) (omega arith))

pub or_fields_high : (k a b : ℕ) → a < 2 ^ k → bit_or (b * 2 ^ k) a ≡ b * 2 ^ k + a
or_fields_high zero zero b h = omega (arith, or-zero_fuel (b * 1) (b * 1) (omega arith))
or_fields_high zero (suc a) b h = absurd (omega arith)
or_fields_high (suc k) a b h = ground (
  arith,
  or_low_digit (b * 2 ^ suc k) a,
  double_pow b k,
  pow-suc 2 k,
  or_fields_high k (a / 2) b (omega (arith, pow-suc 2 k)),
)

and-zero_fuel : (n a : ℕ) → a ≤ n → bit_and a 0 ≡ 0
and-zero_fuel n zero h = refl
and-zero_fuel zero (suc a) h = absurd (omega arith)
and-zero_fuel (suc n) (suc a) h =
    omega (arith, and_low_digit (suc a) 0, and-zero_fuel n (suc a / 2) (omega arith))

pub and_one : (a : ℕ) → bit_and a 1 ≡ a % 2
and_one a = omega (arith, and_low_digit a 1, and-zero_fuel (a / 2) (a / 2) (omega arith))

and_three : (a : ℕ) → bit_and a 3 ≡ a % 4
and_three a = omega (arith, and_low_digit a 3, and_one (a / 2))

-- `a & 0x0F`
pub and_nibble : (a : ℕ) → bit_and a 0x0F ≡ a % 16
and_nibble a = omega (arith, and_low_digit a 15, and_low_digit (a / 2) 7, and_three (a / 2 / 2))

-- `a & 0xF0`
pub and_high_nibble : (a : ℕ) → bit_and a 0xF0 ≡ a / 16 % 16 * 16
and_high_nibble a = omega (
  arith,
  and_low_digit a 240,
  and_low_digit (a / 2) 120,
  and_low_digit (a / 2 / 2) 60,
  and_low_digit (a / 2 / 2 / 2) 30,
  and_nibble (a / 2 / 2 / 2 / 2),
)

-- `a & 0xFF`
pub and_byte : (a : ℕ) → bit_and a 0xFF ≡ a % 256
and_byte a = omega (
  arith,
  and_low_digit a 255,
  and_low_digit (a / 2) 127,
  and_low_digit (a / 2 / 2) 63,
  and_low_digit (a / 2 / 2 / 2) 31,
  and_nibble (a / 2 / 2 / 2 / 2),
)

-- `a & 0x0FFF`
pub and_twelve : (a : ℕ) → bit_and a 0x0FFF ≡ a % 4096
and_twelve a = omega (
  arith,
  and_low_digit a 4095,
  and_low_digit (a / 2) 2047,
  and_low_digit (a / 2 / 2) 1023,
  and_low_digit (a / 2 / 2 / 2) 511,
  and_byte (a / 2 / 2 / 2 / 2),
)

-- `a & 7`
pub and_seven : (a : ℕ) → bit_and a 7 ≡ a % 8
and_seven a = omega (arith, and_low_digit a 7, and_three (a / 2))

-- `a & 0x7F`
pub and_low_seven : (a : ℕ) → bit_and a 0x7F ≡ a % 128
and_low_seven a = omega (
  arith,
  and_low_digit a 127,
  and_low_digit (a / 2) 63,
  and_low_digit (a / 2 / 2) 31,
  and_nibble (a / 2 / 2 / 2),
)

-- `a & 0x3FF`
pub and_ten : (a : ℕ) → bit_and a 0x3FF ≡ a % 1024
and_ten a = omega (
  arith,
  and_low_digit a 1023,
  and_low_digit (a / 2) 511,
  and_low_digit (a / 2 / 2) 255,
  and_low_seven (a / 2 / 2 / 2),
)

and_two : (a : ℕ) → bit_and a 2 ≡ a / 2 % 2 * 2
and_two a = omega (arith, and_low_digit a 2, and_one (a / 2))

and_eight : (a : ℕ) → bit_and a 8 ≡ a / 8 % 2 * 8
and_eight a = omega (arith, and_low_digit a 8, and_low_digit (a / 2) 4, and_two (a / 2 / 2))

and_bit_five : (a : ℕ) → bit_and a 32 ≡ a / 32 % 2 * 32
and_bit_five a = omega (arith, and_low_digit a 32, and_low_digit (a / 2) 16, and_eight (a / 2 / 2))

-- `a & 0x80`
pub and_top_bit : (a : ℕ) → bit_and a 0x80 ≡ a / 128 % 2 * 128
and_top_bit a =
    omega (arith, and_low_digit a 128, and_low_digit (a / 2) 64, and_bit_five (a / 2 / 2))

-- `a & 0xFFFF`
pub and_word : (a : ℕ) → bit_and a 0xFFFF ≡ a % 65536
and_word a = omega (
  arith,
  and_low_digit a 65535,
  and_low_digit (a / 2) 32767,
  and_low_digit (a / 2 / 2) 16383,
  and_low_digit (a / 2 / 2 / 2) 8191,
  and_twelve (a / 2 / 2 / 2 / 2),
)

or_half : (a b : ℕ) → bit_or a b / 2 ≡ bit_or (a / 2) (b / 2)
or_half a b = omega (arith, or_low_digit a b)

halved : (n k : ℕ) → n / 2 ^ suc k ≡ n / 2 / 2 ^ k
halved n k = rw (pow_shift k) (sym (div-div-eq-div-mul n 2 (2 ^ k)))
  where
    pow_shift : (k : ℕ) → 2 ^ suc k ≡ 2 * 2 ^ k
    pow_shift k = omega (arith, pow-suc 2 k)

one_by : (n : ℕ) → n / 2 ^ 0 ≡ n
one_by n = omega arith

-- The fields above `k` low bits are joined on their own.
pub or_high_field : (k a b : ℕ) → bit_or a b / 2 ^ k ≡ bit_or (a / 2 ^ k) (b / 2 ^ k)
or_high_field zero a b = rw (one_by a, one_by b) (one_by (bit_or a b))
or_high_field (suc k) a b =
    rw (halved a k, halved b k)
      (halved (bit_or a b) k ∙ ap (λ n. n / 2 ^ k) (or_half a b) ∙ or_high_field k (a / 2) (b / 2))

pub or_low_bit : (a b : ℕ) → bit_or a b % 2 ≡ max (a % 2) (b % 2)
or_low_bit a b = omega (arith, or_low_digit a b)

-- An address of a page beside flags.
pub or_flags : (a flags : ℕ) → flags < 4096 → bit_or a flags / 4096 ≡ a / 4096
or_flags a flags lt =
    let none : flags / 2 ^ 12 ≡ 0 = omega arith in
    or_high_field 12 a flags ∙ rw none (or-zero_fuel (a / 4096) (a / 4096) (omega arith))

-- Bit 7 of a word.
pub or_bit_seven : (a b : ℕ) → bit_or a b / 128 % 2 ≡ max (a / 128 % 2) (b / 128 % 2)
or_bit_seven a b = rw (or_high_field 7 a b) (or_low_bit (a / 128) (b / 128))
