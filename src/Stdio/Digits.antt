-- ===== src/Stdio/Digits.antt =====
-- Numbers as text: the value of the digits, and the way back.
use native.Mathlib.Nat.{pow-suc, mod-lt, div-add-mod, div-lt_iff_lt-mul, mul-le-mul_left}
use master_os.Base.{
  ℕ, zero, suc, ◌+◌, ◌-◌, ◌*◌, ◌/◌, ◌%◌, ◌^◌, ◌<◌, ◌≤◌, ◌≡◌, ◌≢◌, inl, inr, arith, true, Bool-cases,
  List, [], ◌∷◌, ltb, ◌==◌, if◌then◌else◌,
}
use master_os.Stdio.{possible_char, digits_from}

-- The number that a digit of `possibleChars` stands for.
abbrev pub digit_value : ℕ → ℕ
digit_value c = if ltb c b'a' then c - b'0' else c - b'a' + 10

-- The number that digits stand for, the lowest first.
abbrev pub value_of : (radix : ℕ) → List ℕ → ℕ
value_of radix [] = 0
value_of radix (c ∷ s) = digit_value c + radix * value_of radix s

digit_value-possible_char : (d : ℕ) → d < 16 → digit_value (possible_char d) ≡ d
unfolding possible_char
digit_value-possible_char d h = ground arith

quotient_lt : (radix r n : ℕ) → 2 ≤ radix → n < 2 ^ suc r → n / radix < 2 ^ r
quotient_lt radix r n lo h =
    (div-lt_iff_lt-mul (omega arith)).1 (omega (arith, pow-suc 2 r, mul-le-mul_left (2 ^ r) lo))

some_round : (r : ℕ) {q : ℕ} → q < 2 ^ r → q ≢ 0 → 0 < r
some_round zero h z = absurd (omega arith)
some_round (suc r) h z = omega arith

-- The digits that `printf_number` prints of a 32-bit number in radix 2 to 16 have its value; no
-- digit is lost.
pub digits_from-value :
    (radix rounds n : ℕ)
    → 2 ≤ radix
    → radix ≤ 16
    → n < 2 ^ rounds
    → 0 < rounds
    → value_of radix (digits_from radix rounds n) ≡ n
unfolding digits_from
digits_from-value radix zero n lo hi h p = absurd (omega arith)
digits_from-value radix (suc r) n lo hi h p = elim (Bool-cases (n / radix == 0)) [
  | inl e ↦ simp e (ground (arith, digit, sum, whole_zero e))
  | inr e ↦ simp e (
      rw
        (
          digit,
          digits_from-value radix r (n / radix) lo hi quotient
              (some_round r quotient (ground arith)),
        )
        (omega (arith, sum)))
]
  where
    digit : digit_value (possible_char (n % radix)) ≡ n % radix
    digit =
        digit_value-possible_char (n % radix) (omega (arith, mod-lt n {m = radix} (omega arith)))

    sum : radix * (n / radix) + n % radix ≡ n
    sum = div-add-mod n radix

    whole_zero : (n / radix == 0) ≡ true → radix * (n / radix) ≡ 0
    whole_zero e = let z : n / radix ≡ 0 = ground arith in rw z (omega arith)

    quotient : n / radix < 2 ^ r
    quotient = quotient_lt radix r n lo h
