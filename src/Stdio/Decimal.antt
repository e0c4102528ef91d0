-- ===== src/Stdio/Decimal.antt =====
-- shell.c: `k_atoi` reads back what `print_uint` prints.
use native.Mathlib.Decide.{ℕ_discrete}
use native.Mathlib.Nat.{pow-suc}
use mathlib.Core.List.{reverse, reverse-cons}
use master_os.Base.{
  ℕ, zero, suc, ◌+◌, ◌-◌, ◌*◌, ◌/◌, ◌%◌, ◌^◌, ◌<◌, ◌≤◌, ◌≡◌, ◌≢◌, refl, ap, ◌∙◌, arith, Bool, true,
  false, ◌&&◌, List, [], ◌∷◌, ◌++◌, All, leb, ◌==◌, if◌then◌else◌, u32,
}
use master_os.Stdio.{uint_digits, print_uint, atoi_from, k_atoi}

abbrev IsDigit : ℕ → Type 0
IsDigit c = (b'0' ≤ c) × (c ≤ b'9')

-- Digits are read one after the other.
atoi-append :
    (r : ℕ) (s t : List ℕ) → All IsDigit s → atoi_from r (s ++ t) ≡ atoi_from (atoi_from r s) t
unfolding atoi_from
atoi-append r [] t h = refl
atoi-append r (c ∷ s) t h =
    let digit : (leb b'0' c && leb c b'9') ≡ true = ground (arith, h.0) in
    rw digit (atoi-append (u32 (r * 10 + (c - b'0'))) s t h.1)

All-append : (s t : List ℕ) → All IsDigit s → All IsDigit t → All IsDigit (s ++ t)
All-append [] t p q = q
All-append (c ∷ s) t p q = (p.0, All-append s t p.1 q)

atoi-one : (r c : ℕ) → IsDigit c → atoi_from r (c ∷ []) ≡ u32 (r * 10 + (c - b'0'))
unfolding atoi_from
atoi-one r c h = ground (arith, h)

digits-step :
    (rounds n : ℕ)
    → n ≢ 0
    → reverse (uint_digits (suc rounds) n)
      ≡ reverse (uint_digits rounds (n / 10)) ++ (b'0' + n % 10) ∷ []
unfolding uint_digits
digits-step rounds n h =
    let z : (n == 0) ≡ false = ground arith in
    rw z (reverse-cons (b'0' + n % 10) (uint_digits rounds (n / 10)))

digits-zero : (rounds : ℕ) → uint_digits rounds 0 ≡ []
unfolding uint_digits
digits-zero zero = refl
digits-zero (suc rounds) = refl

digits-IsDigit : (rounds n : ℕ) → All IsDigit (reverse (uint_digits rounds n))
digits-IsDigit zero n = unfold uint_digits in tt
digits-IsDigit (suc rounds) n = elim (ℕ_discrete n 0) [
  | yes z ↦ rw (z, digits-zero (suc rounds)) tt
  | no ne ↦
      rw (digits-step rounds n ne)
        (All-append _ _ (digits-IsDigit rounds (n / 10)) ((omega arith, omega arith), tt))
]

atoi-digits :
    (rounds n : ℕ) → n < 10 ^ rounds → n < 2 ^ 32 → atoi_from 0 (reverse (uint_digits rounds n)) ≡ n
atoi-digits zero n h lt = unfold uint_digits atoi_from in omega arith
atoi-digits (suc rounds) n h lt = elim (ℕ_discrete n 0) [
  | yes z ↦ rw (z, digits-zero (suc rounds)) (unfold atoi_from in refl)
  | no ne ↦
      rw
        (
          digits-step rounds n ne,
          atoi-append 0 (reverse (uint_digits rounds (n / 10))) ((b'0' + n % 10) ∷ [])
              (digits-IsDigit rounds (n / 10)),
          atoi-digits rounds (n / 10) (omega (arith, pow-suc 10 rounds)) (omega arith),
          atoi-one (n / 10) (b'0' + n % 10) (omega arith, omega arith),
        )
        (omega arith)
]

if_false : {A : Type 0} {b : Bool} (x : A) {y : A} → b ≡ false → (if b then x else y) ≡ y
if_false x e = rw e refl

print_uint-digits : (n : ℕ) → n ≢ 0 → print_uint n ≡ reverse (uint_digits 10 n)
unfolding print_uint
print_uint-digits n h = if_false (b'0' ∷ []) (ground arith)

print_uint-zero : k_atoi (print_uint 0) ≡ 0
unfolding print_uint k_atoi
print_uint-zero = refl

k_atoi-start : (s : List ℕ) → k_atoi s ≡ atoi_from 0 s
unfolding k_atoi
k_atoi-start s = refl

-- A number below 2 ^ 31, printed by `print_uint` in its at most ten digits, is read back by
-- `k_atoi` as the same number.
pub k_atoi-print_uint : (n : ℕ) → n < 2 ^ 31 → k_atoi (print_uint n) ≡ n
k_atoi-print_uint n h = elim (ℕ_discrete n 0) [
  | yes z ↦ rw z print_uint-zero
  | no ne ↦
      k_atoi-start (print_uint n)
      ∙ ap (atoi_from 0) (print_uint-digits n ne)
      ∙ atoi-digits 10 n (omega arith) (omega arith)
]
