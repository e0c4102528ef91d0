-- ===== src/Base/Words.antt =====
-- Machine words as native numbers, and arrays of bytes as functions of the index.
use Prim.Native.Nat.{ℕ, zero, suc, ◌+◌, ◌-◌, ◌*◌, ◌/◌, ◌%◌, ◌^◌, ◌<◌, ◌≤◌}
use mathlib.Core.Path.{◌≡◌, refl, ap, ap₂}
use native.Mathlib.Omega.{arith}
use master_os.Base.Lists.{length, take}
use mathlib.Core.List.{List, [], ◌∷◌, ◌++◌}
use master_os.Base.Tests.{◌==◌, if◌then◌else◌}

abbrev pub u8 : ℕ → ℕ
u8 n = n % 2 ^ 8

abbrev pub u16 : ℕ → ℕ
u16 n = n % 2 ^ 16

abbrev pub u32 : ℕ → ℕ
u32 n = n % 2 ^ 32

infixl 75 ◌<<<◌ ◌>>>◌
abbrev pub ◌<<<◌ : ℕ → ℕ → ℕ
x <<< k = x * 2 ^ k

abbrev pub ◌>>>◌ : ℕ → ℕ → ℕ
x >>> k = x / 2 ^ k

-- `uint32_t` sums, differences and products.
abbrev pub add32 : ℕ → ℕ → ℕ
add32 a b = u32 (a + b)

abbrev pub sub32 : ℕ → ℕ → ℕ
sub32 a b = u32 (a + 2 ^ 32 - b)

abbrev pub mul32 : ℕ → ℕ → ℕ
mul32 a b = u32 (a * b)

-- The bytes of an array, by their index from its start.
abbrev pub Bytes : Type 0
Bytes = ℕ → ℕ

abbrev pub IsBytes : Bytes → Type 0
IsBytes buf = (i : ℕ) → buf i < 256

-- `buf[i] = v`
abbrev pub put : Bytes → ℕ → ℕ → Bytes
put buf i v j = if j == i then v else buf j

-- `n` bytes from index `at`, as a list.
unfoldable pub bytes_at : Bytes → ℕ → ℕ → List ℕ
bytes_at buf at zero = []
bytes_at buf at (suc n) = buf at ∷ bytes_at buf (at + 1) n

abbrev pub put_bytes : Bytes → ℕ → List ℕ → Bytes
put_bytes buf at [] = buf
put_bytes buf at (x ∷ xs) = put_bytes (put buf at x) (at + 1) xs

-- The little-endian 16 and 32 bit fields of a packed structure.
abbrev pub get16 : Bytes → ℕ → ℕ
get16 buf at = buf at + buf (at + 1) * 256

abbrev pub get32 : Bytes → ℕ → ℕ
get32 buf at = get16 buf at + get16 buf (at + 2) * 2 ^ 16

abbrev pub put16 : Bytes → ℕ → ℕ → Bytes
put16 buf at v = put (put buf at (v % 256)) (at + 1) (v / 256 % 256)

abbrev pub put32 : Bytes → ℕ → ℕ → Bytes
put32 buf at v = put16 (put16 buf at (v % 2 ^ 16)) (at + 2) (v / 2 ^ 16 % 2 ^ 16)

pub length-bytes_at : (buf : Bytes) (at n : ℕ) → length (bytes_at buf at n) ≡ n
unfolding bytes_at
length-bytes_at buf at zero = refl
length-bytes_at buf at (suc n) = ap suc (length-bytes_at buf (at + 1) n)

pub take-bytes_at :
    (buf : Bytes) (at n m : ℕ) → n ≤ m → take n (bytes_at buf at m) ≡ bytes_at buf at n
unfolding bytes_at
take-bytes_at buf at zero m h = refl
take-bytes_at buf at (suc n) zero h = absurd (omega arith)
take-bytes_at buf at (suc n) (suc m) h =
    ap (buf at ∷◌) (take-bytes_at buf (at + 1) n m (omega arith))

pub bytes_at-append :
    (buf : Bytes) (at n m : ℕ)
    → bytes_at buf at n ++ bytes_at buf (at + n) m ≡ bytes_at buf at (n + m)
unfolding bytes_at
bytes_at-append buf at zero m =
    let here : at + 0 ≡ at = omega arith in let all : 0 + m ≡ m = omega arith in rw (here, all)
bytes_at-append buf at (suc n) m =
    let next : at + suc n ≡ at + 1 + n = omega arith in
    let more : suc n + m ≡ suc (n + m) = omega arith in
    rw (next, more) (ap (buf at ∷◌) (bytes_at-append buf (at + 1) n m))

pub bytes_at_cong :
    (a b : Bytes) (i j n : ℕ)
    → ((k : ℕ) → k < n → a (i + k) ≡ b (j + k))
    → bytes_at a i n ≡ bytes_at b j n
unfolding bytes_at
bytes_at_cong a b i j zero h = refl
bytes_at_cong a b i j (suc n) h = ap₂ ◌∷◌ first (bytes_at_cong a b (i + 1) (j + 1) n later)
  where
    first : a i ≡ b j
    first =
        let left : i + 0 ≡ i = omega arith in
        let right : j + 0 ≡ j = omega arith in rw (left, right) at (h 0 (omega arith))

    later : (k : ℕ) → k < n → a (i + 1 + k) ≡ b (j + 1 + k)
    later k lt =
        let left : i + 1 + k ≡ i + (1 + k) = omega arith in
        let right : j + 1 + k ≡ j + (1 + k) = omega arith in
        rw (left, right) (h (1 + k) (omega arith))
