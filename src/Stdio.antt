-- ===== src/Stdio.antt =====
-- stdlib/stdio.c: printf, printf_number and printHex, and shell.c: print_uint. The output is the
-- list of the characters that are handed to `putc` or `print`, in order; an argument of `printf` is a 32-bit
-- word of its stack frame, `get_or args i 0` the word `i` places behind `fmt`.
pub mod Digits
pub mod Decimal
use master_os.Base.{
  ℕ, zero, suc, ◌+◌, ◌-◌, ◌*◌, ◌/◌, ◌%◌, ◌^◌, Bool, true, false, ◌&&◌, ◌||◌, List, [], ◌∷◌, ◌++◌,
  ltb, leb, ◌==◌, if◌then◌else◌, get_or, bit_and, sub32, u32, ◌>>>◌,
}
use mathlib.Core.List.{reverse}

pub data Length : Type 0 where
  start short_short short long long_long : Length

-- `possibleChars[rem]`
unfoldable pub possible_char : ℕ → ℕ
possible_char rem = if ltb rem 10 then b'0' + rem else b'a' + (rem - 10)

-- The do-while loop that fills `buffer`, the lowest digit first. A 32-bit number has at most 32
-- digits, so 32 rounds are given.
unfoldable pub digits_from : (radix rounds number : ℕ) → List ℕ
unfolding possible_char
digits_from radix zero number = []
digits_from radix (suc rounds) number =
    let rest = digits_from radix rounds (number / radix) in
    possible_char (number % radix) ∷ (if number / radix == 0 then [] else rest)

-- The sign and the magnitude of the argument: a negative `int` is negated.
abbrev pub is_negative : (sign : Bool) → Length → (low high : ℕ) → Bool
is_negative sign long_long low high = sign && leb (2 ^ 31) high
is_negative sign length low high = sign && leb (2 ^ 31) low

abbrev pub magnitude : (sign : Bool) → Length → (low high : ℕ) → ℕ
magnitude sign length low high = if is_negative sign length low high then sub32 0 low else low

-- What `printf_number` prints.
unfoldable pub number_text : (sign : Bool) → Length → (radix low high : ℕ) → List ℕ
unfolding digits_from
number_text sign length radix low high =
    let digits = digits_from radix 32 (magnitude sign length low high) in
    reverse (if is_negative sign length low high then digits ++ b'-' ∷ [] else digits)

-- How many words it steps over.
unfoldable pub words_taken : Length → ℕ
words_taken long = 2
words_taken long_long = 4
words_taken _ = 1

-- `printHex`: eight digits, the highest first.
unfoldable pub hex_digits : (left number : ℕ) → List ℕ
hex_digits zero number = []
hex_digits (suc left) number =
    hex_digits left (number >>> 4)
    ++ (let d = bit_and number 0xF in if ltb d 10 then b'0' + d else b'A' + (d - 10)) ∷ []

unfoldable pub print_hex : ℕ → List ℕ
unfolding hex_digits
print_hex number = b'0' ∷ b'x' ∷ hex_digits 8 number

pub data State : Type 0 where
  text : State
  length_of short_of long_of spec : State

-- The words of a `%s` argument.
unfoldable pub string_words : Length → ℕ
string_words long = 2
string_words long_long = 2
string_words _ = 1

-- The local variables of `printf`.
pub record Locals : Type 0 where
  pub state : State
  pub length : Length
  pub argp : ℕ

-- The string that a `%s` argument points to is a parameter, `strings`.
module _ (strings : ℕ → List ℕ) (args : List ℕ) where
  abbrev pub word : ℕ → ℕ
  word i = get_or args i 0

  abbrev pub number : (sign : Bool) (radix : ℕ) → Length → ℕ → List ℕ × ℕ
  number sign radix length argp =
      (number_text sign length radix (word argp) (word (argp + 1)), words_taken length)

  -- The conversion at a character: what it prints, and how many words it takes.
  unfoldable pub convert : Length → (argp c : ℕ) → List ℕ × ℕ
  unfolding number_text words_taken string_words
  convert length argp c =
      if c == b'c'
      then (word argp % 256 ∷ [], 1)
      else if c == b's'
      then (strings (word argp), string_words length)
      else if c == b'%'
      then (b'%' ∷ [], 0)
      else if c == b'd' || c == b'i'
      then number true 10 length argp
      else if c == b'u'
      then number false 10 length argp
      else if c == b'X' || c == b'x' || c == b'p'
      then number false 16 length argp
      else if c == b'o'
      then number false 8 length argp
      else ([], 0)

  -- `PRINTF_STATE_SPEC_`, and the reset behind it.
  abbrev pub spec_step : Locals → ℕ → List ℕ × Locals
  spec_step l c = (
    (convert l.length l.argp c).0,
    record { state = text; length = start; argp = l.argp + (convert l.length l.argp c).1 },
  )

  -- One character of the format, by the state.
  unfoldable pub printf_step : State → Locals → ℕ → List ℕ × Locals
  unfolding convert
  printf_step text l c = if c == b'%' then ([], record l { state = length_of }) else (c ∷ [], l)
  printf_step length_of l c =
      if c == b'h'
      then ([], record l { state = short_of; length = short })
      else if c == b'l'
      then ([], record l { state = long_of; length = long })
      else spec_step l c
  printf_step short_of l c =
      if c == b'h' then ([], record l { state = spec; length = short_short }) else spec_step l c
  printf_step long_of l c =
      if c == b'l' then ([], record l { state = spec; length = long_long }) else spec_step l c
  printf_step spec l c = spec_step l c

  unfoldable pub printf_from : Locals → List ℕ → List ℕ
  unfolding printf_step
  printf_from l [] = []
  printf_from l (c ∷ fmt) = let (out, l') = printf_step l.state l c in out ++ printf_from l' fmt

  unfoldable pub printf : List ℕ → List ℕ
  unfolding printf_from
  printf fmt = printf_from (record { state = text; length = start; argp = 0 }) fmt

-- shell.c: `print_uint`, whose buffer is printed from its end.
unfoldable pub uint_digits : (rounds n : ℕ) → List ℕ
uint_digits zero n = []
uint_digits (suc rounds) n =
    let rest = uint_digits rounds (n / 10) in if n == 0 then [] else (b'0' + n % 10) ∷ rest

unfoldable pub print_uint : ℕ → List ℕ
unfolding uint_digits
print_uint n = if n == 0 then b'0' ∷ [] else reverse (uint_digits 10 n)

-- shell.c: `k_atoi`, in 32-bit arithmetic.
unfoldable pub atoi_from : ℕ → List ℕ → ℕ
atoi_from result [] = result
atoi_from result (c ∷ s) =
    let rest = atoi_from (u32 (result * 10 + (c - b'0'))) s in
    if leb b'0' c && leb c b'9' then rest else result

unfoldable pub k_atoi : List ℕ → ℕ
unfolding atoi_from
k_atoi s = atoi_from 0 s
