-- ===== src/Shell/Words.antt =====
-- The string helpers of shell.c: k_arg, k_first_word and k_strcmp.
use master_os.Base.{
  ℕ, zero, suc, ◌+◌, Option, none, some, List, [], ◌∷◌, ◌==◌, if◌then◌else◌, Bytes,
}
use master_os.Base.Int.{ℤ, sub_ℕ}

-- What follows a blank, if it is not empty.
abbrev pub non_empty : List ℕ → Option (List ℕ)
non_empty [] = none
non_empty (c ∷ s) = some (c ∷ s)

unfoldable pub k_arg : List ℕ → Option (List ℕ)
k_arg [] = none
k_arg (c ∷ s) = if c == b' ' then non_empty s else k_arg s

-- `n` is the room that is left in `dst`, with its final 0.
unfoldable pub k_first_word : List ℕ → (n : ℕ) → List ℕ
k_first_word s zero = []
k_first_word s (suc zero) = []
k_first_word [] (suc (suc n)) = []
k_first_word (c ∷ s) (suc (suc n)) =
    let rest = k_first_word s (suc n) in if c == b' ' then [] else c ∷ rest

unfoldable pub k_strcmp : List ℕ → List ℕ → ℤ
k_strcmp [] [] = sub_ℕ 0 0
k_strcmp [] (d ∷ t) = sub_ℕ 0 d
k_strcmp (c ∷ s) [] = sub_ℕ c 0
k_strcmp (c ∷ s) (d ∷ t) = if c == d then k_strcmp s t else sub_ℕ c d

-- The string in a buffer from index `i` on, of at most `left` bytes.
unfoldable pub c_string : Bytes → (left i : ℕ) → List ℕ
c_string buf zero i = []
c_string buf (suc left) i =
    let rest = c_string buf left (i + 1) in if buf i == 0 then [] else buf i ∷ rest
