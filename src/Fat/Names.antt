-- ===== src/Fat/Names.antt =====
-- File names: the eight and three padded bytes of a directory entry, and the string that a user
-- types (drivers/fs/fat.c: k_toupper, k_strcmp_nocase, make_name, split_83). A C string is the
-- list of its bytes; the end of the list and a byte 0 are its terminator.
pub mod Lengths
pub mod Compare
pub mod LongName
pub mod RoundTrip
use master_os.Base.{
  ℕ, zero, suc, ◌-◌, Bool, true, false, ◌&&◌, ◌||◌, not, List, [], ◌∷◌, ◌++◌, ltb, leb, ◌==◌,
  if◌then◌else◌, replicate,
}
use master_os.Base.Int.{ℤ, pos, sub_ℕ}

unfoldable pub k_toupper : ℕ → ℕ
k_toupper c = if leb b'a' c && leb c b'z' then c - 32 else c

-- The loop runs while neither string has ended and the characters agree.
unfoldable pub k_strcmp_nocase : List ℕ → List ℕ → ℤ
k_strcmp_nocase [] [] = sub_ℕ (k_toupper 0) (k_toupper 0)
k_strcmp_nocase [] (y ∷ b) = sub_ℕ (k_toupper 0) (k_toupper y)
k_strcmp_nocase (x ∷ a) [] = sub_ℕ (k_toupper x) (k_toupper 0)
k_strcmp_nocase (x ∷ a) (y ∷ b) =
    if not (x == 0) && not (y == 0) && k_toupper x == k_toupper y
    then k_strcmp_nocase a b
    else sub_ℕ (k_toupper x) (k_toupper y)

-- The bytes of a field before its padding.
unfoldable pub until_space : List ℕ → List ℕ
until_space [] = []
until_space (c ∷ s) = if c == b' ' then [] else c ∷ until_space s

unfoldable pub any_not_space : List ℕ → Bool
any_not_space [] = false
any_not_space (c ∷ s) = not (c == b' ') || any_not_space s

unfoldable pub make_name : List ℕ → List ℕ → List ℕ
unfolding until_space any_not_space
make_name raw_name raw_ext =
    until_space raw_name ++ (if any_not_space raw_ext then b'.' ∷ until_space raw_ext else [])

abbrev pub blanks : ℕ → List ℕ
blanks n = replicate n b' '

-- The loop that fills `out_name`, with `left` places to go: the field, and where it stopped.
unfoldable pub split_name : ℕ → List ℕ → List ℕ × List ℕ
split_name zero s = ([], s)
split_name (suc left) [] = (blanks (suc left), [])
split_name (suc left) (c ∷ s) =
    let (field, rest) = split_name left s in
    if c == 0 || c == b'.' then (blanks (suc left), c ∷ s) else (k_toupper c ∷ field, rest)

-- The loop that fills `out_ext`.
unfoldable pub split_ext : ℕ → List ℕ → List ℕ
split_ext zero s = []
split_ext (suc left) [] = blanks (suc left)
split_ext (suc left) (c ∷ s) = if c == 0 then blanks (suc left) else k_toupper c ∷ split_ext left s

unfoldable pub ext_after : List ℕ → List ℕ
unfolding split_ext
ext_after [] = blanks 3
ext_after (c ∷ s) = if c == b'.' then split_ext 3 s else blanks 3

unfoldable pub split_83 : List ℕ → List ℕ × List ℕ
unfolding split_name ext_after
split_83 name = let (field, rest) = split_name 8 name in (field, ext_after rest)
