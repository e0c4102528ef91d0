-- ===== src/Fat/Names/LongName.antt =====
-- A name with more than eight characters before its dot loses the rest, its extension included.
use master_os.Base.{ℕ, zero, suc, ◌≡◌, ◌≢◌, refl, arith, List, [], ◌∷◌, ◌++◌, map, length, All}
use mathlib.Core.List.{append-nil}
use master_os.Base.Int.{pos}
use master_os.Fat.Names.{
  k_toupper, k_strcmp_nocase, make_name, blanks, split_name, ext_after, split_83,
}
use master_os.Fat.Names.Compare.{IsText, k_toupper-eq-zero, map_of_strcmp-eq}
use master_os.Fat.Names.RoundTrip.{IsBaseChar, until_space-blanks, base-not-space}

split_name-full :
    (left : ℕ) (base : List ℕ) (c : ℕ) (s : List ℕ)
    → All IsBaseChar base
    → length base ≡ left
    → split_name left (base ++ c ∷ s) ≡ (map k_toupper base, c ∷ s)
unfolding split_name
split_name-full zero [] c s h e = refl
split_name-full zero (x ∷ base) c s h e = absurd (omega arith)
split_name-full (suc left) [] c s h e = absurd (omega arith)
split_name-full (suc left) (x ∷ base) c s h e = ground (arith, split_name-full left base c s h.1)

ext_after-ne : (c : ℕ) (s : List ℕ) → c ≢ b'.' → ext_after (c ∷ s) ≡ blanks 3
unfolding ext_after
ext_after-ne c s h = ground arith

made_long :
    (base : List ℕ)
    → All IsBaseChar base
    → make_name (map k_toupper base) (blanks 3) ≡ map k_toupper base
unfolding make_name
made_long base h =
    rw append-nil (rw append-nil at (until_space-blanks base 0 (base-not-space base h)))

-- A name whose ninth character is no dot is stored as its first eight characters alone.
pub make_name-long :
    (base : List ℕ) (c : ℕ) (s : List ℕ)
    → All IsBaseChar base
    → length base ≡ 8
    → c ≢ b'.'
    → make_name (split_83 (base ++ c ∷ s)).0 (split_83 (base ++ c ∷ s)).1 ≡ map k_toupper base
unfolding split_83
make_name-long base c s hb e ne =
    rw (split_name-full 8 base c s hb e, ext_after-ne c s ne) (made_long base hb)

text : (s : List ℕ) → All IsBaseChar s → IsText (map k_toupper s)
text [] h = tt
text (c ∷ s) h = (λ e. h.0.0 (k_toupper-eq-zero c e), text s h.1)

longer :
    (base : List ℕ) (c : ℕ) (s : List ℕ)
    → map k_toupper (map k_toupper base) ≢ map k_toupper (base ++ c ∷ s)
longer [] c s e = cc
longer (x ∷ base) c s e = longer base c s (cc)

-- So a file written under such a name is not found under it: every look-up's comparison fails.
pub strcmp-long :
    (base : List ℕ) (c : ℕ) (s : List ℕ)
    → All IsBaseChar base
    → length base ≡ 8
    → c ≢ b'.'
    → IsText (base ++ c ∷ s)
    → k_strcmp_nocase
        (make_name (split_83 (base ++ c ∷ s)).0 (split_83 (base ++ c ∷ s)).1)
        (base ++ c ∷ s)
      ≢ pos 0
strcmp-long base c s hb e ne t found = longer base c s (
    map_of_strcmp-eq _ (base ++ c ∷ s) (text base hb) t
      (rw (make_name-long base c s hb e ne) at found))
