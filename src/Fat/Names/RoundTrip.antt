-- ===== src/Fat/Names/RoundTrip.antt =====
-- `make_name` undoes `split_83`.
use master_os.Base.{
  ℕ, zero, suc, ◌+◌, ◌-◌, ◌≤◌, ◌≡◌, ◌≢◌, refl, sym, ◌∙◌, arith, true, false, List, [], ◌∷◌, ◌++◌,
  map, length, All,
}
use mathlib.Core.Path.{ap₂}
use mathlib.Core.List.{append-nil, map-append}
use master_os.Base.Int.{pos}
use master_os.Fat.Names.{
  k_toupper, k_strcmp_nocase, until_space, any_not_space, make_name, blanks, split_name, split_ext,
  ext_after, split_83,
}
use master_os.Fat.Names.Compare.{IsText, k_toupper-eq-zero, strcmp_iff}

-- A character of the base and of the extension of a short name.
abbrev pub IsBaseChar : ℕ → Type 0
IsBaseChar c = (c ≢ 0) × (c ≢ b'.') × (c ≢ b' ')

abbrev pub IsExtChar : ℕ → Type 0
IsExtChar c = (c ≢ 0) × (c ≢ b' ')

-- The extension with its dot, or nothing.
abbrev pub dotted : List ℕ → List ℕ
dotted [] = []
dotted (c ∷ s) = b'.' ∷ c ∷ s

pub k_toupper-ne : (c : ℕ) → c ≢ b' ' → k_toupper c ≢ b' '
unfolding k_toupper
k_toupper-ne c h = ground arith

pub split_name-dotted :
    (left : ℕ) (base ext : List ℕ) (n : ℕ)
    → All IsBaseChar base
    → length base + n ≡ left
    → split_name left (base ++ dotted ext) ≡ (map k_toupper base ++ blanks n, dotted ext)
unfolding split_name
split_name-dotted zero [] ext zero h e = refl
split_name-dotted zero [] ext (suc n) h e = absurd (omega arith)
split_name-dotted zero (c ∷ base) ext n h e = absurd (omega arith)
split_name-dotted (suc left) [] [] n h e = let e' : n ≡ suc left = omega arith in rw e'
split_name-dotted (suc left) [] (x ∷ ext) n h e = let e' : n ≡ suc left = omega arith in rw e'
split_name-dotted (suc left) (c ∷ base) ext n h e =
    ground (arith, split_name-dotted left base ext n h.1)

split_ext-ext :
    (left : ℕ) (ext : List ℕ) (n : ℕ)
    → All IsExtChar ext
    → length ext + n ≡ left
    → split_ext left ext ≡ map k_toupper ext ++ blanks n
unfolding split_ext
split_ext-ext zero [] zero h e = refl
split_ext-ext zero [] (suc n) h e = absurd (omega arith)
split_ext-ext zero (c ∷ ext) n h e = absurd (omega arith)
split_ext-ext (suc left) [] n h e = let e' : n ≡ suc left = omega arith in rw e'
split_ext-ext (suc left) (c ∷ ext) n h e = ground (arith, split_ext-ext left ext n h.1)

ext_after-dotted :
    (ext : List ℕ) (n : ℕ)
    → All IsExtChar ext
    → length ext + n ≡ 3
    → ext_after (dotted ext) ≡ map k_toupper ext ++ blanks n
unfolding ext_after
ext_after-dotted [] n h e = let e' : n ≡ 3 = omega arith in rw e'
ext_after-dotted (c ∷ s) n h e = split_ext-ext 3 (c ∷ s) n h e

pub until_space-blanks :
    (s : List ℕ) (n : ℕ)
    → All (λ c. c ≢ b' ') s
    → until_space (map k_toupper s ++ blanks n) ≡ map k_toupper s
unfolding until_space
until_space-blanks [] zero h = refl
until_space-blanks [] (suc n) h = refl
until_space-blanks (c ∷ s) n h = ground (arith, k_toupper-ne c, until_space-blanks s n h.1)

pub any_not_space-blanks : (n : ℕ) → any_not_space (blanks n) ≡ false
unfolding any_not_space
any_not_space-blanks zero = refl
any_not_space-blanks (suc n) = any_not_space-blanks n

any_not_space-cons :
    (c : ℕ) (s t : List ℕ) → IsExtChar c → any_not_space (map k_toupper (c ∷ s) ++ t) ≡ true
unfolding any_not_space
any_not_space-cons c s t h = ground (arith, k_toupper-ne c)

pub base-not-space : (s : List ℕ) → All IsBaseChar s → All (λ c. c ≢ b' ') s
base-not-space [] h = tt
base-not-space (c ∷ s) h = (h.0.2, base-not-space s h.1)

ext-not-space : (s : List ℕ) → All IsExtChar s → All (λ c. c ≢ b' ') s
ext-not-space [] h = tt
ext-not-space (c ∷ s) h = (h.0.1, ext-not-space s h.1)

k_toupper-dot : k_toupper b'.' ≡ b'.'
unfolding k_toupper
k_toupper-dot = refl

make_name-padded :
    (base ext : List ℕ) (n m : ℕ)
    → All IsBaseChar base
    → All IsExtChar ext
    → make_name (map k_toupper base ++ blanks n) (map k_toupper ext ++ blanks m)
      ≡ map k_toupper (base ++ dotted ext)
unfolding make_name
make_name-padded base [] n m hb he = rw (
  until_space-blanks base n (base-not-space base hb),
  any_not_space-blanks m,
  append-nil,
  append-nil,
)
make_name-padded base (c ∷ s) n m hb he = rw (
  until_space-blanks base n (base-not-space base hb),
  any_not_space-cons c s (blanks m) he.0,
  until_space-blanks (c ∷ s) m (ext-not-space (c ∷ s) he),
  map-append,
  k_toupper-dot,
)

-- The directory bytes of a name `base.ext` of at most 8 and 3 characters, without blanks, and
-- with no dot in the base, print as the same name in upper case.
pub make_name-split_83 :
    (base ext : List ℕ)
    → All IsBaseChar base
    → All IsExtChar ext
    → length base ≤ 8
    → length ext ≤ 3
    → make_name (split_83 (base ++ dotted ext)).0 (split_83 (base ++ dotted ext)).1
      ≡ map k_toupper (base ++ dotted ext)
unfolding split_83
make_name-split_83 base ext hb he lb le =
    rw
      (
        split_name-dotted 8 base ext (8 - length base) hb (omega arith),
        ext_after-dotted ext (3 - length ext) he (omega arith),
      )
      (make_name-padded base ext (8 - length base) (3 - length ext) hb he)

toupper_toupper : (c : ℕ) → k_toupper (k_toupper c) ≡ k_toupper c
unfolding k_toupper
toupper_toupper c = ground arith

map_toupper_twice : (s : List ℕ) → map k_toupper (map k_toupper s) ≡ map k_toupper s
map_toupper_twice [] = refl
map_toupper_twice (c ∷ s) = ap₂ ◌∷◌ (toupper_toupper c) (map_toupper_twice s)

IsText-map : (s : List ℕ) → IsText s → IsText (map k_toupper s)
IsText-map [] h = tt
IsText-map (c ∷ s) h = (λ e. h.0 (k_toupper-eq-zero c e), IsText-map s h.1)

ext-IsText : (s : List ℕ) → All IsExtChar s → IsText s
ext-IsText [] h = tt
ext-IsText (c ∷ s) h = (h.0.0, ext-IsText s h.1)

pub IsText-short :
    (base ext : List ℕ) → All IsBaseChar base → All IsExtChar ext → IsText (base ++ dotted ext)
IsText-short [] [] hb he = tt
IsText-short [] (c ∷ s) hb he = (omega arith, (he.0.0, ext-IsText s he.1))
IsText-short (c ∷ base) ext hb he = (hb.0.0, IsText-short base ext hb.1 he)

-- A file that is stored under a name `base.ext` as above is found under that name, whatever
-- its case: the comparison that every look-up makes gives 0.
pub strcmp-stored :
    (base ext : List ℕ)
    → All IsBaseChar base
    → All IsExtChar ext
    → length base ≤ 8
    → length ext ≤ 3
    → (wanted : List ℕ) → IsText wanted
    → map k_toupper wanted ≡ map k_toupper (base ++ dotted ext)
    → k_strcmp_nocase
        (make_name (split_83 (base ++ dotted ext)).0 (split_83 (base ++ dotted ext)).1)
        wanted
      ≡ pos 0
strcmp-stored base ext hb he lb le wanted tw e = rw (make_name-split_83 base ext hb he lb le) (
    (strcmp_iff _ wanted (IsText-map _ (IsText-short base ext hb he)) tw).1
      (map_toupper_twice (base ++ dotted ext) ∙ sym e))
