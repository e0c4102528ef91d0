-- ===== src/Fat/Names/Compare.antt =====
-- What the comparison of names decides.
use master_os.Base.{ℕ, ◌≡◌, ◌≢◌, ◌↔◌, refl, sym, arith, List, [], ◌∷◌, map, All}
use master_os.Base.Int.{pos, sub_ℕ-eq-zero_iff}
use master_os.Fat.Names.{k_toupper, k_strcmp_nocase}

-- A C string holds no byte 0.
abbrev pub IsText : List ℕ → Type 0
IsText = All (λ c. c ≢ 0)

pub k_toupper-eq-zero : (c : ℕ) → k_toupper c ≡ 0 → c ≡ 0
unfolding k_toupper
k_toupper-eq-zero c h = ground arith

pub strcmp-eq_of_map :
    (a b : List ℕ)
    → IsText a
    → IsText b
    → map k_toupper a ≡ map k_toupper b
    → k_strcmp_nocase a b ≡ pos 0
unfolding k_strcmp_nocase
strcmp-eq_of_map [] [] ta tb h = ground (arith, sub_ℕ-eq-zero_iff (k_toupper 0) (k_toupper 0))
strcmp-eq_of_map [] (y ∷ b) ta tb h = cc
strcmp-eq_of_map (x ∷ a) [] ta tb h = cc
strcmp-eq_of_map (x ∷ a) (y ∷ b) ta tb h = ground (arith, strcmp-eq_of_map a b ta.1 tb.1)

pub map_of_strcmp-eq :
    (a b : List ℕ)
    → IsText a
    → IsText b
    → k_strcmp_nocase a b ≡ pos 0
    → map k_toupper a ≡ map k_toupper b
unfolding k_strcmp_nocase k_toupper
map_of_strcmp-eq [] [] ta tb h = refl
map_of_strcmp-eq [] (y ∷ b) ta tb h =
    absurd (tb.0 (k_toupper-eq-zero y (sym ((sub_ℕ-eq-zero_iff _ _).0 h))))
map_of_strcmp-eq (x ∷ a) [] ta tb h =
    absurd (ta.0 (k_toupper-eq-zero x ((sub_ℕ-eq-zero_iff _ _).0 h)))
map_of_strcmp-eq (x ∷ a) (y ∷ b) ta tb h =
    ground (arith, map_of_strcmp-eq a b ta.1 tb.1, sub_ℕ-eq-zero_iff (k_toupper x) (k_toupper y))

-- Two names compare equal exactly when they agree up to the case of ASCII letters.
pub strcmp_iff :
    (a b : List ℕ)
    → IsText a
    → IsText b
    → (k_strcmp_nocase a b ≡ pos 0) ↔ (map k_toupper a ≡ map k_toupper b)
strcmp_iff a b ta tb = (map_of_strcmp-eq a b ta tb, strcmp-eq_of_map a b ta tb)
