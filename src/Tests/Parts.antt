-- ===== src/Tests/Parts.antt =====
-- The theorems about names, memory, the screen and printed numbers at concrete inputs.
use mathlib.Core.List.{map}
use master_os.Base.{ℕ, ◌≡◌, ◌≢◌, ◌↔◌, ◌⊎◌, refl, arith, List, [], ◌∷◌, ◌++◌, All}
use master_os.Base.Int.{pos}
use master_os.Fat.Names.{k_toupper, k_strcmp_nocase, make_name, split_83}
use master_os.Fat.Names.Compare.{strcmp_iff}
use master_os.Fat.Names.RoundTrip.{IsBaseChar, IsExtChar, dotted, strcmp-stored}
use master_os.Fat.Names.LongName.{strcmp-long}
use master_os.Memory.{Frames, alloc_page_frame}
use master_os.Memory.Reuse.{after_allocs, alloc-two_frames}
use master_os.Memory.Bounds.{IsAllocated, alloc-IsAllocated}
use master_os.Screen.{Screen, print}
use master_os.Screen.Safety.{IsValid, Within, print-Safe}
use master_os.Stdio.{digits_from}
use master_os.Stdio.Digits.{value_of, digits_from-value}

abbrev hi : List ℕ
hi = b'h' ∷ b'i' ∷ []

abbrev txt : List ℕ
txt = b't' ∷ b'x' ∷ b't' ∷ []

hi-base : All IsBaseChar hi
hi-base = ground arith

txt-ext : All IsExtChar txt
txt-ext = ground arith

strcmp-stored_example :
    k_strcmp_nocase
      (make_name (split_83 (hi ++ dotted txt)).0 (split_83 (hi ++ dotted txt)).1)
      (b'H' ∷ b'i' ∷ b'.' ∷ b'T' ∷ b'x' ∷ b't' ∷ [])
    ≡ pos 0
unfolding k_toupper
strcmp-stored_example =
    strcmp-stored hi txt hi-base txt-ext (omega arith) (omega arith)
      (b'H' ∷ b'i' ∷ b'.' ∷ b'T' ∷ b'x' ∷ b't' ∷ []) (ground arith) refl

strcmp_iff_example : (k_strcmp_nocase hi txt ≡ pos 0) ↔ (map k_toupper hi ≡ map k_toupper txt)
strcmp_iff_example = strcmp_iff hi txt (ground arith) (ground arith)

-- `longnamesx` has more than eight characters.
abbrev eight : List ℕ
eight = b'l' ∷ b'o' ∷ b'n' ∷ b'g' ∷ b'n' ∷ b'a' ∷ b'm' ∷ b'e' ∷ []

eight-base : All IsBaseChar eight
eight-base = ground arith

strcmp-long_example :
    k_strcmp_nocase
      (make_name
        (split_83 (eight ++ b's' ∷ dotted txt)).0
        (split_83 (eight ++ b's' ∷ dotted txt)).1)
      (eight ++ b's' ∷ dotted txt)
    ≢ pos 0
strcmp-long_example =
    strcmp-long eight b's' (dotted txt) eight-base refl (omega arith) (ground arith)

-- A machine whose frames 8 to 15 are free.
abbrev memory : Frames
memory = record { frame_min = 8; frame_max = 16; total_alloc = 0; bitmap = λ _. 0 }

alloc-two_frames_example : (alloc_page_frame (after_allocs 2 memory)).0 ≡ 0x8000
alloc-two_frames_example = alloc-two_frames memory (omega arith) refl 2

alloc-IsAllocated_example :
    (alloc_page_frame memory ≡ (0, memory)) ⊎ IsAllocated memory (alloc_page_frame memory)
alloc-IsAllocated_example = alloc-IsAllocated memory (omega arith) (omega arith)

-- The last cell of the screen is under the cursor.
abbrev screen : Screen
screen = record { column = 79; line = 24; color = 0x0F00; width = 80; height = 25; cells = λ _. 0 }

screen-IsValid : IsValid screen
screen-IsValid = record { some_width = omega arith; line_in = omega arith; column_in = omega arith }

print-Safe_example : IsValid (print hi screen) × Within screen (print hi screen)
print-Safe_example = print-Safe hi screen screen-IsValid

digits_from-value_example : value_of 10 (digits_from 10 32 4096) ≡ 4096
digits_from-value_example =
    digits_from-value 10 32 4096 (omega arith) (omega arith) (omega arith) (omega arith)
