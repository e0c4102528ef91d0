-- ===== src/Screen/Safety.antt =====
-- The cursor stays on the screen, and nothing is written outside it.
use master_os.Base.{
  ℕ, zero, suc, ◌+◌, ◌-◌, ◌*◌, ◌%◌, ◌<◌, ◌≤◌, ◌≡◌, refl, ◌∙◌, ◌⊎◌, inl, inr, arith, Bool, true,
  false, ◌&&◌, not, Bool-cases, ltb→lt, List, [], ◌∷◌, ltb, ◌==◌, if◌then◌else◌,
}
use master_os.Screen.{
  Screen, copy_row, copy_rows, fill, scroll_up, new_line, put_cell, advance, blank, wrapped,
  tab_loop, previous_line, erase_last, print_backspace, print_char, print,
}

-- The cursor is on a line, or just past the end of one.
pub record IsValid (s : Screen) : Type 0 where
  pub some_width : 0 < s.width
  pub line_in : s.line < s.height
  pub column_in : s.column ≤ s.width

-- The size is the same, and so is every word behind the last cell.
pub record Within (s s' : Screen) : Type 0 where
  pub width : s'.width ≡ s.width
  pub height : s'.height ≡ s.height
  pub outside : (i : ℕ) → s.height * s.width ≤ i → s'.cells i ≡ s.cells i

pub copy_row-outside :
    (left from to x i : ℕ) (cells : ℕ → ℕ)
    → (i < to + x) ⊎ (to + x + left ≤ i)
    → copy_row left from to x cells i ≡ cells i
unfolding copy_row
copy_row-outside zero from to x i cells h = refl
copy_row-outside (suc left) from to x i cells h =
    copy_row-outside left from to (x + 1) i _ (omega arith) ∙ ground arith

pub fill-outside :
    (left to v i : ℕ) (cells : ℕ → ℕ)
    → (i < to) ⊎ (to + left ≤ i)
    → fill left to v cells i ≡ cells i
unfolding fill
fill-outside zero to v i cells h = refl
fill-outside (suc left) to v i cells h =
    fill-outside left (to + 1) v i _ (omega arith) ∙ ground arith

row_end :
    (width y i left : ℕ)
    → 0 < y
    → (y + suc left) * width ≤ i + width
    → (y - 1) * width + 0 + width ≤ i
row_end width zero i left p h = absurd (omega arith)
row_end width (suc y) i left p h = let e : suc y - 1 ≡ y = omega arith in rw e (omega arith)

copy_rows-outside :
    (left width y i : ℕ) (cells : ℕ → ℕ)
    → 0 < y
    → (y + left) * width ≤ i + width
    → copy_rows left width y cells i ≡ cells i
unfolding copy_rows
copy_rows-outside zero width y i cells p h = refl
copy_rows-outside (suc left) width y i cells p h =
    copy_rows-outside left width (y + 1) i _ (omega arith) (grind arith)
    ∙ copy_row-outside width (y * width) ((y - 1) * width) 0 i cells
        (inr (row_end width y i left p h))

-- The last line ends where the screen ends.
last_line :
    (width height i : ℕ) → 0 < height → height * width ≤ i → (height - 1) * width + width ≤ i
last_line width zero i p h = absurd (omega arith)
last_line width (suc n) i p h = let e : suc n - 1 ≡ n = omega arith in rw e (omega arith)

all_lines :
    (width height i : ℕ) → 0 < height → height * width ≤ i → (1 + (height - 1)) * width ≤ i + width
all_lines width height i p h = let e : 1 + (height - 1) ≡ height = omega arith in rw e (omega arith)

scroll_up-Within : (s : Screen) → IsValid s → Within s (scroll_up s)
unfolding scroll_up
scroll_up-Within s v = record {
  width = refl;
  height = refl;
  outside = λ i h.
      fill-outside s.width ((s.height - 1) * s.width) (blank s) i _
        (inr (last_line s.width s.height i (omega arith) h))
      ∙ copy_rows-outside (s.height - 1) s.width 1 i s.cells (omega arith)
          (all_lines s.width s.height i (omega arith) h);
}

-- A cell of the screen.
cell_in :
    (line column width height : ℕ)
    → line < height
    → column < width
    → line * width + column < height * width
cell_in l c w h p q = grind arith

put_cell-Within :
    (v : ℕ) (s : Screen) → s.line < s.height → s.column < s.width → Within s (put_cell v s)
put_cell-Within v s p q = record {
  width = refl;
  height = refl;
  outside = λ i h. ground (arith, cell_in s.line s.column s.width s.height p q);
}

Within-trans : {s t u : Screen} → Within s t → Within t u → Within s u
Within-trans p q = record {
  width = q.width ∙ p.width;
  height = q.height ∙ p.height;
  outside = λ i h. q.outside i (rw (p.height, p.width) h) ∙ p.outside i h;
}

Within-refl : (s : Screen) → Within s s
Within-refl s = record { width = refl; height = refl; outside = λ i h. refl }

-- What each part of `print` guarantees.
abbrev Safe : Screen → Screen → Type 0
Safe s s' = IsValid s' × Within s s'

new_line-Safe : (s : Screen) → IsValid s → Safe s (new_line s)
unfolding new_line scroll_up
new_line-Safe s v = elim (Bool-cases (ltb s.line (s.height - 1))) [
  | inl e ↦ simp e (
    record { some_width = v.some_width; line_in = ground arith; column_in = omega arith },
    record { width = refl; height = refl; outside = λ i h. refl },
  )
  | inr e ↦ simp e (
    record { some_width = v.some_width; line_in = v.line_in; column_in = omega arith },
    record { width = refl; height = refl; outside = (scroll_up-Within s v).outside },
  )
]

column-new_line : (s : Screen) → (new_line s).column ≡ 0
unfolding new_line
column-new_line s = ground arith

-- After a wrap there is room in the line.
wrapped-Safe :
    (s : Screen) → IsValid s → Safe s (wrapped s) × ((wrapped s).column < (wrapped s).width)
unfolding wrapped
wrapped-Safe s v = elim (Bool-cases (ltb s.column s.width)) [
  | inl e ↦ simp e ((v, Within-refl s), ground arith)
  | inr e ↦
      simp e (new_line-Safe s v, omega (arith, column-new_line s, (new_line-Safe s v).0.some_width))
]

put_advance-Safe :
    (c : ℕ) (s : Screen) → IsValid s → s.column < s.width → Safe s (advance (put_cell c s))
put_advance-Safe c s v lt = (
  record { some_width = v.some_width; line_in = v.line_in; column_in = omega arith },
  record { width = refl; height = refl; outside = (put_cell-Within c s v.line_in lt).outside },
)

Safe-trans : {s t u : Screen} → Safe s t → Safe t u → Safe s u
Safe-trans p q = (q.0, Within-trans p.1 q.1)

tab_loop-Safe : (left : ℕ) (s : Screen) → IsValid s → Safe s (tab_loop left s)
unfolding tab_loop
tab_loop-Safe zero s v = (v, Within-refl s)
tab_loop-Safe (suc left) s v = elim (Bool-cases (ltb s.column s.width)) [
  | inl e ↦
      let one : Safe s (advance (put_cell (blank s) s)) =
        put_advance-Safe (blank s) s v (ltb→lt s.column s.width e) in
      simp e (Safe-trans one (tab_loop-Safe left (advance (put_cell (blank s) s)) one.0))
  | inr e ↦ simp e (v, Within-refl s)
]

previous_line-Safe : (s : Screen) → IsValid s → Safe s (previous_line s)
unfolding previous_line
previous_line-Safe s v = elim (Bool-cases (s.column == 0 && not (s.line == 0))) [
  | inl e ↦ simp e (
    record { some_width = v.some_width; line_in = omega arith; column_in = omega arith },
    record { width = refl; height = refl; outside = λ i h. refl },
  )
  | inr e ↦ simp e (v, Within-refl s)
]

erase_last-Safe : (s : Screen) → IsValid s → Safe s (erase_last s)
unfolding erase_last
erase_last-Safe s v = elim (Bool-cases (ltb 0 s.column)) [
  | inl e ↦
      let at : Screen = record s { column = s.column - 1 } in
      let room : s.column - 1 < s.width = ground arith in
      simp e (
        record { some_width = v.some_width; line_in = v.line_in; column_in = omega arith },
        record {
          width = refl;
          height = refl;
          outside = (put_cell-Within (blank s) at v.line_in room).outside;
        },
      )
  | inr e ↦ simp e (v, Within-refl s)
]

print_backspace-Safe : (s : Screen) → IsValid s → Safe s (print_backspace s)
unfolding print_backspace
print_backspace-Safe s v =
    let back : Safe s (previous_line s) = previous_line-Safe s v in
    Safe-trans back (erase_last-Safe (previous_line s) back.0)

Safe-if : {s t u : Screen} (b : Bool) → Safe s t → Safe s u → Safe s (if b then t else u)
Safe-if true p q = p
Safe-if false p q = q

return-Safe : (s : Screen) → IsValid s → Safe s (record s { column = 0 })
return-Safe s v = (
  record { some_width = v.some_width; line_in = v.line_in; column_in = omega arith },
  record { width = refl; height = refl; outside = λ i h. refl },
)

print_char-Safe : (c : ℕ) (s : Screen) → IsValid s → Safe s (print_char c s)
unfolding print_char
print_char-Safe c s v = Safe-if (c == 0x0A) (new_line-Safe s v) (
    Safe-if (c == 0x0D) (return-Safe s v) (
      Safe-if (c == 0x08) (print_backspace-Safe s v) (
        Safe-if (c == 0x09)
          (Safe-trans w.0 (tab_loop-Safe (4 - (wrapped s).column % 4) (wrapped s) w.0.0))
          (Safe-trans w.0 (put_advance-Safe _ (wrapped s) w.0.0 w.1)))))
  where
    w : Safe s (wrapped s) × ((wrapped s).column < (wrapped s).width)
    w = wrapped-Safe s v

-- Whatever text is printed, the cursor stays on the screen, the size of the screen stays the
-- same, and no word of memory outside the cells of the screen is written.
pub print-Safe :
    (text : List ℕ) (s : Screen) → IsValid s → IsValid (print text s) × Within s (print text s)
unfolding print
print-Safe [] s v = (v, Within-refl s)
print-Safe (c ∷ text) s v = elim (Bool-cases (c == 0)) [
  | inl e ↦ simp e (v, Within-refl s)
  | inr e ↦
      let one : Safe s (print_char c s) = print_char-Safe c s v in
      simp e (Safe-trans one (print-Safe text (print_char c s) one.0))
]
