-- ===== src/Screen/Scroll.antt =====
-- What scrolling leaves on the screen: each line is the one below it, and the last is blank.
use native.Mathlib.Decide.{ℕ_discrete}
use native.Mathlib.Nat.{mul-le-mul_right}
use master_os.Base.{
  ℕ, zero, suc, ◌+◌, ◌-◌, ◌*◌, ◌<◌, ◌≤◌, ◌≡◌, refl, ◌∙◌, inl, inr, arith, ltb, if◌then◌else◌, put,
}
use master_os.Screen.{Screen, blank, copy_row, copy_rows, fill, scroll_up}
use master_os.Screen.Safety.{copy_row-outside, fill-outside}

-- A row that is copied to a place in front of it.
copy_row-inside :
    (left from to x t : ℕ) (cells : ℕ → ℕ)
    → to + (x + left) ≤ from
    → x ≤ t
    → t < x + left
    → copy_row left from to x cells (to + t) ≡ cells (from + t)
unfolding copy_row
copy_row-inside zero from to x t cells apart lo hi = absurd (omega arith)
copy_row-inside (suc left) from to x t cells apart lo hi = elim (ℕ_discrete x t) [
  | yes e ↦ rw (← e) (
      copy_row-outside left from to (x + 1) (to + x) (put cells (to + x) (cells (from + x)))
        (inl (omega arith))
      ∙ ground arith)
  | no ne ↦
      copy_row-inside left from to (x + 1) t (put cells (to + x) (cells (from + x))) (omega arith)
        (omega arith) (omega arith)
      ∙ ground arith
]

fill-inside :
    (left to v i : ℕ) (cells : ℕ → ℕ) → to ≤ i → i < to + left → fill left to v cells i ≡ v
unfolding fill
fill-inside zero to v i cells lo hi = absurd (omega arith)
fill-inside (suc left) to v i cells lo hi = elim (ℕ_discrete to i) [
  | yes e ↦
      rw (← e) (fill-outside left (to + 1) v to (put cells to v) (inl (omega arith)) ∙ ground arith)
  | no ne ↦ fill-inside left (to + 1) v i (put cells to v) (omega arith) (omega arith)
]

-- The rows in front of the first that is written are left alone.
copy_rows-before :
    (left width y i : ℕ) (cells : ℕ → ℕ)
    → i < y * width
    → copy_rows left width (y + 1) cells i ≡ cells i
unfolding copy_rows
copy_rows-before zero width y i cells h = refl
copy_rows-before (suc left) width y i cells h =
    let e : y + 1 - 1 ≡ y = omega arith in
    rw e (
      copy_rows-before left width (y + 1) i (copy_row width ((y + 1) * width) (y * width) 0 cells)
        (omega arith)
      ∙ copy_row-outside width ((y + 1) * width) (y * width) 0 i cells (inl (omega arith)))

next_row : (width y k x : ℕ) → y < k → y * width + 0 + width ≤ (k + 1) * width + x
next_row width y k x h = let m = mul-le-mul_right width h in omega arith

copy_rows-inside :
    (left width y k x : ℕ) (cells : ℕ → ℕ)
    → y ≤ k
    → k < y + left
    → x < width
    → copy_rows left width (y + 1) cells (k * width + x) ≡ cells ((k + 1) * width + x)
unfolding copy_rows
copy_rows-inside zero width y k x cells lo hi h = absurd (omega arith)
copy_rows-inside (suc left) width y k x cells lo hi h =
    let e : y + 1 - 1 ≡ y = omega arith in
    rw e (elim (ℕ_discrete y k) [
      | yes same ↦ rw (← same) (
          copy_rows-before left width (y + 1) (y * width + x)
            (copy_row width ((y + 1) * width) (y * width) 0 cells) (omega arith)
          ∙ copy_row-inside width ((y + 1) * width) (y * width) 0 x cells (omega arith)
              (omega arith) (omega arith))
      | no ne ↦
          copy_rows-inside left width (y + 1) k x
            (copy_row width ((y + 1) * width) (y * width) 0 cells) (omega arith) (omega arith) h
          ∙ copy_row-outside width ((y + 1) * width) (y * width) 0 ((k + 1) * width + x) cells
              (inr (next_row width y k x (omega arith)))
    ])

-- What each cell of the screen holds after the cells of `s` have moved up by a line.
pub ScrolledFrom : Screen → Screen → Type 0
ScrolledFrom s s' =
    (l x : ℕ)
    → l < s.height
    → x < s.width
    → s'.cells (l * s.width + x)
      ≡ (if ltb (l + 1) s.height then s.cells ((l + 1) * s.width + x) else blank s)

-- The row in front of the last.
above_last : (l x width n : ℕ) → l < n → x < width → l * width + x < n * width
above_last l x width n h p = let m = mul-le-mul_right width h in omega arith

scroll_lines :
    (s : Screen) (n l x : ℕ)
    → s.height ≡ n + 1
    → l < n + 1
    → x < s.width
    → fill s.width (n * s.width) (blank s) (copy_rows n s.width 1 s.cells) (l * s.width + x)
      ≡ (if ltb (l + 1) (n + 1) then s.cells ((l + 1) * s.width + x) else blank s)
scroll_lines s n l x e h p = elim (ℕ_discrete l n) [
  | yes same ↦ rw same (
      fill-inside s.width (n * s.width) (blank s) (n * s.width + x) (copy_rows n s.width 1 s.cells)
        (omega arith) (omega arith)
      ∙ ground arith)
  | no ne ↦
      fill-outside s.width (n * s.width) (blank s) (l * s.width + x) (copy_rows n s.width 1 s.cells)
        (inl (above_last l x s.width n (omega arith) p))
      ∙ copy_rows-inside n s.width 0 l x s.cells (omega arith) (omega arith) p
      ∙ ground arith
]

-- After `scroll_up`, line `l` of a screen of at least one line holds what line `l + 1` held, and
-- the last line holds blanks in the screen's colour.
pub scroll_up-ScrolledFrom : (s : Screen) → 0 < s.height → ScrolledFrom s (scroll_up s)
unfolding ScrolledFrom scroll_up
scroll_up-ScrolledFrom s some l x h p =
    let e : s.height ≡ s.height - 1 + 1 = omega arith in
    scroll_lines s (s.height - 1) l x e (omega arith) p ∙ simp (← e) refl
