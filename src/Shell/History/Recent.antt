-- ===== src/Shell/History/Recent.antt =====
-- What the rows of the history hold.
use native.Mathlib.Decide.{ℕ_discrete}
use native.Mathlib.Decide.{dec_lt}
use master_os.Base.{
  ℕ, zero, suc, ◌+◌, ◌-◌, ◌<◌, ◌≡◌, ◌≤◌, ◌⊎◌, inl, inr, true, false, Option, none, some, refl, ap,
  ◌∙◌, arith, List, [], ◌∷◌, length, get_or, ltb, ◌==◌, if◌then◌else◌,
}
use master_os.Shell.Actions.{Shell}
use master_os.Shell.History.{shift_rows, with_row, history_save}

-- Row `j` after the loop: the rows from 1 to `i` come from the row before.
shift_rows_lem :
    (i : ℕ) (rows : ℕ → List ℕ) (j : ℕ)
    → 0 < j
    → shift_rows i rows j ≡ (if ltb i j then rows j else rows (j - 1))
unfolding shift_rows
shift_rows_lem zero rows j p = ground arith
shift_rows_lem (suc i) rows j p = elim (ℕ_discrete j (suc i)) [
  | yes e ↦ rw e (
      shift_rows_lem i (λ k. if k == suc i then rows i else rows k) (suc i) (omega arith)
      ∙ ground arith)
  | no ne ↦ shift_rows_lem i (λ k. if k == suc i then rows i else rows k) j p ∙ ground arith
]

-- The rows are the commands, the latest first.
pub record IsRecent (cmds : List (List ℕ)) (s : Shell) : Type 0 where
  pub count : s.history_count ≡ length cmds
  pub rows : (i : ℕ) → i < s.history_count → s.history i ≡ get_or cmds i []

row_at :
    (cmd : List ℕ) (cmds : List (List ℕ)) (s : Shell)
    → IsRecent cmds s
    → (i : ℕ) → i < s.history_count + 1
    → (with_row cmd s).history i ≡ get_or (cmd ∷ cmds) i []
row_at cmd cmds s r zero lt = refl
row_at cmd cmds s r (suc i) lt =
    not_first cmd (shift_rows s.history_count s.history (suc i))
    ∙ shift_rows_lem s.history_count s.history (suc i) (omega arith)
    ∙ before (s.history (suc i)) (s.history (suc i - 1))
    ∙ ap s.history (last i)
    ∙ r.rows i (omega arith)
  where
    not_first : (x y : List ℕ) → (if suc i == 0 then x else y) ≡ y
    not_first x y = ground arith

    before : (x y : List ℕ) → (if ltb s.history_count (suc i) then x else y) ≡ y
    before x y = ground arith

    last : (k : ℕ) → suc k - 1 ≡ k
    last k = omega arith

-- What keeping the commands one after the other gives, from the oldest on.
unfoldable pub save_all : List (List ℕ) → Shell → Option Shell
save_all [] s = some s
save_all (cmd ∷ cmds) s = elim (save_all cmds s) [ none ↦ none | some t ↦ history_save cmd t ]

-- Commands that are kept, from an empty history: up to ten commands are the rows of the array,
-- the latest first, and the eleventh is the first that is written behind it.
pub save_all-IsRecent :
    (cmds : List (List ℕ)) (s : Shell)
    → s.history_count ≡ 0
    → ((length cmds ≤ 10) × (t : Shell) × (save_all cmds s ≡ some t) × IsRecent cmds t)
      ⊎ ((10 < length cmds) × (save_all cmds s ≡ none))
unfolding save_all history_save
save_all-IsRecent [] s empty = inl (
  omega arith,
  s,
  refl,
  record { count = empty; rows = λ i lt. absurd (omega (arith, empty, lt)) },
)
save_all-IsRecent (cmd ∷ cmds) s empty = elim (save_all-IsRecent cmds s empty) [
  | inr (more, e) ↦ inr (omega arith, simp e refl)
  | inl (le, t, e, r) ↦ elim (dec_lt (length cmds) 10) [
    | yes lt ↦
        let room : ltb t.history_count 10 ≡ true = ground (arith, r.count) in
        inl (
          omega arith,
          with_row cmd t,
          simp (e, room) refl,
          record { count = omega (arith, r.count); rows = λ i i_lt. row_at cmd cmds t r i i_lt },
        )
    | no ge ↦
        let full : ltb t.history_count 10 ≡ false = ground (arith, r.count) in
        inr (omega arith, simp (e, full) refl)
  ]
]
