-- ===== src/Shell/Execute/Line.antt =====
-- The line in the shell's buffer, and how a key edits it.
use native.Mathlib.Decide.{ℕ_discrete}
use master_os.Base.{
  ℕ, zero, suc, ◌+◌, ◌-◌, ◌<◌, ◌≤◌, ◌≡◌, ◌≢◌, refl, sym, ap, ◌∙◌, arith, true, false, List, [], ◌∷◌,
  ◌++◌, length, length-append, take, get_or, ltb, ◌==◌, if◌then◌else◌, put, Bytes,
}
use master_os.Shell.Actions.{
  Shell, System, Outcome, next, stopped, fault, ended_by_port, overrun, after, nothing,
}
use master_os.Shell.Words.{c_string}
use master_os.Shell.Execute.{shorter, longer}

-- A line of at most 255 characters, edited by a key.
abbrev pub edit : List ℕ → ℕ → List ℕ
edit line c =
    if c == 8
    then take (length line - 1) line
    else if ltb (length line) 255
    then line ++ c ∷ []
    else line

abbrev pub edited : List ℕ → List ℕ → List ℕ
edited line [] = line
edited line (c ∷ keys) = edited (edit line c) keys

-- The buffer holds the line.
pub record IsLine (line : List ℕ) (s : Shell) : Type 0 where
  pub len : s.shell_len ≡ length line
  pub short : length line < 256
  pub text : (i : ℕ) → i < length line → s.shell_buf i ≡ get_or line i 0
  pub no_end : (i : ℕ) → i < length line → get_or line i 0 ≢ 0

-- What a key of the line does not change.
pub record Kept {Dev : Type 0} (s s' : System Dev) : Type 0 where
  pub world : s'.world ≡ s.world
  pub history : s'.shell.history ≡ s.shell.history
  pub history_count : s'.shell.history_count ≡ s.shell.history_count
  pub prompt_name : s'.shell.prompt_name ≡ s.shell.prompt_name

get_or-take : (n i : ℕ) (line : List ℕ) → i < n → get_or (take n line) i 0 ≡ get_or line i 0
get_or-take zero i line lt = absurd (omega arith)
get_or-take (suc n) i [] lt = refl
get_or-take (suc n) zero (x ∷ line) lt = refl
get_or-take (suc n) (suc i) (x ∷ line) lt = get_or-take n i line (omega arith)

length-take : (n : ℕ) (line : List ℕ) → n ≤ length line → length (take n line) ≡ n
length-take zero line le = refl
length-take (suc n) [] le = absurd (omega arith)
length-take (suc n) (x ∷ line) le = ap suc (length-take n line (omega arith))

get_or-append :
    (line : List ℕ) (c i : ℕ) → i < length line → get_or (line ++ c ∷ []) i 0 ≡ get_or line i 0
get_or-append [] c i lt = absurd (omega arith)
get_or-append (x ∷ line) c zero lt = refl
get_or-append (x ∷ line) c (suc i) lt = get_or-append line c i (omega arith)

get_or-last : (line : List ℕ) (c : ℕ) → get_or (line ++ c ∷ []) (length line) 0 ≡ c
get_or-last [] c = refl
get_or-last (x ∷ line) c = get_or-last line c

pub c_string-text :
    (line : List ℕ) (buf : Bytes) (left at : ℕ)
    → length line < left
    → ((i : ℕ) → i < length line → buf (at + i) ≡ get_or line i 0)
    → ((i : ℕ) → i < length line → get_or line i 0 ≢ 0)
    → buf (at + length line) ≡ 0
    → c_string buf left at ≡ line
unfolding c_string
c_string-text line buf zero at lt text no_end end = absurd (omega arith)
c_string-text [] buf (suc left) at lt text no_end end =
    let place : at + 0 ≡ at = omega arith in
    let here : (buf at == 0) ≡ true = ground (arith, rw place at end) in rw here refl
c_string-text (c ∷ line) buf (suc left) at lt text no_end end =
    let place : at + 0 ≡ at = omega arith in
    let first : buf at ≡ c = rw place at (text 0 (omega arith)) in
    let there : (buf at == 0) ≡ false = ground (arith, first, no_end 0 (omega arith)) in
    rw there (
      rw first (
        ap (c ∷◌) (
          c_string-text line buf left (at + 1) (omega arith)
            (λ i lt'.
              let e : at + 1 + i ≡ at + suc i = omega arith in rw e (text (suc i) (omega arith)))
            (λ i lt'. no_end (suc i) (omega arith))
            (let e : at + 1 + length line ≡ at + suc (length line) = omega arith in rw e end))))

pub put_here : (buf : Bytes) (n c : ℕ) → put buf n c n ≡ c
put_here buf n c = ground arith

pub put_there : (buf : Bytes) (n c i : ℕ) → i ≢ n → put buf n c i ≡ buf i
put_there buf n c i ne = ground arith

pub IsLine-shorter :
    (line : List ℕ) (s : Shell) → IsLine line s → IsLine (take (length line - 1) line) (shorter s)
IsLine-shorter line s l =
    let n = length-take (length line - 1) line (omega arith) in
    record {
      len = rw n (ap (λ k. k - 1) l.len);
      short = omega (arith, n, l.short);
      text = λ i lt.
          l.text i (omega (arith, n))
          ∙ sym (get_or-take (length line - 1) i line (omega (arith, n)));
      no_end = λ i lt.
          rw (get_or-take (length line - 1) i line (omega (arith, n)))
            (l.no_end i (omega (arith, n)));
    }

pub IsLine-longer :
    (line : List ℕ) (c : ℕ) (s : Shell)
    → c ≢ 0
    → length line < 255
    → IsLine line s
    → IsLine (line ++ c ∷ []) (longer c s)
IsLine-longer line c s some lt l =
    let n = length-append line (c ∷ []) in
    record {
      len = rw n (ap (λ k. k + 1) l.len);
      short = omega (arith, n);
      text = λ i lt. elim (ℕ_discrete i (length line)) [
        | yes e ↦ rw e (rw l.len (put_here s.shell_buf (length line) c) ∙ sym (get_or-last line c))
        | no ne ↦
            put_there s.shell_buf s.shell_len c i (λ e. ne (e ∙ l.len))
            ∙ l.text i (omega (arith, n))
            ∙ sym (get_or-append line c i (omega (arith, n)))
      ];
      no_end = λ i lt. elim (ℕ_discrete i (length line)) [
        | yes e ↦ rw e (rw (get_or-last line c) some)
        | no ne ↦ rw (get_or-append line c i (omega (arith, n))) (l.no_end i (omega (arith, n)))
      ];
    }

pub after-nothing : {Dev : Type 0} (r : Outcome Dev) → after r nothing ≡ r
after-nothing (next s) = refl
after-nothing (stopped s) = refl
after-nothing fault = refl
after-nothing (ended_by_port port value) = refl
after-nothing overrun = refl

pub Kept-refl : {Dev : Type 0} (s : System Dev) → Kept s s
Kept-refl s = record { world = refl; history = refl; history_count = refl; prompt_name = refl }

pub Kept-trans : {Dev : Type 0} {s t u : System Dev} → Kept s t → Kept t u → Kept s u
Kept-trans p q = record {
  world = q.world ∙ p.world;
  history = q.history ∙ p.history;
  history_count = q.history_count ∙ p.history_count;
  prompt_name = q.prompt_name ∙ p.prompt_name;
}
