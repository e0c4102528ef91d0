-- ===== src/Login.antt =====
-- login.c: the login screen. A key arrives as one call of the handler.
pub mod Lines
pub mod Safety
use master_os.Base.{
  ℕ, zero, suc, ◌+◌, ◌-◌, Bool, true, false, ◌&&◌, not, List, [], ◌∷◌, ◌++◌, ltb, ◌==◌,
  if◌then◌else◌, Bytes, put,
}
use master_os.Base.Int.{ℤ, sub_ℕ, is_zero}
use master_os.Text.{codes}
use master_os.Screen.{Screen, print}

-- `input_buf`, `input_len` and `input_done`, and the screen.
pub record Input : Type 0 where
  pub input_buf : Bytes
  pub input_len : ℕ
  pub input_done : Bool
  pub screen : Screen

-- `print(text);`
abbrev pub say : List ℕ → Input → Input
say text i = record i { screen = print text i.screen }

abbrev pub finish : Input → Input
finish i = record i { input_buf = put i.input_buf i.input_len 0; input_done = true }

abbrev pub erase : Input → Input
erase i = say (8 ∷ b' ' ∷ 8 ∷ []) (record i { input_len = i.input_len - 1 })

abbrev pub type_char : (c shown : ℕ) → Input → Input
type_char c shown i =
    say (shown ∷ [])
      (record i { input_buf = put i.input_buf i.input_len c; input_len = i.input_len + 1 })

-- `MAX_INPUT - 1` is 31.
unfoldable pub login_handle_char : ℕ → Input → Input
login_handle_char c i =
    if c == 0x0A
    then finish i
    else if c == 8
    then (if ltb 0 i.input_len then erase i else i)
    else if ltb i.input_len 31
    then type_char c c i
    else i

unfoldable pub login_handle_pass : ℕ → Input → Input
login_handle_pass c i =
    if c == 0x0A
    then finish i
    else if c == 8
    then (if ltb 0 i.input_len then erase i else i)
    else if ltb i.input_len 31
    then type_char c b'*' i
    else i

-- A line that is read, with the keys that are left, or one that is not finished when the keys are
-- used up.
pub data Reading : Type 0 where
  finished : Input → List ℕ → Reading
  unfinished : Input → Reading

-- `while (!input_done) {}`, with the keys that are pressed meanwhile.
unfoldable pub wait_input : (ℕ → Input → Input) → List ℕ → Input → Reading
wait_input handler [] i = unfinished i
wait_input handler (key ∷ keys) i =
    let rest = wait_input handler keys (handler key i) in
    if (handler key i).input_done then finished (handler key i) keys else rest

abbrev pub start_input : Input → Input
start_input i = record i { input_len = 0; input_done = false }

abbrev pub read_input : List ℕ → Input → Reading
read_input keys i = wait_input login_handle_char keys (start_input i)

abbrev pub read_password : List ℕ → Input → Reading
read_password keys i = wait_input login_handle_pass keys (start_input i)

-- `k_strcmp` of the buffer, from byte `i` on, with a constant string.
unfoldable pub k_strcmp : Bytes → (i : ℕ) → List ℕ → ℤ
k_strcmp buf i [] = sub_ℕ (buf i) 0
k_strcmp buf i (c ∷ s) =
    let rest = k_strcmp buf (i + 1) s in
    if not (buf i == 0) && buf i == c then rest else sub_ℕ (buf i) c

abbrev pub valid_user : List ℕ
valid_user = b'g' ∷ b't' ∷ b'a' ∷ b'h' ∷ b'a' ∷ []

abbrev pub valid_pass : List ℕ
valid_pass = b'1' ∷ b'3' ∷ b'5' ∷ []

-- `login` returns with the keys that are left, locks the system, or still waits for keys.
pub data Outcome : Type 0 where
  granted : List ℕ → Input → Outcome
  locked : Input → Outcome
  waiting : Input → Outcome

abbrev pub after_password : (List ℕ → Input → Outcome) → Reading → Outcome
after_password again (unfinished i) = waiting i
after_password again (finished i keys) =
    if is_zero (k_strcmp i.input_buf 0 valid_pass)
    then granted keys (say (codes "\r\nLogin successful!\r\n") i)
    else again keys (say (codes "\r\nInvalid password.\r\n") i)

abbrev pub after_user : (List ℕ → Input → Outcome) → Reading → Outcome
after_user again (unfinished i) = waiting i
after_user again (finished i keys) =
    if is_zero (k_strcmp i.input_buf 0 valid_user)
    then after_password again (read_password keys (say (codes "\r\nPassword: ") i))
    else again keys (say (codes "\r\nInvalid username.\r\n") i)

-- The loop, with `left` attempts left.
unfoldable pub login_from : (left : ℕ) → List ℕ → Input → Outcome
unfolding wait_input k_strcmp
login_from zero keys i = locked (say (codes "\r\nToo many failed attempts. System locked.\r\n") i)
login_from (suc left) keys i =
    after_user (login_from left) (read_input keys (say (codes "Username: ") i))

abbrev pub greeting : Input → Input
greeting i = say (codes "<------------------>\r\n") (say (codes "Welcome to MasterOS!\r\n") i)

-- `MAX_ATTEMPTS` is 3.
unfoldable pub login : List ℕ → Input → Outcome
unfolding login_from
login keys i = login_from 3 keys (greeting i)
