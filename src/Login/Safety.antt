-- ===== src/Login/Safety.antt =====
-- The login screen keeps the cursor on the screen, and its input within the buffer.
use master_os.Base.{
  ℕ, zero, suc, ◌-◌, ◌<◌, ◌≤◌, arith, Bool, true, false, List, [], ◌∷◌, ltb, ltb→lt, ◌==◌,
  if◌then◌else◌, Bool-cases, inl, inr,
}
use master_os.Base.Int.{is_zero}
use master_os.Text.{codes}
use master_os.Screen.Safety.{IsValid, print-Safe}
use master_os.Login.{
  Input, say, finish, erase, type_char, login_handle_char, login_handle_pass, wait_input,
  start_input, read_input, read_password, k_strcmp, valid_user, valid_pass, Reading, finished,
  unfinished, Outcome, granted, locked, waiting, after_password, after_user, login_from, login,
  greeting,
}

-- The cursor is on the screen, and the input and its final 0 are within the 32 bytes.
pub record IsInput (i : Input) : Type 0 where
  pub screen : IsValid i.screen
  pub room : i.input_len ≤ 31

-- The same of an outcome.
pub data Ends : Outcome → Type 0 where
  enters : {keys : List ℕ} {i : Input} → IsInput i → Ends (granted keys i)
  locks : {i : Input} → IsInput i → Ends (locked i)
  waits : {i : Input} → IsInput i → Ends (waiting i)

say-IsInput : (text : List ℕ) (i : Input) → IsInput i → IsInput (say text i)
say-IsInput text i p = record { screen = (print-Safe text i.screen p.screen).0; room = p.room }

finish-IsInput : (i : Input) → IsInput i → IsInput (finish i)
finish-IsInput i p = record { screen = p.screen; room = p.room }

IsInput-if : {i j : Input} (b : Bool) → IsInput i → IsInput j → IsInput (if b then i else j)
IsInput-if true p q = p
IsInput-if false p q = q

erase-IsInput : (i : Input) → IsInput i → IsInput (erase i)
erase-IsInput i p =
    say-IsInput (8 ∷ b' ' ∷ 8 ∷ []) (record i { input_len = i.input_len - 1 })
      (record { screen = p.screen; room = omega (arith, p.room) })

-- A character is put into the buffer where there is room.
type_char-IsInput :
    (c shown : ℕ) (i : Input)
    → IsInput i
    → IsInput (if ltb i.input_len 31 then type_char c shown i else i)
type_char-IsInput c shown i p = elim (Bool-cases (ltb i.input_len 31)) [
  | inl e ↦
      let room : i.input_len < 31 = ltb→lt i.input_len 31 e in
      simp e (record { screen = (print-Safe (shown ∷ []) i.screen p.screen).0; room = omega arith })
  | inr e ↦ simp e p
]

login_handle_char-IsInput : (c : ℕ) (i : Input) → IsInput i → IsInput (login_handle_char c i)
unfolding login_handle_char
login_handle_char-IsInput c i p = IsInput-if (c == 0x0A) (finish-IsInput i p) (
    IsInput-if (c == 8) (IsInput-if (ltb 0 i.input_len) (erase-IsInput i p) p)
      (type_char-IsInput c c i p))

login_handle_pass-IsInput : (c : ℕ) (i : Input) → IsInput i → IsInput (login_handle_pass c i)
unfolding login_handle_pass
login_handle_pass-IsInput c i p = IsInput-if (c == 0x0A) (finish-IsInput i p) (
    IsInput-if (c == 8) (IsInput-if (ltb 0 i.input_len) (erase-IsInput i p) p)
      (type_char-IsInput c b'*' i p))

-- What a reading of a line gives.
data Read : Reading → Type 0 where
  unread : {i : Input} → IsInput i → Read (unfinished i)
  read : {i : Input} {keys : List ℕ} → IsInput i → Read (finished i keys)

wait_input-Read :
    (handler : ℕ → Input → Input)
    → ((c : ℕ) (i : Input) → IsInput i → IsInput (handler c i))
    → (keys : List ℕ) (i : Input) → IsInput i
    → Read (wait_input handler keys i)
unfolding wait_input
wait_input-Read handler keeps [] i p = unread p
wait_input-Read handler keeps (c ∷ keys) i p = elim (Bool-cases (handler c i).input_done) [
  | inl e ↦ simp e (read (keeps c i p))
  | inr e ↦ simp e (wait_input-Read handler keeps keys (handler c i) (keeps c i p))
]

start_input-IsInput : (i : Input) → IsInput i → IsInput (start_input i)
start_input-IsInput i p = record { screen = p.screen; room = omega arith }

Ends-if : {x y : Outcome} (b : Bool) → Ends x → Ends y → Ends (if b then x else y)
Ends-if true p q = p
Ends-if false p q = q

module _ (again : List ℕ → Input → Outcome)
    (keeps : (keys : List ℕ) (i : Input) → IsInput i → Ends (again keys i)) where
  after_password-Ends : (r : Reading) → Read r → Ends (after_password again r)
  after_password-Ends _ (unread p) = waits p
  after_password-Ends _ (read {i} {keys} p) =
      Ends-if (is_zero (k_strcmp i.input_buf 0 valid_pass))
        (enters (say-IsInput (codes "\r\nLogin successful!\r\n") i p))
        (keeps keys (say (codes "\r\nInvalid password.\r\n") i)
          (say-IsInput (codes "\r\nInvalid password.\r\n") i p))

  after_user-Ends : (r : Reading) → Read r → Ends (after_user again r)
  after_user-Ends _ (unread p) = waits p
  after_user-Ends _ (read {i} {keys} p) =
      let asked : Input = say (codes "\r\nPassword: ") i in
      Ends-if (is_zero (k_strcmp i.input_buf 0 valid_user))
        (after_password-Ends (read_password keys asked) (
          wait_input-Read login_handle_pass login_handle_pass-IsInput keys (start_input asked)
            (start_input-IsInput asked (say-IsInput (codes "\r\nPassword: ") i p))))
        (keeps keys (say (codes "\r\nInvalid username.\r\n") i)
          (say-IsInput (codes "\r\nInvalid username.\r\n") i p))

login_from-Ends : (left : ℕ) (keys : List ℕ) (i : Input) → IsInput i → Ends (login_from left keys i)
unfolding login_from
login_from-Ends zero keys i p =
    locks (say-IsInput (codes "\r\nToo many failed attempts. System locked.\r\n") i p)
login_from-Ends (suc left) keys i p =
    let asked : Input = say (codes "Username: ") i in
    after_user-Ends (login_from left) (login_from-Ends left) (read_input keys asked) (
      wait_input-Read login_handle_char login_handle_char-IsInput keys (start_input asked)
        (start_input-IsInput asked (say-IsInput (codes "Username: ") i p)))

-- Whatever keys are typed at the login screen, the input stays within its 32 bytes and the
-- cursor on the screen, whether the login succeeds, locks the system or still waits.
pub login-Ends : (keys : List ℕ) (i : Input) → IsInput i → Ends (login keys i)
unfolding login
login-Ends keys i p = login_from-Ends 3 keys (greeting i) (
    say-IsInput (codes "<------------------>\r\n") (say (codes "Welcome to MasterOS!\r\n") i)
      (say-IsInput (codes "Welcome to MasterOS!\r\n") i p))
