-- ===== src/Login/Lines.antt =====
-- What the login screen decides, in terms of the lines that are typed.
use master_os.Base.{
  ℕ, zero, suc, ◌+◌, ◌<◌, ◌≤◌, ◌≡◌, ◌≢◌, refl, ◌∙◌, arith, Bool, true, false, ◌&&◌, List, [], ◌∷◌,
  ◌++◌, length, All, ltb, ◌==◌, if◌then◌else◌, Bytes,
}
use master_os.Base.Int.{is_zero}
use master_os.Text.{codes}
use master_os.Login.{
  Input, finish, type_char, login_handle_char, login_handle_pass, wait_input, start_input,
  read_input, read_password, k_strcmp, valid_user, valid_pass, Reading, finished, Outcome, granted,
  locked, waiting, after_password, login_from, login, say, greeting,
}

-- A line is typed without a correction and fits the buffer.
pub record IsLine (s : List ℕ) : Type 0 where
  pub chars : All (λ c. (c ≢ 0) × (c ≢ 8) × (c ≢ 0x0A)) s
  pub fits : length s ≤ 31

abbrev pub same_text : List ℕ → List ℕ → Bool
same_text [] [] = true
same_text (c ∷ s) (d ∷ t) = c == d && same_text s t
same_text _ _ = false

-- What an outcome says of the keys.
pub data Decision : Type 0 where
  enter : List ℕ → Decision
  lock wait : Decision

abbrev pub decision : Outcome → Decision
decision (granted keys i) = enter keys
decision (locked i) = lock
decision (waiting i) = wait

-- The decision: three attempts, each a line for the user, and one for the password if that is right.
abbrev pub decide_password :
    (List (List ℕ) → Decision) → List (List ℕ) → (List (List ℕ) → List ℕ) → Decision
decide_password again [] keys = wait
decide_password again (p ∷ lines) keys =
    if same_text p valid_pass then enter (keys lines) else again lines

-- The keys of lines.
unfoldable pub typed : List (List ℕ) → List ℕ
typed [] = []
typed (s ∷ lines) = s ++ 0x0A ∷ typed lines

unfoldable pub decide : (left : ℕ) → List (List ℕ) → Decision
decide zero lines = lock
decide (suc left) [] = wait
decide (suc left) (u ∷ lines) =
    let again = decide left lines in
    let checked = decide_password (decide left) lines typed in
    if same_text u valid_user then checked else again

-- The bytes of a string in the buffer, with its end.
HoldsText : Bytes → ℕ → List ℕ → Type 0
HoldsText buf i [] = buf i ≡ 0
HoldsText buf i (c ∷ s) = (buf i ≡ c) × HoldsText buf (i + 1) s

k_strcmp-HoldsText :
    (buf : Bytes) (i : ℕ) (s t : List ℕ)
    → HoldsText buf i s
    → All (λ c. (c ≢ 0) × (c ≢ 8) × (c ≢ 0x0A)) s
    → All (λ c. c ≢ 0) t
    → is_zero (k_strcmp buf i t) ≡ same_text s t
unfolding k_strcmp HoldsText
k_strcmp-HoldsText buf i [] [] h p q = ground arith
k_strcmp-HoldsText buf i [] (d ∷ t) h p q = ground arith
k_strcmp-HoldsText buf i (c ∷ s) [] h p q = ground arith
k_strcmp-HoldsText buf i (c ∷ s) (d ∷ t) h p q =
    ground (arith, k_strcmp-HoldsText buf (i + 1) s t h.1 p.1 q.1)

wait_input-step :
    (handler : ℕ → Input → Input) (c : ℕ) (keys : List ℕ) (i i1 : Input)
    → handler c i ≡ i1
    → i1.input_done ≡ false
    → wait_input handler (c ∷ keys) i ≡ wait_input handler keys i1
unfolding wait_input
wait_input-step handler c keys i i1 e busy = rw e (simp busy refl)

-- A handler that types a character as `shown` and ends at a new line.
module _ (shown : ℕ → ℕ) (handler : ℕ → Input → Input)
    (typing : (c : ℕ) (i : Input)
      → (c ≢ 8) × (c ≢ 0x0A)
      → i.input_len < 31
      → handler c i ≡ type_char c (shown c) i)
    (ending : (i : Input) → handler 0x0A i ≡ finish i) where
  -- A line that is typed from an unfinished input: the rest of the keys is left, and the buffer
  -- holds the line behind what it held.
  wait_input-line :
      (s rest : List ℕ) (i : Input)
      → All (λ c. (c ≢ 0) × (c ≢ 8) × (c ≢ 0x0A)) s
      → i.input_len + length s ≤ 31
      → i.input_done ≡ false
      → (i' : Input) × (wait_input handler (s ++ 0x0A ∷ rest) i ≡ finished i' rest)
        × HoldsText i'.input_buf i.input_len s
        × ((j : ℕ) → j < i.input_len → i'.input_buf j ≡ i.input_buf j)
  unfolding wait_input HoldsText
  wait_input-line [] rest i p fits busy =
      (finish i, rw (ending i) refl, ground arith, λ j lt. ground arith)
  wait_input-line (c ∷ s) rest i p fits busy =
      let (i', e, holds, before) =
        wait_input-line s rest (type_char c (shown c) i) p.1 (omega arith) busy in
      (
        i',
        wait_input-step handler c (s ++ 0x0A ∷ rest) i (type_char c (shown c) i)
              (typing c i (p.0.1, p.0.2) (omega arith)) busy
            ∙ e,
        (before i.input_len (omega arith) ∙ ground arith, holds),
        λ j lt. before j (omega arith) ∙ ground arith,
      )

char_types :
    (c : ℕ) (i : Input)
    → (c ≢ 8) × (c ≢ 0x0A)
    → i.input_len < 31
    → login_handle_char c i ≡ type_char c c i
unfolding login_handle_char
char_types c i ne lt =
    let a : (c == 0x0A) ≡ false = ground arith in
    let b : (c == 8) ≡ false = ground arith in
    let room : ltb i.input_len 31 ≡ true = ground arith in simp (a, b, room) refl

pass_types :
    (c : ℕ) (i : Input)
    → (c ≢ 8) × (c ≢ 0x0A)
    → i.input_len < 31
    → login_handle_pass c i ≡ type_char c b'*' i
unfolding login_handle_pass
pass_types c i ne lt =
    let a : (c == 0x0A) ≡ false = ground arith in
    let b : (c == 8) ≡ false = ground arith in
    let room : ltb i.input_len 31 ≡ true = ground arith in simp (a, b, room) refl

-- A line that is read: what is left of the keys, and the string in the buffer.
abbrev IsRead : (s rest : List ℕ) → Reading → Type 0
IsRead s rest r = (i' : Input) × (r ≡ finished i' rest) × HoldsText i'.input_buf 0 s

read_input-line :
    (s rest : List ℕ) (i : Input) → IsLine s → IsRead s rest (read_input (s ++ 0x0A ∷ rest) i)
unfolding login_handle_char
read_input-line s rest i l =
    let (i', e, holds, _) =
      wait_input-line (λ c. c) login_handle_char char_types (λ j. refl) s rest (start_input i)
        l.chars (omega (arith, l.fits)) refl in
    (i', e, holds)

read_password-line :
    (s rest : List ℕ) (i : Input) → IsLine s → IsRead s rest (read_password (s ++ 0x0A ∷ rest) i)
unfolding login_handle_pass
read_password-line s rest i l =
    let (i', e, holds, _) =
      wait_input-line (λ _. b'*') login_handle_pass pass_types (λ j. refl) s rest (start_input i)
        l.chars (omega (arith, l.fits)) refl in
    (i', e, holds)

user_text : All (λ c. c ≢ 0) valid_user
user_text = ground arith

pass_text : All (λ c. c ≢ 0) valid_pass
pass_text = ground arith

same_if :
    (x y : Outcome) {x' y' : Decision} (b : Bool)
    → decision x ≡ x'
    → decision y ≡ y'
    → decision (if b then x else y) ≡ (if b then x' else y')
same_if x y true p q = p
same_if x y false p q = q

login_from-decide :
    (left : ℕ) (lines : List (List ℕ)) (i : Input)
    → All IsLine lines
    → decision (login_from left (typed lines) i) ≡ decide left lines
unfolding login_from decide typed
login_from-decide zero lines i h = refl
login_from-decide (suc left) [] i h = unfold wait_input in refl
login_from-decide (suc left) (u ∷ lines) i h =
    let (i1, e, holds) = read_input-line u (typed lines) (say (codes "Username: ") i) h.0 in
    rw (e, k_strcmp-HoldsText i1.input_buf 0 u valid_user holds h.0.chars user_text)
      (same_if _ _ (same_text u valid_user)
        (checked i1 lines h.1 (λ ls j k. login_from-decide left ls j k))
        (login_from-decide left lines (say (codes "\r\nInvalid username.\r\n") i1) h.1))
  where
    checked :
        (i1 : Input) (ls : List (List ℕ))
        → All IsLine ls
        → ((ls : List (List ℕ)) (j : Input)
            → All IsLine ls
            → decision (login_from left (typed ls) j) ≡ decide left ls)
        → decision (
            after_password
              (login_from left)
              (read_password (typed ls) (say (codes "\r\nPassword: ") i1)))
          ≡ decide_password (decide left) ls typed
    checked i1 [] k ih = unfold wait_input in refl
    checked i1 (p ∷ ls) k ih =
        let (i2, e, holds) =
          read_password-line p (typed ls) (say (codes "\r\nPassword: ") i1) k.0 in
        rw (e, k_strcmp-HoldsText i2.input_buf 0 p valid_pass holds k.0.chars pass_text)
          (same_if _ _ (same_text p valid_pass) refl
            (ih ls (say (codes "\r\nInvalid password.\r\n") i2) k.1))

-- The keys of lines, each of which is typed without a correction and fits the buffer, are
-- decided by `login` as `decide` decides the lines, with three attempts.
pub login-decide :
    (lines : List (List ℕ)) (i : Input)
    → All IsLine lines
    → decision (login (typed lines) i) ≡ decide 3 lines
unfolding login
login-decide lines i h = login_from-decide 3 lines (greeting i) h
