-- ===== src/Tests/Devices.antt =====
-- The theorems about the clock, the keyboard, the login screen and decimal text at concrete inputs.
use master_os.Base.{ℕ, ◌≡◌, refl, arith, false, some, List, [], ◌∷◌}
use master_os.Stdio.{print_uint, k_atoi}
use master_os.Stdio.Decimal.{k_atoi-print_uint}
use master_os.Rtc.{RtcTime, rtc_read}
use master_os.Rtc.Formats.{encode, rtc_read-gives}
use master_os.Keyboard.{init_keyb, keyb_run}
use master_os.Keyboard.Modifiers.{IsTracked, keyb_run-IsTracked}
use master_os.Screen.{Screen}
use master_os.Login.{Input, login, valid_user, valid_pass}
use master_os.Login.Lines.{typed, decide, decision, login-decide}

k_atoi-print_uint_example : k_atoi (print_uint 1234567890) ≡ 1234567890
k_atoi-print_uint_example = k_atoi-print_uint 1234567890 (omega arith)

-- Ten past midnight, on a 12-hour clock with decimal digits.
abbrev midnight : RtcTime
midnight = record { seconds = 59; minutes = 10; hours = 0; day = 31; month = 12; year = 99 }

rtc_read-gives_example : rtc_read (λ _. encode 0 midnight) 0 5 ≡ some midnight
rtc_read-gives_example =
    rtc_read-gives (λ _. encode 0 midnight) 0 5 0 midnight
      (record {
        seconds = omega arith;
        minutes = omega arith;
        hours = omega arith;
        day = omega arith;
        month = omega arith;
        year = omega arith;
      })
      (omega arith) (λ j lt. absurd (omega arith)) refl refl

-- Left Shift down, `A`, Caps Lock, left Shift up.
abbrev keys : List ℕ
keys = 42 ∷ 30 ∷ 158 ∷ 58 ∷ 170 ∷ []

keyb_run-IsTracked_example : IsTracked keys init_keyb (keyb_run keys init_keyb)
keyb_run-IsTracked_example = keyb_run-IsTracked keys init_keyb (ground arith)

abbrev cleared : Screen
cleared = record { column = 0; line = 0; color = 0x0700; width = 80; height = 50; cells = λ _. 0 }

abbrev no_input : Input
no_input = record { input_buf = λ _. 0; input_len = 0; input_done = false; screen = cleared }

-- A wrong name, then the right name and password.
abbrev lines : List (List ℕ)
lines = (b'x' ∷ []) ∷ valid_user ∷ valid_pass ∷ []

login-decide_example : decision (login (typed lines) no_input) ≡ decide 3 lines
login-decide_example = login-decide lines no_input (
  record { chars = ground arith; fits = omega arith },
  (
    record { chars = ground arith; fits = omega arith },
    (record { chars = ground arith; fits = omega arith }, tt),
  ),
)
