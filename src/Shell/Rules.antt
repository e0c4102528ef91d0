-- ===== src/Shell/Rules.antt =====
-- What every action leaves in order: the cursor on the screen, and the line within its buffer.
use master_os.Base.{ℕ, none, some, ◌<◌, arith, Bool, true, false, List, [], ◌∷◌, if◌then◌else◌}
use master_os.Fat.Monad.{Run, done, fail, halted, M}
use master_os.Screen.{Screen, reset, set_color}
use master_os.Screen.Safety.{IsValid, print-Safe}
use master_os.Shell.Actions.{
  Shell, System, Outcome, next, stopped, fault, ended_by_port, overrun, stored_or_overrun,
  on_arrays, Action, after, ◌>>◌, nothing, say, on_screen, on_shell, after_call, call, for_each,
}
use master_os.Shell.Files.{say_name, say_char}

-- The cursor is on the screen, and the line has room for its final 0.
pub record IsSound {Dev : Type 0} (s : System Dev) : Type 0 where
  pub screen : IsValid s.screen
  pub room : s.shell.shell_len < 256

-- Whatever an action leaves is sound, if it goes on or stands still; a run that writes behind an
-- array of the shell is not followed.
pub data Leaves {Dev : Type 0} : Outcome Dev → Type 0 where
  goes_on : {s : System Dev} → IsSound s → Leaves (next s)
  stands : {s : System Dev} → IsSound s → Leaves (stopped s)
  faults : Leaves fault
  overruns : Leaves overrun
  ends : {port value : ℕ} → Leaves (ended_by_port port value)

pub record Keeps {Dev : Type 0} (a : Action Dev) : Type 0 where
  pub keeps : (s : System Dev) → IsSound s → Leaves (a s)

pub set_color-IsValid : (fg bg : ℕ) (t : Screen) → IsValid t → IsValid (set_color fg bg t)
unfolding set_color
set_color-IsValid fg bg t v = record {
  some_width = v.some_width;
  line_in = v.line_in;
  column_in = v.column_in;
}

pub reset-IsValid : (t : Screen) → IsValid t → IsValid (reset t)
unfolding reset
reset-IsValid t v = record {
  some_width = v.some_width;
  line_in = omega (arith, v.line_in);
  column_in = omega arith;
}

module _ {Dev : Type 0} where
  pub after-Leaves : {o : Outcome Dev} {k : Action Dev} → Leaves o → Keeps k → Leaves (after o k)
  after-Leaves (goes_on v) k = k.keeps _ v
  after-Leaves (stands v) k = stands v
  after-Leaves faults k = faults
  after-Leaves overruns k = overruns
  after-Leaves ends k = ends

  pub seq-Keeps : {a b : Action Dev} → Keeps a → Keeps b → Keeps (a >> b)
  seq-Keeps p q = record { keeps = λ s v. after-Leaves (p.keeps s v) q }

  pub nothing-Keeps : Keeps {Dev = Dev} nothing
  nothing-Keeps = record { keeps = λ s v. goes_on v }

  pub say-Keeps : (text : List ℕ) → Keeps {Dev = Dev} (say text)
  say-Keeps text = record {
    keeps =
        λ s v. goes_on (record { screen = (print-Safe text s.screen v.screen).0; room = v.room });
  }

  pub if-Keeps : (b : Bool) {x y : Action Dev} → Keeps x → Keeps y → Keeps (if b then x else y)
  if-Keeps true p q = p
  if-Keeps false p q = q

  pub fault-Keeps : Keeps {Dev = Dev} (λ s. fault)
  fault-Keeps = record { keeps = λ s v. faults }

  pub on_screen-Keeps :
      (f : Screen → Screen)
      → ((t : Screen) → IsValid t → IsValid (f t))
      → Keeps {Dev = Dev} (on_screen f)
  on_screen-Keeps f h = record {
    keeps = λ s v. goes_on (record { screen = h s.screen v.screen; room = v.room });
  }

  pub call-Keeps :
      {A : Type 0} (m : M Dev A) {found : A → Action Dev} {failed : Action Dev}
      → ((a : A) → Keeps (found a))
      → Keeps failed
      → Keeps (call m found failed)
  call-Keeps {A} m {found} {failed} p q = record { keeps = λ s v. split s v (m s.world) }
    where
      split : (s : System Dev) → IsSound s → (r : Run Dev A) → Leaves (after_call s r found failed)
      split s v (done a w) = (p a).keeps _ (record { screen = v.screen; room = v.room })
      split s v (fail w) = q.keeps _ (record { screen = v.screen; room = v.room })
      split s v halted = stands v

  pub for_each-Keeps :
      {A : Type 0} (f : A → Action Dev)
      → ((a : A) → Keeps (f a))
      → (l : List A) → Keeps (for_each f l)
  unfolding for_each
  for_each-Keeps f h [] = nothing-Keeps
  for_each-Keeps f h (a ∷ l) = seq-Keeps (h a) (for_each-Keeps f h l)

  pub ruleset keeping =
      (seq-Keeps, nothing-Keeps, say-Keeps, if-Keeps, fault-Keeps, call-Keeps, for_each-Keeps)

  pub say_name-Keeps : (before name : List ℕ) → Keeps {Dev = Dev} (say_name before name)
  say_name-Keeps before name = search keeping

  pub say_char-Keeps : (c : ℕ) → Keeps {Dev = Dev} (say_char c)
  say_char-Keeps c = search keeping

  pub set_color-Keeps : (fg bg : ℕ) → Keeps {Dev = Dev} (on_screen (set_color fg bg))
  set_color-Keeps fg bg = on_screen-Keeps (set_color fg bg) (set_color-IsValid fg bg)

  pub color_back-Keeps :
      (color : ℕ) → Keeps {Dev = Dev} (on_screen (λ t. record t { color = color }))
  color_back-Keeps color =
      on_screen-Keeps (λ t. record t { color = color })
        (λ t v. record { some_width = v.some_width; line_in = v.line_in; column_in = v.column_in })

  -- Changes of the shell's variables that leave the line's length.
  pub on_shell-Keeps :
      (f : Shell → Shell)
      → ((t : Shell) → t.shell_len < 256 → (f t).shell_len < 256)
      → Keeps {Dev = Dev} (on_shell f)
  on_shell-Keeps f h = record {
    keeps = λ s v. goes_on (record { screen = v.screen; room = h s.shell v.room });
  }

  -- The same of a change that may write behind an array.
  pub on_arrays-Keeps :
      (fits : Shell → Bool) (f : Shell → Shell)
      → ((t : Shell) → t.shell_len < 256 → (f t).shell_len < 256)
      → Keeps {Dev = Dev} (on_arrays (λ t. if fits t then some (f t) else none))
  on_arrays-Keeps fits f h = record { keeps = λ s v. split s v (fits s.shell) (h s.shell v.room) }
    where
      split :
          (s : System Dev)
          → IsSound s
          → (b : Bool) → (f s.shell).shell_len < 256
          → Leaves (stored_or_overrun s (if b then some (f s.shell) else none))
      split s v true room = goes_on (record { screen = v.screen; room = room })
      split s v false room = overruns
