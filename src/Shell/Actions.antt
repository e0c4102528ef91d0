-- ===== src/Shell/Actions.antt =====
-- The state of the running system as the shell sees it, and what an action does to it.
use master_os.Base.{ℕ, Option, none, some, List, [], ◌∷◌, Bytes}
use master_os.Screen.{Screen, print}
use master_os.Fat.Monad.{World, Run, done, fail, halted, M}

-- The variables of shell.c. The array has the rows `history i` for `i` below 10.
pub record Shell : Type 0 where
  pub prompt_name : List ℕ
  pub history : ℕ → List ℕ
  pub history_count : ℕ
  pub shell_buf : Bytes
  pub shell_len : ℕ

pub record System (Dev : Type 0) : Type 0 where
  pub shell : Shell
  pub screen : Screen
  pub world : World Dev

-- An action goes on, or the system stands still, or an instruction faults, or a value has been
-- written to a port that ends the run, or a write behind an array has changed other variables,
-- from where on the run is not followed.
pub data Outcome (Dev : Type 0) : Type 0 where
  next : System Dev → Outcome Dev
  stopped : System Dev → Outcome Dev
  fault : Outcome Dev
  ended_by_port : (port value : ℕ) → Outcome Dev
  overrun : Outcome Dev

abbrev pub Action : Type 0 → Type 0
Action Dev = System Dev → Outcome Dev

module _ {Dev : Type 0} where
  abbrev pub after : Outcome Dev → Action Dev → Outcome Dev
  after (next s) k = k s
  after (stopped s) k = stopped s
  after fault k = fault
  after (ended_by_port port value) k = ended_by_port port value
  after overrun k = overrun

  infixl 5 ◌>>◌
  abbrev pub ◌>>◌ : Action Dev → Action Dev → Action Dev
  ◌>>◌ a b s = after (a s) b

  abbrev pub nothing : Action Dev
  nothing s = next s

  -- `print(text);`
  abbrev pub say : List ℕ → Action Dev
  say text s = next (record s { screen = print text s.screen })

  abbrev pub on_screen : (Screen → Screen) → Action Dev
  on_screen f s = next (record s { screen = f s.screen })

  abbrev pub on_shell : (Shell → Shell) → Action Dev
  on_shell f s = next (record s { shell = f s.shell })

  -- A change of the shell's variables that may write behind an array.
  abbrev pub stored_or_overrun : System Dev → Option Shell → Outcome Dev
  stored_or_overrun s none = overrun
  stored_or_overrun s (some t) = next (record s { shell = t })

  abbrev pub on_arrays : (Shell → Option Shell) → Action Dev
  on_arrays f s = stored_or_overrun s (f s.shell)

  -- A call of the file system, with what follows a result and what follows -1.
  abbrev pub after_call :
      {A : Type 0} → System Dev → Run Dev A → (A → Action Dev) → Action Dev → Outcome Dev
  after_call s (done a w) found failed = found a (record s { world = w })
  after_call s (fail w) found failed = failed (record s { world = w })
  after_call s halted found failed = stopped s

  abbrev pub call : {A : Type 0} → M Dev A → (A → Action Dev) → Action Dev → Action Dev
  call m found failed s = after_call s (m s.world) found failed

  unfoldable pub for_each : {A : Type 0} → (A → Action Dev) → List A → Action Dev
  for_each f [] = nothing
  for_each f (a ∷ rest) = f a >> for_each f rest
