-- ===== src/Keyboard/Modifiers.antt =====
-- The two shift states, from the events alone, and what the handler forwards.
use master_os.Base.{
  ℕ, ◌+◌, ap, ◌<◌, ◌≡◌, refl, ◌∙◌, arith, Bool, true, false, ◌||◌, not, Option, none, some, List,
  [], ◌∷◌, All, bit_and, ltb, ◌==◌, if◌then◌else◌, Bool-cases, inl, inr,
}
use master_os.Base.Bits.{and_low_seven, and_top_bit}
use master_os.Keyboard.{Keyboard, is_ignored, key_of, forwarded, keyb_handler, keyb_run}

-- Whether left Shift is down after the events: what the last of its events says.
abbrev pub shift_down : List ℕ → Bool → Bool
shift_down [] before = before
shift_down (byte ∷ bytes) before =
    shift_down bytes (if byte == 42 then true else if byte == 42 + 128 then false else before)

-- Whether Caps Lock is on: each press of it, and no release, turns it over.
abbrev pub lock_on : List ℕ → Bool → Bool
lock_on [] before = before
lock_on (byte ∷ bytes) before = lock_on bytes (if byte == 58 then not before else before)

handler-shift :
    (byte : ℕ) (k : Keyboard)
    → byte < 256
    → (keyb_handler byte byte k).0.caps_on
      ≡ (if byte == 42 then true else if byte == 42 + 128 then false else k.caps_on)
unfolding keyb_handler
handler-shift byte k h = ground (arith, and_low_seven byte, and_top_bit byte)

handler-lock :
    (byte : ℕ) (k : Keyboard)
    → byte < 256
    → (keyb_handler byte byte k).0.caps_lock ≡ (if byte == 58 then not k.caps_lock else k.caps_lock)
unfolding keyb_handler
handler-lock byte k h = ground (arith, and_low_seven byte, and_top_bit byte)

-- After any keys, Shift is as its last event says and Caps Lock is on after an odd number of
-- presses; what is forwarded to the handler is below 128.
pub record IsTracked (bytes : List ℕ) (k : Keyboard) (out : Keyboard × List ℕ) : Type 0 where
  pub shift : out.0.caps_on ≡ shift_down bytes k.caps_on
  pub lock : out.0.caps_lock ≡ lock_on bytes k.caps_lock
  pub ascii : All (λ c. c < 128) out.1

abbrev IsAscii : Option ℕ → Type 0
IsAscii none = Unit
IsAscii (some c) = c < 128

forwarded-IsAscii : (key : ℕ) → IsAscii (forwarded key)
forwarded-IsAscii key = elim (Bool-cases (ltb key 0x80 || key == 8 || key == 0x0A)) [
  | inl e ↦ rw e (ground arith)
  | inr e ↦ rw e tt
]

record Sends (r : Keyboard × Option ℕ) : Type 0 where
  ascii : IsAscii r.1

Sends-if : (b : Bool) {x y : Keyboard × Option ℕ} → Sends x → Sends y → Sends (if b then x else y)
Sends-if true p q = p
Sends-if false p q = q

handler-Sends : (byte : ℕ) (k : Keyboard) → Sends (keyb_handler byte byte k)
unfolding keyb_handler
handler-Sends byte k =
    Sends-if (is_ignored (bit_and byte 0x7F)) (record { ascii = tt })
      (Sends-if (bit_and byte 0x7F == 42) (record { ascii = tt })
        (Sends-if (bit_and byte 0x7F == 58) (record { ascii = tt })
          (Sends-if (bit_and byte 0x80 == 0)
            (record { ascii = forwarded-IsAscii (key_of k (bit_and byte 0x7F)) })
            (record { ascii = tt }))))

sent_first :
    (sent : Option ℕ) (rest : List ℕ)
    → IsAscii sent
    → All (λ c. c < 128) rest
    → All (λ c. c < 128) (elim sent [ none ↦ rest | some c ↦ c ∷ rest ])
sent_first none rest p q = q
sent_first (some c) rest p q = (p, q)

-- For bytes from the port, after any number of interrupts: `capsOn` is what the last event of
-- left Shift says, `capsLock` has been turned over by every press of Caps Lock and by no other
-- event, and only characters below 128 have reached the handler.
pub keyb_run-IsTracked :
    (bytes : List ℕ) (k : Keyboard)
    → All (λ b. b < 256) bytes
    → IsTracked bytes k (keyb_run bytes k)
unfolding keyb_run
keyb_run-IsTracked [] k h = record { shift = refl; lock = refl; ascii = tt }
keyb_run-IsTracked (byte ∷ bytes) k h =
    let rest : IsTracked bytes (keyb_handler byte byte k).0
        (keyb_run bytes (keyb_handler byte byte k).0) =
      keyb_run-IsTracked bytes (keyb_handler byte byte k).0 h.1 in
    record {
      shift = rest.shift ∙ ap (shift_down bytes) (handler-shift byte k h.0);
      lock = rest.lock ∙ ap (lock_on bytes) (handler-lock byte k h.0);
      ascii = sent_first (keyb_handler byte byte k).1 _ (handler-Sends byte k).ascii rest.ascii;
    }
