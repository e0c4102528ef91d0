-- ===== src/Interrupts/Routing.antt =====
-- Where an exception, an interrupt line and the installed handlers meet.
use master_os.Base.{
  ℕ, zero, suc, ◌+◌, ◌*◌, ◌/◌, ◌^◌, ◌<◌, ◌≤◌, ◌≡◌, ◌≢◌, refl, ◌∙◌, ◌⊎◌, inl, inr, arith, Bool, true,
  false, ◌&&◌, Option, none, some, List, [], ◌∷◌, ◌==◌, if◌then◌else◌,
}
use native.Mathlib.Decide.{ℕ_discrete}
use master_os.Base.Bits.{and_word}
use master_os.Interrupts.{Gate, Gates, no_gate, set_idt_gate, set_gates, init_idt, pic_setup}

-- The gate holds the address, split in two, in the kernel's code segment.
pub record LeadsTo (g : Gate) (address : ℕ) : Type 0 where
  pub base : g.base_high * 65536 + g.base_low ≡ address
  pub segment : g.sel ≡ 0x08
  pub zero_byte : g.always0 ≡ 0
  pub flags : g.flags ≡ 0xEE

set_idt_gate-LeadsTo :
    (num base : ℕ) (gates : Gates)
    → base < 2 ^ 32
    → LeadsTo (set_idt_gate num base 0x08 0x8E gates num) base
unfolding set_idt_gate
set_idt_gate-LeadsTo num base gates h =
    let here : (num == num) ≡ true = ground arith in
    rw here (record {
      base = omega (arith, and_word base, and_word (base / 65536));
      segment = refl;
      zero_byte = refl;
      flags = refl;
    })

set_idt_gate_ne :
    (num base sel flags : ℕ) (gates : Gates) (i : ℕ)
    → i ≢ num
    → set_idt_gate num base sel flags gates i ≡ gates i
unfolding set_idt_gate
set_idt_gate_ne num base sel flags gates i ne = ground arith

module _ (stubs : ℕ → ℕ) (small : (k : ℕ) → stubs k < 2 ^ 32) (first : ℕ) (gates : Gates) where
  set_gates-LeadsTo :
      (count k : ℕ) → k < count → LeadsTo (set_gates stubs first count gates (first + k)) (stubs k)
  unfolding set_gates
  set_gates-LeadsTo zero k lt = absurd (omega arith)
  set_gates-LeadsTo (suc count) k lt = elim (ℕ_discrete count k) [
    | yes e ↦
        rw e (set_idt_gate-LeadsTo (first + k) (stubs k) (set_gates stubs first k gates) (small k))
    | no ne ↦
        rw
          (set_idt_gate_ne (first + count) (stubs count) 0x08 0x8E
            (set_gates stubs first count gates) (first + k) (omega arith))
          (set_gates-LeadsTo count k (omega arith))
  ]

  set_gates-else :
      (count i : ℕ)
      → (i < first) ⊎ (first + count ≤ i)
      → set_gates stubs first count gates i ≡ gates i
  unfolding set_gates
  set_gates-else zero i out = refl
  set_gates-else (suc count) i out =
      set_idt_gate_ne (first + count) (stubs count) 0x08 0x8E (set_gates stubs first count gates) i
        (omega arith)
      ∙ set_gates-else count i (omega arith)

-- The vector of the first line of a controller: the data byte after the command 0x11.
unfoldable pub vector_base : (command port : ℕ) → (started : Bool) → List (ℕ × ℕ) → Option ℕ
vector_base command port started [] = none
vector_base command port started ((p, v) ∷ rest) =
    if started
    then (if p == port then some v else vector_base command port true rest)
    else vector_base command port (p == command && v == 0x11) rest

-- The table that the processor is given, and the vectors that the controllers send.
pub record IsRouted (isr irq : ℕ → ℕ) (gates : Gates) (setup : List (ℕ × ℕ)) : Type 0 where
  pub master : ℕ
  pub slave : ℕ
  pub master_base : vector_base 0x20 0x21 false setup ≡ some master
  pub slave_base : vector_base 0xA0 0xA1 false setup ≡ some slave
  pub exceptions : (n : ℕ) → n < 32 → LeadsTo (gates n) (isr n)
  pub master_lines : (k : ℕ) → k < 8 → LeadsTo (gates (master + k)) (irq k)
  pub slave_lines : (k : ℕ) → k < 8 → LeadsTo (gates (slave + k)) (irq (8 + k))
  pub calls : LeadsTo (gates 128) (isr 128) × LeadsTo (gates 177) (isr 177)
  pub others : (n : ℕ) → 48 ≤ n → n ≢ 128 → n ≢ 177 → gates n ≡ no_gate

module _ (isr irq : ℕ → ℕ) (isr_small : (n : ℕ) → isr n < 2 ^ 32)
    (irq_small : (k : ℕ) → irq k < 2 ^ 32) where
  abbrev exceptions_set : Gates
  exceptions_set = set_gates isr 0 32 (λ _. no_gate)

  abbrev lines_set : Gates
  lines_set = set_gates irq 32 16 exceptions_set

  abbrev call_set : Gates
  call_set = set_idt_gate 128 (isr 128) 0x08 0x8E lines_set

  -- Below 128 the two last gates do not matter.
  init_idt-low : (n : ℕ) → n < 128 → init_idt isr irq n ≡ lines_set n
  unfolding init_idt
  init_idt-low n lt =
      set_idt_gate_ne 177 (isr 177) 0x08 0x8E call_set n (omega arith)
      ∙ set_idt_gate_ne 128 (isr 128) 0x08 0x8E lines_set n (omega arith)

  line-LeadsTo : (k : ℕ) → k < 16 → LeadsTo (init_idt isr irq (32 + k)) (irq k)
  line-LeadsTo k lt =
      rw (init_idt-low (32 + k) (omega arith))
        (set_gates-LeadsTo irq irq_small 32 exceptions_set 16 k lt)

  exception-LeadsTo : (n : ℕ) → n < 32 → LeadsTo (init_idt isr irq n) (isr n)
  exception-LeadsTo n lt =
      let start : 0 + n ≡ n = omega arith in
      rw
        (init_idt-low n (omega arith), set_gates-else irq irq_small 32 exceptions_set 16 n (inl lt))
        (rw start at (set_gates-LeadsTo isr isr_small 0 (λ _. no_gate) 32 n lt))

  no_other : (n : ℕ) → 48 ≤ n → n ≢ 128 → n ≢ 177 → init_idt isr irq n ≡ no_gate
  unfolding init_idt
  no_other n h a b =
      set_idt_gate_ne 177 (isr 177) 0x08 0x8E call_set n b
      ∙ set_idt_gate_ne 128 (isr 128) 0x08 0x8E lines_set n a
      ∙ set_gates-else irq irq_small 32 exceptions_set 16 n (inr (omega arith))
      ∙ set_gates-else isr isr_small 0 (λ _. no_gate) 32 n (inr (omega arith))

  call-LeadsTo : LeadsTo (init_idt isr irq 128) (isr 128) × LeadsTo (init_idt isr irq 177) (isr 177)
  unfolding init_idt
  call-LeadsTo = (
    rw (set_idt_gate_ne 177 (isr 177) 0x08 0x8E call_set 128 (omega arith))
        (set_idt_gate-LeadsTo 128 (isr 128) lines_set (isr_small 128)),
    set_idt_gate-LeadsTo 177 (isr 177) call_set (isr_small 177),
  )

  -- For stubs at 32-bit addresses: each exception from 0 to 31, and the calls 128 and 177, lead
  -- to their own stub; each of the eight lines of either controller, at the vector that the
  -- controller was programmed with, leads to the stub of that line; every other gate is empty.
  pub init_idt-IsRouted : IsRouted isr irq (init_idt isr irq) pic_setup
  init_idt-IsRouted = record {
    master = 32;
    slave = 40;
    master_base = unfold vector_base in refl;
    slave_base = unfold vector_base in refl;
    exceptions = exception-LeadsTo;
    master_lines = λ k lt. line-LeadsTo k (omega arith);
    slave_lines = λ k lt.
        let at : 40 + k ≡ 32 + (8 + k) = omega arith in rw at (line-LeadsTo (8 + k) (omega arith));
    calls = call-LeadsTo;
    others = no_other;
  }
