-- ===== src/Interrupts.antt =====
-- interrupts/idt.c: the interrupt table, the programming of the two interrupt controllers, and
-- the two handlers. The addresses of the assembly stubs are parameters; `outPortB` calls are a
-- list of ports and values, in order.
pub mod Routing
use master_os.Base.{
  ℕ, zero, suc, ◌+◌, ◌-◌, ◌*◌, ◌/◌, ◌%◌, ◌^◌, Bool, true, false, Option, none, some, List, [], ◌∷◌,
  ◌++◌, ltb, leb, ◌==◌, if◌then◌else◌, bit_and, bit_or, u8, u16, ◌>>>◌, get_or,
}
use master_os.Text.{codes}
use master_os.Stdio.{print_hex}

-- `struct idt_entry_struct`
pub record Gate : Type 0 where
  pub base_low : ℕ
  pub sel : ℕ
  pub always0 : ℕ
  pub flags : ℕ
  pub base_high : ℕ

-- The 256 gates, by their number.
abbrev pub Gates : Type 0
Gates = ℕ → Gate

abbrev pub no_gate : Gate
no_gate = record { base_low = 0; sel = 0; always0 = 0; flags = 0; base_high = 0 }

unfoldable pub set_idt_gate : (num base sel flags : ℕ) → Gates → Gates
set_idt_gate num base sel flags gates i =
    if i == num
    then record {
      base_low = bit_and base 0xFFFF;
      base_high = bit_and (base >>> 16) 0xFFFF;
      sel = sel;
      always0 = 0;
      flags = bit_or flags 0x60;
    }
    else gates i

-- `setIDTGate(first, stubs(0), 0x08, 0x8E)` and so on, `count` calls.
unfoldable pub set_gates : (stubs : ℕ → ℕ) (first count : ℕ) → Gates → Gates
unfolding set_idt_gate
set_gates stubs first zero gates = gates
set_gates stubs first (suc count) gates =
    set_idt_gate (first + count) (stubs count) 0x08 0x8E (set_gates stubs first count gates)

-- The table that `initIDT` leaves.
unfoldable pub init_idt : (isr irq : ℕ → ℕ) → Gates
unfolding set_gates
init_idt isr irq =
    set_idt_gate 177 (isr 177) 0x08 0x8E (
      set_idt_gate 128 (isr 128) 0x08 0x8E
        (set_gates irq 32 16 (set_gates isr 0 32 (λ _. no_gate))))

-- What `initIDT` writes to the ports of the interrupt controllers.
abbrev pub pic_setup : List (ℕ × ℕ)
pic_setup =
    (0x20, 0x11)
    ∷ (0xA0, 0x11)
    ∷ (0x21, 0x20)
    ∷ (0xA1, 0x28)
    ∷ (0x21, 0x04)
    ∷ (0xA1, 0x02)
    ∷ (0x21, 0x01)
    ∷ (0xA1, 0x01)
    ∷ (0x21, 0x0)
    ∷ (0xA1, 0x0)
    ∷ []

-- The fields of `struct InterruptRegisters` that are read.
pub record Registers : Type 0 where
  pub cr2 : ℕ
  pub int_no : ℕ
  pub err_code : ℕ
  pub eip : ℕ

abbrev pub exception_messages : List (List ℕ)
exception_messages =
    codes "Divison By Zero"
    ∷ codes "Debug"
    ∷ codes "Not Maskable Interrupt"
    ∷ codes "Breakpoint"
    ∷ codes "Into Detected Overflow"
    ∷ codes "Out of Bounds"
    ∷ codes "Invalid Opcode"
    ∷ codes "No Coprocessor"
    ∷ codes "Double fault"
    ∷ codes "Coprocessor Segment Overrun"
    ∷ codes "Bad TSS"
    ∷ codes "Segment not present"
    ∷ codes "Stack fault"
    ∷ codes "General protection fault"
    ∷ codes "Page fault"
    ∷ codes "Unknown Interrupt"
    ∷ codes "Coprocessor Fault"
    ∷ codes "Alignment Fault"
    ∷ codes "Machine Check"
    ∷ []

-- The last thirteen messages are "Reserved".
abbrev pub message : ℕ → List ℕ
message n = get_or exception_messages n (codes "Reserved")

-- What is printed of a page fault.
abbrev pub page_fault_text : Registers → List ℕ
unfolding print_hex
page_fault_text r =
    codes "Faulting address: "
    ++ print_hex r.cr2
    ++ codes "\n"
    ++ codes "Error code: "
    ++ print_hex r.err_code
    ++ codes "  ("
    ++ (if bit_and r.err_code 0x1 == 0 then codes "not-present " else codes "protection-violation ")
    ++ (if bit_and r.err_code 0x2 == 0 then codes "read " else codes "write ")
    ++ (if bit_and r.err_code 0x4 == 0 then codes "kernel-mode " else codes "user-mode ")
    ++ codes ")\n"
    ++ codes "EIP: "
    ++ print_hex r.eip
    ++ codes "\n"

-- `isr_handler` prints and does not come back, or (`none`) does nothing.
unfoldable pub isr_handler : Registers → Option (List ℕ)
unfolding page_fault_text
isr_handler r =
    if ltb r.int_no 32
    then some (
        message r.int_no
        ++ codes "\n"
        ++ (if r.int_no == 14 then page_fault_text r else [])
        ++ codes "Exception! System Halted\n")
    else none

-- `irq_routines`, of handlers of some type.
module _ {Handler : Type 0} where
  abbrev pub irq_install_handler : (irq : ℕ) → Handler → (ℕ → Option Handler) → ℕ → Option Handler
  irq_install_handler irq handler routines i = if i == irq then some handler else routines i

  abbrev pub irq_uninstall_handler : (irq : ℕ) → (ℕ → Option Handler) → ℕ → Option Handler
  irq_uninstall_handler irq routines i = if i == irq then none else routines i

  -- The handler that is called, and then the ports that are written.
  unfoldable pub irq_handler : (int_no : ℕ) → (ℕ → Option Handler) → Option Handler × List (ℕ × ℕ)
  irq_handler int_no routines = (
    routines (int_no - 32),
    (if leb 40 int_no then (0xA0, 0x20) ∷ [] else []) ++ (0x20, 0x20) ∷ [],
  )
