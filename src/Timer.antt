-- ===== src/Timer.antt =====
-- timer.c and drivers/device/speaker.c: the counter of ticks, and the ports of the timer chip.
use master_os.Base.{
  ℕ, ◌+◌, ◌/◌, ◌%◌, ◌^◌, Option, none, some, ◌==◌, if◌then◌else◌, bit_and, bit_or, u8, u32, ◌>>>◌,
}
use master_os.Ata.{Controller}
use master_os.Interrupts.{irq_install_handler}

-- `freq`
abbrev pub timer_freq : ℕ
timer_freq = 100

-- `ticks += 1`, in 64 bits.
unfoldable pub on_irq0 : (ticks : ℕ) → ℕ
on_irq0 ticks = (ticks + 1) % 2 ^ 64

-- The seconds since the start.
unfoldable pub gus : (ticks : ℕ) → ℕ
gus ticks = u32 (ticks / 100)

module _ (C : Controller) where
  -- The new `ticks`, the handlers, and the chip.
  unfoldable pub init_timer :
      {Handler : Type 0}
      → Handler
      → (ℕ → Option Handler)
      → C.State
      → ℕ × (ℕ → Option Handler) × C.State
  init_timer handler routines s =
      let divisor = 1193180 / timer_freq in
      let mode = C.out_port_b 0x43 0x36 s in
      let low = C.out_port_b 0x40 (u8 (bit_and divisor 0xFF)) mode in
      let high = C.out_port_b 0x40 (u8 (bit_and (divisor >>> 8) 0xFF)) low in
      (0, irq_install_handler 0 handler routines, high)

  -- A division by zero faults (`none`).
  unfoldable pub speaker_play : (freq : ℕ) → C.State → Option C.State
  speaker_play freq s =
      let div = 1193180 / freq in
      let mode = C.out_port_b 0x43 0xB6 s in
      let low = C.out_port_b 0x42 (u8 div) mode in
      let high = C.out_port_b 0x42 (u8 (div >>> 8)) low in
      let temp = C.in_port_b 0x61 high in
      let on =
        if temp.0 == bit_or temp.0 3 then temp.1 else C.out_port_b 0x61 (bit_or temp.0 3) temp.1 in
      if freq == 0 then none else some on

  unfoldable pub speaker_stop : C.State → C.State
  speaker_stop s = let tmp = C.in_port_b 0x61 s in C.out_port_b 0x61 (bit_and tmp.0 0xFC) tmp.1
