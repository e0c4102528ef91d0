-- ===== src/Segments.antt =====
-- drivers/gdt.c: the segment descriptors and the task state. The address of `tss_entry` is a
-- parameter.
pub mod Descriptors
use master_os.Base.{
  ℕ, ◌+◌, ◌*◌, ◌/◌, ◌%◌, ◌^◌, Bool, true, false, ◌==◌, if◌then◌else◌, bit_and, bit_or, add32, ◌>>>◌,
}

-- `struct gdt_entry_struct`
pub record Descriptor : Type 0 where
  pub limit : ℕ
  pub base_low : ℕ
  pub base_middle : ℕ
  pub access : ℕ
  pub flags : ℕ
  pub base_high : ℕ

-- `gdt_entries`, by their number.
abbrev pub Descriptors : Type 0
Descriptors = ℕ → Descriptor

unfoldable pub descriptor : (base limit access gran : ℕ) → Descriptor
descriptor base limit access gran = record {
  base_low = bit_and base 0xFFFF;
  base_middle = bit_and (base >>> 16) 0xFF;
  base_high = bit_and (base >>> 24) 0xFF;
  limit = bit_and limit 0xFFFF;
  flags = bit_or (bit_and (limit >>> 16) 0x0F) (bit_and gran 0xF0);
  access = access;
}

unfoldable pub set_gdt_gate : (num base limit access gran : ℕ) → Descriptors → Descriptors
unfolding descriptor
set_gdt_gate num base limit access gran entries i =
    if i == num then descriptor base limit access gran else entries i

-- The fields of `tss_entry` that `writeTSS` sets; the others are 0.
pub record Task : Type 0 where
  pub ss0 : ℕ
  pub esp0 : ℕ
  pub cs : ℕ
  pub data_segments : ℕ

-- `sizeof(tss_entry)`: 28 fields of 32 bits.
abbrev pub sizeof_tss : ℕ
sizeof_tss = 112

unfoldable pub write_tss : (tss_entry num ss0 esp0 : ℕ) → Descriptors → Descriptors × Task
unfolding set_gdt_gate
write_tss tss_entry num ss0 esp0 entries = (
  set_gdt_gate num tss_entry (add32 tss_entry sizeof_tss) 0xE9 0x00 entries,
  record { ss0 = ss0; esp0 = esp0; cs = bit_or 0x08 0x3; data_segments = bit_or 0x10 0x3 },
)

unfoldable pub init_gdt : (tss_entry : ℕ) → Descriptors → Descriptors × Task
unfolding write_tss
init_gdt tss_entry entries = write_tss tss_entry 5 0x10 0x0 (
    set_gdt_gate 4 0 0xFFFFFFF 0xF2 0xCF (
      set_gdt_gate 3 0 0xFFFFFFF 0xFA 0xCF (
        set_gdt_gate 2 0 0xFFFFFFF 0x92 0xCF
          (set_gdt_gate 1 0 0xFFFFFFF 0x9A 0xCF (set_gdt_gate 0 0 0 0 0 entries)))))
