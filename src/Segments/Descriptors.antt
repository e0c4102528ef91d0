-- ===== src/Segments/Descriptors.antt =====
-- What the processor reads from a descriptor.
use master_os.Base.{
  ℕ, ◌+◌, ◌*◌, ◌/◌, ◌%◌, ◌^◌, ◌<◌, ◌≡◌, ◌≢◌, refl, arith, Bool, true, false, ◌==◌, if◌then◌else◌,
  add32,
}
use master_os.Base.Bits.{and_word, and_byte, and_nibble, and_high_nibble, or_fields}
use master_os.Segments.{Descriptor, Descriptors, descriptor, set_gdt_gate, init_gdt}

-- The base, put together from its three parts.
abbrev pub base_of : Descriptor → ℕ
base_of d = d.base_low + d.base_middle * 2 ^ 16 + d.base_high * 2 ^ 24

-- The 20 bits of the limit.
abbrev pub limit_of : Descriptor → ℕ
limit_of d = d.limit + d.flags % 16 * 2 ^ 16

-- The number of bytes in the segment, by the unit that bit 7 of the flags says.
abbrev pub size_of : Descriptor → ℕ
size_of d = if d.flags / 128 % 2 == 1 then (limit_of d + 1) * 4096 else limit_of d + 1

-- The privilege level from which the segment can be used.
abbrev pub level_of : Descriptor → ℕ
level_of d = d.access / 32 % 4

-- What a descriptor says.
pub record Describes (d : Descriptor) (base limit access gran : ℕ) : Type 0 where
  pub base_back : base_of d ≡ base
  pub limit_back : limit_of d ≡ limit % 2 ^ 20
  pub access_back : d.access ≡ access
  pub gran_back : d.flags / 16 ≡ gran / 16

flags_lem :
    (limit gran : ℕ)
    → gran < 256
    → (descriptor 0 limit 0 gran).flags ≡ limit / 65536 % 16 + gran / 16 * 16
unfolding descriptor
flags_lem limit gran h = ground (
  arith,
  and_nibble (limit / 65536),
  and_high_nibble gran,
  or_fields 4 (limit / 65536 % 16) (gran / 16 % 16),
)

-- A descriptor that is set is read back: the base whole, the limit in its lowest 20 bits, the
-- access byte, and the high half of the granularity.
pub set_gdt_gate-Describes :
    (num base limit access gran : ℕ) (entries : Descriptors)
    → base < 2 ^ 32
    → gran < 256
    → Describes (set_gdt_gate num base limit access gran entries num) base limit access gran
unfolding set_gdt_gate
set_gdt_gate-Describes num base limit access gran entries small byte =
    let here : (num == num) ≡ true = ground arith in
    rw here (record {
      base_back = omega (arith, and_word base, and_byte (base / 2 ^ 16), and_byte (base / 2 ^ 24));
      limit_back = omega (arith, and_word limit, flags_lem limit gran byte);
      access_back = refl;
      gran_back = omega (arith, flags_lem limit gran byte);
    })

set_gdt_gate_ne :
    (num base limit access gran : ℕ) (entries : Descriptors) (i : ℕ)
    → i ≢ num
    → set_gdt_gate num base limit access gran entries i ≡ entries i
unfolding set_gdt_gate
set_gdt_gate_ne num base limit access gran entries i ne = ground arith

-- A segment of the whole address space, code or data, for a privilege level.
pub record IsFlat (d : Descriptor) (level : ℕ) (code : Bool) : Type 0 where
  pub base : base_of d ≡ 0
  pub size : size_of d ≡ 2 ^ 32
  pub privilege : level_of d ≡ level
  pub executable : (d.access / 8 % 2 == 1) ≡ code

-- The descriptors that `initGDT` leaves, for a task state at an address.
pub record IsInstalled (tss_entry : ℕ) (entries : Descriptors) : Type 0 where
  pub kernel_code : IsFlat (entries 1) 0 true
  pub kernel_data : IsFlat (entries 2) 0 false
  pub user_code : IsFlat (entries 3) 3 true
  pub user_data : IsFlat (entries 4) 3 false
  pub task : base_of (entries 5) ≡ tss_entry
  pub task_limit : limit_of (entries 5) ≡ add32 tss_entry 112 % 2 ^ 20

-- `initGDT` leaves four segments of 4 GB from address 0, code and data for the kernel's and the
-- user's privilege level, and a descriptor of the task state at its address, whose limit is not
-- its size but the lowest 20 bits of the address of its end.
pub init_gdt-IsInstalled :
    (tss_entry : ℕ) (entries : Descriptors)
    → tss_entry < 2 ^ 32
    → IsInstalled tss_entry (init_gdt tss_entry entries).0
unfolding init_gdt
init_gdt-IsInstalled tss_entry entries small = record {
  kernel_code = record { base = refl; size = refl; privilege = refl; executable = refl };
  kernel_data = record { base = refl; size = refl; privilege = refl; executable = refl };
  user_code = record { base = refl; size = refl; privilege = refl; executable = refl };
  user_data = record { base = refl; size = refl; privilege = refl; executable = refl };
  task =
      (set_gdt_gate-Describes 5 tss_entry (add32 tss_entry 112) 0xE9 0x00 entries small
        (omega arith)).base_back;
  task_limit =
      (set_gdt_gate-Describes 5 tss_entry (add32 tss_entry 112) 0xE9 0x00 entries small
        (omega arith)).limit_back;
}
