-- ===== src/Memory.antt =====
-- memory/memory.c: the allocator of physical page frames (pmm_init, pmmAllocPageFrame).
pub mod Reuse
pub mod Bounds
pub mod Paging
use master_os.Base.{
  ℕ, zero, suc, ◌+◌, ◌-◌, ◌*◌, ◌/◌, ◌^◌, ◌<◌, Bool, Option, none, some, ltb, ◌==◌, if◌then◌else◌,
  bit_and, not, u8, u32, add32, sub32, ◌<<<◌, ◌>>>◌, Bytes, put,
}

-- `pageFrameMin`, `pageFrameMax`, `totalAlloc` and the bitmap `PMB`, a bit for each frame.
pub record Frames : Type 0 where
  pub frame_min : ℕ
  pub frame_max : ℕ
  pub total_alloc : ℕ
  pub bitmap : Bytes

-- `CEIL_DIV(a, b)`, in 32-bit arithmetic.
abbrev pub ceil_div : ℕ → ℕ → ℕ
ceil_div a b = sub32 (add32 a b) 1 / b

unfoldable pub pmm_init : (mem_low mem_high : ℕ) → Frames
pmm_init mem_low mem_high = record {
  frame_min = ceil_div mem_low 0x1000;
  frame_max = mem_high / 0x1000;
  total_alloc = 0;
  bitmap = λ _. 0;
}

-- The bytes of the bitmap that are searched: from the first to before the last.
abbrev pub start_byte : Frames → ℕ
start_byte m = m.frame_min / 8 + (if bit_and m.frame_min 7 == 0 then 0 else 1)

abbrev pub end_byte : Frames → ℕ
end_byte m = sub32 (m.frame_max / 8) (if bit_and m.frame_max 7 == 0 then 0 else 1)

-- The inner loop: the lowest clear bit of a byte, from bit `i` on.
unfoldable pub free_bit : (byte left i : ℕ) → Option ℕ
free_bit byte zero i = none
free_bit byte (suc left) i =
    let rest = free_bit byte left (i + 1) in if bit_and (byte >>> i) 1 == 0 then some i else rest

-- The search of the bitmap, from byte `b` on: the byte and the bit.
unfoldable pub find_frame : Bytes → (left b : ℕ) → Option (ℕ × ℕ)
unfolding free_bit
find_frame bitmap zero b = none
find_frame bitmap (suc left) b =
    let rest = find_frame bitmap left (b + 1) in
    if bitmap b == 0xFF
    then rest
    else elim (free_bit (bitmap b) 8 0) [ none ↦ rest | some i ↦ some (b, i) ]

-- `PMB[b] = (1 << i)`: the byte is stored, not added to.
unfoldable pub take_frame : Frames → Option (ℕ × ℕ) → ℕ × Frames
take_frame m none = (0, m)
take_frame m (some (b, i)) = (
  u32 ((b * 8 + i) * 0x1000),
  record m { bitmap = put m.bitmap b (u8 (1 <<< i)); total_alloc = add32 m.total_alloc 1 },
)

-- The result is the physical address of the frame, or 0.
unfoldable pub alloc_page_frame : Frames → ℕ × Frames
unfolding find_frame take_frame
alloc_page_frame m = take_frame m (find_frame m.bitmap (end_byte m - start_byte m) (start_byte m))
