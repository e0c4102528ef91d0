-- ===== src/Memory/Reuse.antt =====
-- A frame is given out again while it is still in use.
use master_os.Base.{
  ℕ, zero, suc, ◌+◌, ◌-◌, ◌*◌, ◌%◌, ◌<◌, ◌≡◌, refl, ap, ◌⊎◌, inl, inr, arith, some, u32, Bytes,
}
use master_os.Memory.{Frames, start_byte, end_byte, find_frame, take_frame, alloc_page_frame}

-- The state after `n` allocations.
unfoldable pub after_allocs : ℕ → Frames → Frames
after_allocs zero m = m
after_allocs (suc n) m = (alloc_page_frame (after_allocs n m)).1

-- What the search finds where the first byte holds nothing, bit 0 alone, or bit 1 alone.
first_find :
    (bitmap : Bytes) (left b : ℕ) (v : ℕ)
    → (v ≡ 0) ⊎ (v ≡ 2)
    → bitmap b ≡ v
    → find_frame bitmap (suc left) b ≡ some (b, 0)
unfolding find_frame
first_find bitmap left b v (inl z) e = rw (e, z)
first_find bitmap left b v (inr z) e = rw (e, z)

second_find :
    (bitmap : Bytes) (left b : ℕ) → bitmap b ≡ 1 → find_frame bitmap (suc left) b ≡ some (b, 1)
unfolding find_frame
second_find bitmap left b e = rw e

abbrev pub frame_address : (byte bit : ℕ) → ℕ
frame_address byte bit = u32 ((byte * 8 + bit) * 0x1000)

-- The bounds of the search are those of `m`, and its first byte holds `v`.
record Holds (m : Frames) (v : ℕ) (m' : Frames) : Type 0 where
  min_same : m'.frame_min ≡ m.frame_min
  max_same : m'.frame_max ≡ m.frame_max
  first : m'.bitmap (start_byte m) ≡ v

module _ (m m' : Frames) (room : start_byte m < end_byte m) where
  search_as :
      {v : ℕ}
      → Holds m v m'
      → alloc_page_frame m'
        ≡ take_frame m' (find_frame m'.bitmap (suc (end_byte m - start_byte m - 1)) (start_byte m))
  unfolding alloc_page_frame
  search_as s =
      let size : end_byte m - start_byte m ≡ suc (end_byte m - start_byte m - 1) = omega arith in
      simp (s.min_same, s.max_same)
        (ap (λ n. take_frame m' (find_frame m'.bitmap n (start_byte m))) size)

  take_bit_zero :
      (v : ℕ)
      → (v ≡ 0) ⊎ (v ≡ 2)
      → Holds m v m'
      → ((alloc_page_frame m').0 ≡ frame_address (start_byte m) 0)
        × Holds m 1 (alloc_page_frame m').1
  unfolding take_frame
  take_bit_zero v c s =
      rw
        (
          search_as s,
          first_find m'.bitmap (end_byte m - start_byte m - 1) (start_byte m) v c s.first,
        )
        (refl, record { min_same = s.min_same; max_same = s.max_same; first = ground arith })

  take_bit_one :
      Holds m 1 m'
      → ((alloc_page_frame m').0 ≡ frame_address (start_byte m) 1)
        × Holds m 2 (alloc_page_frame m').1
  unfolding take_frame
  take_bit_one s =
      rw (search_as s, second_find m'.bitmap (end_byte m - start_byte m - 1) (start_byte m) s.first)
        (refl, record { min_same = s.min_same; max_same = s.max_same; first = ground arith })

module _ (m : Frames) (room : start_byte m < end_byte m) (clear : m.bitmap (start_byte m) ≡ 0) where
  -- After an even number of allocations the byte holds 0 or 2, and after an odd number 1.
  abbrev EvenOdd : ℕ → Type 0
  EvenOdd n =
      ((n % 2 ≡ 0) × (v : ℕ) × ((v ≡ 0) ⊎ (v ≡ 2)) × Holds m v (after_allocs n m))
      ⊎ ((n % 2 ≡ 1) × Holds m 1 (after_allocs n m))

  even_odd : (n : ℕ) → EvenOdd n
  unfolding after_allocs
  even_odd zero =
      inl (refl, 0, inl refl, record { min_same = refl; max_same = refl; first = clear })
  even_odd (suc n) = elim (even_odd n) [
    | inl (e, v, c, s) ↦ inr (omega arith, (take_bit_zero m (after_allocs n m) room v c s).1)
    | inr (e, s) ↦ inl (omega arith, 2, inr refl, (take_bit_one m (after_allocs n m) room s).1)
  ]

  -- If the first byte of the searched part of the bitmap is clear, as after `pmm_init`, then of
  -- any number of allocations each one returns one of only two frames, in turn: from the third
  -- allocation on, every frame that is returned has been handed out before.
  pub alloc-two_frames :
      (n : ℕ) → (alloc_page_frame (after_allocs n m)).0 ≡ frame_address (start_byte m) (n % 2)
  alloc-two_frames n = elim (even_odd n) [
    | inl (e, v, c, s) ↦ rw e (take_bit_zero m (after_allocs n m) room v c s).0
    | inr (e, s) ↦ rw e (take_bit_one m (after_allocs n m) room s).0
  ]
