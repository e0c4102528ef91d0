-- ===== src/Memory/Bounds.antt =====
-- Where the frames lie that the allocator returns.
use Prim.Native.Nat.{bit_and}
use master_os.Base.{
  ℕ, zero, suc, ◌+◌, ◌-◌, ◌*◌, ◌/◌, ◌^◌, ◌≤◌, ◌<◌, ◌≡◌, ◌≢◌, refl, ◌⊎◌, inl, inr, arith, Bool, true,
  false, Bool-cases, Option, none, some, ◌==◌, if◌then◌else◌, u32, Bytes,
}
use master_os.Base.Bits.{and_seven}
use master_os.Memory.{
  Frames, start_byte, end_byte, free_bit, find_frame, take_frame, alloc_page_frame,
}

free_bit-some :
    (byte left i j : ℕ)
    → free_bit byte left i ≡ some j
    → (i ≤ j) × (j < i + left) × (bit_and (byte / 2 ^ j) 1 ≡ 0)
unfolding free_bit
free_bit-some byte zero i j e = cc
free_bit-some byte (suc left) i j e = elim (Bool-cases (bit_and (byte / 2 ^ i) 1 == 0)) [
  | inl free ↦
      let e' : some i ≡ some j = rw free at e in
      let same : i ≡ j = cc in rw (← same) (omega arith, omega arith, ground arith)
  | inr used ↦
      let r : (i + 1 ≤ j) × (j < i + 1 + left) × (bit_and (byte / 2 ^ j) 1 ≡ 0) =
        free_bit-some byte left (i + 1) j (rw used at e) in
      (omega arith, omega arith, r.2)
]

-- A frame that the search finds: its byte in the range, its bit clear.
abbrev pub IsClear : Bytes → (lo hi byte bit : ℕ) → Type 0
IsClear bitmap lo hi byte bit =
    (lo ≤ byte) × (byte < hi) × (bit < 8) × (bit_and (bitmap byte / 2 ^ bit) 1 ≡ 0)

IsClear-later :
    (bitmap : Bytes) (left b c i : ℕ)
    → IsClear bitmap (b + 1) (b + 1 + left) c i
    → IsClear bitmap b (b + suc left) c i
IsClear-later bitmap left b c i p = (omega arith, omega arith, p.2, p.3)

find_frame-some :
    (bitmap : Bytes) (left b c i : ℕ)
    → find_frame bitmap left b ≡ some (c, i)
    → IsClear bitmap b (b + left) c i
unfolding find_frame
find_frame-some bitmap zero b c i e = cc
find_frame-some bitmap (suc left) b c i e =
    split (bitmap b == 0xFF) (free_bit (bitmap b) 8 0) refl e
      (find_frame-some bitmap left (b + 1) c i)
  where
    split :
        (full : Bool) (r : Option ℕ)
        → free_bit (bitmap b) 8 0 ≡ r
        → (if full
            then find_frame bitmap left (b + 1)
            else elim r [ none ↦ find_frame bitmap left (b + 1) | some i' ↦ some (b, i') ])
          ≡ some (c, i)
        → (find_frame bitmap left (b + 1) ≡ some (c, i) → IsClear bitmap (b + 1) (b + 1 + left) c i)
        → IsClear bitmap b (b + suc left) c i
    split true r q h rest = IsClear-later bitmap left b c i (rest h)
    split false none q h rest = IsClear-later bitmap left b c i (rest h)
    split false (some j) q h rest =
        let found : (0 ≤ j) × (j < 0 + 8) × (bit_and (bitmap b / 2 ^ j) 1 ≡ 0) =
          free_bit-some (bitmap b) 8 0 j q in
        let h' : ◌≡◌ {A = Option (ℕ × ℕ)} (some (b, j)) (some (c, i)) = h in
        let same_byte : b ≡ c = cc in
        let same_bit : j ≡ i = cc in
        rw (← same_byte, ← same_bit) (omega arith, omega arith, omega arith, found.2)

-- The parts of an allocation that returns a frame, and of one that returns none.
pub record IsAllocated (m : Frames) (out : ℕ × Frames) : Type 0 where
  pub byte : ℕ
  pub bit : ℕ
  pub clear : IsClear m.bitmap (start_byte m) (end_byte m) byte bit
  pub address : out.0 ≡ (byte * 8 + bit) * 0x1000
  pub above : m.frame_min * 0x1000 ≤ out.0
  pub below : out.0 + 0x1000 ≤ m.frame_max * 0x1000
  pub others : (b : ℕ) → b ≢ byte → out.1.bitmap b ≡ m.bitmap b

within : (s e b : ℕ) → s ≤ b → b < s + (e - s) → b < e
within s e b p q = omega arith

end-le : (m : Frames) → 8 ≤ m.frame_max → m.frame_max ≤ 2 ^ 20 → end_byte m * 8 ≤ m.frame_max
end-le m p q = ground (arith, and_seven m.frame_max)

start-ge : (m : Frames) → m.frame_min ≤ start_byte m * 8
start-ge m = ground (arith, and_seven m.frame_min)

scaled : (lo s b i : ℕ) → lo ≤ s * 8 → s ≤ b → lo * 0x1000 ≤ (b * 8 + i) * 0x1000
scaled lo s b i p q = omega arith

address-small :
    (b i e : ℕ) {top : ℕ}
    → top ≤ 2 ^ 20
    → b < e
    → i < 8
    → e * 8 ≤ top
    → u32 ((b * 8 + i) * 0x1000) ≡ (b * 8 + i) * 0x1000
address-small b i e t p q r = omega arith

frame_below :
    (b i e top : ℕ) → b < e → i < 8 → e * 8 ≤ top → (b * 8 + i) * 0x1000 + 0x1000 ≤ top * 0x1000
frame_below b i e top p q r = omega arith

-- Where the bounds of memory are frame numbers, an allocation either returns 0 and changes
-- nothing, or the address of a frame whose bit was clear, that lies wholly between the two
-- bounds; of the bitmap it changes one byte.
pub alloc-IsAllocated :
    (m : Frames)
    → 8 ≤ m.frame_max
    → m.frame_max ≤ 2 ^ 20
    → (alloc_page_frame m ≡ (0, m)) ⊎ IsAllocated m (alloc_page_frame m)
unfolding alloc_page_frame take_frame
alloc-IsAllocated m some_memory top =
    split (find_frame m.bitmap (end_byte m - start_byte m) (start_byte m)) refl
  where
    split :
        (r : Option (ℕ × ℕ))
        → find_frame m.bitmap (end_byte m - start_byte m) (start_byte m) ≡ r
        → (take_frame m r ≡ (0, m)) ⊎ IsAllocated m (take_frame m r)
    split none e = inl refl
    split (some (b, i)) e = inr (record {
      byte = b;
      bit = i;
      clear = inside;
      address = address-small b i (end_byte m) top inside.1 inside.2 (end-le m some_memory top);
      above =
          rw (address-small b i (end_byte m) top inside.1 inside.2 (end-le m some_memory top))
            (scaled m.frame_min (start_byte m) b i (start-ge m) inside.0);
      below =
          rw (address-small b i (end_byte m) top inside.1 inside.2 (end-le m some_memory top))
            (frame_below b i (end_byte m) m.frame_max inside.1 inside.2 (end-le m some_memory top));
      others = λ c ne. ground arith;
    })
      where
        p : IsClear m.bitmap (start_byte m) (start_byte m + (end_byte m - start_byte m)) b i
        p = find_frame-some m.bitmap (end_byte m - start_byte m) (start_byte m) b i e

        inside : IsClear m.bitmap (start_byte m) (end_byte m) b i
        inside = (p.0, within (start_byte m) (end_byte m) b p.0 p.1, p.2, p.3)
