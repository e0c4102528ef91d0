-- ===== src/Memory/Paging/Entries.antt =====
-- The entries of page tables, and what the processor makes of them.
use master_os.Base.{
  ℕ, zero, suc, ◌+◌, ◌*◌, ◌/◌, ◌%◌, ◌^◌, ◌<◌, ◌≤◌, ◌≡◌, ◌≢◌, refl, sym, ap, ◌∙◌, ◌⊎◌, inl, inr,
  arith, Option, none, some, ◌==◌, if◌then◌else◌, bit_or,
}
use master_os.Base.Bits.{or_bit_seven, or_flags, or_low_bit, or_high_field}
use native.Mathlib.Decide.{ℕ_discrete}
use master_os.Memory.Paging.{
  Paging, owner_flag, frame_of, write_word, rec_page_dir, rec_page_table, clear_words, set_page,
}

-- The two tables that the processor goes through. Bit 7 of an entry of the directory makes it a
-- page of 4 MB, as boot.s switches on.
unfoldable pub translate : (cr3 : ℕ) → (ℕ → ℕ → ℕ) → (virtual_addr : ℕ) → Option ℕ
translate cr3 words v =
    let pde = words (cr3 / 4096) (v / 2 ^ 22) in
    let pte = words (pde / 4096) (v / 4096 % 1024) in
    if pde % 2 == 0
    then none
    else if pde / 128 % 2 == 1
    then some (pde / 2 ^ 22 * 2 ^ 22 + v % 2 ^ 22)
    else if pte % 2 == 0
    then none
    else some (pte / 4096 * 4096 + v % 4096)

translate_lem :
    (cr3 : ℕ) (words : ℕ → ℕ → ℕ) (v pte : ℕ)
    → words (cr3 / 4096) (v / 2 ^ 22) % 2 ≡ 1
    → words (cr3 / 4096) (v / 2 ^ 22) / 128 % 2 ≡ 0
    → words (words (cr3 / 4096) (v / 2 ^ 22) / 4096) (v / 4096 % 1024) ≡ pte
    → pte % 2 ≡ 1
    → translate cr3 words v ≡ some (pte / 4096 * 4096 + v % 4096)
unfolding translate
translate_lem cr3 words v pte there short e odd = simp (there, short, e, odd) refl

pub written_here : (frame i v : ℕ) (words : ℕ → ℕ → ℕ) → write_word frame i v words frame i ≡ v
written_here frame i v words = ground arith

pub written_elsewhere :
    (frame i v : ℕ) (words : ℕ → ℕ → ℕ) (f j : ℕ)
    → (f ≢ frame) ⊎ (j ≢ i)
    → write_word frame i v words f j ≡ words f j
written_elsewhere frame i v words f j apart = ground arith

-- An entry that is written into the table of an address.
write_word-translate :
    (cr3 : ℕ) (words : ℕ → ℕ → ℕ) (v t pte : ℕ)
    → words (cr3 / 4096) (v / 2 ^ 22) % 2 ≡ 1
    → words (cr3 / 4096) (v / 2 ^ 22) / 128 % 2 ≡ 0
    → words (cr3 / 4096) (v / 2 ^ 22) / 4096 ≡ t
    → t ≢ cr3 / 4096
    → pte % 2 ≡ 1
    → translate cr3 (write_word t (v / 4096 % 1024) pte words) v
      ≡ some (pte / 4096 * 4096 + v % 4096)
write_word-translate cr3 words v t pte there short e apart odd =
    let dir =
      written_elsewhere t (v / 4096 % 1024) pte words (cr3 / 4096) (v / 2 ^ 22)
        (inl (λ same. apart (sym same))) in
    translate_lem cr3 (write_word t (v / 4096 % 1024) pte words) v pte (rw dir there) (rw dir short)
      (rw (dir, e) (written_here t (v / 4096 % 1024) pte words)) odd

-- The entry that `memMapPage` makes.
new_entry-present : (p old flags : ℕ) → bit_or (bit_or (bit_or p 1) old) flags % 2 ≡ 1
new_entry-present p old flags =
    omega (
      arith,
      or_low_bit (bit_or (bit_or p 1) old) flags,
      or_low_bit (bit_or p 1) old,
      or_low_bit p 1,
    )

new_entry-frame :
    (p old flags : ℕ)
    → flags < 4096
    → bit_or (bit_or (bit_or p 1) old) flags / 4096 ≡ bit_or (p / 4096) (old / 4096)
new_entry-frame p old flags lt =
    or_flags (bit_or (bit_or p 1) old) flags lt
    ∙ or_high_field 12 (bit_or p 1) old
    ∙ ap (λ n. bit_or n (old / 4096)) (or_flags p 1 (omega arith))

pub set_page-translate :
    (s : Paging) (v p flags : ℕ)
    → frame_of (s.words (frame_of s.cr3) 1023) ≡ frame_of s.cr3
    → s.words (frame_of s.cr3) (v / 2 ^ 22) % 2 ≡ 1
    → s.words (frame_of s.cr3) (v / 2 ^ 22) / 128 % 2 ≡ 0
    → frame_of (s.words (frame_of s.cr3) (v / 2 ^ 22)) ≢ frame_of s.cr3
    → flags < 4096
    → translate s.cr3 (set_page (v / 2 ^ 22) (v / 4096 % 1024) p flags s).words v
      ≡ some (
          bit_or
              (p / 4096)
              (s.words (frame_of (s.words (frame_of s.cr3) (v / 2 ^ 22))) (v / 4096 % 1024) / 4096)
            * 4096
          + v % 4096)
unfolding set_page
set_page-translate s v p flags self present short apart small =
    let t = rec_page_table s.cr3 s.words (v / 2 ^ 22) in
    let e : t ≡ frame_of (s.words (frame_of s.cr3) (v / 2 ^ 22)) =
      ap (λ d. frame_of (s.words d (v / 2 ^ 22))) self in
    let old = s.words t (v / 4096 % 1024) in
    write_word-translate s.cr3 s.words v t (bit_or (bit_or (bit_or p 1) old) flags) present short
      (sym e) (rw e apart) (new_entry-present p old flags)
    ∙ ap (λ n. some (n * 4096 + v % 4096))
        (new_entry-frame p old flags small
          ∙ ap (λ f. bit_or (p / 4096) (s.words f (v / 4096 % 1024) / 4096)) e)

pub clear_words-outside :
    (left frame i : ℕ) (words : ℕ → ℕ → ℕ) (f j : ℕ)
    → (f ≢ frame) ⊎ (j < i)
    → clear_words left frame i words f j ≡ words f j
unfolding clear_words
clear_words-outside zero frame i words f j apart = refl
clear_words-outside (suc left) frame i words f j apart =
    clear_words-outside left frame (i + 1) (write_word frame i 0 words) f j (ground arith)
    ∙ ground arith

pub clear_words-inside :
    (left frame i : ℕ) (words : ℕ → ℕ → ℕ) (j : ℕ)
    → i ≤ j
    → j < i + left
    → clear_words left frame i words frame j ≡ 0
unfolding clear_words
clear_words-inside zero frame i words j lo hi = absurd (omega arith)
clear_words-inside (suc left) frame i words j lo hi = elim (ℕ_discrete i j) [
  | yes e ↦
      clear_words-outside left frame (i + 1) (write_word frame i 0 words) frame j
        (inr (omega arith))
      ∙ ground arith
  | no ne ↦
      clear_words-inside left frame (i + 1) (write_word frame i 0 words) j (omega arith)
        (omega arith)
]

-- The page table of an address is there.
pub record HasTable (s : Paging) (v table old : ℕ) : Type 0 where
  pub self : frame_of (s.words (frame_of s.cr3) 1023) ≡ frame_of s.cr3
  pub present : s.words (frame_of s.cr3) (v / 2 ^ 22) % 2 ≡ 1
  pub short : s.words (frame_of s.cr3) (v / 2 ^ 22) / 128 % 2 ≡ 0
  pub points : frame_of (s.words (frame_of s.cr3) (v / 2 ^ 22)) ≡ table
  pub holds : s.words table (v / 4096 % 1024) ≡ old

pub rec_page_dir_lem :
    (cr3 : ℕ) (words : ℕ → ℕ → ℕ)
    → frame_of (words (frame_of cr3) 1023) ≡ frame_of cr3
    → rec_page_dir cr3 words ≡ frame_of cr3
rec_page_dir_lem cr3 words self = ap (λ d. frame_of (words d 1023)) self ∙ self

-- The entry of a new table.
abbrev pub table_entry : (a flags : ℕ) → ℕ
table_entry a flags = bit_or (bit_or (bit_or (bit_or a 1) 2) owner_flag) flags

pub table_entry-present : (a flags : ℕ) → table_entry a flags % 2 ≡ 1
table_entry-present a flags = omega (
  arith,
  or_low_bit (bit_or (bit_or (bit_or a 1) 2) owner_flag) flags,
  or_low_bit (bit_or (bit_or a 1) 2) owner_flag,
  or_low_bit (bit_or a 1) 2,
  or_low_bit a 1,
)

pub table_entry-frame : (a flags : ℕ) → flags < 4096 → table_entry a flags / 4096 ≡ a / 4096
table_entry-frame a flags lt =
    or_flags (bit_or (bit_or (bit_or a 1) 2) owner_flag) flags lt
    ∙ or_flags (bit_or (bit_or a 1) 2) owner_flag (omega arith)
    ∙ or_flags (bit_or a 1) 2 (omega arith)
    ∙ or_flags a 1 (omega arith)

pub table_entry-short :
    (a flags : ℕ) → a / 128 % 2 ≡ 0 → flags / 128 % 2 ≡ 0 → table_entry a flags / 128 % 2 ≡ 0
table_entry-short a flags aligned plain = omega (
  arith,
  or_bit_seven (bit_or (bit_or (bit_or a 1) 2) owner_flag) flags,
  or_bit_seven (bit_or (bit_or a 1) 2) owner_flag,
  or_bit_seven (bit_or a 1) 2,
  or_bit_seven a 1,
)
