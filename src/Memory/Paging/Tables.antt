-- ===== src/Memory/Paging/Tables.antt =====
-- The page table that memMapPage finds or makes.
use master_os.Base.{
  ℕ, ◌+◌, ◌*◌, ◌/◌, ◌%◌, ◌^◌, ◌<◌, ◌≡◌, ◌≢◌, refl, sym, ap, ◌∙◌, inl, inr, arith, Bool-cases, true,
  false, Option, none, some, ◌==◌, if◌then◌else◌, bit_and, bit_or,
}
use master_os.Base.Bits.{and_one}
use master_os.Memory.{Frames, take_frame, alloc_page_frame}
use master_os.Memory.Paging.{
  Paging, frame_of, write_word, rec_page_table, clear_words, with_table, set_page,
}
use master_os.Memory.Paging.Entries.{
  translate, written_here, written_elsewhere, set_page-translate, clear_words-outside,
  clear_words-inside, HasTable, rec_page_dir_lem, table_entry, table_entry-present,
  table_entry-frame, table_entry-short,
}

new_table-HasTable :
    (s : Paging) (v a flags : ℕ) (frames : Frames)
    → v / 2 ^ 22 ≢ 1023
    → flags < 4096
    → a / 4096 ≢ frame_of s.cr3
    → table_entry a flags / 128 % 2 ≡ 0
    → frame_of (s.words (frame_of s.cr3) 1023) ≡ frame_of s.cr3
    → HasTable
        (record s {
          frames = frames;
          words =
              clear_words 1024
                (a / 4096)
                0
                (write_word (frame_of s.cr3) (v / 2 ^ 22) (table_entry a flags) s.words);
        })
        v
        (a / 4096)
        0
new_table-HasTable s v a flags frames other small apart short self =
    let linked = write_word (frame_of s.cr3) (v / 2 ^ 22) (table_entry a flags) s.words in
    let kept = λ (j : ℕ).
      clear_words-outside 1024 (a / 4096) 0 linked (frame_of s.cr3) j
        (inl (λ same. apart (sym same))) in
    let entry =
      kept (v / 2 ^ 22)
      ∙ written_here (frame_of s.cr3) (v / 2 ^ 22) (table_entry a flags) s.words in
    record {
      self =
          ap frame_of (
            kept 1023
            ∙ written_elsewhere (frame_of s.cr3) (v / 2 ^ 22) (table_entry a flags) s.words
                (frame_of s.cr3) 1023 (inr (λ same. other (sym same))))
          ∙ self;
      short = ap (λ n. n / 128 % 2) entry ∙ short;
      present = ap (λ n. n % 2) entry ∙ table_entry-present a flags;
      points = ap frame_of entry ∙ table_entry-frame a flags small;
      holds =
          clear_words-inside 1024 (a / 4096) 0 linked (v / 4096 % 1024) (omega arith) (omega arith);
    }

-- The frame of the page table of an address after the call, and the entry that it finds there.
abbrev pub table_frame : Paging → ℕ → ℕ
table_frame s v =
    let entry = s.words (frame_of s.cr3) (v / 2 ^ 22) in
    if bit_and entry 1 == 0 then frame_of (alloc_page_frame s.frames).0 else frame_of entry

abbrev pub old_entry : Paging → ℕ → ℕ
old_entry s v =
    let entry = s.words (frame_of s.cr3) (v / 2 ^ 22) in
    if bit_and entry 1 == 0 then 0 else s.words (frame_of entry) (v / 4096 % 1024)

-- The entry of the directory, where there is one, is not a page of 4 MB.
abbrev pub IsTable : Paging → ℕ → Type 0
IsTable s v =
    s.words (frame_of s.cr3) (v / 2 ^ 22) % 2 ≡ 1
    → s.words (frame_of s.cr3) (v / 2 ^ 22) / 128 % 2 ≡ 0

take_frame-aligned : (m : Frames) (r : Option (ℕ × ℕ)) → (take_frame m r).0 / 128 % 2 ≡ 0
unfolding take_frame
take_frame-aligned m none = refl
take_frame-aligned m (some (b, i)) = omega arith

pub alloc_page_frame-aligned : (m : Frames) → (alloc_page_frame m).0 / 128 % 2 ≡ 0
unfolding alloc_page_frame
alloc_page_frame-aligned m = take_frame-aligned m _

-- The new table is where the directory is made to point.
linked_table :
    (cr3 i v : ℕ) (words : ℕ → ℕ → ℕ)
    → i ≢ 1023
    → frame_of (words (frame_of cr3) 1023) ≡ frame_of cr3
    → rec_page_table cr3 (write_word (frame_of cr3) i v words) i ≡ frame_of v
linked_table cr3 i v words ne self =
    let dir : frame_of (write_word (frame_of cr3) i v words (frame_of cr3) 1023) ≡ frame_of cr3 =
      ap frame_of (
        written_elsewhere (frame_of cr3) i v words (frame_of cr3) 1023
          (inr (λ same. ne (sym same))))
      ∙ self in
    ap (λ d. frame_of (write_word (frame_of cr3) i v words d i)) dir
    ∙ ap frame_of (written_here (frame_of cr3) i v words)

module _ (s : Paging) (v flags : ℕ) (other : v / 2 ^ 22 ≢ 1023) (small : flags < 4096)
    (kernel : (bit_and flags 4 == 0) ≡ true)
    (self : frame_of (s.words (frame_of s.cr3) 1023) ≡ frame_of s.cr3) where
  pub with_table-there :
      (bit_and (s.words (frame_of s.cr3) (v / 2 ^ 22)) 1 == 0) ≡ false
      → with_table (v / 2 ^ 22) flags s ≡ s
  unfolding with_table
  with_table-there there =
      let dir = rec_page_dir_lem s.cr3 s.words self in rw dir (rw (there, kernel) refl)

  pub with_table-new :
      (bit_and (s.words (frame_of s.cr3) (v / 2 ^ 22)) 1 == 0) ≡ true
      → with_table (v / 2 ^ 22) flags s ≡ record s {
        frames = (alloc_page_frame s.frames).1;
        words = clear_words 1024 (frame_of (alloc_page_frame s.frames).0) 0 (
            write_word
              (frame_of s.cr3)
              (v / 2 ^ 22)
              (table_entry (alloc_page_frame s.frames).0 flags)
              s.words);
      }
  unfolding with_table
  with_table-new absent =
      let dir = rec_page_dir_lem s.cr3 s.words self in
      let a = (alloc_page_frame s.frames).0 in
      let t =
        linked_table s.cr3 (v / 2 ^ 22) (table_entry a flags) s.words other self
        ∙ table_entry-frame a flags small in
      rw dir (rw absent (rw t refl))

  -- What is needed of the state after `with_table`.
  pub record IsOpen (s1 : Paging) : Type 0 where
    pub cr3 : s1.cr3 ≡ s.cr3
    pub dirs_used : s1.dirs_used ≡ s.dirs_used
    pub table : HasTable s1 v (table_frame s v) (old_entry s v)

  pub with_table-IsOpen :
      table_frame s v ≢ frame_of s.cr3
      → IsTable s v
      → flags / 128 % 2 ≡ 0
      → IsOpen (with_table (v / 2 ^ 22) flags s)
  with_table-IsOpen apart table plain =
      elim (Bool-cases (bit_and (s.words (frame_of s.cr3) (v / 2 ^ 22)) 1 == 0)) [
        | inl absent ↦ rw (with_table-new absent) (record {
          cr3 = refl;
          dirs_used = refl;
          table = rw absent (
              new_table-HasTable s v (alloc_page_frame s.frames).0 flags
                (alloc_page_frame s.frames).1 other small (rw absent at apart)
                (table_entry-short (alloc_page_frame s.frames).0 flags
                  (alloc_page_frame-aligned s.frames) plain)
                self);
        })
        | inr there ↦ rw (with_table-there there) (record {
          cr3 = refl;
          dirs_used = refl;
          table = rw there (record {
            self = self;
            present = ground (arith, and_one (s.words (frame_of s.cr3) (v / 2 ^ 22)));
            short = table (ground (arith, and_one (s.words (frame_of s.cr3) (v / 2 ^ 22))));
            points = refl;
            holds = refl;
          });
        })
      ]

  pub opened-translate :
      (p : ℕ) (s1 : Paging)
      → table_frame s v ≢ frame_of s.cr3
      → IsOpen s1
      → translate s.cr3 (set_page (v / 2 ^ 22) (v / 4096 % 1024) p flags s1).words v
        ≡ some (bit_or (p / 4096) (old_entry s v / 4096) * 4096 + v % 4096)
  opened-translate p s1 apart o =
      let t = o.table in
      ap (λ c. translate c (set_page (v / 2 ^ 22) (v / 4096 % 1024) p flags s1).words v) (sym o.cr3)
      ∙ set_page-translate s1 v p flags t.self t.present t.short
          (λ same. apart (sym t.points ∙ same ∙ ap frame_of o.cr3)) small
      ∙ ap (λ n. some (bit_or (p / 4096) (n / 4096) * 4096 + v % 4096))
          (ap (λ f. s1.words f (v / 4096 % 1024)) t.points ∙ t.holds)
