-- ===== src/Boot/Memory.antt =====
-- The page of the heap that kmain maps, and the page directory after it.
pub mod Shared
use master_os.Base.{
  ℕ, ◌+◌, ◌-◌, ◌*◌, ◌/◌, ◌%◌, ◌^◌, ◌<◌, ◌≤◌, ◌≡◌, ◌≢◌, refl, sym, ap, ◌∙◌, ◌⊎◌, inl, inr, arith,
  true, false, ◌&&◌, ◌==◌, if◌then◌else◌, some, bit_and, bit_or, leb, ltb, mul32, add32, sub32,
}
use master_os.Base.Bits.{or_flags}
use master_os.Memory.{Frames, start_byte, end_byte, alloc_page_frame, pmm_init}
use master_os.Memory.Reuse.{after_allocs, alloc-two_frames}
use master_os.Memory.Paging.{
  Paging, kernel_start, frame_of, write_word, physical, mem_gcpd, mem_map_page, grow_heap,
  change_heap_size, kmalloc_init, init_memory,
}
use master_os.Memory.Paging.Entries.{translate, table_entry, table_entry-frame, table_entry-present}
use master_os.Memory.Paging.Tables.{table_frame, old_entry}
use master_os.Memory.Paging.Translation.{IsInPlace, IsMappable, inner, mem_map_page-translate}
use master_os.Memory.Paging.Others.{IsApart, mem_map_page-others}
use master_os.Memory.Paging.State.{IsExtended, inner-IsExtended, mem_map_page-state}
use master_os.Boot.{initial_entries}

-- The linker puts the kernel's directory into the second megabyte, and `pageDirs` elsewhere.
pub record IsLinked (initial_page_dir page_dirs : ℕ) : Type 0 where
  pub above : kernel_start ≤ initial_page_dir
  pub below : initial_page_dir < 2 ^ 32
  pub from_mb : 256 ≤ frame_of (physical initial_page_dir)
  pub to_two_mb : frame_of (physical initial_page_dir) < 512
  pub apart :
      (frame_of (physical initial_page_dir) < frame_of (physical page_dirs))
      ⊎ (frame_of (physical page_dirs) + 256 ≤ frame_of (physical initial_page_dir))

-- The paging that boot.s leaves.
pub record IsEntered (initial_page_dir : ℕ) (s : Paging) : Type 0 where
  pub cr3 : s.cr3 ≡ physical initial_page_dir
  pub entries : (j : ℕ) → s.words (frame_of (physical initial_page_dir)) j ≡ initial_entries j

module _ (initial_page_dir page_dirs mem_high : ℕ) (s : Paging)
    (linked : IsLinked initial_page_dir page_dirs) (entered : IsEntered initial_page_dir s)
    (room : 0x210000 ≤ mem_high) (small : mem_high < 2 ^ 32) where
  abbrev pub dir : ℕ
  dir = frame_of (physical initial_page_dir)

  abbrev pub first_state : Paging
  first_state = init_memory initial_page_dir page_dirs mem_high 0x200000 s

  abbrev own : ℕ
  own = bit_or (bit_or (physical initial_page_dir) 1) 2

  -- The directory after initMemory.
  first_dir :
      (j : ℕ)
      → first_state.words dir j
        ≡ (if j == 1023 then own else if j == 0 then 0 else initial_entries j)
  unfolding init_memory
  first_dir j =
      let kept : (leb (frame_of (physical page_dirs)) dir
            && ltb dir (frame_of (physical page_dirs) + 256))
          ≡ false =
        ground (arith, linked.apart) in
      let here : (dir == dir) ≡ true = ground arith in rw (kept, here, entered.entries j) refl

  own-frame : frame_of own ≡ dir
  own-frame =
      or_flags (bit_or (physical initial_page_dir) 1) 2 (omega arith)
      ∙ or_flags (physical initial_page_dir) 1 (omega arith)

  abbrev first_frames : Frames
  first_frames = pmm_init 0x200000 mem_high

  frames_room : start_byte first_frames < end_byte first_frames
  unfolding pmm_init
  frames_room = ground arith

  clear : first_frames.bitmap (start_byte first_frames) ≡ 0
  unfolding pmm_init
  clear = refl

  first_alloc : (alloc_page_frame first_frames).0 ≡ 0x200000
  unfolding after_allocs pmm_init
  first_alloc = alloc-two_frames first_frames frames_room clear 0

  second_alloc : (alloc_page_frame (alloc_page_frame first_frames).1).0 ≡ 0x201000
  unfolding after_allocs pmm_init
  second_alloc = alloc-two_frames first_frames frames_room clear 1

  third_alloc :
      (alloc_page_frame (alloc_page_frame (alloc_page_frame first_frames).1).1).0 ≡ 0x200000
  unfolding after_allocs pmm_init
  third_alloc = alloc-two_frames first_frames frames_room clear 2

  -- Before the page of the heap is mapped: its frame is taken.
  abbrev pub heap_state : Paging
  heap_state = record first_state { heap_size = 0; frames = (alloc_page_frame first_frames).1 }

  abbrev pub after_heap : Paging
  after_heap = kmalloc_init initial_page_dir page_dirs 0x1000 first_state

  kmalloc_init-maps :
      after_heap
      ≡ mem_map_page initial_page_dir page_dirs 0xD0000000
          (alloc_page_frame first_frames).0
          2
          heap_state
  unfolding kmalloc_init change_heap_size grow_heap init_memory
  kmalloc_init-maps = refl

  pub heap_cr3 : heap_state.cr3 ≡ physical initial_page_dir
  unfolding init_memory
  heap_cr3 = entered.cr3

  heap_dir :
      (j : ℕ)
      → heap_state.words (frame_of heap_state.cr3) j
        ≡ (if j == 1023 then own else if j == 0 then 0 else initial_entries j)
  heap_dir j = ap (λ (c : ℕ). heap_state.words (frame_of c) j) heap_cr3 ∙ first_dir j

  heap_self : frame_of (heap_state.words (frame_of heap_state.cr3) 1023) ≡ frame_of heap_state.cr3
  heap_self = ap frame_of (heap_dir 1023) ∙ own-frame ∙ sym (ap frame_of heap_cr3)

  heap_absent : heap_state.words (frame_of heap_state.cr3) 832 ≡ 0
  unfolding initial_entries
  heap_absent = heap_dir 832

  heap_no_table :
      (bit_and (heap_state.words (frame_of heap_state.cr3) (0xD0000000 / 2 ^ 22)) 1 == 0) ≡ true
  heap_no_table = ap (λ (e : ℕ). bit_and e 1 == 0) heap_absent

  heap_table : table_frame heap_state 0xD0000000 ≡ 513
  heap_table = rw heap_no_table (ap frame_of second_alloc)

  heap_old : old_entry heap_state 0xD0000000 ≡ 0
  heap_old = rw heap_no_table refl

  heap-IsMappable : IsMappable initial_page_dir page_dirs heap_state 0xD0000000
  unfolding IsInPlace init_memory
  heap-IsMappable = record {
    in_place = inr (
      ap (λ (c : ℕ). add32 c kernel_start) entered.cr3 ∙ omega (arith, linked.above, linked.below),
      λ e. omega (arith, linked.above, e),
    );
    unused = λ i. refl;
    self = heap_self;
    other = λ e. omega (arith, e);
    apart = λ e. omega (arith, heap_table, e, ap frame_of heap_cr3, linked.to_two_mb);
    table = λ odd. ap (λ (n : ℕ). n / 128 % 2) heap_absent;
  }

  pub heap_translate : translate heap_state.cr3 after_heap.words 0xD0000000 ≡ some 0x200000
  heap_translate =
      ap (λ (t : Paging). translate heap_state.cr3 t.words 0xD0000000) kmalloc_init-maps
      ∙ mem_map_page-translate initial_page_dir page_dirs heap_state 0xD0000000
          (alloc_page_frame first_frames).0 2 heap-IsMappable (omega arith) refl refl
      ∙ ap (λ (p : ℕ). some (bit_or (p / 4096) (old_entry heap_state 0xD0000000 / 4096) * 4096 + 0))
          first_alloc
      ∙ ap (λ (o : ℕ). some (bit_or 512 (o / 4096) * 4096 + 0)) heap_old

  heap_apart : frame_of (alloc_page_frame heap_state.frames).0 ≢ frame_of heap_state.cr3
  heap_apart e = omega (arith, ap frame_of second_alloc, e, ap frame_of heap_cr3, linked.to_two_mb)

  heap_inner : Paging
  heap_inner =
      inner initial_page_dir page_dirs heap_state 0xD0000000 (alloc_page_frame first_frames).0 2

  heap-IsExtended :
      IsExtended initial_page_dir page_dirs heap_state 0xD0000000
        (alloc_page_frame first_frames).0
        2
        (λ e. omega (arith, e))
        (omega arith)
        refl
        heap_self
        heap_no_table
        heap_apart
        heap_inner
  unfolding heap_inner
  heap-IsExtended =
      inner-IsExtended initial_page_dir page_dirs heap_state 0xD0000000
        (alloc_page_frame first_frames).0 2 (λ e. omega (arith, e)) (omega arith) refl heap_self
        heap_no_table heap_apart

  after_heap_lem : after_heap ≡ heap_inner
  unfolding heap_inner init_memory
  after_heap_lem =
      kmalloc_init-maps
      ∙ mem_map_page-state initial_page_dir page_dirs heap_state 0xD0000000
          (alloc_page_frame first_frames).0 2 heap-IsMappable.in_place
          (λ i. ap (λ (used : ℕ → ℕ). used i) heap-IsExtended.dirs_used)

  after_heap-IsExtended :
      IsExtended initial_page_dir page_dirs heap_state 0xD0000000
        (alloc_page_frame first_frames).0
        2
        (λ e. omega (arith, e))
        (omega arith)
        refl
        heap_self
        heap_no_table
        heap_apart
        after_heap
  after_heap-IsExtended = rw after_heap_lem heap-IsExtended

  pub after_cr3 : after_heap.cr3 ≡ physical initial_page_dir
  after_cr3 = after_heap-IsExtended.cr3 ∙ heap_cr3

  pub after_unused : (i : ℕ) → after_heap.dirs_used i ≡ 0
  unfolding init_memory
  after_unused i = ap (λ (used : ℕ → ℕ). used i) after_heap-IsExtended.dirs_used

  pub after_frame : (alloc_page_frame after_heap.frames).0 ≡ 0x200000
  after_frame =
      ap (λ (m : Frames). (alloc_page_frame m).0) after_heap-IsExtended.frames ∙ third_alloc

  -- The directory: the table of the heap in frame 513, itself, nothing for the first page, and
  -- the pages of boot.s.
  pub after_table : frame_of (after_heap.words dir 832) ≡ 513
  after_table =
      ap (λ (c : ℕ). frame_of (after_heap.words (frame_of c) 832)) (sym heap_cr3)
      ∙ ap frame_of after_heap-IsExtended.entry
      ∙ table_entry-frame (alloc_page_frame heap_state.frames).0 2 (omega arith)
      ∙ ap frame_of second_alloc

  after_others :
      (j : ℕ)
      → j ≢ 832
      → after_heap.words dir j
        ≡ (if j == 1023 then own else if j == 0 then 0 else initial_entries j)
  after_others j ne =
      ap (λ (c : ℕ). after_heap.words (frame_of c) j) (sym heap_cr3)
      ∙ after_heap-IsExtended.others j ne
      ∙ heap_dir j

  pub after_self : frame_of (after_heap.words dir 1023) ≡ dir
  after_self = ap frame_of (after_others 1023 (λ e. omega (arith, e))) ∙ own-frame

  pub after_first : after_heap.words dir 0 ≡ 0
  after_first = after_others 0 (λ e. omega (arith, e))

  -- The other entries are those of boot.s.
  pub after_rest : (j : ℕ) → j ≢ 832 → j ≢ 1023 → j ≢ 0 → after_heap.words dir j ≡ initial_entries j
  after_rest j ne self first =
      let not_self : (j == 1023) ≡ false = ground arith in
      let not_first : (j == 0) ≡ false = ground arith in
      rw (after_others j ne, not_self, not_first) refl
