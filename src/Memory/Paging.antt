-- ===== src/Memory/Paging.antt =====
-- memory/memory.c, the page tables, and memory/kmalloc.c. Physical memory is words by frame and
-- index; the virtual addresses 0xFFFFF000 and 0xFFC00000 are resolved as the processor does, over
-- the entry 1023 of the current directory. The cached translations (`inval`) are left out.
pub mod Entries
pub mod Tables
pub mod Translation
pub mod Others
pub mod State
use master_os.Base.{
  ℕ, zero, suc, ◌+◌, ◌-◌, ◌*◌, ◌/◌, ◌%◌, ◌^◌, Bool, Option, none, some, leb, ltb, ◌&&◌, ◌==◌,
  if◌then◌else◌, bit_and, bit_or, not, u32, add32, sub32, mul32, ◌>>>◌,
}
use master_os.Memory.{Frames, ceil_div, alloc_page_frame, pmm_init}

-- `cr3` is a physical address; the other fields are `mem_num_vpages`, `pageDirsUsed`, `heapSize`.
pub record Paging : Type 0 where
  pub cr3 : ℕ
  pub words : ℕ → ℕ → ℕ
  pub frames : Frames
  pub vpages : ℕ
  pub dirs_used : ℕ → ℕ
  pub heap_size : ℕ

abbrev pub kernel_start : ℕ
kernel_start = 0xC0000000

abbrev pub kernel_malloc : ℕ
kernel_malloc = 0xD0000000

abbrev pub owner_flag : ℕ
owner_flag = 0x200

-- The frame that an entry or a register points to.
abbrev pub frame_of : ℕ → ℕ
frame_of entry = entry / 4096

abbrev pub write_word : ℕ → ℕ → ℕ → (ℕ → ℕ → ℕ) → ℕ → ℕ → ℕ
write_word frame i v words f j = if f == frame then (if j == i then v else words f j) else words f j

-- `REC_PAGEDIR`, the frame behind 0xFFFFF000.
abbrev pub rec_page_dir : (cr3 : ℕ) → (ℕ → ℕ → ℕ) → ℕ
rec_page_dir cr3 words = frame_of (words (frame_of (words (frame_of cr3) 1023)) 1023)

-- `REC_PAGETABLE(i)`
abbrev pub rec_page_table : (cr3 : ℕ) → (ℕ → ℕ → ℕ) → ℕ → ℕ
rec_page_table cr3 words i = frame_of (words (frame_of (words (frame_of cr3) 1023)) i)

-- `pt[i] = 0` for `left` entries from `i` on.
unfoldable pub clear_words : (left frame i : ℕ) → (ℕ → ℕ → ℕ) → ℕ → ℕ → ℕ
clear_words zero frame i words = words
clear_words (suc left) frame i words = clear_words left frame (i + 1) (write_word frame i 0 words)

-- `pageDir[i] = initial_page_dir[i] & ~PAGE_FLAG_OWNER`
unfoldable pub copy_dir : (left from to i : ℕ) → (ℕ → ℕ → ℕ) → ℕ → ℕ → ℕ
copy_dir zero from to i words = words
copy_dir (suc left) from to i words =
    copy_dir left from to (i + 1) (write_word to i (bit_and (words from i) 0xFFFFFDFF) words)

-- The physical address of a kernel variable.
abbrev pub physical : ℕ → ℕ
physical pointer = sub32 pointer kernel_start

-- The page table of an address: a new one, or the one that is there.
unfoldable pub with_table : (pd_index flags : ℕ) → Paging → Paging
with_table pd_index flags s =
    let dir = rec_page_dir s.cr3 s.words in
    let entry = s.words dir pd_index in
    let a = alloc_page_frame s.frames in
    let v = bit_or (bit_or (bit_or (bit_or a.0 1) 2) owner_flag) flags in
    let linked = write_word dir pd_index v s.words in
    if bit_and entry 1 == 0
    then record s {
      frames = a.1;
      words = clear_words 1024 (rec_page_table s.cr3 linked pd_index) 0 linked;
    }
    else if bit_and flags 4 == 0
    then s
    else record s { words = write_word dir pd_index (bit_or entry 4) s.words }

-- `pt[ptIndex] = physicalAddr | PAGE_FLAG_PRES | pt[ptIndex] | flags`
unfoldable pub set_page : (pd_index pt_index physical_addr flags : ℕ) → Paging → Paging
set_page pd_index pt_index physical_addr flags s =
    let table = rec_page_table s.cr3 s.words pd_index in
    let old = s.words table pt_index in
    record s {
      words =
          write_word table pt_index (bit_or (bit_or (bit_or physical_addr 1) old) flags) s.words;
      vpages = s.vpages + 1;
    }

abbrev pub mem_gcpd : Paging → ℕ
mem_gcpd s = add32 s.cr3 kernel_start

abbrev pub mem_cpd : ℕ → Paging → Paging
mem_cpd pd s = record s { cr3 = sub32 pd kernel_start }

-- `initial_page_dir` and `pageDirs` are virtual addresses, which the linker chooses.
module _ (initial_page_dir page_dirs : ℕ) where
  unfoldable pub sync_from : (left i : ℕ) → (used : ℕ → ℕ) → (ℕ → ℕ → ℕ) → ℕ → ℕ → ℕ
  sync_from zero i used words = words
  sync_from (suc left) i used words =
      let copied =
        copy_dir 1024 (frame_of (physical initial_page_dir)) (frame_of (physical page_dirs) + i) 0
          words in
      sync_from left (i + 1) used (if used i == 0 then words else copied)

  unfoldable pub sync_page_dirs : Paging → Paging
  sync_page_dirs s = record s { words = sync_from 256 0 s.dirs_used s.words }

  -- `prevPageDir` and the state after it is set.
  unfoldable pub enter_kernel : (virtual_addr : ℕ) → Paging → ℕ × Paging
  enter_kernel virtual_addr s =
      if leb kernel_start virtual_addr
      then (mem_gcpd s, if mem_gcpd s == initial_page_dir then s else mem_cpd initial_page_dir s)
      else (0, s)

  unfoldable pub leave_kernel : (prev : ℕ) → Paging → Paging
  leave_kernel prev s =
      if prev == 0
      then s
      else if prev == initial_page_dir
      then sync_page_dirs s
      else mem_cpd prev (sync_page_dirs s)

  unfoldable pub mem_map_page : (virtual_addr physical_addr flags : ℕ) → Paging → Paging
  mem_map_page virtual_addr physical_addr flags s =
      let e = enter_kernel virtual_addr s in
      let pd_index = virtual_addr >>> 22 in
      let pt_index = bit_and (virtual_addr >>> 12) 0x3FF in
      leave_kernel e.0
        (set_page pd_index pt_index physical_addr flags (with_table pd_index flags e.1))

  -- `left` pages of the heap, from the `i`th behind page `top` on.
  unfoldable pub grow_heap : (left top i : ℕ) → Paging → Paging
  grow_heap zero top i s = s
  grow_heap (suc left) top i s =
      let a = alloc_page_frame s.frames in
      grow_heap left top (i + 1) (
        mem_map_page (add32 (add32 kernel_malloc (mul32 top 0x1000)) (mul32 i 0x1000)) a.0 2
          (record s { frames = a.1 }))

  -- For sizes below 2^31. The loop ends at once when the heap would shrink.
  unfoldable pub change_heap_size : (new_size : ℕ) → Paging → Paging
  change_heap_size new_size s =
      let top = ceil_div s.heap_size 0x1000 in grow_heap (ceil_div new_size 0x1000 - top) top 0 s

  unfoldable pub kmalloc_init : (initial_heap_size : ℕ) → Paging → Paging
  kmalloc_init initial_heap_size s = change_heap_size initial_heap_size (record s { heap_size = 0 })

  -- `memSet(pageDirs, 0, 0x1000 * NUM_PAGES_DIRS)`
  abbrev pub clear_dirs : (ℕ → ℕ → ℕ) → ℕ → ℕ → ℕ
  clear_dirs words f j =
      let first = frame_of (physical page_dirs) in
      if leb first f && ltb f (first + 256) then 0 else words f j

  -- `initMemory`: the first page of the address space is taken away, and the directory is entered
  -- into itself.
  unfoldable pub init_memory : (mem_high physical_alloc_start : ℕ) → Paging → Paging
  init_memory mem_high physical_alloc_start s =
      let dir = frame_of (physical initial_page_dir) in
      let own = bit_or (bit_or (physical initial_page_dir) 1) 2 in
      record s {
        vpages = 0;
        words = clear_dirs (write_word dir 1023 own (write_word dir 0 0 s.words));
        frames = pmm_init physical_alloc_start mem_high;
        dirs_used = λ _. 0;
      }
