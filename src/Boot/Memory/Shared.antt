-- ===== src/Boot/Memory/Shared.antt =====
-- The frame of the heap's first page is given out again, as the page table of the low 4 MB.
use native.Mathlib.Decide.{ℕ_discrete}
use master_os.Base.{
  ℕ, ◌+◌, ◌-◌, ◌*◌, ◌/◌, ◌%◌, ◌^◌, ◌<◌, ◌≤◌, ◌≡◌, ◌≢◌, refl, sym, ap, ◌∙◌, ◌⊎◌, inl, inr, arith,
  true, false, ◌&&◌, ◌==◌, some, bit_and, bit_or, leb, ltb, mul32, Bool-cases, ◌<<<◌,
}
use master_os.Base.Bits.{or_flags}
use master_os.Device.{BlockDevice}
use master_os.Ata.{Controller}
use master_os.Memory.{alloc_page_frame}
use master_os.Memory.Paging.{Paging, frame_of, physical, mem_map_page}
use master_os.Memory.Paging.Entries.{translate, table_entry-frame}
use master_os.Memory.Paging.Tables.{table_frame, old_entry}
use master_os.Memory.Paging.Translation.{IsInPlace, IsMappable, inner, mem_map_page-translate}
use master_os.Memory.Paging.Others.{IsApart, mem_map_page-others}
use master_os.Memory.Paging.State.{IsExtended, inner-IsExtended, mem_map_page-state}
use master_os.Boot.{initial_entries, Kernel, Image, start_memory, map_screen}
use master_os.Boot.Memory.{
  IsLinked, IsEntered, after_heap, heap_cr3, heap_translate, after_cr3, after_unused, after_frame,
  after_table, after_self, after_first, after_rest,
}

-- The pages of 4 MB of boot.s begin at multiples of 4 MB.
initial_frame : (j : ℕ) → initial_entries j % 2 ≡ 1 → frame_of (initial_entries j) % 1024 ≡ 0
unfolding initial_entries
initial_frame j odd = elim (ℕ_discrete j 0) [
  | yes e ↦ rw e refl
  | no ne ↦ elim (Bool-cases (leb 768 j && ltb j 772)) [
    | inl e ↦
        let not_first : (j == 0) ≡ false = ground arith in
        rw (not_first, e) (omega (arith, or_flags ((j - 768) <<< 22) 0x83 (omega arith)))
    | inr e ↦
        let not_first : (j == 0) ≡ false = ground arith in
        absurd (omega (arith, rw (not_first, e) at odd))
  ]
]

module _ (initial_page_dir page_dirs mem_high : ℕ) (s : Paging)
    (linked : IsLinked initial_page_dir page_dirs) (entered : IsEntered initial_page_dir s)
    (room : 0x210000 ≤ mem_high) (small : mem_high < 2 ^ 32) where
  abbrev heap : Paging
  heap = after_heap initial_page_dir page_dirs mem_high s linked entered room small

  abbrev D : ℕ
  D = frame_of (physical initial_page_dir)

  at_dir : (j : ℕ) → heap.words (frame_of heap.cr3) j ≡ heap.words D j
  at_dir j =
      ap (λ (c : ℕ). heap.words (frame_of c) j)
        (after_cr3 initial_page_dir page_dirs mem_high s linked entered room small)

  low_absent : (bit_and (heap.words (frame_of heap.cr3) (0xB8000 / 2 ^ 22)) 1 == 0) ≡ true
  low_absent =
      ap (λ (e : ℕ). bit_and e 1 == 0)
        (at_dir 0 ∙ after_first initial_page_dir page_dirs mem_high s linked entered room small)

  low_table : table_frame heap 0xB8000 ≡ 512
  low_table =
      rw low_absent
        (ap frame_of (after_frame initial_page_dir page_dirs mem_high s linked entered room small))

  low_old : old_entry heap 0xB8000 ≡ 0
  low_old = rw low_absent refl

  heap_self : frame_of (heap.words (frame_of heap.cr3) 1023) ≡ frame_of heap.cr3
  heap_self =
      ap frame_of (at_dir 1023)
      ∙ after_self initial_page_dir page_dirs mem_high s linked entered room small
      ∙ sym
          (ap frame_of (after_cr3 initial_page_dir page_dirs mem_high s linked entered room small))

  low-IsMappable : IsMappable initial_page_dir page_dirs heap 0xB8000
  unfolding IsInPlace
  low-IsMappable = record {
    in_place = inl (omega arith);
    unused = after_unused initial_page_dir page_dirs mem_high s linked entered room small;
    self = heap_self;
    other = λ e. omega (arith, e);
    apart = λ e. omega (
      arith,
      low_table,
      e,
      ap frame_of (after_cr3 initial_page_dir page_dirs mem_high s linked entered room small),
      linked.to_two_mb,
    );
    table = λ odd.
        ap (λ (n : ℕ). n / 128 % 2)
          (at_dir 0 ∙ after_first initial_page_dir page_dirs mem_high s linked entered room small);
  }

  -- No entry of the directory leads to the frames 256 to 512 of the kernel and the new table.
  other_frames :
      (j : ℕ)
      → j ≢ 1023
      → heap.words D j % 2 ≡ 1
      → (frame_of (heap.words D j) ≡ 513) ⊎ (frame_of (heap.words D j) % 1024 ≡ 0)
  other_frames j self odd = elim (ℕ_discrete j 832) [
    | yes e ↦
        inl (rw e (after_table initial_page_dir page_dirs mem_high s linked entered room small))
    | no ne ↦ elim (ℕ_discrete j 0) [
      | yes z ↦ absurd (
          omega (
            arith,
            rw z at odd,
            after_first initial_page_dir page_dirs mem_high s linked entered room small,
          ))
      | no nz ↦
          let same =
            after_rest initial_page_dir page_dirs mem_high s linked entered room small j ne self
              nz in
          inr (rw same (initial_frame j (rw same at odd)))
    ]
  ]

  cr3_frame : frame_of heap.cr3 ≡ D
  cr3_frame =
      ap frame_of (after_cr3 initial_page_dir page_dirs mem_high s linked entered room small)

  low-IsApart : IsApart heap 0xB8000
  low-IsApart = record {
    from_dir = λ j self odd e. omega (
      arith,
      other_frames j self (rw (at_dir j) at odd),
      rw (at_dir j, cr3_frame) at e,
      linked.from_mb,
      linked.to_two_mb,
    );
    from_table = λ j ne odd e. elim (ℕ_discrete j 1023) [
      | yes self ↦ omega (
        arith,
        rw (self, at_dir 1023) at e,
        after_self initial_page_dir page_dirs mem_high s linked entered room small,
        low_table,
        linked.to_two_mb,
      )
      | no other ↦
          omega (arith, other_frames j other (rw (at_dir j) at odd), rw (at_dir j) at e, low_table)
    ];
  }

  abbrev mapped : Paging
  mapped = mem_map_page initial_page_dir page_dirs 0xB8000 0xB8000 3 heap

  screen_translate : translate heap.cr3 mapped.words 0xB8000 ≡ some 0xB8000
  screen_translate =
      mem_map_page-translate initial_page_dir page_dirs heap 0xB8000 0xB8000 3 low-IsMappable
        (omega arith) refl refl
      ∙ ap (λ (o : ℕ). some (bit_or (0xB8000 / 4096) (o / 4096) * 4096 + 0)) low_old

  heap_stays : translate heap.cr3 mapped.words 0xD0000000 ≡ some 0x200000
  heap_stays =
      mem_map_page-others initial_page_dir page_dirs heap 0xB8000 0xB8000 3 0xD0000000
        low-IsMappable low-IsApart (omega arith) refl refl (λ e. omega (arith, e))
        (λ e. omega (arith, e))
      ∙ ap (λ (c : ℕ). translate c heap.words 0xD0000000)
          (after_cr3 initial_page_dir page_dirs mem_high s linked entered room small
            ∙ sym (heap_cr3 initial_page_dir page_dirs mem_high s linked entered room small))
      ∙ heap_translate initial_page_dir page_dirs mem_high s linked entered room small

  low_apart : frame_of (alloc_page_frame heap.frames).0 ≢ frame_of heap.cr3
  low_apart e = omega (
    arith,
    ap frame_of (after_frame initial_page_dir page_dirs mem_high s linked entered room small),
    e,
    cr3_frame,
    linked.to_two_mb,
  )

  low_inner : Paging
  low_inner = inner initial_page_dir page_dirs heap 0xB8000 0xB8000 3

  low-IsExtended :
      IsExtended initial_page_dir page_dirs heap 0xB8000 0xB8000 3
        (λ e. omega (arith, e))
        (omega arith)
        refl
        heap_self
        low_absent
        low_apart
        low_inner
  unfolding low_inner
  low-IsExtended =
      inner-IsExtended initial_page_dir page_dirs heap 0xB8000 0xB8000 3 (λ e. omega (arith, e))
        (omega arith) refl heap_self low_absent low_apart

  mapped_lem : mapped ≡ low_inner
  unfolding low_inner
  mapped_lem =
      mem_map_page-state initial_page_dir page_dirs heap 0xB8000 0xB8000 3 low-IsMappable.in_place
        (λ i.
          ap (λ (used : ℕ → ℕ). used i) low-IsExtended.dirs_used
          ∙ after_unused initial_page_dir page_dirs mem_high s linked entered room small i)

  low_points : frame_of (mapped.words D 0) ≡ 512
  low_points =
      ap (λ (t : Paging). frame_of (t.words D 0)) mapped_lem
      ∙ ap (λ (d : ℕ). frame_of (low_inner.words d 0)) (sym cr3_frame)
      ∙ ap frame_of low-IsExtended.entry
      ∙ table_entry-frame (alloc_page_frame heap.frames).0 3 (omega arith)
      ∙ ap frame_of (after_frame initial_page_dir page_dirs mem_high s linked entered room small)

module _ (C : Controller) (D : BlockDevice) (image : Image) (mem_upper : ℕ) where
  -- The paging after kmain's calls: the memory and the heap, and then the text screen.
  abbrev pub boot_paging : Kernel D.Dev C.State → Paging
  boot_paging k = (map_screen C D image (start_memory C D image mem_upper k)).paging

  -- With at least 0x210000 bytes of memory, and from the paging of boot.s, kmain's calls map the
  -- text screen at 0xB8000 to itself and the first page of the heap at 0xD0000000 to 0x200000;
  -- and the page table of the low 4 MB is that very frame of the heap.
  pub boot_paging-shares :
      (k : Kernel D.Dev C.State)
      → IsLinked image.initial_page_dir image.page_dirs
      → IsEntered image.initial_page_dir k.paging
      → 0x210000 ≤ mul32 mem_upper 1024
      → (translate (physical image.initial_page_dir) (boot_paging k).words 0xB8000 ≡ some 0xB8000)
        × (translate (physical image.initial_page_dir) (boot_paging k).words 0xD0000000
            ≡ some 0x200000)
        × ((boot_paging k).words (frame_of (physical image.initial_page_dir)) 0 / 4096
            ≡ 0x200000 / 4096)
  boot_paging-shares k linked entered room =
      let high = mul32 mem_upper 1024 in
      let small : high < 2 ^ 32 = omega arith in
      let cr3 =
        after_cr3 image.initial_page_dir image.page_dirs high k.paging linked entered room small in
      let words = (boot_paging k).words in
      (
        ap (λ (c : ℕ). translate c words 0xB8000) (sym cr3)
            ∙ screen_translate image.initial_page_dir image.page_dirs high k.paging linked entered
                room small,
        ap (λ (c : ℕ). translate c words 0xD0000000) (sym cr3)
            ∙ heap_stays image.initial_page_dir image.page_dirs high k.paging linked entered room
                small,
        low_points image.initial_page_dir image.page_dirs high k.paging linked entered room small,
      )
