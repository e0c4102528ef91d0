-- ===== src/Tests/Kernel.antt =====
-- The theorems about the processor's tables, the disk driver, the page tables and the shell at
-- concrete inputs.
use master_os.Base.{
  ◌≤◌, ◌⊎◌, none, Bytes, IsBytes, ℕ, ◌+◌, ◌*◌, ◌%◌, ◌^◌, ◌<◌, ◌≡◌, refl, arith, inl, some, [], List,
  ◌∷◌, ◌++◌, ◌==◌, if◌then◌else◌, ◌≢◌, ◌/◌,
}
use master_os.Text.{codes}
use master_os.Ata.{ata_read, ata_write}
use master_os.Ata.Storing.{IsSaved, ata_write-IsSaved}
use master_os.Ata.Transfer.{IsDelivered, ata_read-IsDelivered}
use master_os.Interrupts.{init_idt, pic_setup}
use master_os.Interrupts.Routing.{IsRouted, init_idt-IsRouted}
use master_os.Memory.{free_bit, find_frame, take_frame, alloc_page_frame}
use master_os.Memory.Paging.{Paging, mem_map_page}
use master_os.Memory.Paging.Entries.{translate}
use master_os.Memory.Paging.Tables.{table_frame}
use master_os.Memory.Paging.Translation.{IsInPlace, IsMappable, mem_map_page-translate}
use master_os.Memory.Paging.Others.{IsApart, mem_map_page-others}
use master_os.Screen.{Screen, scroll_up}
use master_os.Screen.Scroll.{ScrolledFrom, scroll_up-ScrolledFrom}
use master_os.Segments.{Descriptors, init_gdt}
use master_os.Segments.Descriptors.{IsInstalled, init_gdt-IsInstalled}
use master_os.Shell.Actions.{Shell, System, nothing}
use master_os.Shell.Info.{Machine}
use master_os.Shell.Execute.{handle_chars}
use master_os.Shell.Execute.Line.{IsLine}
use master_os.Shell.Execute.Typing.{IsExecuted, handle_chars-IsExecuted}
use master_os.Shell.History.Recent.{IsRecent, save_all, save_all-IsRecent}
use master_os.Tests.Ide.{ide, ide-IsServing, ide-IsStoring, ide_idle}
use master_os.Tests.Ram.{ram, mounted}

ata_read-IsDelivered_example :
    IsDelivered ide-IsServing ide_idle 1 0x1234567 2
      (λ _. 0)
      (ata_read ide 0xF0 0x1234567 2 (λ _. 0) ide_idle)
ata_read-IsDelivered_example =
    ata_read-IsDelivered ide-IsServing 1 0x1234567 2 (λ _. 0) ide_idle (omega arith) (omega arith)
      (omega arith) (omega arith)

abbrev fives : Bytes
fives i = 5

fives-IsBytes : IsBytes fives
fives-IsBytes i = omega arith

ata_write-IsSaved_example :
    IsSaved ide-IsServing ide-IsStoring fives fives-IsBytes ide_idle 1 0x1234567
      (ata_write ide 0xF0 0x1234567 1 fives ide_idle)
ata_write-IsSaved_example =
    ata_write-IsSaved ide-IsServing ide-IsStoring fives fives-IsBytes 1 0x1234567 ide_idle
      (omega arith) (omega arith)

-- Stubs of sixteen bytes each.
abbrev stub : ℕ → ℕ
stub n = 0xC0100000 + n % 256 * 16

stub_small : (n : ℕ) → stub n < 2 ^ 32
stub_small n = omega arith

init_idt-IsRouted_example : IsRouted stub stub (init_idt stub stub) pic_setup
init_idt-IsRouted_example = init_idt-IsRouted stub stub stub_small stub_small

abbrev pub no_descriptors : Descriptors
no_descriptors _ = record {
  limit = 0;
  base_low = 0;
  base_middle = 0;
  access = 0;
  flags = 0;
  base_high = 0;
}

init_gdt-IsSet_example : IsInstalled 0xC0123456 (init_gdt 0xC0123456 no_descriptors).0
init_gdt-IsSet_example = init_gdt-IsInstalled 0xC0123456 no_descriptors (omega arith)

abbrev dir_entry : ℕ → ℕ
dir_entry j = if j == 1023 then 0x1003 else if j == 1 then 0x5003 else 0

-- A directory in frame 1, entered into itself, with one page table in frame 5.
abbrev paging : Paging
paging = record {
  cr3 = 0x1000;
  words = λ f j. if f == 1 then dir_entry j else if f == 5 then 0x7003 else 0;
  frames = record { frame_min = 512; frame_max = 4096; total_alloc = 0; bitmap = λ _. 0 };
  vpages = 0;
  dirs_used = λ _. 0;
  heap_size = 0;
}

new_frame : table_frame paging 0xB8123 ≡ 512
unfolding alloc_page_frame find_frame take_frame free_bit
new_frame = refl

paging-IsMappable : IsMappable 0xC0101000 0xC0200000 paging 0xB8123
unfolding IsInPlace
paging-IsMappable = record {
  in_place = inl (omega arith);
  unused = λ i. refl;
  self = refl;
  other = λ e. omega (arith, e);
  apart = λ e. omega (arith, new_frame, e);
  table = λ odd. refl;
}

mem_map_page-translate_example :
    translate 0x1000 (mem_map_page 0xC0101000 0xC0200000 0xB8123 0xB8000 3 paging).words 0xB8123
    ≡ some 0xB8123
mem_map_page-translate_example =
    mem_map_page-translate 0xC0101000 0xC0200000 paging 0xB8123 0xB8000 3 paging-IsMappable
      (omega arith) refl refl

dir_entry-apart :
    (j f : ℕ) → dir_entry j % 2 ≡ 1 → f ≢ 5 → (j ≡ 1023 → f ≢ 1) → dir_entry j / 4096 ≢ f
dir_entry-apart j f odd five self = ground arith

paging-IsApart : IsApart paging 0xB8123
paging-IsApart = record {
  from_dir = λ j ne odd. dir_entry-apart j 1 odd (λ e. omega (arith, e)) (λ e. absurd (ne e));
  from_table = λ j ne odd.
      rw new_frame (dir_entry-apart j 512 odd (λ e. omega (arith, e)) (λ e k. omega (arith, k)));
}

mem_map_page-others_example :
    translate 0x1000 (mem_map_page 0xC0101000 0xC0200000 0xB8123 0xB8000 3 paging).words 0x401234
    ≡ some 0x7234
unfolding translate
mem_map_page-others_example =
    mem_map_page-others 0xC0101000 0xC0200000 paging 0xB8123 0xB8000 3 0x401234 paging-IsMappable
      paging-IsApart (omega arith) refl refl (λ e. omega (arith, e)) (λ e. omega (arith, e))

abbrev screen : Screen
screen = record { column = 2; line = 1; color = 0x0700; width = 4; height = 2; cells = λ i. i }

scroll_up-ScrolledFrom_example : ScrolledFrom screen (scroll_up screen)
scroll_up-ScrolledFrom_example = scroll_up-ScrolledFrom screen (omega arith)

abbrev pub shell : Shell
shell = record {
  prompt_name = codes "A:\\> ";
  history = λ i. if i == 0 then codes "ver" else [];
  history_count = 1;
  shell_buf = λ _. 0;
  shell_len = 0;
}

abbrev pub new_shell : Shell
new_shell = record {
  prompt_name = codes "gtaha";
  history = λ _. [];
  history_count = 0;
  shell_buf = λ _. 0;
  shell_len = 0;
}

save_all-IsRecent_example :
    ((2 ≤ 10)
      × (t : Shell) × (save_all (codes "dir" ∷ codes "ver" ∷ []) new_shell ≡ some t)
      × IsRecent (codes "dir" ∷ codes "ver" ∷ []) t)
    ⊎ ((10 < 2) × (save_all (codes "dir" ∷ codes "ver" ∷ []) new_shell ≡ none))
save_all-IsRecent_example = save_all-IsRecent (codes "dir" ∷ codes "ver" ∷ []) new_shell refl

abbrev system : System ram.Dev
system = record { shell = shell; screen = screen; world = mounted }

-- A loaded program that returns at once.
abbrev pub machine : Machine ram.Dev
machine = record {
  now = record { seconds = 0; minutes = 0; hours = 12; day = 1; month = 1; year = 2025 };
  vendor = codes "GenuineIntel";
  uptime = 7;
  total_mem_kb = 65536;
  program = λ bytes. nothing;
}

system-IsLine : IsLine [] system.shell
system-IsLine = record {
  len = refl;
  short = omega arith;
  text = λ i lt. absurd (omega arith);
  no_end = λ i lt. absurd (omega arith);
}

-- `dis`, a backspace and `r`.
abbrev dir_keys : List ℕ
dir_keys = b'd' ∷ b'i' ∷ b's' ∷ 8 ∷ b'r' ∷ []

handle_chars-IsExecuted_example :
    IsExecuted ram 9 machine
      (codes "dir")
      system
      (handle_chars ram 9 machine (dir_keys ++ 0x0A ∷ []) system)
handle_chars-IsExecuted_example =
    handle_chars-IsExecuted ram 9 machine dir_keys [] system (ground arith) system-IsLine
