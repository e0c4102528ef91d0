-- ===== src/Tests/Boot.antt =====
-- The start of the system, and the load of the font, at concrete inputs.
use master_os.Base.{
  ℕ, ◌*◌, ◌/◌, ◌+◌, ◌≡◌, refl, arith, false, none, some, inl, if◌then◌else◌, ◌==◌, List, ◌++◌, ◌∷◌,
}
use master_os.Text.{codes}
use master_os.Screen.Font.{vga_lf}
use master_os.Screen.Font.Glyphs.{vga_lf-glyph_byte}
use master_os.Memory.Paging.{Paging}
use master_os.Memory.Paging.Entries.{translate}
use master_os.Login.{valid_user, valid_pass}
use master_os.Boot.{MultibootInfo, Kernel, Image, initial_entries}
use master_os.Boot.Memory.{IsLinked, IsEntered}
use master_os.Boot.Memory.Shared.{boot_paging, boot_paging-shares}
use master_os.Tests.Ram.{ram, power_on}
use master_os.Tests.Ide.{Ide, ide, ide_idle}
use master_os.Tests.Kernel.{shell, no_descriptors}

vga_lf-glyph_byte_example : (vga_lf ide (λ i. i) 8 (λ _. 255) ide_idle).0 (65 * 32 + 3) ≡ 523
vga_lf-glyph_byte_example =
    vga_lf-glyph_byte ide (λ i. i) 8 (λ _. 255) ide_idle (omega arith) 65 3 (omega arith)
      (omega arith)

abbrev image : Image
image = record {
  font = λ i. i;
  isr = λ i. 0xC0100000 + i * 16;
  irq = λ i. 0xC0101000 + i * 16;
  tss_entry = 0xC0123456;
  initial_page_dir = 0xC0105000;
  page_dirs = 0xC0110000;
}

-- What boot.s leaves, of the words that are not 0.
abbrev started : Paging
started = record {
  cr3 = 0x105000;
  words = λ f j. if f == 0x105 then initial_entries j else 0;
  frames = record { frame_min = 0; frame_max = 0; total_alloc = 0; bitmap = λ _. 0 };
  vpages = 0;
  dirs_used = λ _. 0;
  heap_size = 0;
}

abbrev kernel : Kernel ram.Dev Ide
kernel = record {
  total_mem_kb = 0;
  screen = record { column = 0; line = 0; color = 0x0700; width = 80; height = 25; cells = λ _. 0 };
  plane = λ _. 0;
  ports = ide_idle;
  descriptors = no_descriptors;
  task = record { ss0 = 0; esp0 = 0; cs = 0; data_segments = 0 };
  gates = λ _. record { base_low = 0; sel = 0; always0 = 0; flags = 0; base_high = 0 };
  routines = λ _. none;
  ticks = 0;
  paging = started;
  ata_drive = 0xE0;
  keyboard = record { caps_on = false; caps_lock = false };
  world = power_on;
  shell = shell;
}

image-IsLinked : IsLinked 0xC0105000 0xC0110000
image-IsLinked = record {
  above = omega arith;
  below = omega arith;
  from_mb = omega arith;
  to_two_mb = omega arith;
  apart = inl (omega arith);
}

started-IsEntered : IsEntered 0xC0105000 started
started-IsEntered = record { cr3 = refl; entries = λ j. refl }

-- 64 MB of memory.
boot_paging-shares_example :
    (translate 0x105000 (boot_paging ide ram image 65536 kernel).words 0xB8000 ≡ some 0xB8000)
    × (translate 0x105000 (boot_paging ide ram image 65536 kernel).words 0xD0000000 ≡ some 0x200000)
    × ((boot_paging ide ram image 65536 kernel).words 0x105 0 / 4096 ≡ 512)
boot_paging-shares_example =
    boot_paging-shares ide ram image 65536 kernel image-IsLinked started-IsEntered (omega arith)

abbrev info : MultibootInfo
info = record {
  flags = 1;
  mem_lower = 640;
  mem_upper = 65536;
  boot_device = 0;
  cmdline = 0;
  mods_count = 0;
  mods_addr = 0;
  u = (0, 0, 0, 0);
  mmap_length = 0;
  mmap_addr = 0;
  drives_length = 0;
  drives_addr = 0;
  config_table = 0;
  boot_loader_name = 0;
  apm_table = 0;
  vbe_control_info = 0;
  vbe_mode_info = 0;
  vbe_mode = 0;
  vbe_interface_seg = 0;
  vbe_interface_off = 0;
  vbe_interface_len = 0;
}

-- A login, and then a command.
abbrev keys : List ℕ
keys = valid_user ++ 0x0A ∷ (valid_pass ++ 0x0A ∷ codes "dir\n")
