-- ===== src/Boot.antt =====
-- kernel.c and multiboot.h, and the page directory of boot.s: the start of the parts in order,
-- from the call of kmain to the prompt of the shell. The disk behind the file system is a block
-- device, and the other ports are a controller; both are parameters.
pub mod Memory
pub mod Safety
use master_os.Base.{
  ℕ, zero, suc, ◌+◌, ◌-◌, ◌*◌, ◌^◌, Bool, true, false, ◌&&◌, Option, none, some, List, [], ◌∷◌, leb,
  ltb, ◌==◌, if◌then◌else◌, bit_or, Bytes, put, mul32, ◌<<<◌,
}
use master_os.Text.{codes}
use master_os.Device.{BlockDevice}
use master_os.Ata.{Controller, ata_init}
use master_os.Screen.{Screen, print, reset}
use master_os.Screen.Modes.{reset_color}
use master_os.Screen.Font.{vga_lf_8x8f}
use master_os.Timer.{init_timer, speaker_play, speaker_stop}
use master_os.Memory.Paging.{Paging, init_memory, kmalloc_init, mem_map_page}
use master_os.Segments.{Descriptors, Task, init_gdt}
use master_os.Interrupts.{Gates, init_idt, pic_setup, irq_install_handler}
use master_os.Keyboard.{Keyboard, init_keyb}
use master_os.Fat.Monad.{World, Run, done, fail, halted}
use master_os.Fat.Disk.{fat_init}
use master_os.Login
use master_os.Login.{Input, granted, locked, waiting, login}
use master_os.Shell.Actions.{Shell, System, Outcome, after, on_screen}
use master_os.Shell.History.{print_prompt}

-- `struct multiboot_info`. The union `u` is four words, which the two symbol tables share.
pub record MultibootInfo : Type 0 where
  pub flags : ℕ
  pub mem_lower : ℕ
  pub mem_upper : ℕ
  pub boot_device : ℕ
  pub cmdline : ℕ
  pub mods_count : ℕ
  pub mods_addr : ℕ
  pub u : ℕ × ℕ × ℕ × ℕ
  pub mmap_length : ℕ
  pub mmap_addr : ℕ
  pub drives_length : ℕ
  pub drives_addr : ℕ
  pub config_table : ℕ
  pub boot_loader_name : ℕ
  pub apm_table : ℕ
  pub vbe_control_info : ℕ
  pub vbe_mode_info : ℕ
  pub vbe_mode : ℕ
  pub vbe_interface_seg : ℕ
  pub vbe_interface_off : ℕ
  pub vbe_interface_len : ℕ

-- `initial_page_dir` of boot.s: pages of 4 MB, the first at 0 and again, with the three behind
-- it, at 0xC0000000.
unfoldable pub initial_entries : ℕ → ℕ
initial_entries j =
    if j == 0 then 0x83 else if leb 768 j && ltb j 772 then bit_or ((j - 768) <<< 22) 0x83 else 0

-- The functions that are installed for interrupts.
pub data Handler : Type 0 where
  on_irq0 keyb_handler : Handler

-- The variables of all the parts. `plane` is the display's memory for the font.
pub record Kernel (Dev Ports : Type 0) : Type 0 where
  pub total_mem_kb : ℕ
  pub screen : Screen
  pub plane : Bytes
  pub ports : Ports
  pub descriptors : Descriptors
  pub task : Task
  pub gates : Gates
  pub routines : ℕ → Option Handler
  pub ticks : ℕ
  pub paging : Paging
  pub ata_drive : ℕ
  pub keyboard : Keyboard
  pub world : World Dev
  pub shell : Shell

-- `kmain` reaches the shell with the keys that are left, or stands still in fat_init or in the
-- login screen, or a division by zero stops it.
pub data Start (Dev Ports : Type 0) : Type 0 where
  faulted : Start Dev Ports
  stands : Kernel Dev Ports → Start Dev Ports
  locked_out : Kernel Dev Ports → Input → Start Dev Ports
  waits_for_keys : Kernel Dev Ports → Input → Start Dev Ports
  in_shell : Kernel Dev Ports → List ℕ → Outcome Dev → Start Dev Ports

-- `outPortB` of each pair of a port and a value.
unfoldable pub send : (C : Controller) → List (ℕ × ℕ) → C.State → C.State
send C [] s = s
send C ((port, value) ∷ rest) s = send C rest (C.out_port_b port value s)

-- The font of ibm_font.h, the addresses of the stubs of idt.s and of `tss_entry`, and the virtual
-- addresses of `initial_page_dir` and `pageDirs`.
pub record Image : Type 0 where
  pub font : Bytes
  pub isr : ℕ → ℕ
  pub irq : ℕ → ℕ
  pub tss_entry : ℕ
  pub initial_page_dir : ℕ
  pub page_dirs : ℕ

module _ (C : Controller) (D : BlockDevice) (image : Image) where
  abbrev pub KernelOf : Type 0
  KernelOf = Kernel D.Dev C.State

  abbrev pub say : List ℕ → KernelOf → KernelOf
  say text k = record k { screen = print text k.screen }

  -- `VGALF8X8F(); VGAHeight = 50; Reset();`
  abbrev pub start_screen : KernelOf → KernelOf
  start_screen k =
      let loaded = vga_lf_8x8f C image.font k.plane k.ports in
      record k {
        plane = loaded.0;
        ports = loaded.1;
        screen = reset (record k.screen { height = 50 });
      }

  abbrev pub greet : KernelOf → KernelOf
  greet k = say (codes "VGA Driver(s) [DONE]\r\n") (say (codes "Welcome to MasterOS!\r\n") k)

  abbrev pub start_segments : KernelOf → KernelOf
  start_segments k =
      let set = init_gdt image.tss_entry k.descriptors in
      say (codes "GDT [DONE]\r\n") (record k { descriptors = set.0; task = set.1 })

  abbrev pub start_interrupts : KernelOf → KernelOf
  start_interrupts k =
      say (codes "IDT [DONE]\r\n")
        (record k { gates = init_idt image.isr image.irq; ports = send C pic_setup k.ports })

  abbrev pub start_timer : KernelOf → KernelOf
  start_timer k =
      let set = init_timer C on_irq0 k.routines k.ports in
      record k { ticks = set.0; routines = set.1; ports = set.2 }

  abbrev pub start_memory : (mem_upper : ℕ) → KernelOf → KernelOf
  start_memory mem_upper k =
      let said = say (codes "Memory Allocation [DONE]\r\n") (record k {
        paging =
            init_memory image.initial_page_dir image.page_dirs (mul32 mem_upper 1024) 0x200000
              k.paging;
      }) in
      record said {
        paging = kmalloc_init image.initial_page_dir image.page_dirs 0x1000 said.paging;
      }

  abbrev pub start_ata : KernelOf → KernelOf
  start_ata k =
      let r = ata_init C k.ata_drive k.ports in
      let text =
        if r.0 then codes "ATA [DONE]\r\n" else codes "ATA [FAILED - no disk detected]\r\n" in
      say text (record k { ata_drive = r.1; ports = r.2 })

  abbrev pub start_keyboard : KernelOf → KernelOf
  start_keyboard k = say (codes "Keyboard [DONE]\r\n") (record k {
    ports = speaker_stop C k.ports;
    keyboard = init_keyb;
    routines = irq_install_handler 1 keyb_handler k.routines;
  })

  abbrev pub map_screen : KernelOf → KernelOf
  map_screen k = say (codes "User Memory Map [DONE]\r\n") (record k {
    paging = mem_map_page image.initial_page_dir image.page_dirs 0x000B8000 0x000B8000 3 k.paging;
  })

  -- `shell_init`
  abbrev pub shell_init : Shell → Shell
  shell_init s = record s { shell_len = 0; shell_buf = put s.shell_buf 0 0 }

  abbrev pub enter_shell : List ℕ → Input → KernelOf → Start D.Dev C.State
  enter_shell keys i k =
      let system : System D.Dev = record {
        shell = shell_init k.shell;
        screen = i.screen;
        world = k.world;
      } in
      in_shell k keys (after (print_prompt system) (on_screen reset_color))

  abbrev pub first_input : Screen → Input
  first_input screen = record {
    input_buf = λ _. 0;
    input_len = 0;
    input_done = false;
    screen = screen;
  }

  abbrev pub after_login : KernelOf → Login.Outcome → Start D.Dev C.State
  after_login k (granted keys i) = enter_shell keys i k
  after_login k (locked i) = locked_out k i
  after_login k (waiting i) = waits_for_keys k i

  unfoldable pub start_users : (keys : List ℕ) → KernelOf → Start D.Dev C.State
  unfolding login print_prompt
  start_users keys k =
      let ready = map_screen (start_keyboard k) in
      after_login ready (login keys (first_input ready.screen))

  abbrev pub after_mount : (keys : List ℕ) → KernelOf → Run D.Dev (Unit {0}) → Start D.Dev C.State
  after_mount keys k (done _ w) =
      start_users keys (say (codes "FAT [DONE]\r\n") (record k { world = w }))
  after_mount keys k (fail w) =
      start_users keys (say (codes "FAT [FAILED]\r\n") (record k { world = w }))
  after_mount keys k halted = stands k

  unfoldable pub start_parts : (mem_upper : ℕ) (keys : List ℕ) → KernelOf → Start D.Dev C.State
  unfolding start_users
  start_parts mem_upper keys k =
      let parts =
        start_ata
          (start_memory mem_upper (start_timer (start_interrupts (start_segments (greet k))))) in
      after_mount keys parts (fat_init D parts.world)

  abbrev pub after_beep :
      (mem_upper : ℕ) (keys : List ℕ) → KernelOf → Option C.State → Start D.Dev C.State
  after_beep mem_upper keys k none = faulted
  after_beep mem_upper keys k (some ports) = start_parts mem_upper keys (record k { ports = ports })

  -- `keys` are the characters that the keyboard hands on, from the login on.
  unfoldable pub kmain : MultibootInfo → (keys : List ℕ) → KernelOf → Start D.Dev C.State
  unfolding start_parts
  kmain info keys k =
      let shown = start_screen (record k { total_mem_kb = info.mem_upper }) in
      after_beep info.mem_upper keys shown (speaker_play C 800 shown.ports)
