-- ===== src/Lib.antt =====
-- Verification of MasterOS, a small 32-bit x86 kernel with a shell and a FAT12 file system.
--
-- The program. kernel.c starts the parts in order and hands over to the login screen and the
-- shell (masterOS/src/login.c, shell.c). Keys reach them from the keyboard interrupt
-- (masterOS/src/drivers/device/keyboard.c) through an installed handler; text goes out through
-- `print` (masterOS/src/drivers/vga/vga.c), also that of `printf`
-- (masterOS/src/stdlib/stdio.c). The shell's file commands call the file system
-- (masterOS/src/drivers/fs/fat.c), which asks the disk driver (drivers/fs/ata.c) for one sector
-- at a time. Page frames come from masterOS/src/memory/memory.c, the time from masterOS/src/rtc.c.
--
-- Files.
--   Base: native numbers, 8-, 16- and 32-bit arithmetic, byte buffers (functions from offsets),
--     masks as remainders, the integer that a comparison returns.
--   Device: the disk as a parameter, `ata_read` and `ata_write` of one sector, each of which
--     may fail; `IsHealthy` says what a disk that answers does.
--   Fat: drivers/fs/fat.c. Fat.Monad has its file-scope variables (Vars), the table buffer of
--     each function (fat_bufs) and the effects: a run goes on with a value (done), returns -1
--     (fail), or does not come back (halted). Fat.Table is the packed table (fat_next_cluster,
--     fat_set_cluster, fat_find_free_cluster, and the loop of fat_delete that frees a chain, as
--     free_chain). Fat.Names has make_name, split_83 and the comparison of names. Fat.Disk has
--     load_fat, write_fat, read_dir_sector, the write-back of a directory sector and fat_init,
--     and the test of `initialized` that an operation begins with, as `guarded`.
--     Fat.Dir has the loop over a directory that the functions share, as find_entry with the
--     test that each makes (is_file, is_directory, is_vacant). Fat.Read has fat_list and
--     fat_read, Fat.Remove has fat_delete, fat_rmdir and fat_rename, Fat.Create has fat_write and
--     fat_mkdir, Fat.Change has fat_cd, fat_set_current and the two sizes. The files below these
--     hold proofs.
--   Memory: memory/memory.c, pmm_init and pmmAllocPageFrame, with the bitmap PMB as a function.
--     Memory.Paging has the page tables of the same file (initMemory, memGCPD, memCPD,
--     syncPageDirs, memMapPage) over a memory of words by frame and index, and memory/kmalloc.c.
--   Ata: drivers/fs/ata.c over a controller, which is a parameter; Ata.Serving says what a
--     controller that serves reads and writes does.
--   Interrupts: interrupts/idt.c, the gates, the set-up of the controllers, the text of an
--     exception, the installed handlers. Segments: drivers/gdt.c.
--   Screen: drivers/vga/vga.c, the cursor and the cells that `print` writes.
--     Screen.Modes has the registers of drivers/vga/VGAR.c, and Screen.Font the load of the font
--     and the modes of VGAF.c and VGAM.c.
--   Timer: timer.c and drivers/device/speaker.c.
--   Stdio: stdlib/stdio.c, the characters that printf and printHex hand to `putc`, and the
--     numbers of shell.c (print_uint, k_atoi).
--   Rtc: rtc.c, the samples of the clock and the formats of its registers.
--   Keyboard: drivers/device/keyboard.c, the tables and the interrupt handler.
--   Shell: shell.c. Shell.Actions has the shell's variables, the running system (shell, screen,
--     file system) and what an action comes to: the next state, a standstill, a fault, or a
--     write to a port that ends the run. Shell.Words has k_arg, k_first_word and k_strcmp,
--     Shell.History the history and the prompt, Shell.Files and Shell.Info the commands,
--     Shell.Execute shell_execute and shell_handle_char. What the commands ask of the clock, the
--     processor, the timer, the boot loader and a loaded program is the record Machine.
--   Text: string literals as lists of character codes.
--   Login: login.c, the handlers, the reading of a line and the attempts.
--   Boot: kernel.c, kmain as one function over the state of all the parts (Kernel), from the
--     paging that boot.s leaves to the keys that the shell reads.
--   Tests: a disk in memory, runs of the operations, and the theorems at concrete inputs.
--
-- Bounds and fuel. The loops of fat.c over the sectors of a directory and over a chain of
-- clusters have no bound in the source; the model gives them `rounds`, and a run that uses
-- them up is halted. A search of the root directory needs one round more than the directory has
-- sectors, and a file one more than it has clusters. The loop of fat_write is given the rounds of
-- the clusters that the table can hold and two more, which is enough since each takes a free one.
-- The loop that frees a chain clears each entry that it passes, so 4082 rounds are enough for
-- every table. The digits of a 32-bit number need at most 32 rounds. The waits of ata.c have the
-- source's bound of 100000 status reads. The loop of rtc_read ends one sample after
-- the first two that agree.
--
-- Not modelled: cpuid, the instructions of boot.s that switch paging on, the
-- cached translations of the processor, the assembly that loads the processor's tables, the
-- mapping, copy and run of a program in exec.c. In Boot the disk of the file system and the ports
-- are two parameters, and interrupts come only as the keys that are handed on. The bitmap of page
-- frames has no end in the model, where the source's array covers 512 MB. A write behind an array
-- of the shell (the eleventh row of the history, a name of the prompt of 32 characters or more)
-- ends the run as `overrun`, from where on it is not followed; a path behind its 256 bytes and a
-- division by zero in the file system are halted runs.
pub mod Base
pub mod Text
pub mod Device
pub mod Ata
pub mod Fat
pub mod Memory
pub mod Screen
pub mod Stdio
pub mod Keyboard
pub mod Login
pub mod Rtc
pub mod Interrupts
pub mod Segments
pub mod Timer
pub mod Shell
pub mod Boot
pub mod Tests
