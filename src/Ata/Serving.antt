-- ===== src/Ata/Serving.antt =====
-- A controller that serves read requests, as the ATA standard describes programmed input.
use master_os.Base.{
  ℕ, ◌+◌, ◌-◌, ◌*◌, ◌/◌, ◌%◌, ◌<◌, ◌≡◌, ◌≢◌, Bytes, IsBytes, false, true, ◌==◌, if◌then◌else◌,
  bit_and, get16, put16, ◌&&◌,
}
use master_os.Ata.{Controller}

-- The registers that a request is written to.
pub record Registers : Type 0 where
  pub head : ℕ
  pub sectors : ℕ
  pub low : ℕ
  pub mid : ℕ
  pub high : ℕ

-- The word that comes next: of which drive and sector, and the sectors that are left.
pub record Position : Type 0 where
  pub drive : ℕ
  pub sector : ℕ
  pub word : ℕ
  pub left : ℕ

-- The transfer that a read command starts. Bit 4 of `head` selects the drive, and the count 0
-- means 256.
abbrev pub started : Registers → Position
started r = record {
  drive = r.head / 16 % 2;
  sector = r.head % 16 * 16777216 + r.high * 65536 + r.mid * 256 + r.low;
  word = 0;
  left = if r.sectors == 0 then 256 else r.sectors;
}

abbrev pub advanced : Position → Position
advanced p =
    if p.word == 255
    then record p { sector = p.sector + 1; word = 0; left = p.left - 1 }
    else record p { word = p.word + 1 }

-- It is busy for less than 100000 status reads at a time, and never inside a sector; when it is
-- not busy and sectors are left, it asks for the next word and reports no error.
pub record IsServing (C : Controller) : Type 0 where
  pub registers : C.State → Registers
  pub position : C.State → Position
  pub disk : C.State → ℕ → ℕ → Bytes
  pub busy : C.State → ℕ
  pub bytes : (s : C.State) (drive sector : ℕ) → IsBytes (disk s drive sector)
  pub patient : (s : C.State) → busy s < 100000
  pub status_ready : (s : C.State) → busy s ≡ 0 → (bit_and (C.in_port_b 0x1F7 s).0 0x80 == 0) ≡ true
  pub status_busy : (s : C.State) → busy s ≢ 0 → (bit_and (C.in_port_b 0x1F7 s).0 0x80 == 0) ≡ false
  pub status_waits : (s : C.State) → busy (C.in_port_b 0x1F7 s).1 ≡ busy s - 1
  pub status_position : (s : C.State) → position (C.in_port_b 0x1F7 s).1 ≡ position s
  pub status_disk : (s : C.State) → disk (C.in_port_b 0x1F7 s).1 ≡ disk s
  pub no_error : (s : C.State) → busy s ≡ 0 → (bit_and (C.in_port_b 0x1F7 s).0 0x01 == 0) ≡ true
  pub asks :
      (s : C.State)
      → busy s ≡ 0
      → (position s).left ≢ 0
      → (bit_and (C.in_port_b 0x1F7 s).0 0x08 == 0) ≡ false
  pub sets_head :
      (v : ℕ) (s : C.State) → registers (C.out_port_b 0x1F6 v s) ≡ record (registers s) { head = v }
  pub sets_features : (v : ℕ) (s : C.State) → registers (C.out_port_b 0x1F1 v s) ≡ registers s
  pub sets_sectors :
      (v : ℕ) (s : C.State)
      → registers (C.out_port_b 0x1F2 v s) ≡ record (registers s) { sectors = v }
  pub sets_low :
      (v : ℕ) (s : C.State) → registers (C.out_port_b 0x1F3 v s) ≡ record (registers s) { low = v }
  pub sets_mid :
      (v : ℕ) (s : C.State) → registers (C.out_port_b 0x1F4 v s) ≡ record (registers s) { mid = v }
  pub sets_high :
      (v : ℕ) (s : C.State) → registers (C.out_port_b 0x1F5 v s) ≡ record (registers s) { high = v }
  pub starts : (s : C.State) → position (C.out_port_b 0x1F7 0x20 s) ≡ started (registers s)
  pub register_disk :
      (port v : ℕ) (s : C.State) → port < 0x1F7 → disk (C.out_port_b port v s) ≡ disk s
  pub command_disk : (s : C.State) → disk (C.out_port_b 0x1F7 0x20 s) ≡ disk s
  pub gives_word :
      (s : C.State)
      → busy s ≡ 0
      → (position s).left ≢ 0
      → (C.in_port_w 0x1F0 s).0
        ≡ get16 (disk s (position s).drive (position s).sector) ((position s).word * 2)
  pub moves_on :
      (s : C.State)
      → busy s ≡ 0
      → (position s).left ≢ 0
      → position (C.in_port_w 0x1F0 s).1 ≡ advanced (position s)
  pub stays_ready :
      (s : C.State) → busy s ≡ 0 → (position s).word ≢ 255 → busy (C.in_port_w 0x1F0 s).1 ≡ 0
  pub word_disk : (s : C.State) → disk (C.in_port_w 0x1F0 s).1 ≡ disk s

-- The word goes to two bytes of the sector that is being written.
abbrev pub put_word : Position → ℕ → (ℕ → ℕ → Bytes) → ℕ → ℕ → Bytes
put_word p v disk drive sector i =
    if drive == p.drive && sector == p.sector
    then put16 (disk drive sector) (p.word * 2) v i
    else disk drive sector i

-- It serves writes too. A flush comes when no sector is left to write.
pub record IsStoring (C : Controller) (h : IsServing C) : Type 0 where
  pub starts_write :
      (s : C.State) → h.position (C.out_port_b 0x1F7 0x30 s) ≡ started (h.registers s)
  pub write_disk : (s : C.State) → h.disk (C.out_port_b 0x1F7 0x30 s) ≡ h.disk s
  pub puts_word :
      (v : ℕ) (s : C.State)
      → h.busy s ≡ 0
      → (h.position s).left ≢ 0
      → h.disk (C.out_port_w 0x1F0 v s) ≡ put_word (h.position s) v (h.disk s)
  pub puts_on :
      (v : ℕ) (s : C.State)
      → h.busy s ≡ 0
      → (h.position s).left ≢ 0
      → h.position (C.out_port_w 0x1F0 v s) ≡ advanced (h.position s)
  pub puts_ready :
      (v : ℕ) (s : C.State)
      → h.busy s ≡ 0
      → (h.position s).word ≢ 255
      → h.busy (C.out_port_w 0x1F0 v s) ≡ 0
  pub flush_disk :
      (s : C.State) → (h.position s).left ≡ 0 → h.disk (C.out_port_b 0x1F7 0xE7 s) ≡ h.disk s
