-- ===== src/Ata.antt =====
-- drivers/fs/ata.c: the disk driver, which moves sectors through the ports of the controller.
-- The controller is a parameter: what it answers depends on what it was told before.
pub mod Waiting
pub mod Sector
pub mod Request
pub mod Transfer
pub mod Storing
pub mod Serving
use master_os.Base.{
  ℕ, zero, suc, ◌+◌, ◌*◌, ◌^◌, ◌/◌, Bool, true, false, not, Bytes, ◌==◌, if◌then◌else◌, bit_and,
  bit_or, u8, ◌>>>◌, get16, put16,
}

pub record Controller : Type 1 where
  pub State : Type 0
  pub in_port_b : (port : ℕ) → State → ℕ × State
  pub in_port_w : (port : ℕ) → State → ℕ × State
  pub out_port_b : (port v : ℕ) → State → State
  pub out_port_w : (port v : ℕ) → State → State

abbrev pub ata_slave : ℕ
ata_slave = 0xF0

abbrev pub ata_master : ℕ
ata_master = 0xE0

-- The second step is taken when the first has returned 0; `false` is -1.
abbrev pub and_then : {S T : Type 0} → Bool × S → (S → T) → (S → T) → T
and_then r stop go = if r.0 then go r.1 else stop r.1

module _ (C : Controller) where
  -- `while ((inPortB(ATA_STATUS) & ATA_SR_BSY) && timeout--);`, and 0 if `timeout` is left.
  unfoldable pub wait_bsy_from : (timeout : ℕ) → C.State → Bool × C.State
  wait_bsy_from zero s = (false, (C.in_port_b 0x1F7 s).1)
  wait_bsy_from (suc timeout) s =
      let r = C.in_port_b 0x1F7 s in
      let rest = wait_bsy_from timeout r.1 in if bit_and r.0 0x80 == 0 then (true, r.1) else rest

  abbrev pub ata_wait_bsy : C.State → Bool × C.State
  ata_wait_bsy s = wait_bsy_from 100000 s

  unfoldable pub wait_drq_from : (timeout : ℕ) → C.State → Bool × C.State
  wait_drq_from zero s = (false, s)
  wait_drq_from (suc timeout) s =
      let r = C.in_port_b 0x1F7 s in
      let rest = wait_drq_from timeout r.1 in
      if not (bit_and r.0 0x01 == 0)
      then (false, r.1)
      else if not (bit_and r.0 0x08 == 0)
      then (true, r.1)
      else rest

  abbrev pub ata_wait_drq : C.State → Bool × C.State
  ata_wait_drq s = wait_drq_from 100000 s

  -- The status is read `n` times, for the time that takes.
  unfoldable pub delay : (n : ℕ) → C.State → C.State
  delay zero s = s
  delay (suc n) s = delay n (C.in_port_b 0x1F7 s).1

  unfoldable pub ata_probe : (drive : ℕ) → C.State → Bool × C.State
  unfolding delay
  ata_probe drive s =
      let r = C.in_port_b 0x1F7 (delay 4 (C.out_port_b 0x1F6 drive s)) in
      (if r.0 == 0xFF then false else not (r.0 == 0x00), r.1)

  -- What is returned, the new `ata_drive` and the controller.
  unfoldable pub ata_init : (ata_drive : ℕ) → C.State → Bool × ℕ × C.State
  unfolding ata_probe
  ata_init ata_drive s =
      and_then (ata_probe ata_slave s)
        (λ s'.
          and_then (ata_probe ata_master s') (λ t. (false, ata_drive, t))
            (λ t. (true, ata_master, t)))
        (λ t. (true, ata_slave, t))

  -- The registers of a request, and then its command.
  unfoldable pub request : (ata_drive lba count command : ℕ) → C.State → C.State
  request ata_drive lba count command s =
      let head = C.out_port_b 0x1F6 (bit_or ata_drive (bit_and (lba >>> 24) 0x0F)) s in
      let error = C.out_port_b 0x1F1 0x00 head in
      let number = C.out_port_b 0x1F2 count error in
      let low = C.out_port_b 0x1F3 (u8 lba) number in
      let mid = C.out_port_b 0x1F4 (u8 (lba >>> 8)) low in
      let high = C.out_port_b 0x1F5 (u8 (lba >>> 16)) mid in C.out_port_b 0x1F7 command high

  -- `ptr[i] = ata_read_word()` from byte `at` on, with `left` rounds left.
  unfoldable pub read_words : (left at : ℕ) → Bytes → C.State → Bytes × C.State
  read_words zero at buf s = (buf, s)
  read_words (suc left) at buf s =
      let r = C.in_port_w 0x1F0 s in read_words left (at + 2) (put16 buf at r.0) r.1

  unfoldable pub read_sectors : (left at : ℕ) → Bytes → C.State → Bool × Bytes × C.State
  read_sectors zero at buf s = (true, buf, s)
  read_sectors (suc left) at buf s =
      and_then (ata_wait_bsy s) (λ t. (false, buf, t))
        (λ t.
          and_then (ata_wait_drq t) (λ u. (false, buf, u))
            (λ u. let r = read_words 256 at buf u in read_sectors left (at + 512) r.0 r.1))

  unfoldable pub ata_read : (ata_drive lba count : ℕ) → Bytes → C.State → Bool × Bytes × C.State
  ata_read ata_drive lba count buf s =
      and_then (ata_wait_bsy s) (λ t. (false, buf, t))
        (λ t. read_sectors count 0 buf (request ata_drive lba count 0x20 t))

  -- `outPortW(ATA_DATA, ptr[i])`
  unfoldable pub write_words : (left at : ℕ) → Bytes → C.State → C.State
  write_words zero at buf s = s
  write_words (suc left) at buf s =
      write_words left (at + 2) buf (C.out_port_w 0x1F0 (get16 buf at) s)

  unfoldable pub write_sectors : (left at : ℕ) → Bytes → C.State → Bool × C.State
  write_sectors zero at buf s = (true, s)
  write_sectors (suc left) at buf s =
      and_then (ata_wait_bsy s) (λ t. (false, t))
        (λ t.
          and_then (ata_wait_drq t) (λ u. (false, u))
            (λ u.
              and_then (ata_wait_bsy (C.out_port_b 0x1F7 0xE7 (write_words 256 at buf u)))
                (λ v. (false, v)) (λ v. write_sectors left (at + 512) buf v)))

  unfoldable pub ata_write : (ata_drive lba count : ℕ) → Bytes → C.State → Bool × C.State
  ata_write ata_drive lba count buf s =
      and_then (ata_wait_bsy s) (λ t. (false, t))
        (λ t. write_sectors count 0 buf (request ata_drive lba count 0x30 t))
