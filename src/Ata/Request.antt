-- ===== src/Ata/Request.antt =====
-- The registers of a request, on a controller that serves them.
use master_os.Base.{
  ℕ, ◌+◌, ◌*◌, ◌/◌, ◌%◌, ◌^◌, ◌<◌, ◌≡◌, refl, ◌∙◌, arith, false, ◌==◌, bit_and, bit_or, u8, ◌>>>◌,
}
use master_os.Base.Bits.{and_nibble, or_fields_high}
use master_os.Ata.{Controller, request}
use master_os.Ata.Serving.{started, IsServing}

abbrev drive_head : (slave lba : ℕ) → ℕ
drive_head slave lba = bit_or (0xE0 + slave * 16) (bit_and (lba >>> 24) 0x0F)

drive_head_lem :
    (slave lba : ℕ) → lba < 2 ^ 28 → drive_head slave lba ≡ (14 + slave) * 16 + lba / 2 ^ 24
drive_head_lem slave lba lt =
    let shape : 0xE0 + slave * 16 ≡ (14 + slave) * 2 ^ 4 = omega arith in
    let nibble : bit_and (lba >>> 24) 0x0F ≡ lba / 2 ^ 24 = and_nibble (lba >>> 24) ∙ omega arith in
    rw (shape, nibble) (or_fields_high 4 (lba / 2 ^ 24) (14 + slave) (omega arith))

-- A command that starts a transfer and leaves the disk.
module _ {C : Controller} (h : IsServing C) (command : ℕ)
    (starts : (s : C.State) → h.position (C.out_port_b 0x1F7 command s) ≡ started (h.registers s))
    (keeps : (s : C.State) → h.disk (C.out_port_b 0x1F7 command s) ≡ h.disk s) where
  request-registers :
      (drive lba count : ℕ) (s : C.State)
      → h.position (request C drive lba count command s)
        ≡ started (record {
          head = bit_or drive (bit_and (lba >>> 24) 0x0F);
          sectors = count;
          low = u8 lba;
          mid = u8 (lba >>> 8);
          high = u8 (lba >>> 16);
        })
  unfolding request
  request-registers drive lba count s =
      simp
        (starts, h.sets_high, h.sets_mid, h.sets_low, h.sets_sectors, h.sets_features, h.sets_head)
        refl

  pub request-disk :
      (drive lba count : ℕ) (s : C.State) → h.disk (request C drive lba count command s) ≡ h.disk s
  unfolding request
  request-disk drive lba count s =
      keeps _
      ∙ h.register_disk 0x1F5 (u8 (lba >>> 16)) _ (omega arith)
      ∙ h.register_disk 0x1F4 (u8 (lba >>> 8)) _ (omega arith)
      ∙ h.register_disk 0x1F3 (u8 lba) _ (omega arith)
      ∙ h.register_disk 0x1F2 count _ (omega arith)
      ∙ h.register_disk 0x1F1 0x00 _ (omega arith)
      ∙ h.register_disk 0x1F6 (bit_or drive (bit_and (lba >>> 24) 0x0F)) s (omega arith)

  pub request-position :
      (slave lba count : ℕ) (s : C.State)
      → slave < 2
      → lba < 2 ^ 28
      → 0 < count
      → h.position (request C (0xE0 + slave * 16) lba count command s)
        ≡ record { drive = slave; sector = lba; word = 0; left = count }
  request-position slave lba count s one lt some =
      let given : (count == 0) ≡ false = ground arith in
      let select : drive_head slave lba / 16 % 2 ≡ slave =
        omega (arith, drive_head_lem slave lba lt) in
      let address : drive_head slave lba % 16 * 16777216
            + u8 (lba >>> 16) * 65536
            + u8 (lba >>> 8) * 256
            + u8 lba
          ≡ lba =
        omega (arith, drive_head_lem slave lba lt) in
      request-registers (0xE0 + slave * 16) lba count s ∙ simp (given, select, address) refl
