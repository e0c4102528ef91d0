-- ===== src/Screen/Modes.antt =====
-- drivers/vga/VGAR.c and VGAM.h: the registers of the display and the tables of its modes.
use master_os.Base.{ℕ, ◌+◌, List, [], ◌∷◌, bit_and, bit_or, ◌<<<◌}
use master_os.Ata.{Controller}
use master_os.Screen.{Screen, fill}

-- `struct VGARegisters`
pub record VgaRegisters : Type 0 where
  pub misc : ℕ
  pub crtcr : List ℕ
  pub sr : List ℕ
  pub gcr : List ℕ
  pub acr : List ℕ

abbrev pub controller_registers : List ℕ
controller_registers = 0x00 ∷ 0x00 ∷ 0x00 ∷ 0x00 ∷ 0x00 ∷ 0x10 ∷ 0x0E ∷ 0x0F ∷ 0xFF ∷ []

abbrev pub vga_regs_80x50 : VgaRegisters
vga_regs_80x50 = record {
  misc = 0x67;
  sr = 0x03 ∷ 0x01 ∷ 0x03 ∷ 0x00 ∷ 0x02 ∷ [];
  crtcr =
      0x5F ∷ 0x4F ∷ 0x50 ∷ 0x82 ∷ 0x55 ∷ 0x81 ∷ 0xBF ∷ 0x1F ∷ 0x00 ∷ 0x47 ∷ 0x06 ∷ 0x07 ∷ 0x00
      ∷ 0x00 ∷ 0x00 ∷ 0x00 ∷ 0x9C ∷ 0x8E ∷ 0x8F ∷ 0x28 ∷ 0x1F ∷ 0x96 ∷ 0xB9 ∷ 0xA3 ∷ 0xFF ∷ [];
  gcr = controller_registers;
  acr =
      0x00 ∷ 0x01 ∷ 0x02 ∷ 0x03 ∷ 0x04 ∷ 0x05 ∷ 0x14 ∷ 0x07 ∷ 0x38 ∷ 0x39 ∷ 0x3A ∷ 0x3B ∷ 0x3C
      ∷ 0x3D ∷ 0x3E ∷ 0x3F ∷ 0x04 ∷ 0x00 ∷ 0x0F ∷ 0x00 ∷ 0x00 ∷ [];
}

abbrev pub vga_regs_80x25 : VgaRegisters
vga_regs_80x25 = record {
  misc = 0x67;
  sr = 0x03 ∷ 0x00 ∷ 0x03 ∷ 0x00 ∷ 0x02 ∷ [];
  crtcr =
      0x5F ∷ 0x4F ∷ 0x50 ∷ 0x82 ∷ 0x55 ∷ 0x81 ∷ 0xBF ∷ 0x1F ∷ 0x00 ∷ 0x4F ∷ 0x0D ∷ 0x0E ∷ 0x00
      ∷ 0x00 ∷ 0x00 ∷ 0x00 ∷ 0x9C ∷ 0x8E ∷ 0x8F ∷ 0x28 ∷ 0x1F ∷ 0x96 ∷ 0xB9 ∷ 0xA3 ∷ 0xFF ∷ [];
  gcr = controller_registers;
  acr =
      0x00 ∷ 0x01 ∷ 0x02 ∷ 0x03 ∷ 0x04 ∷ 0x05 ∷ 0x14 ∷ 0x07 ∷ 0x38 ∷ 0x39 ∷ 0x3A ∷ 0x3B ∷ 0x3C
      ∷ 0x3D ∷ 0x3E ∷ 0x3F ∷ 0x0C ∷ 0x00 ∷ 0x0F ∷ 0x00 ∷ 0x00 ∷ [];
}

-- `VGAMode`
pub data VgaMode : Type 0 where
  mode_80x25 mode_80x50 mode_90x60 : VgaMode

module _ (C : Controller) where
  -- An index and then its value, at two ports.
  abbrev pub write_indexed : (port data_port index value : ℕ) → C.State → C.State
  write_indexed port data_port index value s =
      C.out_port_b data_port value (C.out_port_b port index s)

  abbrev pub vga_w_misc : (value : ℕ) → C.State → C.State
  vga_w_misc value s = C.out_port_b 0x3C2 value s

  abbrev pub vga_w_sr : (index value : ℕ) → C.State → C.State
  vga_w_sr index value s = write_indexed 0x3C4 0x3C5 index value s

  abbrev pub vga_w_graph : (index value : ℕ) → C.State → C.State
  vga_w_graph index value s = write_indexed 0x3CE 0x3CF index value s

  abbrev pub vga_w_crtc : (index value : ℕ) → C.State → C.State
  vga_w_crtc index value s = write_indexed 0x3D4 0x3D5 index value s

  abbrev pub vga_r_crtc : (index : ℕ) → C.State → ℕ × C.State
  vga_r_crtc index s = C.in_port_b 0x3D5 (C.out_port_b 0x3D4 index s)

  abbrev pub vga_w_attr : (index value : ℕ) → C.State → C.State
  vga_w_attr index value s = write_indexed 0x3C0 0x3C0 index value (C.in_port_b 0x3DA s).1

  -- The registers from `index` on.
  unfoldable pub write_each :
      ((index value : ℕ) → C.State → C.State) → (index : ℕ) → List ℕ → C.State → C.State
  write_each write index [] s = s
  write_each write index (value ∷ values) s =
      write_each write (index + 1) values (write index value s)

  -- The registers 0 to 7 of the CRTC are made writable.
  abbrev pub unlock_crtc : C.State → C.State
  unlock_crtc s = let r = vga_r_crtc 0x11 s in vga_w_crtc 0x11 (bit_and r.0 0x7F) r.1

  unfoldable pub vga_load_reg : VgaRegisters → C.State → C.State
  vga_load_reg regs s =
      let sequencer = write_each vga_w_sr 0 regs.sr (vga_w_misc regs.misc s) in
      let crtc = write_each vga_w_crtc 0 regs.crtcr (unlock_crtc (unlock_crtc sequencer)) in
      let attributes = write_each vga_w_attr 0 regs.acr (write_each vga_w_graph 0 regs.gcr crtc) in
      C.out_port_b 0x3C0 0x20 (C.in_port_b 0x3DA attributes).1

  abbrev pub vga_efa : C.State → C.State
  vga_efa s =
      let sequencer = vga_w_sr 0x04 0x06 (vga_w_sr 0x02 0x04 s) in
      vga_w_graph 0x06 0x00 (vga_w_graph 0x05 0x00 (vga_w_graph 0x04 0x02 sequencer))

  abbrev pub vga_dfa : C.State → C.State
  vga_dfa s =
      let sequencer = vga_w_sr 0x04 0x02 (vga_w_sr 0x02 0x03 s) in
      vga_w_graph 0x06 0x0E (vga_w_graph 0x05 0x10 (vga_w_graph 0x04 0x00 sequencer))

-- `defaultColor`: light grey on black.
unfoldable pub reset_color : Screen → Screen
reset_color s = record s { color = 0x0700 }

-- All 4000 cells of the largest mode, whatever the mode is.
unfoldable pub vga_cls : (color : ℕ) → Screen → Screen
vga_cls color s = record s { cells = fill 4000 0 (bit_or 0x20 (color <<< 8)) s.cells }
