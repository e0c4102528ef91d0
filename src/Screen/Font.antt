-- ===== src/Screen/Font.antt =====
-- drivers/vga/VGAF.c and VGAM.c: the font that is loaded into plane 2 of the display's memory at
-- 0xA0000, 32 bytes to a character, and the switch of modes. The font is a parameter: the bytes
-- of ibm_font.h.
pub mod Glyphs
use master_os.Base.{ℕ, zero, suc, ◌+◌, ◌-◌, ◌^◌, bit_and, bit_or, u8, sub32, Bytes, put}
use master_os.Ata.{Controller}
use master_os.Screen.{Screen, reset}
use master_os.Screen.Modes.{
  VgaMode, mode_80x25, mode_80x50, mode_90x60, vga_w_crtc, vga_w_graph, vga_w_sr, vga_r_crtc,
  vga_load_reg, vga_regs_80x25, vga_regs_80x50, vga_efa, vga_dfa,
}

-- `*vgaFont++ = *font++`, `left` times.
unfoldable pub copy_scans : (left at from : ℕ) → Bytes → Bytes → Bytes
copy_scans zero at from font plane = plane
copy_scans (suc left) at from font plane =
    copy_scans left (at + 1) (from + 1) font (put plane at (font from))

-- `*vgaFont++ = 0x00`
unfoldable pub pad_scans : (left at : ℕ) → Bytes → Bytes
pad_scans zero at plane = plane
pad_scans (suc left) at plane = pad_scans left (at + 1) (put plane at 0)

-- The characters from the pointers `at` and `from` on.
unfoldable pub copy_glyphs : (left height at from : ℕ) → Bytes → Bytes → Bytes
unfolding copy_scans pad_scans
copy_glyphs zero height at from font plane = plane
copy_glyphs (suc left) height at from font plane =
    copy_glyphs left height (at + height + (32 - height)) (from + height) font
      (pad_scans (32 - height) (at + height) (copy_scans height at from font plane))

module _ (C : Controller) where
  abbrev pub open_plane : C.State → C.State
  open_plane s =
      let sequencer = vga_w_sr C 0x04 0x06 (vga_w_sr C 0x02 0x04 s) in
      vga_w_graph C 0x06 0x00 (vga_w_graph C 0x05 0x00 (vga_w_graph C 0x04 0x02 sequencer))

  abbrev pub close_plane : C.State → C.State
  close_plane s =
      let sequencer = vga_w_sr C 0x04 0x02 (vga_w_sr C 0x02 0x03 s) in
      vga_w_graph C 0x06 0x0E (vga_w_graph C 0x05 0x10 (vga_w_graph C 0x04 0x00 sequencer))

  -- The lines of a character, and the cursor switched off.
  abbrev pub set_scan_lines : (height : ℕ) → C.State → C.State
  set_scan_lines height s =
      let r = vga_r_crtc C 0x09 s in
      let lines = C.out_port_b 0x3D5 (bit_or (bit_and r.0 0xE0) (u8 (sub32 height 1))) r.1 in
      vga_w_crtc C 0x0A 0x20 lines

  -- The plane and the ports after the load.
  unfoldable pub vga_lf : (font : Bytes) (height : ℕ) → Bytes → C.State → Bytes × C.State
  vga_lf font height plane s =
      (copy_glyphs 256 height 0 0 font plane, set_scan_lines height (close_plane (open_plane s)))

  abbrev pub vga_lf_8x8f : (font : Bytes) → Bytes → C.State → Bytes × C.State
  vga_lf_8x8f font plane s = vga_lf font 8 plane s

  unfoldable pub vga_sm :
      (font : Bytes) → VgaMode → Screen → Bytes → C.State → Screen × Bytes × C.State
  vga_sm font mode_80x25 screen plane s =
      (record screen { width = 80; height = 25 }, plane, vga_load_reg C vga_regs_80x25 s)
  vga_sm font mode_80x50 screen plane s =
      let loaded = vga_lf_8x8f font plane (vga_efa C (vga_load_reg C vga_regs_80x50 s)) in
      (reset (record screen { width = 80; height = 50 }), loaded.0, vga_dfa C loaded.1)
  vga_sm font mode_90x60 screen plane s = (screen, plane, s)

  -- `VGASM80X50` of vga.c.
  unfoldable pub vga_sm_80x50 : (font : Bytes) → Screen → Bytes → C.State → Screen × Bytes × C.State
  vga_sm_80x50 font screen plane s =
      let loaded = vga_lf_8x8f font plane s in
      let cells = vga_w_crtc C 0x12 0x9F (vga_w_crtc C 0x09 0x07 loaded.1) in
      (
        reset (record screen { width = 80; height = 50 }),
        loaded.0,
        vga_w_crtc C 0x07 0x1F (vga_w_crtc C 0x16 0x1F (vga_w_crtc C 0x15 0xBF cells)),
      )
