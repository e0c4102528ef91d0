-- ===== src/Screen/Font/Glyphs.antt =====
-- Where the glyphs of the font come to stand.
use native.Mathlib.Decide.{ℕ_discrete}
use master_os.Base.{
  ℕ, zero, suc, ◌+◌, ◌-◌, ◌*◌, ◌<◌, ◌≤◌, ◌≡◌, refl, ◌∙◌, ◌⊎◌, inl, inr, arith, ltb, if◌then◌else◌,
  Bool-cases, Bytes, put,
}
use master_os.Ata.{Controller}
use master_os.Screen.Font.{copy_scans, pad_scans, copy_glyphs, vga_lf}

copy_scans-outside :
    (left start from : ℕ) (font plane : Bytes) (i : ℕ)
    → (i < start) ⊎ (start + left ≤ i)
    → copy_scans left start from font plane i ≡ plane i
unfolding copy_scans
copy_scans-outside zero start from font plane i p = refl
copy_scans-outside (suc left) start from font plane i p =
    copy_scans-outside left (start + 1) (from + 1) font (put plane start (font from)) i
      (omega arith)
    ∙ ground arith

copy_scans-inside :
    (left start from : ℕ) (font plane : Bytes) (r : ℕ)
    → r < left
    → copy_scans left start from font plane (start + r) ≡ font (from + r)
unfolding copy_scans
copy_scans-inside zero start from font plane r lt = absurd (omega arith)
copy_scans-inside (suc left) start from font plane zero lt =
    let here : start + 0 ≡ start = omega arith in
    let first : from + 0 ≡ from = omega arith in
    rw (here, first)
      (copy_scans-outside left (start + 1) (from + 1) font (put plane start (font from)) start
          (inl (omega arith))
        ∙ ground arith)
copy_scans-inside (suc left) start from font plane (suc r) lt =
    let here : start + suc r ≡ start + 1 + r = omega arith in
    let next : from + suc r ≡ from + 1 + r = omega arith in
    rw (here, next)
      (copy_scans-inside left (start + 1) (from + 1) font (put plane start (font from)) r
        (omega arith))

pad_scans-outside :
    (left start : ℕ) (plane : Bytes) (i : ℕ)
    → (i < start) ⊎ (start + left ≤ i)
    → pad_scans left start plane i ≡ plane i
unfolding pad_scans
pad_scans-outside zero start plane i p = refl
pad_scans-outside (suc left) start plane i p =
    pad_scans-outside left (start + 1) (put plane start 0) i (omega arith) ∙ ground arith

pad_scans-inside :
    (left start : ℕ) (plane : Bytes) (i : ℕ)
    → start ≤ i
    → i < start + left
    → pad_scans left start plane i ≡ 0
unfolding pad_scans
pad_scans-inside zero start plane i lo hi = absurd (omega arith)
pad_scans-inside (suc left) start plane i lo hi = elim (ℕ_discrete start i) [
  | yes e ↦
      pad_scans-outside left (start + 1) (put plane start 0) i (inl (omega arith)) ∙ ground arith
  | no ne ↦ pad_scans-inside left (start + 1) (put plane start 0) i (omega arith) (omega arith)
]

-- The byte of line `r` of a glyph: the font's, or 0 below the glyph.
abbrev pub glyph_byte : (height : ℕ) → Bytes → (c r : ℕ) → ℕ
glyph_byte height font c r = if ltb r height then font (c * height + r) else 0

module _ (height : ℕ) (font : Bytes) (le : height ≤ 32) where
  -- One glyph, at a slot of 32 bytes.
  one_glyph :
      (start from : ℕ) (plane : Bytes) (r : ℕ)
      → r < 32
      → pad_scans
          (32 - height)
          (start + height)
          (copy_scans height start from font plane)
          (start + r)
        ≡ (if ltb r height then font (from + r) else 0)
  one_glyph start from plane r lt = elim (Bool-cases (ltb r height)) [
    | inl e ↦
        let in_glyph : r < height = ground arith in
        rw e (
          pad_scans-outside (32 - height) (start + height) (copy_scans height start from font plane)
            (start + r) (inl (omega arith))
          ∙ copy_scans-inside height start from font plane r in_glyph)
    | inr e ↦
        let below : height ≤ r = ground arith in
        rw e (
          pad_scans-inside (32 - height) (start + height) (copy_scans height start from font plane)
            (start + r) (omega arith) (omega arith))
  ]

  copy_glyphs-outside :
      (left start from : ℕ) (plane : Bytes) (i : ℕ)
      → (i < start) ⊎ (start + 32 * left ≤ i)
      → copy_glyphs left height start from font plane i ≡ plane i
  unfolding copy_glyphs
  copy_glyphs-outside zero start from plane i p = refl
  copy_glyphs-outside (suc left) start from plane i p =
      copy_glyphs-outside left (start + height + (32 - height)) (from + height) _ i (omega arith)
      ∙ pad_scans-outside (32 - height) (start + height) (copy_scans height start from font plane) i
          (omega arith)
      ∙ copy_scans-outside height start from font plane i (omega arith)

  copy_glyphs-inside :
      (left first : ℕ) (plane : Bytes) (c r : ℕ)
      → first ≤ c
      → c < first + left
      → r < 32
      → copy_glyphs left height (first * 32) (first * height) font plane (c * 32 + r)
        ≡ glyph_byte height font c r
  unfolding copy_glyphs
  copy_glyphs-inside zero first plane c r lo hi lt = absurd (omega arith)
  copy_glyphs-inside (suc left) first plane c r lo hi lt =
      let next : first * 32 + height + (32 - height) ≡ (first + 1) * 32 = omega arith in
      let from : first * height + height ≡ (first + 1) * height = omega arith in
      rw (next, from)
        (elim (ℕ_discrete first c) [
          | yes e ↦ rw (← e) (
              copy_glyphs-outside left ((first + 1) * 32) ((first + 1) * height) _ (first * 32 + r)
                (inl (omega arith))
              ∙ one_glyph (first * 32) (first * height) plane r lt)
          | no ne ↦ copy_glyphs-inside left (first + 1) _ c r (omega arith) (omega arith) lt
        ])

module _ (C : Controller) (font : Bytes) (height : ℕ) (plane : Bytes) (s : C.State)
    (le : height ≤ 32) where
  -- After the load of a font of up to 32 lines, the slot of 32 bytes of each of the 256 characters
  -- holds the character's lines of the font, and zeros behind them.
  pub vga_lf-glyph_byte :
      (c r : ℕ)
      → c < 256
      → r < 32
      → (vga_lf C font height plane s).0 (c * 32 + r) ≡ glyph_byte height font c r
  unfolding vga_lf
  vga_lf-glyph_byte c r lt lt' =
      let no_line : 0 * height ≡ 0 = omega arith in
      rw no_line at
        (copy_glyphs-inside height font le 256 0 plane c r (omega arith) (omega arith) lt')

  -- Nothing behind the slots has changed.
  vga_lf-outside : (i : ℕ) → 8192 ≤ i → (vga_lf C font height plane s).0 i ≡ plane i
  unfolding vga_lf
  vga_lf-outside i lo = copy_glyphs-outside height font le 256 0 0 plane i (inr (omega arith))
