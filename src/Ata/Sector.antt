-- ===== src/Ata/Sector.antt =====
-- The words of a sector, from a controller that serves them.
use native.Mathlib.Decide.{ℕ_discrete, dec_lt}
use master_os.Base.{
  ℕ, zero, suc, ◌+◌, ◌-◌, ◌*◌, ◌<◌, ◌≤◌, ◌≡◌, ◌≢◌, refl, ap, ◌∙◌, ◌⊎◌, inl, arith, false, Bytes,
  IsBytes, put16, get16, ◌==◌,
}
use master_os.Ata.{Controller, read_words}
use master_os.Ata.Serving.{Position, advanced, IsServing}

pub advanced_last :
    (p : Position)
    → p.word ≡ 255
    → advanced p ≡ record p { sector = p.sector + 1; word = 0; left = p.left - 1 }
advanced_last p e = simp e refl

pub advanced_inner : (p : Position) → p.word ≢ 255 → advanced p ≡ record p { word = p.word + 1 }
advanced_inner p ne = let no : (p.word == 255) ≡ false = ground arith in simp no refl

put16_in :
    (buf : Bytes) (at : ℕ) (sector : Bytes) (j i : ℕ)
    → IsBytes sector
    → at ≤ i
    → i < at + 2
    → put16 buf at (get16 sector j) i ≡ sector (j + (i - at))
put16_in buf at sector j i b lo hi = elim (ℕ_discrete i at) [
  | yes e ↦ let off : j + (i - at) ≡ j = omega arith in rw off (ground (arith, b j, b (j + 1)))
  | no ne ↦ let off : j + (i - at) ≡ j + 1 = omega arith in rw off (ground (arith, b j, b (j + 1)))
]

put16_out : (buf : Bytes) (at v i : ℕ) → (i < at) ⊎ (at + 2 ≤ i) → put16 buf at v i ≡ buf i
put16_out buf at v i p = ground arith

module _ {C : Controller} (h : IsServing C) where
  -- The rest of a sector, from word `word` on.
  pub record IsRead (s : C.State) (word left at : ℕ) (buf : Bytes) (r : Bytes × C.State)
      : Type 0 where
    pub position : h.position r.1 ≡ record (h.position s) {
      sector = (h.position s).sector + 1;
      word = 0;
      left = (h.position s).left - 1;
    }
    pub disk : h.disk r.1 ≡ h.disk s
    pub inside :
        (i : ℕ)
        → at ≤ i
        → i < at + 2 * left
        → r.0 i ≡ h.disk s (h.position s).drive (h.position s).sector (word * 2 + (i - at))
    pub outside : (i : ℕ) → (i < at) ⊎ (at + 2 * left ≤ i) → r.0 i ≡ buf i

  next_word :
      (s : C.State)
      → h.busy s ≡ 0
      → (h.position s).left ≢ 0
      → (h.position s).word ≢ 255
      → h.position (C.in_port_w 0x1F0 s).1
        ≡ record (h.position s) { word = (h.position s).word + 1 }
  next_word s free ne inner = h.moves_on s free ne ∙ advanced_inner (h.position s) inner

  IsRead-cons :
      (left word at : ℕ) (buf : Bytes) (s : C.State) (r : Bytes × C.State)
      → h.busy s ≡ 0
      → (h.position s).left ≢ 0
      → (h.position s).word ≡ word
      → word < 255
      → IsRead
          (C.in_port_w 0x1F0 s).1
          (word + 1)
          (suc left)
          (at + 2)
          (put16 buf at (C.in_port_w 0x1F0 s).0)
          r
      → IsRead s word (suc (suc left)) at buf r
  IsRead-cons left word at buf s r free ne e lt q =
      let next = next_word s free ne (omega arith) in
      record {
        position = q.position ∙ simp next refl;
        disk = q.disk ∙ h.word_disk s;
        inside = λ i lo hi. elim (dec_lt i (at + 2)) [
          | yes p ↦
              q.outside i (inl p)
              ∙ rw (h.gives_word s free ne, e)
                  (put16_in buf at (h.disk s (h.position s).drive (h.position s).sector) (word * 2)
                    i (h.bytes s (h.position s).drive (h.position s).sector) lo p)
          | no p ↦
              q.inside i (omega arith) (omega arith)
              ∙ (let off : (word + 1) * 2 + (i - (at + 2)) ≡ word * 2 + (i - at) = omega arith in
                  simp (next, off)
                    (ap (λ d. d (h.position s).drive (h.position s).sector (word * 2 + (i - at)))
                      (h.word_disk s)))
        ];
        outside = λ i p.
            q.outside i (omega arith) ∙ put16_out buf at (C.in_port_w 0x1F0 s).0 i (omega arith);
      }

  pub read_words-IsRead :
      (left word at : ℕ) (buf : Bytes) (s : C.State)
      → 0 < left
      → word + left ≡ 256
      → h.busy s ≡ 0
      → (h.position s).left ≢ 0
      → (h.position s).word ≡ word
      → IsRead s word left at buf (read_words C left at buf s)
  unfolding read_words
  read_words-IsRead zero word at buf s some all free ne e = absurd (omega arith)
  read_words-IsRead (suc zero) word at buf s some all free ne e = record {
    position = h.moves_on s free ne ∙ advanced_last (h.position s) (e ∙ omega arith);
    disk = h.word_disk s;
    inside = λ i lo hi.
        rw (h.gives_word s free ne, e)
          (put16_in buf at (h.disk s (h.position s).drive (h.position s).sector) (word * 2) i
            (h.bytes s (h.position s).drive (h.position s).sector) lo (omega arith));
    outside = λ i p. put16_out buf at (C.in_port_w 0x1F0 s).0 i (omega arith);
  }
  read_words-IsRead (suc (suc left)) word at buf s some all free ne e =
      IsRead-cons left word at buf s
        (read_words C (suc left) (at + 2) (put16 buf at (C.in_port_w 0x1F0 s).0)
          (C.in_port_w 0x1F0 s).1)
        free ne e (omega arith)
        (read_words-IsRead (suc left) (word + 1) (at + 2) (put16 buf at (C.in_port_w 0x1F0 s).0)
          (C.in_port_w 0x1F0 s).1 (omega arith) (omega arith) (h.stays_ready s free (omega arith))
          (rw (next_word s free ne (omega arith)) ne)
          (rw (next_word s free ne (omega arith)) (ap (λ n. n + 1) e)))
