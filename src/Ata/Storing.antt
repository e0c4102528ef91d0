-- ===== src/Ata/Storing.antt =====
-- Writing a sector to a controller that serves writes.
use native.Mathlib.Decide.{ℕ_discrete, dec_lt}
use master_os.Base.{
  ℕ, zero, suc, ◌+◌, ◌-◌, ◌*◌, ◌^◌, ◌<◌, ◌≤◌, ◌≡◌, ◌≢◌, refl, ap, ◌∙◌, ◌⊎◌, inl, inr, arith, Bool,
  true, ◌&&◌, Bytes, IsBytes, ◌==◌, get16,
}
use master_os.Ata.{
  Controller, ata_wait_bsy, ata_wait_drq, request, write_words, write_sectors, ata_write,
}
use master_os.Ata.Serving.{Position, put_word, IsServing, IsStoring}
use master_os.Ata.Waiting.{Same, wait_bsy_from-IsReady, ata_wait_drq-IsReady}
use master_os.Ata.Request.{request-position, request-disk}
use master_os.Ata.Sector.{advanced_last, advanced_inner}

-- Where a word that is written stands, and where not.
put_word_in :
    (p : Position) (disk : ℕ → ℕ → Bytes) (buf : Bytes) (at i : ℕ)
    → IsBytes buf
    → p.word * 2 ≤ i
    → i < p.word * 2 + 2
    → put_word p (get16 buf at) disk p.drive p.sector i ≡ buf (at + (i - p.word * 2))
put_word_in p disk buf at i b lo hi =
    let here : (p.drive == p.drive && p.sector == p.sector) ≡ true = ground arith in
    rw here (elim (ℕ_discrete i (p.word * 2)) [
      | yes e ↦
          let off : at + (i - p.word * 2) ≡ at = omega arith in
          rw off (ground (arith, b at, b (at + 1)))
      | no ne ↦
          let off : at + (i - p.word * 2) ≡ at + 1 = omega arith in
          rw off (ground (arith, b at, b (at + 1)))
    ])

put_word_out :
    (p : Position) (v : ℕ) (disk : ℕ → ℕ → Bytes) (d l i : ℕ)
    → (d ≢ p.drive) ⊎ (l ≢ p.sector) ⊎ (i < p.word * 2) ⊎ (p.word * 2 + 2 ≤ i)
    → put_word p v disk d l i ≡ disk d l i
put_word_out p v disk d l i out = ground arith

-- The bytes of a sector from word `word` on are the buffer's from `at` on; all others are kept.
record IsPut (p : Position) (word at : ℕ) (buf : Bytes) (disk disk' : ℕ → ℕ → Bytes) : Type 0 where
  inside : (i : ℕ) → word * 2 ≤ i → i < 512 → disk' p.drive p.sector i ≡ buf (at + (i - word * 2))
  outside :
      (d l i : ℕ)
      → (d ≢ p.drive) ⊎ (l ≢ p.sector) ⊎ (i < word * 2) ⊎ (512 ≤ i)
      → disk' d l i ≡ disk d l i

module _ {C : Controller} (h : IsServing C) (st : IsStoring C h) (buf : Bytes)
    (b : IsBytes buf) where
  record IsWritten (s : C.State) (word at : ℕ) (s' : C.State) : Type 0 where
    left : (h.position s').left ≡ (h.position s).left - 1
    put : IsPut (h.position s) word at buf (h.disk s) (h.disk s')

  next_put :
      (v : ℕ) (s : C.State)
      → h.busy s ≡ 0
      → (h.position s).left ≢ 0
      → (h.position s).word ≢ 255
      → h.position (C.out_port_w 0x1F0 v s)
        ≡ record (h.position s) { word = (h.position s).word + 1 }
  next_put v s free ne inner = st.puts_on v s free ne ∙ advanced_inner (h.position s) inner

  -- A word in front of the rest.
  IsPut-cons :
      (p : Position) (at : ℕ) (disk disk1 disk' : ℕ → ℕ → Bytes)
      → p.word < 255
      → disk1 ≡ put_word p (get16 buf at) disk
      → IsPut (record p { word = p.word + 1 }) (p.word + 1) (at + 2) buf disk1 disk'
      → IsPut p p.word at buf disk disk'
  IsPut-cons p at disk disk1 disk' lt e q = record {
    inside = λ i lo hi. elim (dec_lt i ((p.word + 1) * 2)) [
      | yes early ↦
          q.outside p.drive p.sector i (inr (inr (inl early)))
          ∙ ap (λ k. k p.drive p.sector i) e
          ∙ put_word_in p disk buf at i b lo (omega arith)
      | no late ↦
          let off : at + 2 + (i - (p.word + 1) * 2) ≡ at + (i - p.word * 2) = omega arith in
          q.inside i (omega arith) hi ∙ ap buf off
    ];
    outside = λ d l i out.
        q.outside d l i (ground arith)
        ∙ ap (λ k. k d l i) e
        ∙ put_word_out p (get16 buf at) disk d l i (ground arith);
  }

  IsWritten-cons :
      (word at : ℕ) (s s' : C.State)
      → h.busy s ≡ 0
      → (h.position s).left ≢ 0
      → (h.position s).word ≡ word
      → word < 255
      → IsWritten (C.out_port_w 0x1F0 (get16 buf at) s) (word + 1) (at + 2) s'
      → IsWritten s word at s'
  IsWritten-cons word at s s' free ne e lt q =
      let next = next_put (get16 buf at) s free ne (omega arith) in
      record {
        left = q.left ∙ ap (λ p. p.left - 1) next;
        put = rw (← e) (
            IsPut-cons (h.position s) at (h.disk s) (h.disk (C.out_port_w 0x1F0 (get16 buf at) s))
              (h.disk s') (omega arith) (st.puts_word (get16 buf at) s free ne)
              (rw (next, ← e) at q.put));
      }

  write_words-IsWritten :
      (left word at : ℕ) (s : C.State)
      → 0 < left
      → word + left ≡ 256
      → h.busy s ≡ 0
      → (h.position s).left ≢ 0
      → (h.position s).word ≡ word
      → IsWritten s word at (write_words C left at buf s)
  unfolding write_words
  write_words-IsWritten zero word at s some all free ne e = absurd (omega arith)
  write_words-IsWritten (suc zero) word at s some all free ne e = record {
    left =
        ap (λ p. p.left)
          (st.puts_on (get16 buf at) s free ne ∙ advanced_last (h.position s) (e ∙ omega arith));
    put = record {
      inside = λ i lo hi.
          ap (λ d. d (h.position s).drive (h.position s).sector i)
            (st.puts_word (get16 buf at) s free ne)
          ∙ put_word_in (h.position s) (h.disk s) buf at i b (rw e lo) (omega arith)
          ∙ ap (λ n. buf (at + (i - n * 2))) e;
      outside = λ d l i out.
          ap (λ k. k d l i) (st.puts_word (get16 buf at) s free ne)
          ∙ put_word_out (h.position s) (get16 buf at) (h.disk s) d l i (ground arith);
    };
  }
  write_words-IsWritten (suc (suc left)) word at s some all free ne e =
      let next = next_put (get16 buf at) s free ne (omega arith) in
      IsWritten-cons word at s
        (write_words C (suc left) (at + 2) buf (C.out_port_w 0x1F0 (get16 buf at) s)) free ne e
        (omega arith)
        (write_words-IsWritten (suc left) (word + 1) (at + 2) (C.out_port_w 0x1F0 (get16 buf at) s)
          (omega arith) (omega arith) (st.puts_ready (get16 buf at) s free (omega arith))
          (rw next ne) (rw next (ap (λ n. n + 1) e)))

  -- What a successful write of one sector leaves.
  pub record IsSaved (s : C.State) (slave lba : ℕ) (r : Bool × C.State) : Type 0 where
    pub ok : r.0 ≡ true
    pub inside : (i : ℕ) → i < 512 → h.disk r.1 slave lba i ≡ buf i
    pub outside :
        (d l i : ℕ) → (d ≢ slave) ⊎ (l ≢ lba) ⊎ (512 ≤ i) → h.disk r.1 d l i ≡ h.disk s d l i

  saved :
      (s u v y z : C.State) (slave lba : ℕ)
      → h.disk u ≡ h.disk s
      → h.position u ≡ record { drive = slave; sector = lba; word = 0; left = 1 }
      → Same h u v
      → IsWritten v 0 0 y
      → h.disk z ≡ h.disk y
      → IsSaved s slave lba (true, z)
  saved s u v y z slave lba du pu same w dz =
      let p = same.position ∙ pu in
      let put : IsPut (record { drive = slave; sector = lba; word = 0; left = 1 }) 0 0 buf
          (h.disk s) (h.disk z) =
        rw (dz, ← du, ← same.disk, ← p) w.put in
      record {
        ok = refl;
        inside = λ i lt.
            put.inside i (omega arith) lt ∙ (let e : 0 + (i - 0 * 2) ≡ i = omega arith in ap buf e);
        outside = λ d l i out. put.outside d l i (ground arith);
      }

  write_sectors-IsSaved :
      (s u : C.State) (slave lba : ℕ)
      → h.disk u ≡ h.disk s
      → h.position u ≡ record { drive = slave; sector = lba; word = 0; left = 1 }
      → IsSaved s slave lba (write_sectors C 1 0 buf u)
  unfolding write_sectors
  write_sectors-IsSaved s u slave lba du pu =
      let p = wait_bsy_from-IsReady h 100000 u (h.patient u) in
      let t = (ata_wait_bsy C u).1 in
      let q = ata_wait_drq-IsReady h t p.free (rw (p.same.position, pu) (omega arith)) in
      let v = (ata_wait_drq C t).1 in
      let same : Same h u v = record {
        position = q.same.position ∙ p.same.position;
        disk = q.same.disk ∙ p.same.disk;
      } in
      let w =
        write_words-IsWritten 256 0 0 v (omega arith) refl q.free
          (rw (same.position, pu) (omega arith)) (rw (same.position, pu) refl) in
      let y = write_words C 256 0 buf v in
      let x = C.out_port_b 0x1F7 0xE7 y in
      let f = wait_bsy_from-IsReady h 100000 x (h.patient x) in
      let none_left : (h.position y).left ≡ 0 = w.left ∙ (rw (same.position, pu) refl) in
      rw (p.ok, q.ok, f.ok)
        (saved s u v y (ata_wait_bsy C x).1 slave lba du pu same w
          (f.same.disk ∙ st.flush_disk y none_left))

  -- With a controller that serves reads and writes, the driver's write of one sector of bytes to
  -- the slave drive (`slave` is 1) or the master drive (0) succeeds for every 28-bit sector
  -- number: the sector then holds the first 512 bytes of the buffer, and every other sector of
  -- both drives is unchanged.
  pub ata_write-IsSaved :
      (slave lba : ℕ) (s : C.State)
      → slave < 2
      → lba < 2 ^ 28
      → IsSaved s slave lba (ata_write C (0xE0 + slave * 16) lba 1 buf s)
  unfolding ata_write
  ata_write-IsSaved slave lba s one lt =
      let p = wait_bsy_from-IsReady h 100000 s (h.patient s) in
      let t = (ata_wait_bsy C s).1 in
      rw p.ok (
        write_sectors-IsSaved s (request C (0xE0 + slave * 16) lba 1 0x30 t) slave lba
          (request-disk h 0x30 st.starts_write st.write_disk (0xE0 + slave * 16) lba 1 t
            ∙ p.same.disk)
          (request-position h 0x30 st.starts_write st.write_disk slave lba 1 t one lt
            (omega arith)))
