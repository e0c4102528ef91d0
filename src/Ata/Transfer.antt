-- ===== src/Ata/Transfer.antt =====
-- Reading sectors from a controller that serves them.
use native.Mathlib.Decide.{dec_lt}
use master_os.Base.{
  ℕ, zero, suc, ◌+◌, ◌-◌, ◌*◌, ◌/◌, ◌%◌, ◌^◌, ◌<◌, ◌≤◌, ◌≡◌, refl, ap, ◌∙◌, ◌⊎◌, inl, inr, arith,
  Bool, true, Bytes,
}
use master_os.Ata.{
  Controller, ata_wait_bsy, ata_wait_drq, request, read_words, read_sectors, ata_read,
}
use master_os.Ata.Serving.{IsServing}
use master_os.Ata.Waiting.{Same, wait_bsy_from-IsReady, ata_wait_drq-IsReady}
use master_os.Ata.Request.{request-position, request-disk}
use master_os.Ata.Sector.{IsRead, read_words-IsRead}

module _ {C : Controller} (h : IsServing C) where
  -- `left` sectors from the position of `s` on, at byte `at` of the buffer.
  record IsFetched (s : C.State) (left at : ℕ) (buf : Bytes) (r : Bool × Bytes × C.State)
      : Type 0 where
    ok : r.0 ≡ true
    disk : h.disk r.2 ≡ h.disk s
    inside :
        (i : ℕ)
        → at ≤ i
        → i < at + 512 * left
        → r.1 i
          ≡ h.disk s (h.position s).drive ((h.position s).sector + (i - at) / 512) ((i - at) % 512)
    outside : (i : ℕ) → (i < at) ⊎ (at + 512 * left ≤ i) → r.1 i ≡ buf i

  -- Byte `j` of the sector that comes next, and of the one behind it.
  IsFetched-first :
      (s u : C.State) (j : ℕ)
      → Same h s u
      → j < 512
      → h.disk u (h.position u).drive (h.position u).sector (0 * 2 + j)
        ≡ h.disk s (h.position s).drive ((h.position s).sector + j / 512) (j % 512)
  IsFetched-first s u j same lt =
      let row : (h.position s).sector + j / 512 ≡ (h.position s).sector = omega arith in
      let column : j % 512 ≡ 0 * 2 + j = omega arith in
      simp (row, column, same.position)
        (ap (λ d. d (h.position s).drive (h.position s).sector (0 * 2 + j)) same.disk)

  IsFetched-next :
      (s u v : C.State) (i at : ℕ)
      → Same h s u
      → h.disk v ≡ h.disk u
      → h.position v ≡ record (h.position s) {
        sector = (h.position s).sector + 1;
        word = 0;
        left = (h.position s).left - 1;
      }
      → at + 512 ≤ i
      → h.disk v
          (h.position v).drive
          ((h.position v).sector + (i - (at + 512)) / 512)
          ((i - (at + 512)) % 512)
        ≡ h.disk s (h.position s).drive ((h.position s).sector + (i - at) / 512) ((i - at) % 512)
  IsFetched-next s u v i at same d e lo =
      let row : (h.position s).sector + 1 + (i - (at + 512)) / 512
          ≡ (h.position s).sector + (i - at) / 512 =
        omega arith in
      let column : (i - (at + 512)) % 512 ≡ (i - at) % 512 = omega arith in
      simp (e, row, column)
        (ap (λ d. d (h.position s).drive ((h.position s).sector + (i - at) / 512) ((i - at) % 512))
          (d ∙ same.disk))

  IsFetched-cons :
      (left at : ℕ) (buf : Bytes) (s u : C.State) (r : Bytes × C.State)
      (r' : Bool × Bytes × C.State)
      → Same h s u
      → IsRead h u 0 256 at buf r
      → IsFetched r.1 left (at + 512) r.0 r'
      → IsFetched s (suc left) at buf r'
  IsFetched-cons left at buf s u r r' same w q = record {
    ok = q.ok;
    disk = q.disk ∙ w.disk ∙ same.disk;
    inside = λ i lo hi. elim (dec_lt i (at + 512)) [
      | yes p ↦
          q.outside i (inl p)
          ∙ w.inside i lo (omega arith)
          ∙ IsFetched-first s u (i - at) same (omega arith)
      | no p ↦
          q.inside i (omega arith) (omega arith)
          ∙ IsFetched-next s u r.1 i at same w.disk (w.position ∙ simp same.position refl)
              (omega arith)
    ];
    outside = λ i p. q.outside i (omega arith) ∙ w.outside i (omega arith);
  }

  read_sectors-IsFetched :
      (left at : ℕ) (buf : Bytes) (s : C.State)
      → (h.position s).word ≡ 0
      → (h.position s).left ≡ left
      → IsFetched s left at buf (read_sectors C left at buf s)
  unfolding read_sectors
  read_sectors-IsFetched zero at buf s e f = record {
    ok = refl;
    disk = refl;
    inside = λ i lo hi. absurd (omega arith);
    outside = λ i p. refl;
  }
  read_sectors-IsFetched (suc left) at buf s e f =
      let p = wait_bsy_from-IsReady h 100000 s (h.patient s) in
      let t = (ata_wait_bsy C s).1 in
      let q = ata_wait_drq-IsReady h t p.free (rw p.same.position (omega arith)) in
      let u = (ata_wait_drq C t).1 in
      let same : Same h s u = record {
        position = q.same.position ∙ p.same.position;
        disk = q.same.disk ∙ p.same.disk;
      } in
      let w =
        read_words-IsRead h 256 0 at buf u (omega arith) refl q.free
          (rw same.position (omega arith)) (rw same.position e) in
      rw (p.ok, q.ok)
        (IsFetched-cons left at buf s u (read_words C 256 at buf u)
          (read_sectors C left (at + 512) (read_words C 256 at buf u).0
            (read_words C 256 at buf u).1)
          same w
          (read_sectors-IsFetched left (at + 512) (read_words C 256 at buf u).0
            (read_words C 256 at buf u).1 (rw w.position refl)
            (rw (w.position, same.position) (omega arith))))

  -- What a successful read of `count` sectors leaves.
  pub record IsDelivered (s : C.State) (slave lba count : ℕ) (buf : Bytes)
      (r : Bool × Bytes × C.State) : Type 0 where
    pub ok : r.0 ≡ true
    pub disk : h.disk r.2 ≡ h.disk s
    pub inside : (i : ℕ) → i < 512 * count → r.1 i ≡ h.disk s slave (lba + i / 512) (i % 512)
    pub outside : (i : ℕ) → 512 * count ≤ i → r.1 i ≡ buf i

  IsFetched-IsDelivered :
      (s t : C.State) (slave lba count : ℕ) (buf : Bytes) (r : Bool × Bytes × C.State)
      → h.disk t ≡ h.disk s
      → h.position t ≡ record { drive = slave; sector = lba; word = 0; left = count }
      → IsFetched t count 0 buf r
      → IsDelivered s slave lba count buf r
  IsFetched-IsDelivered s t slave lba count buf r d e q = record {
    ok = q.ok;
    disk = q.disk ∙ d;
    inside = λ i lt.
        q.inside i (omega arith) (omega arith)
        ∙ let at : i - 0 ≡ i = omega arith in
          simp (e, at) (ap (λ x. x slave (lba + i / 512) (i % 512)) d);
    outside = λ i le. q.outside i (inr (omega arith));
  }

  -- With a controller that serves requests, the driver's read from the slave drive (`slave` is 1)
  -- or the master drive (0) succeeds for every 28-bit sector number and every count
  -- from 1 to 255: byte `i` of the
  -- buffer is byte `i % 512` of sector `lba + i / 512`, the buffer behind the sectors keeps its
  -- bytes, and the disk is unchanged.
  pub ata_read-IsDelivered :
      (slave lba count : ℕ) (buf : Bytes) (s : C.State)
      → slave < 2
      → lba < 2 ^ 28
      → 0 < count
      → count < 256
      → IsDelivered s slave lba count buf (ata_read C (0xE0 + slave * 16) lba count buf s)
  unfolding ata_read
  ata_read-IsDelivered slave lba count buf s one lt some fits =
      let p = wait_bsy_from-IsReady h 100000 s (h.patient s) in
      let t = (ata_wait_bsy C s).1 in
      let u = request C (0xE0 + slave * 16) lba count 0x20 t in
      let e = request-position h 0x20 h.starts h.command_disk slave lba count t one lt some in
      rw p.ok (
        IsFetched-IsDelivered s u slave lba count buf (read_sectors C count 0 buf u)
          (request-disk h 0x20 h.starts h.command_disk (0xE0 + slave * 16) lba count t
            ∙ p.same.disk)
          e (read_sectors-IsFetched count 0 buf u (rw e refl) (rw e refl)))
