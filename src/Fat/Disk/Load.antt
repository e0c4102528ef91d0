-- ===== src/Fat/Disk/Load.antt =====
-- Reading the table into memory, on a disk that answers.
use native.Mathlib.Decide.{dec_lt}
use mathlib.Core.Path.{fun_ext}
use master_os.Base.{
  Bool-cases, ltb→lt, ℕ, zero, suc, ◌+◌, ◌*◌, ◌-◌, ◌/◌, ◌%◌, ◌<◌, ◌≤◌, ◌≡◌, refl, ◌⊎◌, inl, inr,
  ◌∙◌, ap, arith, false, Bytes, add32, ltb, if◌then◌else◌, ◌≢◌, ◌==◌,
}
use master_os.Device.{BlockDevice, IsHealthy}
use master_os.Fat.Monad.{World, Owner, slot, put_buf}
use master_os.Fat.Rules.{Gives, gives, bind, mono, Same, same, read_sector-Gives}
use master_os.Fat.Disk.{copy_sector, load_fat_from, load_fat, fat_secs}

ge : (i n : ℕ) → ltb i n ≡ false → n ≤ i
ge i n e = ground arith

module _ {D : BlockDevice} (h : IsHealthy D) where
  -- A load of `count` sectors from sector `start`, the first of which is `s` of the table.
  pub record IsLoaded (f : Owner) (start s count : ℕ) (w w' : World D.Dev) : Type 0 where
    pub vars : w'.vars ≡ w.vars
    pub disk : h.contents w'.dev ≡ h.contents w.dev
    pub inside :
        (i : ℕ)
        → s * 512 ≤ i
        → i < (s + count) * 512
        → w'.fat_bufs (slot f) i ≡ h.contents w.dev (add32 start (i / 512)) (i % 512)
    pub outside :
        (i : ℕ)
        → (i < s * 512) ⊎ ((s + count) * 512 ≤ i)
        → w'.fat_bufs (slot f) i ≡ w.fat_bufs (slot f) i
    pub others : (g : ℕ) → g ≢ slot f → w'.fat_bufs g ≡ w.fat_bufs g

  copied_in :
      (f : Owner) (bufs : ℕ → Bytes) (at : ℕ) (buf : Bytes) (i : ℕ)
      → at ≤ i
      → i < at + 512
      → put_buf bufs (slot f) (copy_sector (bufs (slot f)) at buf) (slot f) i ≡ buf (i - at)
  unfolding copy_sector
  copied_in f bufs at buf i p q = ground arith

  copied_out :
      (f : Owner) (bufs : ℕ → Bytes) (at : ℕ) (buf : Bytes) (i : ℕ)
      → (i < at) ⊎ (at + 512 ≤ i)
      → put_buf bufs (slot f) (copy_sector (bufs (slot f)) at buf) (slot f) i ≡ bufs (slot f) i
  unfolding copy_sector
  copied_out f bufs at buf i p = ground arith

  kept :
      (f : Owner) (bufs : ℕ → Bytes) (buf : Bytes) (g : ℕ)
      → g ≢ slot f
      → put_buf bufs (slot f) buf g ≡ bufs g
  kept f bufs buf g ne = let e : (g == slot f) ≡ false = ground arith in rw e

  IsLoaded-cons :
      (f : Owner) (start left s : ℕ) (w w1 w' : World D.Dev) (buf : Bytes)
      → buf ≡ h.contents w.dev (add32 start s)
      → Same h w w1
      → IsLoaded f start
          (s + 1)
          left
          (record w1 {
            fat_bufs =
                put_buf w1.fat_bufs (slot f) (copy_sector (w1.fat_bufs (slot f)) (s * 512) buf);
          })
          w'
      → IsLoaded f start s (suc left) w w'
  IsLoaded-cons f start left s w w1 w' buf e same q = record {
    vars = q.vars ∙ same.vars;
    disk = q.disk ∙ same.disk;
    inside = λ i p1 p2. elim (dec_lt i ((s + 1) * 512)) [
      | yes lt ↦
          let row : i / 512 ≡ s = omega arith in
          let column : i % 512 ≡ i - s * 512 = omega arith in
          rw (row, column)
            (q.outside i (inl lt)
              ∙ copied_in f w1.fat_bufs (s * 512) buf i p1 (omega arith)
              ∙ ap (λ b. b (i - s * 512)) e)
      | no ge ↦
          q.inside i (omega arith) (omega arith)
          ∙ ap (λ c. c (add32 start (i / 512)) (i % 512)) same.disk
    ];
    outside = λ i p.
        q.outside i (omega arith)
        ∙ copied_out f w1.fat_bufs (s * 512) buf i (omega arith)
        ∙ ap (λ b. b (slot f) i) same.fat_bufs;
    others = λ g ne.
        q.others g ne
        ∙ kept f w1.fat_bufs (copy_sector (w1.fat_bufs (slot f)) (s * 512) buf) g ne
        ∙ ap (λ b. b g) same.fat_bufs;
  }

  load_fat_from-IsLoaded :
      (f : Owner) (start left s : ℕ) (w : World D.Dev)
      → Gives (λ _ w'. IsLoaded f start s left w w') (load_fat_from D f start left s w)
  unfolding load_fat_from
  load_fat_from-IsLoaded f start zero s w = gives (record {
    vars = refl;
    disk = refl;
    inside = λ i p q. absurd (omega arith);
    outside = λ i p. refl;
    others = λ g ne. refl;
  })
  load_fat_from-IsLoaded f start (suc left) s w =
      bind (read_sector-Gives h (add32 start s) w) (λ buf w1 p.
        mono
          (load_fat_from-IsLoaded f start left (s + 1) (record w1 {
            fat_bufs =
                put_buf w1.fat_bufs (slot f) (copy_sector (w1.fat_bufs (slot f)) (s * 512) buf);
          }))
          (λ _ w' q. IsLoaded-cons f start left s w w1 w' buf p.0 p.1 q))

  -- On a disk that answers, the whole table, as far as 18 sectors, is read into the buffer of the
  -- function that asks for it.
  pub load_fat-IsLoaded :
      (f : Owner) (w : World D.Dev)
      → Gives (λ _ w'. IsLoaded f w.vars.fat_start 0 (fat_secs w.vars.bpb) w w') (load_fat D f w)
  unfolding load_fat
  load_fat-IsLoaded f w = load_fat_from-IsLoaded f w.vars.fat_start (fat_secs w.vars.bpb) 0 w

  -- The table of a function after a load: the sectors on the disk, and behind them what its
  -- buffer held before.
  unfoldable pub loaded_table : Owner → World D.Dev → Bytes
  loaded_table f w i =
      if ltb i (fat_secs w.vars.bpb * 512)
      then h.contents w.dev (add32 w.vars.fat_start (i / 512)) (i % 512)
      else w.fat_bufs (slot f) i

  pub loaded_table_lem :
      (f : Owner) (w w' : World D.Dev)
      → IsLoaded f w.vars.fat_start 0 (fat_secs w.vars.bpb) w w'
      → w'.fat_bufs (slot f) ≡ loaded_table f w
  unfolding loaded_table
  loaded_table_lem f w w' l = fun_ext λ i. at i
    where
      at : (i : ℕ) → w'.fat_bufs (slot f) i ≡ loaded_table f w i
      at i = elim (Bool-cases (ltb i (fat_secs w.vars.bpb * 512))) [
        | inl e ↦
            rw e (l.inside i (omega arith) (omega (arith, ltb→lt i (fat_secs w.vars.bpb * 512) e)))
        | inr e ↦ rw e (l.outside i (inr (omega (arith, ge i (fat_secs w.vars.bpb * 512) e))))
      ]
