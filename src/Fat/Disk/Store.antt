-- ===== src/Fat/Disk/Store.antt =====
-- Writing the table back, on a disk that answers.
use native.Mathlib.Decide.{ℕ_discrete}
use native.Mathlib.Nat.{mul-le-mul_right}
use master_os.Base.{
  ℕ, zero, suc, ◌+◌, ◌*◌, ◌^◌, ◌<◌, ◌≤◌, ◌≡◌, refl, ◌⊎◌, inl, ◌∙◌, ap, arith, Bytes, add32, u32,
}
use master_os.Device.{BlockDevice, IsHealthy, put_sector}
use master_os.Fat.Monad.{World, Vars, Owner, slot}
use master_os.Fat.Rules.{Gives, gives, bind, mono, write_sector-Gives}
use master_os.Fat.Disk.{sector_at, fat_secs, write_copy, write_copies, write_fat}

-- The sectors `[s, s + left)` of a table buffer stand on the disk from sector `start` on.
pub record IsWritten (start s left : ℕ) (buf : Bytes) (d d' : ℕ → Bytes) : Type 0 where
  pub inside : (t : ℕ) → s ≤ t → t < s + left → d' (start + t) ≡ sector_at buf (t * 512)
  pub outside : (l : ℕ) → (l < start + s) ⊎ (start + s + left ≤ l) → d' l ≡ d l

module _ (start s left : ℕ) (buf : Bytes) (d d1 d' : ℕ → Bytes) where
  IsWritten-cons :
      d1 ≡ put_sector d (start + s) (sector_at buf (s * 512))
      → IsWritten start (s + 1) left buf d1 d'
      → IsWritten start s (suc left) buf d d'
  IsWritten-cons e r = record {
    inside = λ t p q. elim (ℕ_discrete s t) [
      | yes here ↦
          rw (← here)
            (r.outside (start + s) (inl (omega arith)) ∙ ap (λ c. c (start + s)) e ∙ ground arith)
      | no later ↦ r.inside t (omega arith) (omega arith)
    ];
    outside = λ l p. r.outside l (omega arith) ∙ ap (λ c. c l) e ∙ ground arith;
  }

-- Every copy of the table holds the buffer, from sector 0 to the last that is kept in memory;
-- the other sectors of the copies, those before the first copy and those behind the last are as
-- they were.
pub record IsStored (v : Vars) (buf : Bytes) (d d' : ℕ → Bytes) : Type 0 where
  pub copies :
      (f t : ℕ)
      → f < v.bpb.fat_count
      → t < fat_secs v.bpb
      → d' (v.fat_start + f * v.bpb.sectors_per_fat + t) ≡ sector_at buf (t * 512)
  pub behind :
      (f t : ℕ)
      → f < v.bpb.fat_count
      → fat_secs v.bpb ≤ t
      → t < v.bpb.sectors_per_fat
      → d' (v.fat_start + f * v.bpb.sectors_per_fat + t)
        ≡ d (v.fat_start + f * v.bpb.sectors_per_fat + t)
  pub outside :
      (l : ℕ)
      → (l < v.fat_start) ⊎ (v.fat_start + v.bpb.fat_count * v.bpb.sectors_per_fat ≤ l)
      → d' l ≡ d l

-- The same from copy `f` on.
record IsStoredFrom (v : Vars) (buf : Bytes) (f left : ℕ) (d d' : ℕ → Bytes) : Type 0 where
  copies :
      (g t : ℕ)
      → f ≤ g
      → g < f + left
      → t < fat_secs v.bpb
      → d' (v.fat_start + g * v.bpb.sectors_per_fat + t) ≡ sector_at buf (t * 512)
  behind :
      (g t : ℕ)
      → f ≤ g
      → g < f + left
      → fat_secs v.bpb ≤ t
      → t < v.bpb.sectors_per_fat
      → d' (v.fat_start + g * v.bpb.sectors_per_fat + t)
        ≡ d (v.fat_start + g * v.bpb.sectors_per_fat + t)
  outside :
      (l : ℕ)
      → (l < v.fat_start + f * v.bpb.sectors_per_fat)
        ⊎ (v.fat_start + (f + left) * v.bpb.sectors_per_fat ≤ l)
      → d' l ≡ d l

fat_secs-le : (v : Vars) → fat_secs v.bpb ≤ v.bpb.sectors_per_fat
fat_secs-le v = ground arith

IsStoredFrom-cons :
    (v : Vars) (buf : Bytes) (f left : ℕ) (d d1 d' : ℕ → Bytes)
    → IsWritten (v.fat_start + f * v.bpb.sectors_per_fat) 0 (fat_secs v.bpb) buf d d1
    → IsStoredFrom v buf (f + 1) left d1 d'
    → IsStoredFrom v buf f (suc left) d d'
IsStoredFrom-cons v buf f left d d1 d' one rest = record {
  copies = λ g t p q lt. elim (ℕ_discrete f g) [
    | yes here ↦ rw (← here) (
        rest.outside (v.fat_start + f * v.bpb.sectors_per_fat + t)
          (inl (omega (arith, fat_secs-le v)))
        ∙ one.inside t (omega arith) (omega arith))
    | no later ↦ rest.copies g t (omega arith) (omega arith) lt
  ];
  behind = λ g t p q lo hi. elim (ℕ_discrete f g) [
    | yes here ↦ rw (← here) (
        rest.outside (v.fat_start + f * v.bpb.sectors_per_fat + t) (inl (omega arith))
        ∙ one.outside (v.fat_start + f * v.bpb.sectors_per_fat + t) (omega arith))
    | no later ↦
        let after_one : (f + 1) * v.bpb.sectors_per_fat ≤ g * v.bpb.sectors_per_fat =
          mul-le-mul_right v.bpb.sectors_per_fat (omega arith) in
        rest.behind g t (omega arith) (omega arith) lo hi
        ∙ one.outside (v.fat_start + g * v.bpb.sectors_per_fat + t) (omega (arith, fat_secs-le v))
  ];
  outside = λ l p. rest.outside l (omega arith) ∙ one.outside l (omega (arith, fat_secs-le v));
}

module _ {D : BlockDevice} (h : IsHealthy D) where
  -- Only the disk has changed.
  pub record OnlyDisk (w w' : World D.Dev) : Type 0 where
    pub vars : w'.vars ≡ w.vars
    pub fat_bufs : w'.fat_bufs ≡ w.fat_bufs

  pub OnlyDisk-trans : {u v w : World D.Dev} → OnlyDisk u v → OnlyDisk v w → OnlyDisk u w
  OnlyDisk-trans p q = record { vars = q.vars ∙ p.vars; fat_bufs = q.fat_bufs ∙ p.fat_bufs }

  write_copy-IsWritten :
      (buf : Bytes) (start left s : ℕ) (w : World D.Dev)
      → start + s + left < 2 ^ 32
      → Gives
          (λ _ w'.
            IsWritten start s left buf (h.contents w.dev) (h.contents w'.dev) × OnlyDisk w w')
          (write_copy D buf start left s w)
  unfolding write_copy
  write_copy-IsWritten buf start zero s w small = gives (
    record { inside = λ t p q. absurd (omega arith); outside = λ l p. refl },
    record { vars = refl; fat_bufs = refl },
  )
  write_copy-IsWritten buf start (suc left) s w small =
      let at : add32 start s ≡ start + s = omega arith in
      bind (write_sector-Gives h (add32 start s) (sector_at buf (s * 512)) w) (λ _ w1 p.
        mono (write_copy-IsWritten buf start left (s + 1) w1 (omega arith)) (λ _ w' q. (
          IsWritten-cons start s left buf (h.contents w.dev) (h.contents w1.dev) (h.contents w'.dev)
              (p.disk ∙ ap (λ n. put_sector (h.contents w.dev) n (sector_at buf (s * 512))) at) q.0,
          OnlyDisk-trans (record { vars = p.vars; fat_bufs = p.fat_bufs }) q.1,
        )))

  write_copies-IsStoredFrom :
      (buf : Bytes) (v : Vars) (left f : ℕ) (w : World D.Dev)
      → v.fat_start + (f + left) * v.bpb.sectors_per_fat < 2 ^ 32
      → Gives
          (λ _ w'. IsStoredFrom v buf f left (h.contents w.dev) (h.contents w'.dev) × OnlyDisk w w')
          (write_copies D buf v left f w)
  unfolding write_copies
  write_copies-IsStoredFrom buf v zero f w small = gives (
    record {
      copies = λ g t p q lt. absurd (omega arith);
      behind = λ g t p q lo hi. absurd (omega arith);
      outside = λ l p. refl;
    },
    record { vars = refl; fat_bufs = refl },
  )
  write_copies-IsStoredFrom buf v (suc left) f w small =
      let at : u32 (v.fat_start + f * v.bpb.sectors_per_fat)
          ≡ v.fat_start + f * v.bpb.sectors_per_fat =
        omega arith in
      rw at (
        bind
          (write_copy-IsWritten buf (v.fat_start + f * v.bpb.sectors_per_fat) (fat_secs v.bpb) 0 w
            (omega (arith, fat_secs-le v)))
          (λ _ w1 p. mono (write_copies-IsStoredFrom buf v left (f + 1) w1 (omega arith)) (λ _ w' q.
            (
              IsStoredFrom-cons v buf f left (h.contents w.dev) (h.contents w1.dev)
                  (h.contents w'.dev) p.0 q.0,
              OnlyDisk-trans p.1 q.1,
            ))))

  -- On a disk that answers, `write_fat` stores the table buffer of the function that calls it in
  -- every copy of the table, and changes neither a sector before the first copy or behind the
  -- last, nor a sector of a copy that is not kept in memory.
  pub write_fat-IsStored :
      (o : Owner) (w : World D.Dev)
      → w.vars.fat_start + w.vars.bpb.fat_count * w.vars.bpb.sectors_per_fat < 2 ^ 32
      → Gives
          (λ _ w'.
            IsStored w.vars (w.fat_bufs (slot o)) (h.contents w.dev) (h.contents w'.dev)
            × OnlyDisk w w')
          (write_fat D o w)
  unfolding write_fat
  write_fat-IsStored o w small =
      mono
        (write_copies-IsStoredFrom (w.fat_bufs (slot o)) w.vars w.vars.bpb.fat_count 0 w
          (omega arith))
        (λ _ w' q. (
          record {
            copies = λ f t p lt. q.0.copies f t (omega arith) (omega arith) lt;
            behind = λ f t p lo hi. q.0.behind f t (omega arith) (omega arith) lo hi;
            outside = λ l p. q.0.outside l (omega arith);
          },
          q.1,
        ))
