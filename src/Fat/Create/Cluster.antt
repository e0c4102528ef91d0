-- ===== src/Fat/Create/Cluster.antt =====
-- The sectors of one cluster that `fat_write` fills.
use native.Mathlib.Decide.{dec_le}
use Prim.Native.Nat.{min}
use mathlib.Core.Path.{ap₂}
use master_os.Base.{
  ℕ, zero, suc, ◌+◌, ◌*◌, ◌-◌, ◌^◌, ◌<◌, ◌≤◌, ◌≡◌, refl, sym, ◌⊎◌, inl, ◌∙◌, arith, true, false, [],
  ◌++◌, take, take-append_le, take-append_ge, take-all, Bytes, bytes_at, length-bytes_at,
  take-bytes_at, bytes_at-append, bytes_at_cong, add32, ltb, ◌==◌, if◌then◌else◌,
}
use master_os.Device.{BlockDevice, IsHealthy, put_sector}
use master_os.Fat.Monad.{World}
use master_os.Fat.Rules.{Gives, gives, bind, mono, write_sector-Gives}
use master_os.Fat.Disk.Store.{OnlyDisk, OnlyDisk-trans}
use master_os.Fat.Read.Content.{cluster_bytes}
use master_os.Fat.Create.{data_sector, write_cluster}

-- The first `n` bytes of a data sector are those of the data.
data_sector_lem :
    (data_bytes : Bytes) (offset n : ℕ)
    → n ≤ 512
    → take n (bytes_at (data_sector data_bytes offset n) 0 512) ≡ bytes_at data_bytes offset n
data_sector_lem data_bytes offset n le =
    take-bytes_at (data_sector data_bytes offset n) 0 n 512 le
    ∙ bytes_at_cong (data_sector data_bytes offset n) data_bytes 0 offset n (λ k lt. ground arith)

-- What `left` sectors from sector `s` on hold after the loop, `rem` bytes being left to write.
pub record IsFilled (data_bytes : Bytes) (size lba left s rem : ℕ) (d d' : ℕ → Bytes) : Type 0 where
  pub bytes :
      take rem (cluster_bytes d' lba left s)
      ≡ bytes_at data_bytes (size - rem) (min rem (512 * left))
  pub outside : (l : ℕ) → (l < lba + s) ⊎ (lba + s + left ≤ l) → d' l ≡ d l

module _ (data_bytes : Bytes) (size lba : ℕ) where
  IsFilled-last :
      (left s rem : ℕ) (d : ℕ → Bytes)
      → rem ≤ 512
      → lba + s < 2 ^ 32
      → IsFilled data_bytes size lba
          (suc left)
          s
          rem
          d
          (put_sector d (lba + s) (data_sector data_bytes (size - rem) rem))
  unfolding cluster_bytes
  IsFilled-last left s rem d le small = record {
    bytes =
        let at : add32 lba s ≡ lba + s = omega arith in
        let here : put_sector d (lba + s) (data_sector data_bytes (size - rem) rem) (lba + s)
            ≡ data_sector data_bytes (size - rem) rem =
          ground arith in
        let all : min rem (512 * suc left) ≡ rem = omega arith in
        rw (at, here, all)
          (take-append_le rem (bytes_at (data_sector data_bytes (size - rem) rem) 0 512) _
              (omega (arith, length-bytes_at (data_sector data_bytes (size - rem) rem) 0 512))
            ∙ data_sector_lem data_bytes (size - rem) rem le);
    outside = λ l p. ground arith;
  }

  IsFilled-cons :
      (left s rem : ℕ) (d d' : ℕ → Bytes)
      → 512 < rem
      → rem ≤ size
      → lba + s < 2 ^ 32
      → IsFilled data_bytes size lba left
          (s + 1)
          (rem - 512)
          (put_sector d (lba + s) (data_sector data_bytes (size - rem) 512))
          d'
      → IsFilled data_bytes size lba (suc left) s rem d d'
  unfolding cluster_bytes
  IsFilled-cons left s rem d d' gt le small q = record {
    bytes =
        let at : add32 lba s ≡ lba + s = omega arith in
        rw (at, here)
          (take-append_ge rem (rem - 512) (bytes_at sector 0 512)
              (cluster_bytes d' lba left (s + 1)) (omega (arith, length-bytes_at sector 0 512))
            ∙ ap₂ ◌++◌ full q.bytes
            ∙ joined);
    outside = λ l p. q.outside l (omega arith) ∙ ground arith;
  }
    where
      sector : Bytes
      sector = data_sector data_bytes (size - rem) 512

      here : d' (lba + s) ≡ sector
      here = q.outside (lba + s) (inl (omega arith)) ∙ ground arith

      full : bytes_at sector 0 512 ≡ bytes_at data_bytes (size - rem) 512
      full =
          sym (take-all 512 (bytes_at sector 0 512) (omega (arith, length-bytes_at sector 0 512)))
          ∙ data_sector_lem data_bytes (size - rem) 512 (omega arith)

      joined :
          bytes_at data_bytes (size - rem) 512
            ++ bytes_at data_bytes (size - (rem - 512)) (min (rem - 512) (512 * left))
          ≡ bytes_at data_bytes (size - rem) (min rem (512 * suc left))
      joined =
          let start : size - (rem - 512) ≡ size - rem + 512 = omega arith in
          let sum : min rem (512 * suc left) ≡ 512 + min (rem - 512) (512 * left) = omega arith in
          rw (start, sum)
            (bytes_at-append data_bytes (size - rem) 512 (min (rem - 512) (512 * left)))

  -- The loop writes what fits of the data, and no sector outside the cluster.
  pub write_cluster-IsFilled :
      {D : BlockDevice} (h : IsHealthy D) (left s rem : ℕ) (w : World D.Dev)
      → rem ≤ size
      → lba + s + left ≤ 2 ^ 32
      → Gives
          (λ r w'.
            (r ≡ rem - 512 * left)
            × IsFilled data_bytes size lba left s rem (h.contents w.dev) (h.contents w'.dev)
            × OnlyDisk h w w')
          (write_cluster D data_bytes size lba left s rem w)
  unfolding write_cluster
  write_cluster-IsFilled h zero s rem w le small =
      unfold cluster_bytes bytes_at in
      gives {a = rem} {w = w} (
        omega arith,
        record {
          bytes =
              let none_fit : min rem (512 * 0) ≡ 0 = omega arith in
              rw none_fit (take-all rem [] (omega arith));
          outside = λ l p. refl;
        },
        record { vars = refl; fat_bufs = refl },
      )
  write_cluster-IsFilled h (suc left) s rem w le small = elim (dec_le rem 512) [
    | yes last ↦
        let all : (if ltb rem 512 then rem else 512) ≡ rem = ground arith in
        let no_more : (rem - rem == 0) ≡ true = ground arith in
        simp (all, no_more)
          (bind (write_sector-Gives h (add32 lba s) (data_sector data_bytes (size - rem) rem) w)
            (λ _ w1 p. gives (
              omega arith,
              rw (p.disk, no_wrap) (IsFilled-last left s rem (h.contents w.dev) last (omega arith)),
              record { vars = p.vars; fat_bufs = p.fat_bufs },
            )))
    | no more ↦
        let full : (if ltb rem 512 then rem else 512) ≡ 512 = ground arith in
        let some_more : (rem - 512 == 0) ≡ false = ground arith in
        simp (full, some_more)
          (bind (write_sector-Gives h (add32 lba s) (data_sector data_bytes (size - rem) 512) w)
            (λ _ w1 p.
              mono
                (write_cluster-IsFilled h left (s + 1) (rem - 512) w1 (omega arith) (omega arith))
                (λ r w' q. (
                  q.0 ∙ omega arith,
                  IsFilled-cons left s rem (h.contents w.dev) (h.contents w'.dev) (omega arith) le
                      (omega arith) (rw (p.disk, no_wrap) at q.1),
                  OnlyDisk-trans h (record { vars = p.vars; fat_bufs = p.fat_bufs }) q.2,
                ))))
  ]
    where
      no_wrap : add32 lba s ≡ lba + s
      no_wrap = omega arith
