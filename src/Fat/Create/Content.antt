-- ===== src/Fat/Create/Content.antt =====
-- The loop of `fat_write`: the chain of clusters it takes, and the data in their sectors.
pub mod Placed
pub mod Round
use native.Mathlib.Decide.{ℕ_discrete}
use mathlib.Core.Path.{subst}
use master_os.Base.{
  ℕ, zero, suc, ◌+◌, ◌*◌, ◌-◌, ◌/◌, ◌≤◌, ◌<◌, ◌^◌, ◌≡◌, ◌≢◌, refl, ◌∙◌, sym, ap, arith, false, true,
  ◌==◌, if◌then◌else◌, List, [], ◌∷◌, length, Bytes, IsBytes,
}
use master_os.Device.{BlockDevice, IsHealthy}
use master_os.Fat.Monad.{World, Vars, Owner, slot, and_then, put_buf}
use master_os.Fat.Rules.{Gives, gives, bind, mono}
use master_os.Fat.Table.{fat_next_cluster, fat_find_free_cluster}
use master_os.Fat.Table.Free.{IsFree}
use master_os.Fat.Table.Supply.{free_below, find_free_some}
use master_os.Fat.Table.Chain.{Chain, stop, link}
use master_os.Fat.Disk.{fat_secs, cluster_lba}
use master_os.Fat.Disk.Store.{OnlyDisk}
use master_os.Fat.Create.{total_clusters, Progress, link_cluster, write_cluster, write_clusters}
use master_os.Fat.Create.Cluster.{IsFilled, write_cluster-IsFilled}
use master_os.Fat.Create.Chain.{
  link_cluster-IsBytes, next_link_self, free_below-link, IsTaken, IsTaken-none, IsTaken-cons,
  Chain-taken, next_taken, taken_once,
}
use master_os.Fat.Create.Content.Round.{world, progress, one_round}
use master_os.Fat.Create.Content.Placed.{
  Fits, lba_of, cluster_lba_lem, lba_of-le, IsPlaced, IsPlaced-none, IsPlaced-cons,
}

module _ {D : BlockDevice} (h : IsHealthy D) (data_bytes : Bytes) (size : ℕ) (v : Vars) (n : ℕ)
    (fits : Fits v n) where
  -- What the loop leaves: the clusters `xs`, at most `k`, from entry `q` on.
  pub record IsSaved (q k rem : ℕ) (buf : Bytes) (d : ℕ → Bytes) (xs : List ℕ) (w' : World D.Dev)
      : Type 0 where
    pub short : length xs ≤ k
    pub taken : IsTaken n q buf xs (w'.fat_bufs 4)
    pub placed : IsPlaced data_bytes size v xs rem d (h.contents w'.dev)
    pub vars : w'.vars ≡ v

  IsSaved-none :
      (q k rem : ℕ) (bufs : ℕ → Bytes) (dev : D.Dev)
      → rem ≡ 0
      → IsBytes (bufs 4)
      → IsSaved q k rem (bufs 4) (h.contents dev) [] (world v bufs dev)
  IsSaved-none q k rem bufs dev z bytes = record {
    short = omega arith;
    taken = IsTaken-none n q (bufs 4) bytes;
    placed = rw z (IsPlaced-none data_bytes size v (h.contents dev));
    vars = refl;
  }

  module _ (q k rem : ℕ) (buf : Bytes) (d : ℕ → Bytes) (bytes : IsBytes buf)
      (q_used : q ≢ 0 → ¬ IsFree buf q) (c : ℕ) (lo : 2 ≤ c) (hi : c < n)
      (c_free : IsFree buf c) where
    IsSaved-cons :
        (d1 : ℕ → Bytes) (xs : List ℕ) (w' : World D.Dev)
        → rem ≤ size
        → IsFilled data_bytes size (lba_of v c) v.bpb.sectors_per_cluster 0 rem d d1
        → IsSaved c k (rem - 512 * v.bpb.sectors_per_cluster) (link_cluster buf q c) d1 xs w'
        → IsSaved q (suc k) rem buf d (c ∷ xs) w'
    IsSaved-cons d1 xs w' le filled s = record {
      short = omega (arith, s.short);
      taken = IsTaken-cons n q c buf bytes c_free q_used lo hi fits.small s.taken;
      placed =
          IsPlaced-cons data_bytes size v n c rem xs d d1 (h.contents w'.dev) fits lo hi le
            (taken_once n q c buf bytes c_free q_used lo hi fits.small s.taken)
            (λ e m. (s.taken.fresh e m).0) filled s.placed;
      vars = s.vars;
    }

  -- The rounds after the first, which go on from entry `q`.
  write_clusters-later :
      (rounds k rem f q : ℕ) (bufs : ℕ → Bytes) (dev : D.Dev)
      → f ≢ 0
      → q ≢ 0
      → fat_next_cluster (bufs 4) q ≡ 0xFFF
      → IsBytes (bufs 4)
      → rem ≤ size
      → rem ≤ k * (512 * v.bpb.sectors_per_cluster)
      → k ≤ free_below n (bufs 4)
      → k < rounds
      → Gives
          (λ r w'.
            (xs : List ℕ) × (r ≡ f)
            × Chain (w'.fat_bufs 4) (fat_next_cluster (w'.fat_bufs 4) q) xs
            × IsSaved q k rem (bufs 4) (h.contents dev) xs w')
          (write_clusters D data_bytes size rounds (progress rem f q) (world v bufs dev))
  write_clusters-later zero k rem f q bufs dev some_f some_q mark bytes le fit supply lt =
      absurd (omega arith)
  write_clusters-later (suc rounds) k zero f q bufs dev some_f some_q mark bytes le fit supply lt =
      unfold write_clusters in
      gives {a = f} {w = world v bufs dev} (
        [],
        refl,
        rw mark (stop (λ in_range. omega (arith, in_range))),
        IsSaved-none q k 0 bufs dev refl bytes,
      )
  write_clusters-later (suc rounds) zero (suc rem) f q bufs dev some_f some_q mark bytes le fit
        supply lt =
      absurd (omega arith)
  write_clusters-later (suc rounds) (suc k) (suc rem) f q bufs dev some_f some_q mark bytes le fit
        supply lt =
      one_round h data_bytes size v n fits rounds (suc rem) f q bufs dev (omega arith) le
        (omega arith)
        (λ c dev1 lo hi free filled.
          let same_f : (if f == 0 then c else f) ≡ f = ground arith in
          rw same_f (
            mono
              (write_clusters-later rounds k (suc rem - 512 * v.bpb.sectors_per_cluster) f c
                (put_buf bufs 4 (link_cluster (bufs 4) q c)) dev1 some_f (omega arith)
                (next_link_self (bufs 4) q c bytes lo (omega (arith, fits.small)) free q_used)
                (link_cluster-IsBytes (bufs 4) q c bytes lo (omega (arith, fits.small)) free q_used)
                (omega arith) (omega arith)
                (omega (
                  arith,
                  free_below-link (bufs 4) q c bytes lo (omega (arith, fits.small)) free q_used n
                      hi,
                ))
                (omega arith))
              (λ r w' (xs, e, ch, s). (
                c ∷ xs,
                e,
                rw (next_taken n q c (bufs 4) bytes free q_used lo hi fits.small s.taken some_q)
                    (Chain-taken n q c (bufs 4) bytes free q_used lo hi fits.small s.taken ch),
                IsSaved-cons q k (suc rem) (bufs 4) (h.contents dev) bytes q_used c lo hi free
                    (h.contents dev1) xs w' le filled s,
              ))))
    where
      q_used : q ≢ 0 → ¬ IsFree (bufs 4) q
      q_used _ free = omega arith

  -- With at least `k` free clusters, which are enough for the data, the loop of `fat_write` comes
  -- back. It has taken at most `k` clusters, all of them free before, their entries form a
  -- chain from the cluster it returns, no other entry has changed, their sectors hold the
  -- data in the order of the chain, and no other sector has changed.
  pub write_clusters-IsSaved :
      (rounds k : ℕ) (bufs : ℕ → Bytes) (dev : D.Dev)
      → IsBytes (bufs 4)
      → size ≤ k * (512 * v.bpb.sectors_per_cluster)
      → k ≤ free_below n (bufs 4)
      → k < rounds
      → Gives
          (λ r w'.
            (xs : List ℕ) × (r < 2 ^ 16)
            × Chain (w'.fat_bufs 4) r xs
            × IsSaved 0 k size (bufs 4) (h.contents dev) xs w')
          (write_clusters D data_bytes size rounds (progress size 0 0) (world v bufs dev))
  write_clusters-IsSaved zero k bufs dev bytes fit supply lt = absurd (omega arith)
  write_clusters-IsSaved (suc rounds) k bufs dev bytes fit supply lt = elim (ℕ_discrete size 0) [
    | yes e ↦
        let no_byte : (size == 0) ≡ true = ground arith in
        unfold write_clusters in
        rw no_byte (
          gives {a = 0} {w = world v bufs dev} (
            [],
            omega arith,
            stop (λ in_range. omega (arith, in_range)),
            IsSaved-none 0 k size bufs dev e bytes,
          ))
    | no some ↦ from_some k some fit supply lt
  ]
    where
      unused : zero ≢ zero → ¬ IsFree (bufs 4) 0
      unused ne = absurd (ne refl)

      from_some :
          (k : ℕ)
          → size ≢ 0
          → size ≤ k * (512 * v.bpb.sectors_per_cluster)
          → k ≤ free_below n (bufs 4)
          → k < suc rounds
          → Gives
              (λ r w'.
                (xs : List ℕ) × (r < 2 ^ 16)
                × Chain (w'.fat_bufs 4) r xs
                × IsSaved 0 k size (bufs 4) (h.contents dev) xs w')
              (write_clusters D data_bytes size (suc rounds) (progress size 0 0) (world v bufs dev))
      from_some zero some fit supply lt = absurd (omega arith)
      from_some (suc k) some fit supply lt =
          one_round h data_bytes size v n fits rounds size 0 0 bufs dev some (omega arith)
            (omega arith)
            (λ c dev1 lo hi free filled.
              mono
                (write_clusters-later rounds k (size - 512 * v.bpb.sectors_per_cluster) c c
                  (put_buf bufs 4 (link_cluster (bufs 4) 0 c)) dev1 (omega arith) (omega arith)
                  (next_link_self (bufs 4) 0 c bytes lo (omega (arith, fits.small)) free unused)
                  (link_cluster-IsBytes (bufs 4) 0 c bytes lo (omega (arith, fits.small)) free
                    unused)
                  (omega arith) (omega arith)
                  (omega (
                    arith,
                    free_below-link (bufs 4) 0 c bytes lo (omega (arith, fits.small)) free unused n
                        hi,
                  ))
                  (omega arith))
                (λ r w' (xs, e, ch, s). (
                  c ∷ xs,
                  omega (arith, e, fits.small),
                  rw e (Chain-taken n 0 c (bufs 4) bytes free unused lo hi fits.small s.taken ch),
                  IsSaved-cons 0 k size (bufs 4) (h.contents dev) bytes unused c lo hi free
                      (h.contents dev1) xs w' (omega arith) filled s,
                )))
