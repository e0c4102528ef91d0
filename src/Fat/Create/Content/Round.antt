-- ===== src/Fat/Create/Content/Round.antt =====
-- One round of the loop of `fat_write`.
use mathlib.Core.Path.{subst}
use master_os.Base.{
  ℕ, suc, ◌+◌, ◌*◌, ◌-◌, ◌≤◌, ◌<◌, ◌^◌, ◌≡◌, ◌≢◌, refl, sym, arith, false, ◌==◌, if◌then◌else◌,
  Bytes,
}
use master_os.Device.{BlockDevice, IsHealthy}
use master_os.Fat.Monad.{World, Vars, and_then, put_buf}
use master_os.Fat.Rules.{Gives, bind}
use master_os.Fat.Table.{fat_find_free_cluster}
use master_os.Fat.Table.Free.{IsFree}
use master_os.Fat.Table.Supply.{free_below, find_free_some}
use master_os.Fat.Disk.{cluster_lba}
use master_os.Fat.Create.{total_clusters, Progress, link_cluster, write_cluster, write_clusters}
use master_os.Fat.Create.Cluster.{IsFilled, write_cluster-IsFilled}
use master_os.Fat.Create.Content.Placed.{Fits, lba_of, cluster_lba_lem, lba_of-le}

abbrev pub world : {Dev : Type 0} → Vars → (ℕ → Bytes) → Dev → World Dev
world v bufs d = record { vars = v; fat_bufs = bufs; dev = d }

abbrev pub progress : (rem first previous : ℕ) → Progress
progress rem f q = record { bytes_left = rem; first = f; previous = q }

pub as_world :
    {Dev : Type 0} (v : Vars) (bufs : ℕ → Bytes) (w : World Dev)
    → w.vars ≡ v
    → w.fat_bufs ≡ bufs
    → w ≡ world v bufs w.dev
as_world v bufs w e e' = λ i. record { vars = e i; fat_bufs = e' i; dev = w.dev }

pub fits-scanned : (v : Vars) (n : ℕ) → Fits v n → n ≤ total_clusters v.bpb + 2
fits-scanned v n f = omega (arith, f.in_table)

pub total-small : (v : Vars) → total_clusters v.bpb + 2 ≤ 2 ^ 16
total-small v = ground arith

module _ {D : BlockDevice} (h : IsHealthy D) (data_bytes : Bytes) (size : ℕ) (v : Vars) (n : ℕ)
    (fits : Fits v n) where
  -- One round, when the scan gives cluster `c`.
  round_of :
      (rounds rem f q c : ℕ) (bufs : ℕ → Bytes) (dev : D.Dev)
      → rem ≢ 0
      → c ≢ 0
      → fat_find_free_cluster (bufs 4) (total_clusters v.bpb) ≡ c
      → write_clusters D data_bytes size (suc rounds) (progress rem f q) (world v bufs dev)
        ≡ and_then
            (write_cluster D data_bytes size
              (cluster_lba v c 0)
              v.bpb.sectors_per_cluster
              0
              rem
              (world v (put_buf bufs 4 (link_cluster (bufs 4) q c)) dev))
            (λ left.
              write_clusters D data_bytes size rounds (progress left (if f == 0 then c else f) c))
  unfolding write_clusters
  round_of rounds rem f q c bufs dev some some_c e =
      let more : (rem == 0) ≡ false = ground arith in
      let found : (c == 0) ≡ false = ground arith in rw (more, e, found)

  -- A round takes a free cluster and fills it.
  pub one_round :
      {Q : ℕ → World D.Dev → Type 0} (rounds rem f q : ℕ) (bufs : ℕ → Bytes) (dev : D.Dev)
      → rem ≢ 0
      → rem ≤ size
      → 0 < free_below n (bufs 4)
      → ((c : ℕ) (dev1 : D.Dev)
          → 2 ≤ c
          → c < n
          → IsFree (bufs 4) c
          → IsFilled data_bytes size
              (lba_of v c)
              v.bpb.sectors_per_cluster
              0
              rem
              (h.contents dev)
              (h.contents dev1)
          → Gives Q (
              write_clusters D data_bytes size rounds
                (progress (rem - 512 * v.bpb.sectors_per_cluster) (if f == 0 then c else f) c)
                (world v (put_buf bufs 4 (link_cluster (bufs 4) q c)) dev1)))
      → Gives Q
          (write_clusters D data_bytes size (suc rounds) (progress rem f q) (world v bufs dev))
  one_round {Q} rounds rem f q bufs dev some le supply next =
      let (some_c, lo, hi, free) =
        find_free_some n (total_clusters v.bpb) (bufs 4) (fits-scanned v n fits) (total-small v)
          supply in
      let c : ℕ = fat_find_free_cluster (bufs 4) (total_clusters v.bpb) in
      let bufs1 : ℕ → Bytes = put_buf bufs 4 (link_cluster (bufs 4) q c) in
      rw (round_of rounds rem f q c bufs dev some some_c refl, cluster_lba_lem v n c fits lo hi)
        (bind
          {k = λ left.
            write_clusters D data_bytes size rounds (progress left (if f == 0 then c else f) c)}
          (write_cluster-IsFilled data_bytes size (lba_of v c) h v.bpb.sectors_per_cluster 0 rem
            (world v bufs1 dev) le (omega (arith, lba_of-le v n c fits lo hi)))
          (λ left w1 p.
            subst
              (λ u. Gives Q (
                write_clusters D data_bytes size rounds (progress left (if f == 0 then c else f) c)
                  u))
              (sym (as_world v bufs1 w1 p.2.vars p.2.fat_bufs))
              (rw (p.0) (next c w1.dev lo hi free p.1))))
