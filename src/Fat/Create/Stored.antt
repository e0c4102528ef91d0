-- ===== src/Fat/Create/Stored.antt =====
-- What `fat_write` leaves on the disk, from its loops.
use mathlib.Core.Path.{ap₂}
use native.Mathlib.Nat.{mul-le-mul_right}
use master_os.Base.{
  ℕ, ◌+◌, ◌*◌, ◌-◌, ◌%◌, ◌^◌, ◌<◌, ◌≤◌, ◌≡◌, ◌≢◌, refl, ◌⊎◌, inl, ◌∙◌, ap, arith, true, List, [],
  ◌∷◌, ◌++◌, length, take, Bytes, bytes_at,
}
use master_os.Device.{put_sector}
use master_os.Fat.Monad.{Vars}
use master_os.Fat.Disk.{sector_at, fat_secs}
use master_os.Fat.Disk.Layout.{IsLaidOut}
use master_os.Fat.Disk.Store.{IsStored}
use master_os.Fat.Dir.{Place}
use master_os.Fat.Table.Chain.{Chain, has}
use master_os.Fat.Read.Content.{chain_bytes}
use master_os.Fat.Names.Lengths.{length-split_83}
use master_os.Fat.Create.Chain.{IsTaken}
use master_os.Fat.Names.{split_83}
use master_os.Fat.Create.Entry.{with_file}
use master_os.Fat.Create.Fields.{IsNewEntry, new_entry-IsNewEntry}
use master_os.Fat.Create.Content.Placed.{
  Fits, lba_of, lba_of-le, cluster_lba_lem, IsOutside, cluster_bytes_cong, IsPlaced,
}

-- A file of `size` bytes has been made: free clusters `xs`, at most `k` and all below `n`, hold
-- its data and form a chain from `first` in the table `out`, which stands in every copy, the
-- first vacant entry `p` names it, and no other sector and no other entry has changed.
pub record IsCreated (v : Vars) (n k : ℕ) (p : Place) (name : List ℕ) (data_bytes : Bytes)
    (size : ℕ) (table : Bytes) (first : ℕ) (xs : List ℕ) (out : Bytes) (d d' : ℕ → Bytes)
    : Type 0 where
  pub short : length xs ≤ k
  pub small : first < 2 ^ 16
  pub chain : Chain out first xs
  pub taken : IsTaken n 0 table xs out
  pub copies :
      (f t : ℕ)
      → f < v.bpb.fat_count
      → t < fat_secs v.bpb
      → d' (v.fat_start + f * v.bpb.sectors_per_fat + t) ≡ sector_at out (t * 512)
  pub kept :
      (f t : ℕ)
      → f < v.bpb.fat_count
      → fat_secs v.bpb ≤ t
      → t < v.bpb.sectors_per_fat
      → d' (v.fat_start + f * v.bpb.sectors_per_fat + t)
        ≡ d (v.fat_start + f * v.bpb.sectors_per_fat + t)
  pub bytes : take size (chain_bytes d' v xs) ≡ bytes_at data_bytes 0 size
  pub entry : d' (v.root_start + p.at_sector) ≡ with_file p.bytes p.at_entry name first size
  pub fields :
      IsNewEntry
        (d' (v.root_start + p.at_sector))
        p.bytes
        p.at_entry
        (split_83 name).0
        (split_83 name).1
        0
        first
        (size % 2 ^ 32)
  pub others :
      (l : ℕ)
      → (l < v.fat_start) ⊎ (v.root_start ≤ l)
      → l ≢ v.root_start + p.at_sector
      → IsOutside v xs l
      → d' l ≡ d l

chain_bytes_cong :
    (v : Vars) (n : ℕ) (d d' : ℕ → Bytes) (xs : List ℕ)
    → Fits v n
    → ((c : ℕ) → has c xs ≡ true → (2 ≤ c) × (c < n))
    → ((l : ℕ) → v.data_start ≤ l → d' l ≡ d l)
    → chain_bytes d' v xs ≡ chain_bytes d v xs
unfolding chain_bytes
chain_bytes_cong v n d d' [] fits range same = refl
chain_bytes_cong v n d d' (c ∷ xs) fits range same =
    let (lo, hi) = range c (ground arith) in
    ap₂ ◌++◌
      (rw (cluster_lba_lem v n c fits lo hi) (
        cluster_bytes_cong d d' (lba_of v c) v.bpb.sectors_per_cluster 0
          (omega (arith, lba_of-le v n c fits lo hi)) (λ l p q. same l (omega arith))))
      (chain_bytes_cong v n d d' xs fits (λ e m. range e (ground arith)) same)

pub in_copies :
    (v : Vars) (f t : ℕ)
    → IsLaidOut v
    → f < v.bpb.fat_count
    → t < v.bpb.sectors_per_fat
    → v.fat_start + f * v.bpb.sectors_per_fat + t < v.root_start
in_copies v f t laid lt lt' = omega (arith, laid.table, mul-le-mul_right v.bpb.sectors_per_fat lt)

pub in_tables :
    (v : Vars) (f t : ℕ)
    → IsLaidOut v
    → f < v.bpb.fat_count
    → t < fat_secs v.bpb
    → v.fat_start + f * v.bpb.sectors_per_fat + t < v.root_start
in_tables v f t laid lt lt' =
    let le : fat_secs v.bpb ≤ v.bpb.sectors_per_fat = ground arith in
    in_copies v f t laid lt (omega arith)

-- Sectors before the data are in no cluster.
pub before_data : (v : Vars) (xs : List ℕ) (l : ℕ) → l < v.data_start → IsOutside v xs l
before_data v xs l lt = λ c m. inl (omega arith)

pub IsCreated-intro :
    (v : Vars) (n k : ℕ) (p : Place) (name : List ℕ) (data_bytes : Bytes) (size : ℕ) (table : Bytes)
    (first : ℕ) (xs : List ℕ) (out : Bytes) (d d1 d2 d' : ℕ → Bytes)
    → IsLaidOut v
    → Fits v n
    → p.at_sector < v.root_sectors
    → length xs ≤ k
    → first < 2 ^ 16
    → Chain out first xs
    → IsTaken n 0 table xs out
    → IsPlaced data_bytes size v xs size d d1
    → IsStored v out d1 d2
    → d' ≡ put_sector d2 (v.root_start + p.at_sector) (with_file p.bytes p.at_entry name first size)
    → IsCreated v n k p name data_bytes size table first xs out d d'
IsCreated-intro v n k p name data_bytes size table first xs out d d1 d2 d' laid fits lt short small
      ch taken placed stored e =
    record {
      short = short;
      small = small;
      chain = ch;
      taken = taken;
      copies = λ f t lt lt'.
          elsewhere (v.fat_start + f * v.bpb.sectors_per_fat + t)
            (omega (arith, in_tables v f t laid lt lt'))
          ∙ stored.copies f t lt lt';
      kept = λ f t lt lo hi.
          elsewhere (v.fat_start + f * v.bpb.sectors_per_fat + t)
            (omega (arith, in_copies v f t laid lt hi))
          ∙ stored.behind f t lt lo hi
          ∙ placed.outside (v.fat_start + f * v.bpb.sectors_per_fat + t) (
              before_data v xs (v.fat_start + f * v.bpb.sectors_per_fat + t)
                (omega (arith, in_copies v f t laid lt hi, laid.root)));
      bytes =
          let all : size - size ≡ 0 = omega arith in
          ap (take size) (
            chain_bytes_cong v n d1 d' xs fits (λ c m. ((taken.fresh c m).0, (taken.fresh c m).1))
              in_data)
          ∙ placed.bytes
          ∙ ap (λ (i : ℕ). bytes_at data_bytes i size) all;
      entry = made;
      fields = rw made (
          new_entry-IsNewEntry p.bytes p.at_entry (split_83 name).0 (split_83 name).1 0 first size
            (length-split_83 name).0 (length-split_83 name).1 small);
      others = λ l out_of ne out_of'.
          elsewhere l ne ∙ stored.outside l (omega (arith, laid.table)) ∙ placed.outside l out_of';
    }
  where
    made : d' (v.root_start + p.at_sector) ≡ with_file p.bytes p.at_entry name first size
    made = ap (λ c. c (v.root_start + p.at_sector)) e ∙ ground arith

    elsewhere : (l : ℕ) → l ≢ v.root_start + p.at_sector → d' l ≡ d2 l
    elsewhere l ne = ap (λ c. c l) e ∙ ground arith

    in_data : (l : ℕ) → v.data_start ≤ l → d' l ≡ d1 l
    in_data l le =
        elsewhere l (omega (arith, laid.root))
        ∙ stored.outside l (omega (arith, laid.table, laid.root))
