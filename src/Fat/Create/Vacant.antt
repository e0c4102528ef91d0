-- ===== src/Fat/Create/Vacant.antt =====
-- The vacant entry of the root directory that a new file or directory takes.
use mathlib.Core.Path.{ap₂}
use master_os.Base.{ℕ, ◌+◌, ◌*◌, ◌^◌, ◌<◌, ◌≤◌, ◌≡◌, ◌∙◌, ap, arith, some, Bytes, add32}
use master_os.Device.{BlockDevice, IsHealthy, put_sector}
use master_os.Fat.Monad.{World, Vars}
use master_os.Fat.Disk.Layout.{IsLaidOut}
use master_os.Fat.Dir.{is_vacant, Place}
use master_os.Fat.Dir.Search.{first_taken, first_taken-IsFirst}
use master_os.Fat.Dir.Found.{first_taken_cong}
use master_os.Fat.Dir.Root.{root_dir}

pub vacant_in :
    (dir : ℕ → Bytes) (n : ℕ) (p : Place) → first_taken is_vacant dir n 0 ≡ some p → p.at_sector < n
vacant_in dir n p e = (rw e at (first_taken-IsFirst is_vacant dir n 0 n (omega arith))).0

module _ {D : BlockDevice} (h : IsHealthy D) (p : Place) (w : World D.Dev) (laid : IsLaidOut w.vars)
    (vacant : first_taken is_vacant (root_dir h w) w.vars.root_sectors 0 ≡ some p) where
  pub tables_small : w.vars.fat_start + w.vars.bpb.fat_count * w.vars.bpb.sectors_per_fat < 2 ^ 32
  tables_small = omega (arith, laid.table, laid.root, laid.small)

  -- The root directory before the new entry is the old one.
  pub same_root :
      (v2 : Vars) (d2 : ℕ → Bytes)
      → v2 ≡ w.vars
      → ((l : ℕ) → w.vars.root_start ≤ l → l < w.vars.data_start → d2 l ≡ h.contents w.dev l)
      → first_taken is_vacant (λ t. d2 (add32 v2.root_start t)) w.vars.root_sectors 0 ≡ some p
  same_root v2 d2 e same =
      first_taken_cong is_vacant (root_dir h w) (λ t. d2 (add32 v2.root_start t))
        w.vars.root_sectors 0
        (λ u lt.
          ap (λ (x : Vars). d2 (add32 x.root_start u)) e
          ∙ same (add32 w.vars.root_start u) (omega (arith, laid.root, laid.small))
              (omega (arith, laid.root, laid.small)))
      ∙ vacant

  -- The new entry's sector, whose number does not wrap.
  pub entry_at :
      (v4 : Vars) (d2 d3 d' : ℕ → Bytes) (buf : Bytes)
      → v4 ≡ w.vars
      → d3 ≡ d2
      → d' ≡ put_sector d3 (add32 v4.root_start p.at_sector) buf
      → d' ≡ put_sector d2 (w.vars.root_start + p.at_sector) buf
  entry_at v4 d2 d3 d' buf e ed e' =
      let no_wrap : add32 w.vars.root_start p.at_sector ≡ w.vars.root_start + p.at_sector =
        omega
          (arith, laid.root, laid.small, vacant_in (root_dir h w) w.vars.root_sectors p vacant) in
      e'
      ∙ ap₂ (λ d l. put_sector d l buf) ed
          (ap (λ (x : Vars). add32 x.root_start p.at_sector) e ∙ no_wrap)
