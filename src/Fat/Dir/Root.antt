-- ===== src/Fat/Dir/Root.antt =====
-- The search of the root directory: it ends on every device, and on one that answers it finds
-- what the search of the sectors' contents finds.
use master_os.Base.{
  ℕ, zero, suc, ◌+◌, ◌^◌, ◌<◌, ◌≤◌, ◌≡◌, refl, ◌∙◌, ap, arith, true, false, Option, none, some,
  Bytes, add32, leb, ◌==◌,
}
use master_os.Device.{BlockDevice, IsHealthy}
use master_os.Fat.Monad.{World, Vars, done, M, Owner}
use master_os.Fat.Rules.{Gives, gives, bind, mono, Same, same, Same-trans, try_read-Gives}
use master_os.Fat.Disk.{DirRead, sector, end, error, read_dir_sector, read_result, read_as_dir}
use master_os.Fat.Dir.{
  Verdict, Scan, hit, last, missed, scan, Place, after_scan, after_sector, find_entry,
}
use master_os.Fat.Dir.Search.{first_taken}

-- The current directory is the root, whose sectors have 32-bit numbers.
pub record AtRoot {Dev : Type 0} (w : World Dev) : Type 0 where
  pub root : w.vars.current_dir_cluster ≡ 0
  pub small : w.vars.root_sectors < 2 ^ 32

module _ (D : BlockDevice) (f : Owner) (s : ℕ) (w : World D.Dev) (at : AtRoot w) where
  read_root :
      s < w.vars.root_sectors
      → read_dir_sector D f s w ≡ read_as_dir D (add32 w.vars.root_start s) w
  unfolding read_dir_sector
  read_root lt =
      let here : (w.vars.current_dir_cluster == 0) ≡ true = ground (arith, at.root) in
      let more : leb w.vars.root_sectors s ≡ false = ground arith in simp (here, more)

  read_root_end : w.vars.root_sectors ≤ s → read_dir_sector D f s w ≡ done end w
  unfolding read_dir_sector
  read_root_end le =
      let here : (w.vars.current_dir_cluster == 0) ≡ true = ground (arith, at.root) in
      let over : leb w.vars.root_sectors s ≡ true = ground arith in simp (here, over)

-- The variables and the table buffers are as before.
pub record Quiet {Dev : Type 0} (w w' : World Dev) : Type 0 where
  pub vars : w'.vars ≡ w.vars
  pub fat_bufs : w'.fat_bufs ≡ w.fat_bufs

AtRoot-Quiet : {Dev : Type 0} {w w' : World Dev} → AtRoot w → Quiet w w' → AtRoot w'
AtRoot-Quiet at q = record { root = rw q.vars at.root; small = rw q.vars at.small }

Quiet-trans : {Dev : Type 0} {u v w : World Dev} → Quiet u v → Quiet v w → Quiet u w
Quiet-trans p q = record { vars = q.vars ∙ p.vars; fat_bufs = q.fat_bufs ∙ p.fat_bufs }

module _ (D : BlockDevice) (f : Owner) (verdict : Bytes → ℕ → Verdict) where
  -- With more rounds than the root directory has sectors the search of it comes back, whatever
  -- the device answers.
  pub find_entry-ends :
      (rounds s left : ℕ) (w : World D.Dev)
      → AtRoot w
      → s + left ≡ w.vars.root_sectors
      → left < rounds
      → Gives (λ _ w'. Quiet w w') (find_entry D f verdict rounds s w)
  unfolding find_entry
  find_entry-ends zero s left w at e lt = absurd (omega arith)
  find_entry-ends (suc rounds) s zero w at e lt =
      rw (read_root_end D f s w at (omega arith)) (gives (record { vars = refl; fat_bufs = refl }))
  find_entry-ends (suc rounds) s (suc left) w at e lt = rw (read_root D f s w at (omega arith)) (
      split
        (find_entry-ends rounds (add32 s 1) left w1 (record { root = at.root; small = at.small })
          (omega arith) (omega arith))
        (read_result D (D.ata_read lba w.dev).0))
    where
      lba : ℕ
      lba = add32 w.vars.root_start s

      w1 : World D.Dev
      w1 = record w { dev = (D.ata_read lba w.dev).1 }

      quiet : Quiet w w1
      quiet = record { vars = refl; fat_bufs = refl }

      rest : M D.Dev (Option Place)
      rest = find_entry D f verdict rounds (add32 s 1)

      scanned :
          Gives (λ _ w'. Quiet w1 w') (rest w1)
          → (buf : Bytes) (r : Scan) → Gives (λ _ w'. Quiet w w') (after_scan s rest buf r w1)
      scanned ih buf (hit i) = gives quiet
      scanned ih buf last = gives quiet
      scanned ih buf missed = mono ih (λ _ w' q. Quiet-trans quiet q)

      split :
          Gives (λ _ w'. Quiet w1 w') (rest w1)
          → (r : DirRead) → Gives (λ _ w'. Quiet w w') (after_sector s rest verdict r w1)
      split ih end = gives quiet
      split ih error = gives quiet
      split ih (sector buf) = scanned ih buf (scan verdict buf)

-- The sectors of the root directory, by their number in it.
abbrev pub root_dir : {D : BlockDevice} → IsHealthy D → World D.Dev → ℕ → Bytes
root_dir h w t = h.contents w.dev (add32 w.vars.root_start t)

module _ {D : BlockDevice} (h : IsHealthy D) (f : Owner) (verdict : Bytes → ℕ → Verdict) where
  -- What the search has found, with `left` sectors to go from sector `s` on.
  abbrev Finds : (s left : ℕ) → World D.Dev → Option Place → World D.Dev → Type 0
  Finds s left w r w' = (r ≡ first_taken verdict (root_dir h w) left s) × Same h w w'

  AtRoot-Same : {w w' : World D.Dev} → AtRoot w → Same h w w' → AtRoot w'
  AtRoot-Same at q = record { root = rw q.vars at.root; small = rw q.vars at.small }

  root_dir-Same : {w w' : World D.Dev} → Same h w w' → root_dir h w' ≡ root_dir h w
  root_dir-Same q = λ i t. q.disk i (add32 (q.vars i).root_start t)

  -- On a device that answers, the search of the root directory comes back with what the search
  -- of its sectors' contents finds, and changes nothing.
  pub find_entry-Finds :
      (rounds s left : ℕ) (w : World D.Dev)
      → AtRoot w
      → s + left ≡ w.vars.root_sectors
      → left < rounds
      → Gives
          (λ r w'. (r ≡ first_taken verdict (root_dir h w) left s) × Same h w w')
          (find_entry D f verdict rounds s w)
  unfolding find_entry first_taken
  find_entry-Finds zero s left w at e lt = absurd (omega arith)
  find_entry-Finds (suc rounds) s zero w at e lt =
      rw (read_root_end D f s w at (omega arith)) (gives (refl, same h w))
  find_entry-Finds (suc rounds) s (suc left) w at e lt = rw (read_root D f s w at (omega arith)) (
      bind {k = λ r. after_sector s rest verdict (read_result D r)}
        (try_read-Gives h (add32 w.vars.root_start s) w)
        (λ r w1 p. rw p.0 (
          scanned w1 p.1 (scan verdict (root_dir h w s)) (
            rw next (
              find_entry-Finds rounds (s + 1) left w1 (AtRoot-Same at p.1)
                (omega (arith, ap (λ (v : Vars). v.root_sectors) p.1.vars)) (omega arith))))))
    where
      next : add32 s 1 ≡ s + 1
      next = omega (arith, at.small)

      rest : M D.Dev (Option Place)
      rest = find_entry D f verdict rounds (add32 s 1)

      scanned :
          (w1 : World D.Dev)
          → Same h w w1
          → (r : Scan) → Gives (Finds (s + 1) left w1) (rest w1)
          → Gives
              (λ r' w'.
                (r' ≡ elim r [
                  | hit i ↦ some (record { at_sector = s; at_entry = i; bytes = root_dir h w s })
                  | last ↦ none
                  | missed ↦ first_taken verdict (root_dir h w) left (s + 1)
                ])
                × Same h w w')
              (after_scan s rest (root_dir h w s) r w1)
      scanned w1 q (hit i) ih = gives (refl, q)
      scanned w1 q last ih = gives (refl, q)
      scanned w1 q missed ih = mono ih (λ r' w' p. (
        p.0 ∙ ap (λ d. first_taken verdict d left (s + 1)) (root_dir-Same q),
        Same-trans h q p.1,
      ))
