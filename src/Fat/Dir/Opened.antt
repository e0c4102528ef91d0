-- ===== src/Fat/Dir/Opened.antt =====
-- How every operation begins: the table is loaded, then the root directory is searched.
use master_os.Base.{ℕ, ◌+◌, ◌<◌, ◌≡◌, ◌≢◌, ◌∙◌, ap, arith, Option, Bytes, add32}
use master_os.Device.{BlockDevice, IsHealthy}
use master_os.Fat.Monad.{World, Vars, M, ◌>>=◌, ◌>>◌, Owner, slot}
use master_os.Fat.Rules.{Gives, bind}
use master_os.Fat.Disk.{load_fat}
use master_os.Fat.Disk.Load.{load_fat-IsLoaded, loaded_table, loaded_table_lem}
use master_os.Fat.Dir.{Verdict, Place, find_entry}
use master_os.Fat.Dir.Search.{first_taken}
use master_os.Fat.Dir.Root.{AtRoot, root_dir, find_entry-Finds}

pub AtRoot-vars : {Dev : Type 0} {w w' : World Dev} → w'.vars ≡ w.vars → AtRoot w → AtRoot w'
AtRoot-vars e at = record { root = rw e at.root; small = rw e at.small }

module _ {D : BlockDevice} (h : IsHealthy D) (f : Owner) where
  -- The state after the search: only the table buffer of `f` has changed.
  pub record IsOpened (w w' : World D.Dev) : Type 0 where
    pub vars : w'.vars ≡ w.vars
    pub disk : h.contents w'.dev ≡ h.contents w.dev
    pub table : w'.fat_bufs (slot f) ≡ loaded_table h f w
    pub others : (g : ℕ) → g ≢ slot f → w'.fat_bufs g ≡ w.fat_bufs g

  module _ (verdict : Bytes → ℕ → Verdict) (rounds : ℕ) (w : World D.Dev) (at : AtRoot w)
      (enough : w.vars.root_sectors < rounds) where
    -- The search finds the first entry of the root directory that is to be taken.
    pub opened :
        {B : Type 0} {Q : B → World D.Dev → Type 0} {k : Option Place → M D.Dev B}
        → ((r : Option Place) (w' : World D.Dev)
            → r ≡ first_taken verdict (root_dir h w) w.vars.root_sectors 0
            → IsOpened w w'
            → Gives Q (k r w'))
        → Gives Q ((load_fat D f >> (find_entry D f verdict rounds 0 >>= k)) w)
    opened {k = k} next = bind (load_fat-IsLoaded h f w) (λ _ w1 l.
        bind {k = k}
          (find_entry-Finds h f verdict rounds 0 w.vars.root_sectors w1 (AtRoot-vars l.vars at)
            (start l.vars) enough)
          (λ r w2 q.
            next r w2
              (q.0
                ∙ ap (λ d. first_taken verdict d w.vars.root_sectors 0) (same_dir w1 l.vars l.disk))
              (record {
                vars = q.1.vars ∙ l.vars;
                disk = q.1.disk ∙ l.disk;
                table = ap (λ b. b (slot f)) q.1.fat_bufs ∙ loaded_table_lem h f w w1 l;
                others = λ g ne. ap (λ b. b g) q.1.fat_bufs ∙ l.others g ne;
              })))
      where
        start : {v : Vars} → v ≡ w.vars → 0 + w.vars.root_sectors ≡ v.root_sectors
        start e = omega (arith, ap (λ (u : Vars). u.root_sectors) e)

        same_dir :
            (w1 : World D.Dev)
            → w1.vars ≡ w.vars
            → h.contents w1.dev ≡ h.contents w.dev
            → root_dir h w1 ≡ root_dir h w
        same_dir w1 e d = λ i t. d i (add32 (e i).root_start t)
