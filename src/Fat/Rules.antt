-- ===== src/Fat/Rules.antt =====
-- Reasoning about runs: a run that comes back with a value, and the rules for the effects.
use mathlib.Core.Path.{subst}
use master_os.Base.{ℕ, ◌≡◌, refl, sym, ◌∙◌, true, if◌then◌else◌, some, Bytes}
use master_os.Device.{BlockDevice, IsHealthy, put_sector}
use master_os.Fat.Disk.{guarded}
use master_os.Fat.Monad.{
  failed, World, Run, done, M, and_then, try_read, read_sector, write_sector, or_fail,
}

-- The run comes back with a value, in a state, as `P` says.
pub data Gives {Dev A : Type 0} (P : A → World Dev → Type 0) : Run Dev A → Type 0 where
  gives : {a : A} {w : World Dev} → P a w → Gives P (done a w)

module _ {Dev A B : Type 0} {P : A → World Dev → Type 0} where
  pub bind :
      {Q : B → World Dev → Type 0} {r : Run Dev A} {k : A → M Dev B}
      → Gives P r
      → ((a : A) (w : World Dev) → P a w → Gives Q (k a w))
      → Gives Q (and_then r k)
  bind (gives p) next = next _ _ p

-- An operation that begins with the test of `initialized`.
pub guarded-Gives :
    (D : BlockDevice) {A : Type 0} {Q : A → World D.Dev → Type 0} (op : M D.Dev A) (w : World D.Dev)
    → w.vars.initialized ≡ true
    → Gives Q (op w)
    → Gives Q (guarded D op w)
guarded-Gives D {Q = Q} op w init g =
    subst (λ b. Gives Q ((if b then op else failed) w)) (sym init) g

module _ {Dev A : Type 0} {P : A → World Dev → Type 0} where
  pub mono :
      {Q : A → World Dev → Type 0} {r : Run Dev A}
      → Gives P r
      → ((a : A) (w : World Dev) → P a w → Q a w)
      → Gives Q r
  mono (gives p) weaken = gives (weaken _ _ p)

  pub Gives-done : {r : Run Dev A} → Gives P r → (a : A) × (w : World Dev) × (r ≡ done a w) × P a w
  Gives-done (gives {a} {w} p) = (a, w, refl, p)

module _ {D : BlockDevice} (h : IsHealthy D) where
  -- Nothing that fat.c or the disk holds has changed.
  pub record Same (w w' : World D.Dev) : Type 0 where
    pub vars : w'.vars ≡ w.vars
    pub fat_bufs : w'.fat_bufs ≡ w.fat_bufs
    pub disk : h.contents w'.dev ≡ h.contents w.dev

  pub same : (w : World D.Dev) → Same w w
  same w = record { vars = refl; fat_bufs = refl; disk = refl }

  pub Same-trans : {u v w : World D.Dev} → Same u v → Same v w → Same u w
  Same-trans p q = record {
    vars = q.vars ∙ p.vars;
    fat_bufs = q.fat_bufs ∙ p.fat_bufs;
    disk = q.disk ∙ p.disk;
  }

  pub try_read-Gives :
      (lba : ℕ) (w : World D.Dev)
      → Gives (λ r w'. (r ≡ some (h.contents w.dev lba)) × Same w w') (try_read D lba w)
  try_read-Gives lba w =
      gives
        (h.reads lba w.dev, record { vars = refl; fat_bufs = refl; disk = h.reads_keep lba w.dev })

  pub read_sector-Gives :
      (lba : ℕ) (w : World D.Dev)
      → Gives (λ buf w'. (buf ≡ h.contents w.dev lba) × Same w w') (read_sector D lba w)
  read_sector-Gives lba w =
      bind {k = or_fail D} (try_read-Gives lba w) (λ r w' p. rw p.0 (gives (refl, p.1)))

  -- A write changes its sector and nothing else.
  pub record Wrote (lba : ℕ) (buf : Bytes) (w w' : World D.Dev) : Type 0 where
    pub vars : w'.vars ≡ w.vars
    pub fat_bufs : w'.fat_bufs ≡ w.fat_bufs
    pub disk : h.contents w'.dev ≡ put_sector (h.contents w.dev) lba buf

  pub write_sector-Gives :
      (lba : ℕ) (buf : Bytes) (w : World D.Dev)
      → Gives (λ _ w'. Wrote lba buf w w') (write_sector D lba buf w)
  write_sector-Gives lba buf w =
      rw (h.writes lba buf w.dev)
        (gives (record { vars = refl; fat_bufs = refl; disk = h.writes_put lba buf w.dev }))
