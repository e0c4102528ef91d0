-- ===== src/Fat/Create/Absent.antt =====
-- The deletion that `fat_write` begins with, of a file that is not there.
use mathlib.Core.Path.{subst}
use master_os.Base.{
  sym, ℕ, ◌*◌, ◌<◌, ◌≡◌, true, Option, none, List, add32, ltb, if◌then◌else◌, ◌/◌, ◌%◌,
}
use master_os.Device.{BlockDevice, IsHealthy}
use master_os.Fat.Monad.{
  failed, World, Run, done, fail, M, Owner, slot, settle, ignored, halted, and_then, ◌>>=◌,
}
use master_os.Fat.Rules.{Gives, gives}
use master_os.Fat.Disk.{fat_secs, load_fat, guarded}
use master_os.Fat.Disk.Load.{loaded_table}
use master_os.Fat.Dir.{is_file, Place, find_entry}
use master_os.Fat.Dir.Search.{first_taken}
use master_os.Fat.Dir.Root.{AtRoot, root_dir}
use master_os.Fat.Dir.Opened.{IsOpened, opened}
use master_os.Fat.Remove.{remove_place, remove_entry, fat_delete}

-- A call whose result is not looked at, when what it does first comes back.
module _ {Dev A : Type 0} {Q : Unit {0} → World Dev → Type 0} (r : Run Dev A) where
  under :
      (k k' : A → M Dev (Unit {0}))
      → ((a : A) (w : World Dev) → Gives Q (k a w) → Gives Q (k' a w))
      → Gives Q (and_then r k)
      → Gives Q (and_then r k')
  under k k' step g = go r g
    where
      go : (r : Run Dev A) → Gives Q (and_then r k) → Gives Q (and_then r k')
      go (done a w) g = step a w g
      go (fail w) g = elim g [ ]
      go halted g = elim g [ ]

  settle-bind :
      {B : Type 0} (k : A → M Dev B)
      → Gives Q (and_then r (λ a. ignored (k a)))
      → Gives Q (settle (and_then r k))
  settle-bind k g = go r g
    where
      go :
          (r : Run Dev A)
          → Gives Q (and_then r (λ a. ignored (k a)))
          → Gives Q (settle (and_then r k))
      go (done a w) g = g
      go (fail w) g = elim g [ ]
      go halted g = g

guarded_settle :
    (D : BlockDevice) {Q : Unit {0} → World D.Dev → Type 0} (op : M D.Dev (Unit {0}))
    (w : World D.Dev)
    → w.vars.initialized ≡ true
    → Gives Q (settle (op w))
    → Gives Q (settle (guarded D op w))
guarded_settle D {Q = Q} op w init g =
    subst (λ b. Gives Q (settle ((if b then op else failed) w))) (sym init) g

-- The deletion of a file that is not there fails, and only reads.
pub absent_delete :
    {D : BlockDevice} (h : IsHealthy D) (rounds : ℕ) (name : List ℕ) (w : World D.Dev)
    → w.vars.initialized ≡ true
    → AtRoot w
    → w.vars.root_sectors < rounds
    → first_taken (is_file name) (root_dir h w) w.vars.root_sectors 0 ≡ none
    → Gives (λ _ w'. IsOpened h Owner.delete w w') (ignored (fat_delete D rounds name) w)
unfolding fat_delete remove_entry remove_place
absent_delete {D} h rounds name w init at enough absent = guarded_settle D _ w init (
    settle-bind (load_fat D Owner.delete w) (λ _. found >>= remove_place D Owner.delete)
      (under (load_fat D Owner.delete w)
        (λ _. found >>= λ r. ignored (remove_place D Owner.delete r))
        (λ _. ignored (found >>= remove_place D Owner.delete))
        (λ _ w1 g. settle-bind (found w1) (remove_place D Owner.delete) g)
        (opened h Owner.delete (is_file name) rounds w at enough
          {k = λ r. ignored (remove_place D Owner.delete r)} λ r w1 e o. rw (e, absent) (gives o))))
  where
    found : M D.Dev (Option Place)
    found = find_entry D Owner.delete (is_file name) rounds 0

pub loaded_table_cong :
    {D : BlockDevice} (h : IsHealthy D) (f : Owner) (w w' : World D.Dev)
    → w'.vars ≡ w.vars
    → h.contents w'.dev ≡ h.contents w.dev
    → w'.fat_bufs (slot f) ≡ w.fat_bufs (slot f)
    → loaded_table h f w' ≡ loaded_table h f w
unfolding loaded_table
loaded_table_cong h f w w' ev ed eb = λ j i.
    if ltb i (fat_secs (ev j).bpb * 512)
    then ed j (add32 (ev j).fat_start (i / 512)) (i % 512)
    else eb j i
