-- ===== src/Fat/Create/RoundTrip.antt =====
-- A file that is written and read again.
use mathlib.Core.Path.{subst}
use Prim.Native.Nat.{min}
use native.Mathlib.Nat.{mul-le-mul_right}
use master_os.Base.{
  ℕ, ◌+◌, ◌*◌, ◌-◌, ◌/◌, ◌%◌, ◌^◌, ◌<◌, ◌≤◌, ◌≡◌, ◌≢◌, refl, sym, inr, ◌∙◌, ap, arith, true, ltb,
  none, some, List, [], ◌∷◌, ◌++◌, length, get_or, All, Bytes, IsBytes, bytes_at, add32,
}
use master_os.Device.{BlockDevice, IsHealthy}
use master_os.Fat.Monad.{World, Vars, Owner, ◌>>◌}
use master_os.Fat.Rules.{Gives, bind, mono}
use master_os.Fat.Names.{k_toupper, split_83}
use master_os.Fat.Names.RoundTrip.{
  IsBaseChar, IsExtChar, dotted, split_name-dotted, strcmp-stored, IsText-short,
}
use master_os.Fat.Table.{offset, fat_next_cluster}
use master_os.Fat.Table.Supply.{free_below}
use master_os.Fat.Table.Chain.{Chain, Chain-frame}
use master_os.Fat.Disk.{fat_secs}
use master_os.Fat.Disk.Layout.{IsLaidOut}
use master_os.Fat.Disk.Load.{loaded_table}
use master_os.Fat.Dir.{is_file, is_vacant, taken, first_cluster, file_size, Place}
use master_os.Fat.Dir.Search.{first_taken}
use master_os.Fat.Dir.Root.{AtRoot, root_dir}
use master_os.Fat.Dir.Opened.{AtRoot-vars}
use master_os.Fat.Read.{fat_read}
use master_os.Fat.Read.File.{fat_read-content}
use master_os.Fat.Create.{fat_write}
use master_os.Fat.Create.Content.Round.{world, as_world}
use master_os.Fat.Create.Content.Placed.{Fits}
use master_os.Fat.Create.Entry.{
  with_file, with_file-first_cluster, with_file-file_size, is_file-new,
}
use master_os.Fat.Create.Found.{first_taken-new}
use master_os.Fat.Create.Stored.{IsCreated, before_data}
use master_os.Fat.Create.Vacant.{vacant_in}
use master_os.Fat.Create.Written.{fat_write-IsCreated}

-- A name of at most eight and three characters that a directory entry can hold.
pub record IsShortName (base ext : List ℕ) : Type 0 where
  pub base_chars : All IsBaseChar base
  pub ext_chars : All IsExtChar ext
  pub eight : length base ≤ 8
  pub three : length ext ≤ 3
  pub some : get_or base 0 0 ≢ 0
  pub alive : get_or base 0 0 ≢ 0xE5

first_char :
    (base ext : List ℕ)
    → IsShortName base ext
    → get_or (split_83 (base ++ dotted ext)).0 0 0 ≡ k_toupper (get_or base 0 0)
unfolding split_83
first_char [] ext s = absurd (s.some refl)
first_char (c ∷ base) ext s = rw (
    split_name-dotted 8 (c ∷ base) ext (8 - length (c ∷ base)) s.base_chars
      (omega (arith, s.eight)))

toupper_alive : (c : ℕ) → c ≢ 0 → c ≢ 0xE5 → (k_toupper c ≢ 0) × (k_toupper c ≢ 0xE5)
unfolding k_toupper
toupper_alive c p q = ground arith

own_name :
    (base ext : List ℕ) (buf : Bytes) (i first size : ℕ)
    → IsShortName base ext
    → is_file (base ++ dotted ext) (with_file buf i (base ++ dotted ext) first size) i ≡ taken
own_name base ext buf i first size s =
    let (nonzero, alive) = toupper_alive (get_or base 0 0) s.some s.alive in
    is_file-new buf i (base ++ dotted ext) first size (base ++ dotted ext)
      (λ e. nonzero (sym (first_char base ext s) ∙ e))
      (λ e. alive (sym (first_char base ext s) ∙ e))
      (strcmp-stored base ext s.base_chars s.ext_chars s.eight s.three (base ++ dotted ext)
        (IsText-short base ext s.base_chars s.ext_chars) refl)

-- An entry is read from two bytes of the table.
next_cong :
    (a b : Bytes) (c : ℕ)
    → a (offset c) ≡ b (offset c)
    → a (offset c + 1) ≡ b (offset c + 1)
    → fat_next_cluster a c ≡ fat_next_cluster b c
unfolding fat_next_cluster
next_cong a b c e e' = rw (e, e')

module _ {D : BlockDevice} (h : IsHealthy D) (name : List ℕ) (data_bytes : Bytes) (size n k : ℕ)
    (p : Place) (v : Vars) (bufs : ℕ → Bytes) (dev : D.Dev) (first : ℕ) (xs : List ℕ)
    (table out : Bytes) (d : ℕ → Bytes) (laid : IsLaidOut v) (some_copy : 0 < v.bpb.fat_count)
    (fits : Fits v n)
    (c : IsCreated v n k p name data_bytes size table first xs out d (h.contents dev)) where
  -- The next load reads the table that was stored.
  stored_byte :
      (i : ℕ) → i < fat_secs v.bpb * 512 → loaded_table h Owner.read (world v bufs dev) i ≡ out i
  unfolding loaded_table
  stored_byte i lt =
      let inside : ltb i (fat_secs v.bpb * 512) ≡ true = ground arith in
      let secs : fat_secs v.bpb ≤ v.bpb.sectors_per_fat = ground arith in
      let one : 1 * v.bpb.sectors_per_fat ≤ v.bpb.fat_count * v.bpb.sectors_per_fat =
        mul-le-mul_right v.bpb.sectors_per_fat (omega arith) in
      let at_copy : add32 v.fat_start (i / 512)
          ≡ v.fat_start + 0 * v.bpb.sectors_per_fat + i / 512 =
        omega (arith, laid.table, laid.root, laid.small) in
      let whole : i / 512 * 512 + i % 512 ≡ i = omega arith in
      rw (inside, at_copy)
        (ap (λ b. b (i % 512)) (c.copies 0 (i / 512) some_copy (omega arith)) ∙ ap out whole)

  stored-Chain : Chain (loaded_table h Owner.read (world v bufs dev)) first xs
  stored-Chain =
      Chain-frame out (loaded_table h Owner.read (world v bufs dev))
        (λ e m.
          next_cong (loaded_table h Owner.read (world v bufs dev)) out e
            (stored_byte (offset e) (omega (arith, (c.taken.fresh e m).1, fits.in_table)))
            (stored_byte (offset e + 1) (omega (arith, (c.taken.fresh e m).1, fits.in_table))))
        c.chain

  -- A search for the name finds the new entry.
  found_again :
      first_taken (is_file name) (λ t. d (add32 v.root_start t)) v.root_sectors 0 ≡ none
      → first_taken is_vacant (λ t. d (add32 v.root_start t)) v.root_sectors 0 ≡ some p
      → is_file name (with_file p.bytes p.at_entry name first size) p.at_entry ≡ taken
      → first_taken (is_file name) (root_dir h (world v bufs dev)) v.root_sectors 0
        ≡ some (record {
          at_sector = p.at_sector;
          at_entry = p.at_entry;
          bytes = with_file p.bytes p.at_entry name first size;
        })
  found_again absent vacant own =
      first_taken-new name (λ t. d (add32 v.root_start t)) v.root_sectors p absent vacant name first
        size (root_dir h (world v bufs dev))
        (λ u ne lt.
          let no_wrap : add32 v.root_start u ≡ v.root_start + u =
            omega (arith, laid.root, laid.small) in
          ap (h.contents dev) no_wrap
          ∙ c.others (v.root_start + u) (inr (omega arith)) (λ e. ne (omega arith))
              (before_data v xs (v.root_start + u) (omega (arith, laid.root)))
          ∙ ap d (sym no_wrap))
        (let no_wrap : add32 v.root_start p.at_sector ≡ v.root_start + p.at_sector = omega (
          arith,
          laid.root,
          laid.small,
          vacant_in (λ t. d (add32 v.root_start t)) v.root_sectors p vacant,
        ) in
          ap (h.contents dev) no_wrap ∙ c.entry)
        own

module _ {D : BlockDevice} (h : IsHealthy D) where
  -- On a disk that answers and a volume that is laid out as `fat_init` does it, a file that is
  -- written under a short name that the root directory does not hold yet, with a vacant entry
  -- and enough free clusters, is read again by that name: the bytes are the ones written, as
  -- long as the reader's buffer holds them.
  pub fat_read-fat_write :
      (rounds : ℕ) (base ext : List ℕ) (data_bytes : Bytes) (size buf_size n k : ℕ) (p : Place)
      (w : World D.Dev)
      → AtRoot w
      → IsLaidOut w.vars
      → w.vars.root_sectors < rounds
      → 0 < w.vars.bpb.fat_count
      → Fits w.vars n
      → IsBytes (loaded_table h Owner.write w)
      → IsShortName base ext
      → first_taken (is_file (base ++ dotted ext)) (root_dir h w) w.vars.root_sectors 0 ≡ none
      → first_taken is_vacant (root_dir h w) w.vars.root_sectors 0 ≡ some p
      → size ≤ k * (512 * w.vars.bpb.sectors_per_cluster)
      → k ≤ free_below n (loaded_table h Owner.write w)
      → k < rounds
      → size ≤ buf_size
      → 0 < buf_size
      → buf_size < 2 ^ 31
      → Gives
          (λ out w'. (out ≡ bytes_at data_bytes 0 size) × (w'.vars ≡ w.vars))
          ((fat_write D rounds (base ++ dotted ext) data_bytes size
              >> fat_read D rounds (base ++ dotted ext) buf_size)
            w)
  fat_read-fat_write rounds base ext data_bytes size buf_size n k p w at laid enough some_copy fits
        bytes short absent vacant fit supply few room pos small =
      bind {k = λ _. fat_read D rounds (base ++ dotted ext) buf_size}
        (fat_write-IsCreated h (base ++ dotted ext) data_bytes size n k p rounds w at laid enough
          fits bytes absent vacant fit supply)
        λ _ w1 ((first, xs, out, c), e).
          let all : min size buf_size ≡ size = omega arith in
          let u : World D.Dev = world w.vars w1.fat_bufs w1.dev in
          let new : Bytes = with_file p.bytes p.at_entry (base ++ dotted ext) first size in
          let size_again : file_size new p.at_entry ≡ size =
            with_file-file_size p.bytes p.at_entry (base ++ dotted ext) first size (omega arith) in
          let first_again : first_cluster new p.at_entry ≡ first =
            with_file-first_cluster p.bytes p.at_entry (base ++ dotted ext) first size c.small in
          subst
            (λ x.
              Gives (λ out w'. (out ≡ bytes_at data_bytes 0 size) × (w'.vars ≡ w.vars))
                (fat_read D rounds (base ++ dotted ext) buf_size x))
            (sym (as_world w.vars w1.fat_bufs w1 e refl))
            (mono
              (fat_read-content h rounds (base ++ dotted ext) buf_size
                (record { at_sector = p.at_sector; at_entry = p.at_entry; bytes = new }) xs u
                laid.initialized (AtRoot-vars {w = w} {w' = u} refl at) enough
                (found_again h (base ++ dotted ext) data_bytes size n k p w.vars w1.fat_bufs w1.dev
                  first xs (loaded_table h Owner.write w) out (h.contents w.dev) laid some_copy fits
                  c absent vacant (own_name base ext p.bytes p.at_entry first size short))
                pos small (rw size_again (omega arith))
                (rw first_again (
                  stored-Chain h (base ++ dotted ext) data_bytes size n k p w.vars w1.fat_bufs
                    w1.dev first xs (loaded_table h Owner.write w) out (h.contents w.dev) laid
                    some_copy fits c))
                (omega (arith, c.short)))
              λ out' w' q. (rw (size_again, all) at q.0 ∙ c.bytes, q.1))
