-- ===== src/Fat/Read/File.antt =====
-- `fat_read` of a file in the root directory, from the call to the result.
use Prim.Native.Nat.{min}
use mathlib.Core.Path.{ap₂}
use master_os.Base.{
  ℕ, ◌^◌, ◌<◌, ◌≡◌, ◌⊎◌, inl, inr, ◌∙◌, sym, arith, true, ◌||◌, some, List, [], length, take,
  take-all, Bytes, ltb, ◌==◌, Bool-cases,
}
use master_os.Device.{BlockDevice, IsHealthy}
use master_os.Fat.Monad.{World, Vars, Owner, slot}
use master_os.Fat.Rules.{guarded-Gives, Gives, gives, mono, Same, same}
use master_os.Fat.Disk.Load.{loaded_table}
use master_os.Fat.Dir.{is_file, first_cluster, file_size, Place}
use master_os.Fat.Dir.Search.{first_taken}
use master_os.Fat.Dir.Root.{AtRoot, root_dir}
use master_os.Fat.Dir.Opened.{opened}
use master_os.Fat.Read.{read_file, fat_read}
use master_os.Fat.Read.Content.{chain_bytes, read_clusters-Reads}
use master_os.Fat.Table.Chain.{Chain, stop, link}

take_none : (n : ℕ) → take {A = ℕ} n [] ≡ []
take_none n = take-all n [] (omega arith)

-- A file of no cluster or of no byte.
empty_read :
    (fs bs : ℕ) (disk : ℕ → Bytes) (v : Vars) {fat_buf : Bytes} {c : ℕ} {xs : List ℕ}
    → Chain fat_buf c xs
    → (c < 2) ⊎ (fs ≡ 0)
    → take (min fs bs) (chain_bytes disk v xs) ≡ []
unfolding chain_bytes
empty_read fs bs disk v (stop out) e = take_none (min fs bs)
empty_read fs bs disk v (link (two, top) fresh rest) (inl e) = absurd (omega arith)
empty_read fs bs disk v (link in_range fresh rest) (inr e) =
    let z : min fs bs ≡ 0 = omega arith in rw z

module _ {D : BlockDevice} (h : IsHealthy D) where
  -- What a place holds, by the table in the function's buffer.
  read_file-content :
      (rounds buf_size : ℕ) (p : Place) (xs : List ℕ) (w : World D.Dev)
      → 0 < buf_size
      → buf_size < 2 ^ 31
      → file_size p.bytes p.at_entry < 2 ^ 32
      → Chain (w.fat_bufs (slot Owner.read)) (first_cluster p.bytes p.at_entry) xs
      → length xs < rounds
      → Gives
          (λ out w'.
            (out
              ≡ take
                  (min (file_size p.bytes p.at_entry) buf_size)
                  (chain_bytes (h.contents w.dev) w.vars xs))
            × Same h w w')
          (read_file D rounds buf_size (some p) w)
  unfolding read_file
  read_file-content rounds bs p xs w pos small size ch lt = elim (Bool-cases (ltb c 2 || fs == 0)) [
    | inl e ↦ simp e (gives (sym (nothing e), same h w))
    | inr e ↦ simp e (
        read_clusters-Reads h w.vars (w.fat_bufs (slot Owner.read)) c xs rounds 0 (min fs bs) w ch
          lt
          (record {
            sum = omega arith;
            some_left = ground arith;
            file_fits = size;
            buffer_fits = small;
          }))
  ]
    where
      nothing :
          (ltb (first_cluster p.bytes p.at_entry) 2 || file_size p.bytes p.at_entry == 0) ≡ true
          → take (min (file_size p.bytes p.at_entry) bs) (chain_bytes (h.contents w.dev) w.vars xs)
            ≡ []
      nothing e =
          empty_read (file_size p.bytes p.at_entry) bs (h.contents w.dev) w.vars ch (ground arith)

      c : ℕ
      c = first_cluster p.bytes p.at_entry

      fs : ℕ
      fs = file_size p.bytes p.at_entry

  -- The file that is found is the first entry of the root directory that has the name, and the
  -- result is the bytes of its chain of clusters, cut to the file's size and the buffer's size.
  pub fat_read-content :
      (rounds : ℕ) (name : List ℕ) (buf_size : ℕ) (p : Place) (xs : List ℕ) (w : World D.Dev)
      → w.vars.initialized ≡ true
      → AtRoot w
      → w.vars.root_sectors < rounds
      → first_taken (is_file name) (root_dir h w) w.vars.root_sectors 0 ≡ some p
      → 0 < buf_size
      → buf_size < 2 ^ 31
      → file_size p.bytes p.at_entry < 2 ^ 32
      → Chain (loaded_table h Owner.read w) (first_cluster p.bytes p.at_entry) xs
      → length xs < rounds
      → Gives
          (λ out w'.
            (out
              ≡ take
                  (min (file_size p.bytes p.at_entry) buf_size)
                  (chain_bytes (h.contents w.dev) w.vars xs))
            × (w'.vars ≡ w.vars)
            × (h.contents w'.dev ≡ h.contents w.dev))
          (fat_read D rounds name buf_size w)
  unfolding fat_read
  fat_read-content rounds name bs p xs w init at enough found pos small size ch lt =
      guarded-Gives D _ w init (
        opened h Owner.read (is_file name) rounds w at enough λ r w1 e o.
          rw (e, found)
            (mono (read_file-content rounds bs p xs w1 pos small size (rw o.table ch) lt)
              (λ out w2 q. (
                q.0 ∙ ap₂ (λ d v. take n (chain_bytes d v xs)) o.disk o.vars,
                q.1.vars ∙ o.vars,
                q.1.disk ∙ o.disk,
              ))))
    where
      n : ℕ
      n = min (file_size p.bytes p.at_entry) bs
