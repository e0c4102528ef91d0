-- ===== src/Fat/Create/Entry.antt =====
-- The directory entry that `fat_write` makes, as the searches read it.
use mathlib.Core.Path.{ap₂}
use master_os.Base.{
  ℕ, ◌+◌, ◌*◌, ◌%◌, ◌^◌, ◌<◌, ◌≤◌, ◌≡◌, ◌≢◌, sym, ◌⊎◌, inl, ◌∙◌, ap, arith, false, ◌==◌, List,
  length, replicate, Bytes, bytes_at, bytes_at_cong, put, put_bytes, put16, put32, get16, get32,
  get_or,
}
use master_os.Base.Int.{pos}
use master_os.Fat.Names.{split_83, make_name, k_strcmp_nocase}
use master_os.Fat.Dir.{
  first_cluster, file_size, attributes, entry_first, entry_name, is_file, taken,
}
use master_os.Fat.Names.Lengths.{put_bytes_in, put_bytes_out, length-split_83}
use master_os.Fat.Create.{new_entry}

put16_out : (buf : Bytes) (a v k : ℕ) → (k < a) ⊎ (a + 2 ≤ k) → put16 buf a v k ≡ buf k
put16_out buf a v k p = ground arith

put32_out : (buf : Bytes) (a v k : ℕ) → (k < a) ⊎ (a + 4 ≤ k) → put32 buf a v k ≡ buf k
put32_out buf a v k p = ground arith

get16-put16 : (buf : Bytes) (a v : ℕ) → get16 (put16 buf a v) a ≡ v % 2 ^ 16
get16-put16 buf a v = ground arith

get32-put32 : (buf : Bytes) (a v : ℕ) → get32 (put32 buf a v) a ≡ v % 2 ^ 32
get32-put32 buf a v = ground arith

module _ (buf : Bytes) (i : ℕ) (name ext : List ℕ) (attr cluster size : ℕ) (eight : length name ≡ 8)
    (three : length ext ≡ 3) where
  abbrev entry : Bytes
  entry = new_entry buf i (name, ext) attr cluster size

  -- The bytes before the attributes and behind the entry.
  before_fields :
      (k : ℕ)
      → (k < i * 32 + 11) ⊎ (i * 32 + 32 ≤ k)
      → entry k ≡ put_bytes (put_bytes buf (i * 32) name) (i * 32 + 8) ext k
  before_fields k p = ground arith

  -- The entry as it is made, field after field.
  abbrev named : Bytes
  named = put_bytes (put_bytes buf (i * 32) name) (i * 32 + 8) ext

  abbrev attributed : Bytes
  attributed = put named (i * 32 + 11) attr

  abbrev cleared : Bytes
  cleared = put_bytes attributed (i * 32 + 12) (replicate 10 0)

  abbrev undated : Bytes
  undated = put16 (put16 cleared (i * 32 + 22) 0) (i * 32 + 24) 0

  abbrev clustered : Bytes
  clustered = put16 undated (i * 32 + 26) cluster

  pub file_size-entry : file_size entry i ≡ size % 2 ^ 32
  file_size-entry = get32-put32 clustered (i * 32 + 28) size

  pub first_cluster-entry : first_cluster entry i ≡ cluster % 2 ^ 16
  first_cluster-entry =
      let low : entry (i * 32 + 26) ≡ clustered (i * 32 + 26) =
        put32_out clustered (i * 32 + 28) size (i * 32 + 26) (inl (omega arith)) in
      let high : entry (i * 32 + 26 + 1) ≡ clustered (i * 32 + 26 + 1) =
        put32_out clustered (i * 32 + 28) size (i * 32 + 26 + 1) (inl (omega arith)) in
      rw (low, high) (get16-put16 undated (i * 32 + 26) cluster)

  pub attributes-entry : attributes entry i ≡ attr
  attributes-entry =
      put32_out clustered (i * 32 + 28) size (i * 32 + 11) (inl (omega arith))
      ∙ put16_out undated (i * 32 + 26) cluster (i * 32 + 11) (inl (omega arith))
      ∙ put16_out (put16 cleared (i * 32 + 22) 0) (i * 32 + 24) 0 (i * 32 + 11) (inl (omega arith))
      ∙ put16_out cleared (i * 32 + 22) 0 (i * 32 + 11) (inl (omega arith))
      ∙ put_bytes_out attributed (i * 32 + 12) (replicate 10 0) (i * 32 + 11) (inl (omega arith))
      ∙ ground arith

  pub name-entry : bytes_at entry (i * 32) 8 ≡ name
  name-entry =
      bytes_at_cong entry (put_bytes buf (i * 32) name) (i * 32) (i * 32) 8 (λ k lt.
        before_fields (i * 32 + k) (inl (omega arith))
        ∙ put_bytes_out (put_bytes buf (i * 32) name) (i * 32 + 8) ext (i * 32 + k)
            (inl (omega arith)))
      ∙ ap (bytes_at (put_bytes buf (i * 32) name) (i * 32)) (sym eight)
      ∙ put_bytes_in buf (i * 32) name

  pub ext-entry : bytes_at entry (i * 32 + 8) 3 ≡ ext
  ext-entry =
      bytes_at_cong entry named (i * 32 + 8) (i * 32 + 8) 3
        (λ k lt. before_fields (i * 32 + 8 + k) (inl (omega arith)))
      ∙ ap (bytes_at named (i * 32 + 8)) (sym three)
      ∙ put_bytes_in (put_bytes buf (i * 32) name) (i * 32 + 8) ext

  -- What the searches read of the entry.
  entry_name-entry : entry_name entry i ≡ make_name name ext
  entry_name-entry = ap₂ make_name name-entry ext-entry

  entry_first-entry : entry_first entry i ≡ get_or name 0 0
  unfolding bytes_at
  entry_first-entry = ap (λ l. get_or l 0 0) name-entry

  -- The bytes of the other entries.
  pub others-entry : (k : ℕ) → (k < i * 32) ⊎ (i * 32 + 32 ≤ k) → entry k ≡ buf k
  others-entry k p =
      before_fields k (omega arith)
      ∙ put_bytes_out (put_bytes buf (i * 32) name) (i * 32 + 8) ext k (omega arith)
      ∙ put_bytes_out buf (i * 32) name k (omega arith)

-- A directory sector with the entry that `fat_write` makes of a file.
abbrev pub with_file : Bytes → ℕ → List ℕ → (first size : ℕ) → Bytes
with_file buf i name first size = new_entry buf i (split_83 name) 0x00 first size

module _ (buf : Bytes) (i : ℕ) (name : List ℕ) (first size : ℕ) where
  pub with_file-first_cluster :
      first < 2 ^ 16 → first_cluster (with_file buf i name first size) i ≡ first
  with_file-first_cluster small =
      first_cluster-entry buf i (split_83 name).0 (split_83 name).1 0 first size
        (length-split_83 name).0 (length-split_83 name).1
      ∙ omega arith

  pub with_file-file_size : size < 2 ^ 32 → file_size (with_file buf i name first size) i ≡ size
  with_file-file_size small =
      file_size-entry buf i (split_83 name).0 (split_83 name).1 0 first size
        (length-split_83 name).0 (length-split_83 name).1
      ∙ omega arith

  -- A search for a file goes past the other entries as before.
  pub is_file-others :
      (wanted : List ℕ) (j : ℕ)
      → j ≢ i
      → is_file wanted (with_file buf i name first size) j ≡ is_file wanted buf j
  unfolding is_file
  is_file-others wanted j ne = rw (at_first, at_attributes, at_name, at_ext)
    where
      same : (k : ℕ) → k < 32 → with_file buf i name first size (j * 32 + k) ≡ buf (j * 32 + k)
      same k lt =
          others-entry buf i (split_83 name).0 (split_83 name).1 0 first size
            (length-split_83 name).0 (length-split_83 name).1 (j * 32 + k) (omega arith)

      at_first : with_file buf i name first size (j * 32) ≡ buf (j * 32)
      at_first = let e : j * 32 + 0 ≡ j * 32 = omega arith in rw e at (same 0 (omega arith))

      at_attributes : with_file buf i name first size (j * 32 + 11) ≡ buf (j * 32 + 11)
      at_attributes = same 11 (omega arith)

      at_name : bytes_at (with_file buf i name first size) (j * 32) 8 ≡ bytes_at buf (j * 32) 8
      at_name =
          bytes_at_cong (with_file buf i name first size) buf (j * 32) (j * 32) 8
            (λ k lt. same k (omega arith))

      at_ext :
          bytes_at (with_file buf i name first size) (j * 32 + 8) 3 ≡ bytes_at buf (j * 32 + 8) 3
      at_ext =
          bytes_at_cong (with_file buf i name first size) buf (j * 32 + 8) (j * 32 + 8) 3 (λ k lt.
            let e : j * 32 + 8 + k ≡ j * 32 + (8 + k) = omega arith in
            rw e (same (8 + k) (omega arith)))

  -- A search for its own name takes the new entry.
  pub is_file-new :
      (wanted : List ℕ)
      → get_or (split_83 name).0 0 0 ≢ 0
      → get_or (split_83 name).0 0 0 ≢ 0xE5
      → k_strcmp_nocase (make_name (split_83 name).0 (split_83 name).1) wanted ≡ pos 0
      → is_file wanted (with_file buf i name first size) i ≡ taken
  unfolding is_file
  is_file-new wanted some alive equal =
      let zero_first : (entry_first (with_file buf i name first size) i == 0x00) ≡ false =
        ground (arith, at_first) in
      let dead : (entry_first (with_file buf i name first size) i == 0xE5) ≡ false =
        ground (arith, at_first) in
      rw (zero_first, dead, at_attributes, at_name, equal)
    where
      at_first : entry_first (with_file buf i name first size) i ≡ get_or (split_83 name).0 0 0
      at_first =
          entry_first-entry buf i (split_83 name).0 (split_83 name).1 0 first size
            (length-split_83 name).0 (length-split_83 name).1

      at_attributes : attributes (with_file buf i name first size) i ≡ 0
      at_attributes =
          attributes-entry buf i (split_83 name).0 (split_83 name).1 0 first size
            (length-split_83 name).0 (length-split_83 name).1

      at_name :
          entry_name (with_file buf i name first size) i
          ≡ make_name (split_83 name).0 (split_83 name).1
      at_name =
          entry_name-entry buf i (split_83 name).0 (split_83 name).1 0 first size
            (length-split_83 name).0 (length-split_83 name).1
