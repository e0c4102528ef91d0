-- ===== src/Fat/Create/Fields.antt =====
-- The fields of a directory entry, byte by byte, and the entries that fat_write and fat_mkdir make.
use master_os.Base.{
  ℕ, ◌+◌, ◌*◌, ◌%◌, ◌^◌, ◌<◌, ◌≤◌, ◌≡◌, refl, ◌⊎◌, inl, inr, ◌∙◌, arith, List, ◌∷◌, Bytes, bytes_at,
  bytes_at_cong, get16, get32, length, replicate,
}
use master_os.Fat.Names.{blanks}
use master_os.Fat.Create.{new_entry, dot_entries}
use master_os.Fat.Create.Entry.{
  file_size-entry, first_cluster-entry, attributes-entry, name-entry, ext-entry, others-entry,
}

-- Entry `i` of the sector `buf` has the name, the extension, the attributes, the first cluster
-- and the size, where a FAT12 entry has them.
pub record HasEntry (buf : Bytes) (i : ℕ) (name ext : List ℕ) (attr cluster size : ℕ) : Type 0 where
  pub name_at : bytes_at buf (i * 32) 8 ≡ name
  pub ext_at : bytes_at buf (i * 32 + 8) 3 ≡ ext
  pub attr_at : buf (i * 32 + 11) ≡ attr
  pub cluster_at : get16 buf (i * 32 + 26) ≡ cluster
  pub size_at : get32 buf (i * 32 + 28) ≡ size

-- The same, where `buf` differs from `old` in the 32 bytes of the entry only.
pub record IsNewEntry (buf old : Bytes) (i : ℕ) (name ext : List ℕ) (attr cluster size : ℕ)
    : Type 0 where
  pub fields : HasEntry buf i name ext attr cluster size
  pub others : (k : ℕ) → (k < i * 32) ⊎ (i * 32 + 32 ≤ k) → buf k ≡ old k

module _ (buf : Bytes) (i : ℕ) (name ext : List ℕ) (attr cluster size : ℕ) (eight : length name ≡ 8)
    (three : length ext ≡ 3) (small : cluster < 2 ^ 16) where
  pub new_entry-IsNewEntry :
      IsNewEntry
        (new_entry buf i (name, ext) attr cluster size)
        buf
        i
        name
        ext
        attr
        cluster
        (size % 2 ^ 32)
  new_entry-IsNewEntry = record {
    fields = record {
      name_at = name-entry buf i name ext attr cluster size eight three;
      ext_at = ext-entry buf i name ext attr cluster size eight three;
      attr_at = attributes-entry buf i name ext attr cluster size eight three;
      cluster_at =
          first_cluster-entry buf i name ext attr cluster size eight three ∙ omega (arith, small);
      size_at = file_size-entry buf i name ext attr cluster size eight three;
    };
    others = others-entry buf i name ext attr cluster size eight three;
  }

-- A new directory has `.` and `..` with their clusters, and behind them no entries.
pub record HasDots (buf : Bytes) (cluster parent : ℕ) : Type 0 where
  pub self : HasEntry buf 0 (b'.' ∷ replicate 7 b' ') (replicate 3 b' ') 0x10 cluster 0
  pub above : HasEntry buf 1 (b'.' ∷ b'.' ∷ replicate 6 b' ') (replicate 3 b' ') 0x10 parent 0
  pub free : (k : ℕ) → 64 ≤ k → buf k ≡ 0

module _ (a b : Bytes) (i : ℕ) (same : (k : ℕ) → i * 32 ≤ k → k < i * 32 + 32 → a k ≡ b k) where
  HasEntry-cong :
      {name ext : List ℕ} {attr cluster size : ℕ}
      → HasEntry b i name ext attr cluster size
      → HasEntry a i name ext attr cluster size
  HasEntry-cong e = record {
    name_at =
        bytes_at_cong a b (i * 32) (i * 32) 8
          (λ k lt. same (i * 32 + k) (omega arith) (omega arith))
        ∙ e.name_at;
    ext_at =
        bytes_at_cong a b (i * 32 + 8) (i * 32 + 8) 3
          (λ k lt. same (i * 32 + 8 + k) (omega arith) (omega arith))
        ∙ e.ext_at;
    attr_at = same (i * 32 + 11) (omega arith) (omega arith) ∙ e.attr_at;
    cluster_at = omega (
      arith,
      e.cluster_at,
      same (i * 32 + 26) (omega arith) (omega arith),
      same (i * 32 + 26 + 1) (omega arith) (omega arith),
    );
    size_at = omega (
      arith,
      e.size_at,
      same (i * 32 + 28) (omega arith) (omega arith),
      same (i * 32 + 28 + 1) (omega arith) (omega arith),
      same (i * 32 + 28 + 2) (omega arith) (omega arith),
      same (i * 32 + 28 + 3) (omega arith) (omega arith),
      same (i * 32 + 28 + 2 + 1) (omega arith) (omega arith),
    );
  }

pub dot_entries-HasDots :
    (cluster parent : ℕ)
    → cluster < 2 ^ 16
    → parent < 2 ^ 16
    → HasDots (dot_entries cluster parent) cluster parent
dot_entries-HasDots cluster parent small small' =
    let dot : Bytes = new_entry (λ _. 0) 0 (b'.' ∷ blanks 7, blanks 3) 0x10 cluster 0 in
    let one : IsNewEntry dot (λ _. 0) 0 (b'.' ∷ blanks 7) (blanks 3) 0x10 cluster 0 =
      new_entry-IsNewEntry (λ _. 0) 0 (b'.' ∷ blanks 7) (blanks 3) 0x10 cluster 0 refl refl small in
    let two : IsNewEntry (dot_entries cluster parent) dot 1 (b'.' ∷ b'.' ∷ blanks 6) (blanks 3) 0x10
        parent 0 =
      new_entry-IsNewEntry dot 1 (b'.' ∷ b'.' ∷ blanks 6) (blanks 3) 0x10 parent 0 refl refl
        small' in
    record {
      self =
          HasEntry-cong (dot_entries cluster parent) dot 0
            (λ k lo hi. two.others k (inl (omega arith))) one.fields;
      above = two.fields;
      free = λ k le. two.others k (inr (omega arith)) ∙ one.others k (inr (omega arith));
    }
