-- ===== src/Fat/Names/Lengths.antt =====
-- The lengths of the fields of a short name, and bytes that are put into a sector.
use master_os.Base.{
  ℕ, zero, suc, ◌+◌, ◌<◌, ◌≤◌, ◌≡◌, refl, ◌⊎◌, inl, ◌∙◌, ap, arith, List, [], ◌∷◌, length,
  length-replicate, Bytes, bytes_at, put, put_bytes,
}
use master_os.Fat.Names.{split_name, split_ext, ext_after, split_83}

length-split_name : (n : ℕ) (s : List ℕ) → length (split_name n s).0 ≡ n
unfolding split_name
length-split_name zero s = refl
length-split_name (suc n) [] = length-replicate {A = ℕ} (suc n) b' '
length-split_name (suc n) (c ∷ s) =
    ground (arith, length-split_name n s, length-replicate {A = ℕ} n b' ')

length-split_ext : (n : ℕ) (s : List ℕ) → length (split_ext n s) ≡ n
unfolding split_ext
length-split_ext zero s = refl
length-split_ext (suc n) [] = length-replicate {A = ℕ} (suc n) b' '
length-split_ext (suc n) (c ∷ s) =
    ground (arith, length-split_ext n s, length-replicate {A = ℕ} n b' ')

length-ext_after : (s : List ℕ) → length (ext_after s) ≡ 3
unfolding ext_after
length-ext_after [] = refl
length-ext_after (c ∷ s) = ground (arith, length-split_ext 3 s)

-- The fields have their full length.
pub length-split_83 :
    (name : List ℕ) → (length (split_83 name).0 ≡ 8) × (length (split_83 name).1 ≡ 3)
unfolding split_83
length-split_83 name = (length-split_name 8 name, length-ext_after (split_name 8 name).1)

pub put_bytes_out :
    (buf : Bytes) (start : ℕ) (xs : List ℕ) (k : ℕ)
    → (k < start) ⊎ (start + length xs ≤ k)
    → put_bytes buf start xs k ≡ buf k
put_bytes_out buf start [] k p = refl
put_bytes_out buf start (x ∷ xs) k p =
    put_bytes_out (put buf start x) (start + 1) xs k (omega arith) ∙ ground arith

pub put_bytes_in :
    (buf : Bytes) (start : ℕ) (xs : List ℕ)
    → bytes_at (put_bytes buf start xs) start (length xs) ≡ xs
unfolding bytes_at
put_bytes_in buf start [] = refl
put_bytes_in buf start (x ∷ xs) =
    let here : put_bytes (put buf start x) (start + 1) xs start ≡ x =
      put_bytes_out (put buf start x) (start + 1) xs start (inl (omega arith)) ∙ ground arith in
    rw here (ap (x ∷◌) (put_bytes_in (put buf start x) (start + 1) xs))
