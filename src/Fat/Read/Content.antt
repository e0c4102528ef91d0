-- ===== src/Fat/Read/Content.antt =====
-- What `fat_read` returns: the bytes of the file's clusters, in the order of its chain, cut to
-- the file's size and to the size of the buffer.
use native.Mathlib.Decide.{dec_le}
use Prim.Native.Nat.{min}
use master_os.Base.{
  ℕ, zero, suc, ◌+◌, ◌*◌, ◌-◌, ◌^◌, ◌<◌, ◌≤◌, ◌≡◌, refl, inl, inr, ◌∙◌, sym, ap, arith, Bool, true,
  false, ◌&&◌, ◌||◌, List, [], ◌∷◌, ◌++◌, length, length-append, take, take-append_le,
  take-append_ge, take-all, Bytes, bytes_at, length-bytes_at, take-bytes_at, add32, Bool-cases, leb,
}
use master_os.Device.{BlockDevice, IsHealthy}
use master_os.Fat.Monad.{World, Vars, M}
use master_os.Fat.Rules.{Gives, gives, bind, mono, Same, same, Same-trans, read_sector-Gives}
use master_os.Fat.Disk.{cluster_lba}
use master_os.Fat.Read.{to_copy, copy_from, after_cluster, read_cluster, read_clusters}
use master_os.Fat.Table.{fat_next_cluster}
use master_os.Fat.Table.Chain.{Chain, stop, link, IsCluster}

-- The bytes of `left` sectors of a cluster, from its sector `s` on.
unfoldable pub cluster_bytes : (ℕ → Bytes) → (lba left s : ℕ) → List ℕ
cluster_bytes disk lba zero s = []
cluster_bytes disk lba (suc left) s =
    bytes_at (disk (add32 lba s)) 0 512 ++ cluster_bytes disk lba left (s + 1)

-- The bytes of the clusters of a chain.
unfoldable pub chain_bytes : (ℕ → Bytes) → Vars → List ℕ → List ℕ
chain_bytes disk v [] = []
chain_bytes disk v (c ∷ cs) =
    cluster_bytes disk (cluster_lba v c 0) v.bpb.sectors_per_cluster 0 ++ chain_bytes disk v cs

pub length-cluster_bytes :
    (disk : ℕ → Bytes) (lba left s : ℕ) → length (cluster_bytes disk lba left s) ≡ 512 * left
unfolding cluster_bytes
length-cluster_bytes disk lba zero s = refl
length-cluster_bytes disk lba (suc left) s = omega (
  arith,
  length-append {0} (bytes_at (disk (add32 lba s)) 0 512) (cluster_bytes disk lba left (s + 1)),
  length-bytes_at (disk (add32 lba s)) 0 512,
  length-cluster_bytes disk lba left (s + 1),
)

-- `rem` bytes remain to be read, of a file of `fs` bytes into a buffer of `bs`, after `br` bytes.
pub record Remains (fs bs br rem : ℕ) : Type 0 where
  pub sum : br + rem ≡ min fs bs
  pub some_left : 0 < rem
  pub file_fits : fs < 2 ^ 32
  pub buffer_fits : bs < 2 ^ 31

module _ {fs bs br rem : ℕ} (r : Remains fs bs br rem) where
  to_copy-last :
      rem ≤ 512
      → (to_copy fs bs br ≡ rem) × ((leb fs (add32 br rem) || leb bs (add32 br rem)) ≡ true)
  unfolding to_copy
  to_copy-last le = ground arith

  to_copy-full :
      512 < rem
      → (to_copy fs bs br ≡ 512) × ((leb fs (add32 br 512) || leb bs (add32 br 512)) ≡ false)
  unfolding to_copy
  to_copy-full lt = ground arith

  Remains-step : (n : ℕ) → n < rem → Remains fs bs (add32 br n) (rem - n)
  Remains-step n lt = record {
    sum = omega arith;
    some_left = omega arith;
    file_fits = r.file_fits;
    buffer_fits = r.buffer_fits;
  }

not_cluster : (c : ℕ) → ¬ IsCluster c → (leb 2 c && leb c 0xFEF) ≡ false
not_cluster c out = elim (Bool-cases (leb 2 c && leb c 0xFEF)) [
  | inl e ↦ absurd (out (ground arith, ground arith))
  | inr e ↦ e
]

module _ {D : BlockDevice} (h : IsHealthy D) where
  -- The first `rem` of the bytes `bytes`, and whether that is all that was wanted.
  abbrev Reads : (rem size : ℕ) → List ℕ → World D.Dev → List ℕ × Bool → World D.Dev → Type 0
  Reads rem size bytes w out w' = (out.0 ≡ take rem bytes) × (out.1 ≡ leb rem size) × Same h w w'

  -- One round, given what the rounds after it read.
  copy_from-Reads :
      {fs bs : ℕ} (br rem size : ℕ) (rest : ℕ → M D.Dev (List ℕ × Bool)) (buf : Bytes)
      (more : List ℕ) (w : World D.Dev)
      → Remains fs bs br rem
      → length more ≡ size
      → ((br' rem' : ℕ) → Remains fs bs br' rem' → Gives (Reads rem' size more w) (rest br' w))
      → Gives
          (Reads rem (512 + size) (bytes_at buf 0 512 ++ more) w)
          (copy_from D fs bs br rest buf w)
  unfolding copy_from
  copy_from-Reads br rem size rest buf more w r len ih = elim (dec_le rem 512) [
    | yes le ↦
        simp ((to_copy-last r le).0, (to_copy-last r le).1)
          (gives (
            sym (
                take-append_le rem (bytes_at buf 0 512) more
                  (omega (arith, length-bytes_at buf 0 512))
                ∙ take-bytes_at buf 0 rem 512 le),
            ground arith,
            same h w,
          ))
    | no gt ↦
        simp ((to_copy-full r (omega arith)).0, (to_copy-full r (omega arith)).1)
          (bind (ih (add32 br 512) (rem - 512) (Remains-step r 512 (omega arith))) (λ out w' p.
            gives (
              ap (bytes_at buf 0 512 ++◌) p.0
                  ∙ sym (
                      take-append_ge rem (rem - 512) (bytes_at buf 0 512) more
                        (omega (arith, length-bytes_at buf 0 512))),
              p.1 ∙ ground arith,
              p.2,
            )))
  ]

  read_cluster-Reads :
      {fs bs : ℕ} (lba left s br rem : ℕ) (w : World D.Dev)
      → Remains fs bs br rem
      → Gives
          (Reads rem (512 * left) (cluster_bytes (h.contents w.dev) lba left s) w)
          (read_cluster D fs bs lba left s br w)
  unfolding read_cluster cluster_bytes
  read_cluster-Reads lba zero s br rem w r =
      gives (sym (take-all rem [] (omega arith)), ground arith, same h w)
  read_cluster-Reads {fs} {bs} lba (suc left) s br rem w r =
      let size : 512 * suc left ≡ 512 + 512 * left = omega arith in
      rw size (
        bind {k = copy_from D fs bs br (read_cluster D fs bs lba left (s + 1))}
          (read_sector-Gives h (add32 lba s) w)
          (λ buf w1 p. rw p.0 (
            mono
              (copy_from-Reads br rem (512 * left) (read_cluster D fs bs lba left (s + 1))
                (h.contents w.dev (add32 lba s)) (cluster_bytes (h.contents w.dev) lba left (s + 1))
                w1 r (length-cluster_bytes (h.contents w.dev) lba left (s + 1))
                (λ br' rem' r'.
                  mono (read_cluster-Reads lba left (s + 1) br' rem' w1 r') (λ out w' q. (
                    q.0 ∙ ap (λ d. take rem' (cluster_bytes d lba left (s + 1))) p.1.disk,
                    q.1,
                    q.2,
                  ))))
              (λ out w' q. (q.0, q.1, Same-trans h p.1 q.2)))))

  -- After a cluster of `size` bytes, given what the clusters after it give.
  after_cluster-Reads :
      {fs bs : ℕ} (br rem size : ℕ) (rest : ℕ → M D.Dev (List ℕ)) (bytes more : List ℕ)
      (out : List ℕ × Bool) (w w1 : World D.Dev)
      → Remains fs bs br rem
      → length bytes ≡ size
      → Reads rem size bytes w out w1
      → ((br' rem' : ℕ)
          → Remains fs bs br' rem'
          → Gives (λ o w'. (o ≡ take rem' more) × Same h w1 w') (rest br' w1))
      → Gives
          (λ o w'. (o ≡ take rem (bytes ++ more)) × Same h w w')
          (after_cluster D br rest out w1)
  unfolding after_cluster
  after_cluster-Reads br rem size rest bytes more (o, true) w w1 r len p ih =
      gives (p.0 ∙ sym (take-append_le rem bytes more (ground arith)), p.2)
  after_cluster-Reads br rem size rest bytes more (o, false) w w1 r len p ih =
      let full : o ≡ bytes = p.0 ∙ take-all rem bytes (ground arith) in
      let more_left : size < rem = ground arith in
      let e : length bytes ≡ size = len in
      rw (full, e)
        (bind (ih (add32 br size) (rem - size) (Remains-step r size more_left)) (λ o' w' q. gives (
          ap (bytes ++◌) q.0 ∙ sym (take-append_ge rem (rem - size) bytes more (omega arith)),
          Same-trans h p.2 q.1,
        )))

  pub read_clusters-Reads :
      {fs bs : ℕ} (v : Vars) (fat_buf : Bytes) (c : ℕ) (xs : List ℕ) (rounds br rem : ℕ)
      (w : World D.Dev)
      → Chain fat_buf c xs
      → length xs < rounds
      → Remains fs bs br rem
      → Gives
          (λ o w'. (o ≡ take rem (chain_bytes (h.contents w.dev) v xs)) × Same h w w')
          (read_clusters D v fat_buf fs bs rounds c br w)
  unfolding read_clusters chain_bytes
  read_clusters-Reads v fat_buf c xs zero br rem w ch lt r = absurd (omega arith)
  read_clusters-Reads v fat_buf c xs (suc rounds) br rem w (stop out) lt r =
      let no_more : (leb 2 c && leb c 0xFEF) ≡ false = not_cluster c out in
      simp no_more (gives (sym (take-all rem [] (omega arith)), same h w))
  read_clusters-Reads {fs} {bs} v fat_buf c _ (suc rounds) br rem w
        (link {xs = xs} in_range fresh rest) lt r =
      let more : (leb 2 c && leb c 0xFEF) ≡ true = ground arith in
      simp more (
        bind {k = after_cluster D br next}
          (read_cluster-Reads (cluster_lba v c 0) v.bpb.sectors_per_cluster 0 br rem w r)
          (λ out w1 p.
            after_cluster-Reads br rem (512 * v.bpb.sectors_per_cluster) next _
              (chain_bytes (h.contents w.dev) v xs) out w w1 r
              (length-cluster_bytes (h.contents w.dev) (cluster_lba v c 0) v.bpb.sectors_per_cluster
                0)
              p
              (λ br' rem' r'.
                mono
                  (read_clusters-Reads v fat_buf (fat_next_cluster fat_buf c) xs rounds br' rem' w1
                    rest (omega arith) r')
                  (λ o w' q. (q.0 ∙ ap (λ d. take rem' (chain_bytes d v xs)) p.2.disk, q.1)))))
    where
      next : ℕ → M D.Dev (List ℕ)
      next = read_clusters D v fat_buf fs bs rounds (fat_next_cluster fat_buf c)
