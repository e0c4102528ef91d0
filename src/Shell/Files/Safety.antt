-- ===== src/Shell/Files/Safety.antt =====
-- The commands on files leave the screen and the line in order.
use master_os.Base.{ℕ, Option, none, some, List, [], ◌∷◌}
use master_os.Device.{BlockDevice}
use master_os.Fat.Read.{Fat12Entry}
use master_os.Shell.Files.{
  cmd_cd, cmd_mkdir, cmd_rmdir, cmd_dir, cmd_type, cmd_del, cmd_ren, cmd_copy, cmd_create,
  say_listing, rename_to, copy_to, create_from,
}
use master_os.Shell.Rules.{Keeps, keeping}

module _ (D : BlockDevice) (rounds : ℕ) where
  pub cmd_cd-Keeps : (arg : Option (List ℕ)) → Keeps (cmd_cd D rounds arg)
  unfolding cmd_cd
  cmd_cd-Keeps none = search keeping depth 40
  cmd_cd-Keeps (some arg) = search keeping depth 40

  pub cmd_mkdir-Keeps : (arg : Option (List ℕ)) → Keeps (cmd_mkdir D rounds arg)
  unfolding cmd_mkdir
  cmd_mkdir-Keeps none = search keeping depth 40
  cmd_mkdir-Keeps (some arg) = search keeping depth 40

  pub cmd_rmdir-Keeps : (arg : Option (List ℕ)) → Keeps (cmd_rmdir D rounds arg)
  unfolding cmd_rmdir
  cmd_rmdir-Keeps none = search keeping depth 40
  cmd_rmdir-Keeps (some arg) = search keeping depth 40

  pub cmd_del-Keeps : (arg : Option (List ℕ)) → Keeps (cmd_del D rounds arg)
  unfolding cmd_del
  cmd_del-Keeps none = search keeping depth 40
  cmd_del-Keeps (some arg) = search keeping depth 40

  say_listing-Keeps : (l : List Fat12Entry) → Keeps {Dev = D.Dev} (say_listing l)
  say_listing-Keeps [] = search keeping depth 40
  say_listing-Keeps (e ∷ l) = search keeping depth 40

  pub cmd_dir-Keeps : Keeps (cmd_dir D rounds)
  unfolding cmd_dir
  cmd_dir-Keeps = search (keeping, say_listing-Keeps) depth 40

  pub cmd_type-Keeps : (arg : Option (List ℕ)) → Keeps (cmd_type D rounds arg)
  unfolding cmd_type
  cmd_type-Keeps none = search keeping depth 40
  cmd_type-Keeps (some arg) = search keeping depth 40

  rename_to-Keeps :
      (old_name : List ℕ) (arg : Option (List ℕ)) → Keeps (rename_to D rounds old_name arg)
  rename_to-Keeps old_name none = search keeping depth 40
  rename_to-Keeps old_name (some arg) = search keeping depth 40

  pub cmd_ren-Keeps : (arg : Option (List ℕ)) → Keeps (cmd_ren D rounds arg)
  unfolding cmd_ren
  cmd_ren-Keeps none = search keeping depth 40
  cmd_ren-Keeps (some arg) = rename_to-Keeps _ _

  copy_to-Keeps : (source : List ℕ) (arg : Option (List ℕ)) → Keeps (copy_to D rounds source arg)
  copy_to-Keeps source none = search keeping depth 40
  copy_to-Keeps source (some arg) = search keeping depth 40

  pub cmd_copy-Keeps : (arg : Option (List ℕ)) → Keeps (cmd_copy D rounds arg)
  unfolding cmd_copy
  cmd_copy-Keeps none = search keeping depth 40
  cmd_copy-Keeps (some arg) = copy_to-Keeps _ _

  create_from-Keeps :
      (filename : List ℕ) (arg : Option (List ℕ)) → Keeps (create_from D rounds filename arg)
  create_from-Keeps filename none = search keeping depth 40
  create_from-Keeps filename (some arg) = search keeping depth 40

  pub cmd_create-Keeps : (arg : Option (List ℕ)) → Keeps (cmd_create D rounds arg)
  unfolding cmd_create
  cmd_create-Keeps none = search keeping depth 40
  cmd_create-Keeps (some arg) = create_from-Keeps _ _
