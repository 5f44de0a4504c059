-- ===== src/Storage/Dbfs/Listing.antt =====
-- What a recursive listing holds.
use terraform_provider_datab.Base.{
  ℕ, zero, suc, ◌≡◌, ap, sym, ◌∙◌, String, true, false, List, [], ◌∷◌, ◌++◌, All, arith, Bool-cases,
  inl, inr, if◌then◌else◌,
}
use terraform_provider_datab.Base.{All-append}
use terraform_provider_datab.Common.Errors.{ok}
use terraform_provider_datab.Common.Service.{Server, Call, ◌>>=◌, continue-eq-ok}
use terraform_provider_datab.Storage.Dbfs.{
  FileInfo, Request, Reply, list_files, add_each, recursive_add_paths, list_paths,
}

abbrev pub IsFile : FileInfo → Type 0
IsFile v = v.is_dir ≡ false

module _ (server : Server Request Reply) where
  add_each-file :
      (inner : String → List FileInfo → Call Request (List FileInfo)) (v : FileInfo)
      (more l : List FileInfo) (log : List Request)
      → v.is_dir ≡ false
      → add_each server inner (v ∷ more) l log ≡ add_each server inner more (l ++ v ∷ []) log
  unfolding add_each
  add_each-file inner v more l log e =
      ap
        (λ b.
          (if b
              then inner v.path l >>= (λ m. add_each server inner more m)
              else add_each server inner more (l ++ v ∷ []))
            log)
        e

  add_each-IsFile :
      (inner : String → List FileInfo → Call Request (List FileInfo))
      (ih : (path : String) (l : List FileInfo) (log : List Request) (l' : List FileInfo)
          (log' : List Request)
        → inner path l log ≡ (ok l', log')
        → All IsFile l
        → All IsFile l')
      (files l : List FileInfo) (log : List Request) (l' : List FileInfo) (log' : List Request)
      → add_each server inner files l log ≡ (ok l', log')
      → All IsFile l
      → All IsFile l'
  unfolding add_each
  add_each-IsFile inner ih [] l log l' log' h p = let e : l ≡ l' = ground arith in rw e at p
  add_each-IsFile inner ih (v ∷ more) l log l' log' h p = elim (Bool-cases v.is_dir) [
    | inl e ↦
        let (m, log1, q, k) = continue-eq-ok (inner v.path l log) _ (rw (e, add_each) at h) in
        add_each-IsFile inner ih more m log1 l' log' k (ih v.path l log m log1 q p)
    | inr e ↦
        add_each-IsFile inner ih more (l ++ v ∷ []) log l' log'
          (sym (add_each-file inner v more l log e) ∙ h) (All-append IsFile l (v ∷ []) p (e, tt))
  ]

  recursive_add_paths-IsFile :
      (fuel : ℕ) (path : String) (l : List FileInfo) (log : List Request) (l' : List FileInfo)
      (log' : List Request)
      → recursive_add_paths server fuel path l log ≡ (ok l', log')
      → All IsFile l
      → All IsFile l'
  unfolding recursive_add_paths
  recursive_add_paths-IsFile zero path l log l' log' h p = absurd (ground arith)
  recursive_add_paths-IsFile (suc fuel) path l log l' log' h p =
      let (files, log1, q, k) = continue-eq-ok (list_files server path log) _ h in
      add_each-IsFile (recursive_add_paths server fuel) (recursive_add_paths-IsFile fuel) files l
        log1 l' log' k p

  -- A recursive listing that succeeds holds files only, no directory.
  list_paths-IsFile :
      (fuel : ℕ) (path : String) (log : List Request) (files : List FileInfo) (log' : List Request)
      → list_paths server fuel path true log ≡ (ok files, log')
      → All IsFile files
  unfolding list_paths
  list_paths-IsFile fuel path log files log' h =
      recursive_add_paths-IsFile fuel path [] log files log' h tt
