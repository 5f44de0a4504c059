-- ===== src/Compute/Libraries/Diff.antt =====
-- `Diff` brings the cluster to its configuration.
use terraform_provider_datab.Base.{
  ◌≡◌, refl, ◌∙◌, ap, String, Bool, not, ◌&&◌, ◌||◌, List, [], ◌∷◌, arith, ◌==◌, eq_iff, lookup,
  insert, lookup-insert, any, All, Bool-cases, inl, inr,
}
use terraform_provider_datab.Compute.Libraries.{
  Library, key_of, ClusterLibraryList, ClusterLibraryStatuses, library_of, index_by_key, is_some,
  missing_from, diff,
}

-- Is there a library with this key?
abbrev pub has_key : String → List Library → Bool
has_key k libs = any (λ l. key_of l == k) libs

abbrev Entry : Type 0
Entry = String × Library

abbrev IsKeyed : Entry → Type 0
IsKeyed e = key_of e.1 ≡ e.0

index_by_key-lookup :
    (k : String) (entries : List Entry) (libs : List Library)
    → is_some (lookup k (index_by_key entries libs))
      ≡ (is_some (lookup k entries) || has_key k libs)
unfolding index_by_key
index_by_key-lookup k entries [] = ground arith
index_by_key-lookup k entries (lib ∷ libs) = ground (
  arith,
  index_by_key-lookup k (insert (key_of lib) lib entries) libs,
  lookup-insert (key_of lib) k lib entries,
)

insert-IsKeyed :
    (lib : Library) (entries : List Entry)
    → All IsKeyed entries
    → All IsKeyed (insert (key_of lib) lib entries)
unfolding insert
insert-IsKeyed lib [] h = (refl, tt)
insert-IsKeyed lib ((j, w) ∷ entries) (p, h) = elim (Bool-cases (j == key_of lib)) [
  | inl e ↦ rw (e, insert) (refl, h)
  | inr e ↦ rw (e, insert) (p, insert-IsKeyed lib entries h)
]

index_by_key-IsKeyed :
    (entries : List Entry) (libs : List Library)
    → All IsKeyed entries
    → All IsKeyed (index_by_key entries libs)
unfolding index_by_key
index_by_key-IsKeyed entries [] h = h
index_by_key-IsKeyed entries (lib ∷ libs) h =
    index_by_key-IsKeyed (insert (key_of lib) lib entries) libs (insert-IsKeyed lib entries h)

missing_from-has_key :
    (k : String) (others entries : List Entry)
    → All IsKeyed entries
    → has_key k (missing_from others entries)
      ≡ (is_some (lookup k entries) && not (is_some (lookup k others)))
unfolding missing_from lookup
missing_from-has_key k others [] h = refl
missing_from-has_key k others ((j, lib) ∷ entries) (p, h) =
    ground (arith, missing_from-has_key k others entries h, eq_iff j k, eq_iff (key_of lib) k)

index_by_key-has_key :
    (k : String) (libs : List Library) → is_some (lookup k (index_by_key [] libs)) ≡ has_key k libs
unfolding lookup
index_by_key-has_key k libs = index_by_key-lookup k [] libs

missing-has_key :
    (k : String) (others libs : List Library)
    → has_key k (missing_from (index_by_key [] others) (index_by_key [] libs))
      ≡ (has_key k libs && not (has_key k others))
missing-has_key k others libs =
    missing_from-has_key k (index_by_key [] others) (index_by_key [] libs)
      (index_by_key-IsKeyed [] libs tt)
    ∙ ap (λ b. b && not (is_some (lookup k (index_by_key [] others)))) (index_by_key-has_key k libs)
    ∙ ap (λ b. has_key k libs && not b) (index_by_key-has_key k others)

-- The first result of `Diff` has a library with a key exactly when the configuration has one and the
-- cluster has none, and its second result exactly when the cluster has one and the configuration has
-- none. Both name the cluster of the configuration.
pub diff-has_key :
    (cll : ClusterLibraryList) (cls : ClusterLibraryStatuses) (k : String)
    → let (install, uninstall) = diff cll cls in
      let installed = library_of cls.library_statuses in
      (has_key k install.libraries ≡ (has_key k cll.libraries && not (has_key k installed)))
      × (has_key k uninstall.libraries ≡ (has_key k installed && not (has_key k cll.libraries)))
      × (install.cluster_id ≡ cll.cluster_id)
      × (uninstall.cluster_id ≡ cll.cluster_id)
unfolding diff
diff-has_key cll cls k = (
  missing-has_key k (library_of cls.library_statuses) cll.libraries,
  missing-has_key k cll.libraries (library_of cls.library_statuses),
  refl,
  refl,
)
