-- ===== src/Compute/Libraries.antt =====
-- compute/libraries.go: which libraries to install and uninstall, and whether to wait for them. A Go
-- map is a list of entries; the order in which Go ranges over it is not specified, and here it is the
-- order of first insertion. A status always carries its library.
pub mod Diff
pub mod Waiting
use terraform_provider_datab.Base.{
  ℕ, ◌+◌, String, ◌<>◌, Bool, true, false, not, ◌&&◌, ◌||◌, Option, none, some, List, [], ◌∷◌, ◌++◌,
  ltb, if◌then◌else◌, ◌==◌, lookup, insert, join, any,
}

pub record PyPi : Type 0 where
  pub package_name : String
  pub repo : String

pub record Maven : Type 0 where
  pub coordinates : String
  pub repo : String
  pub exclusions : List String

pub record Cran : Type 0 where
  pub package_name : String
  pub repo : String

pub record Library : Type 0 where
  pub jar : String
  pub egg : String
  pub whl : String
  pub pypi : Option PyPi
  pub maven : Option Maven
  pub cran : Option Cran

abbrev cran_key : Option Cran → String × String
cran_key none = ("", "")
cran_key (some c) =
    if not (c.package_name == "") then ("library_cran", c.package_name <> c.repo) else ("", "")

abbrev maven_key : Option Maven → String × String → String × String
maven_key none later = later
maven_key (some m) later =
    if not (m.coordinates == "")
    then ("library_maven", m.coordinates <> (m.repo <> join "" m.exclusions))
    else later

abbrev pypi_key : Option PyPi → String × String → String × String
pypi_key none later = later
pypi_key (some p) later =
    if not (p.package_name == "") then ("library_pypi", p.package_name <> p.repo) else later

-- `TypeAndKey`
unfoldable pub type_and_key : Library → String × String
unfolding join
type_and_key l =
    if not (l.whl == "")
    then ("library_whl", l.whl)
    else if not (l.egg == "")
    then ("library_egg", l.egg)
    else if not (l.jar == "")
    then ("library_jar", l.jar)
    else pypi_key l.pypi (maven_key l.maven (cran_key l.cran))

abbrev pub key_of : Library → String
key_of l = (type_and_key l).1

pub record ClusterLibraryList : Type 0 where
  pub cluster_id : String
  pub libraries : List Library

pub record LibraryStatus : Type 0 where
  pub library : Library
  pub status : String
  pub is_library_installed_on_all_clusters : Bool
  pub messages : List String

pub record ClusterLibraryStatuses : Type 0 where
  pub cluster_id : String
  pub library_statuses : List LibraryStatus

abbrev pub library_of : List LibraryStatus → List Library
library_of [] = []
library_of (s ∷ more) = s.library ∷ library_of more

-- The loops that fill `inConfig` and `inState`: of two libraries with one key the later stays.
unfoldable pub index_by_key : List (String × Library) → List Library → List (String × Library)
unfolding insert
index_by_key entries [] = entries
index_by_key entries (lib ∷ libs) = index_by_key (insert (key_of lib) lib entries) libs

abbrev pub is_some {ℓ} : {A : Type ℓ} → Option A → Bool
is_some none = false
is_some (some a) = true

-- The loops over the maps: the libraries whose key is not in the other map.
unfoldable pub missing_from : List (String × Library) → List (String × Library) → List Library
unfolding lookup
missing_from others [] = []
missing_from others ((key, lib) ∷ entries) =
    let rest = missing_from others entries in
    if is_some (lookup key others) then rest else lib ∷ rest

-- `Diff`: what to install, and what to uninstall.
unfoldable pub diff :
    ClusterLibraryList → ClusterLibraryStatuses → ClusterLibraryList × ClusterLibraryList
unfolding index_by_key missing_from
diff cll cls =
    let in_config = index_by_key [] cll.libraries in
    let in_state = index_by_key [] (library_of cls.library_statuses) in
    (
      record { cluster_id = cll.cluster_id; libraries = missing_from in_state in_config },
      record { cluster_id = cll.cluster_id; libraries = missing_from in_config in_state },
    )

pub record Tally : Type 0 where
  pub pending : ℕ
  pub ready : ℕ
  pub errors : List String

abbrev pub is_pending_status : String → Bool
is_pending_status s = s == "PENDING" || s == "RESOLVING" || s == "INSTALLING"

abbrev pub is_ready_status : String → Bool
is_ready_status s = s == "INSTALLED" || s == "SKIPPED" || s == "UNINSTALL_ON_RESTART"

abbrev pub failure_text : LibraryStatus → String
failure_text s =
    let (kind, key) = type_and_key s.library in
    kind <> ("[" <> (key <> ("] failed: " <> join ", " s.messages)))

-- One round of the loop of `IsRetryNeeded`.
unfoldable pub tally_status : Tally → LibraryStatus → Tally
unfolding join
tally_status t s =
    if s.is_library_installed_on_all_clusters
    then t
    else if is_pending_status s.status
    then record t { pending = t.pending + 1 }
    else if is_ready_status s.status
    then record t { ready = t.ready + 1 }
    else if s.status == "FAILED"
    then record t { errors = t.errors ++ failure_text s ∷ [] }
    else t

unfoldable pub tally_from : Tally → List LibraryStatus → Tally
tally_from t [] = t
tally_from t (s ∷ more) = tally_from (tally_status t s) more

abbrev pub is_empty {ℓ} : {A : Type ℓ} → List A → Bool
is_empty [] = true
is_empty (x ∷ xs) = false

-- `show` is `%d`.
abbrev pub conclude : (ℕ → String) → Tally → Bool × Option String
conclude show t =
    if ltb 0 t.pending
    then (
      true,
      some (
          show t.ready
          <> (" libraries are ready, but there are still " <> (show t.pending <> " pending"))),
    )
    else if is_empty t.errors
    then (false, none)
    else (false, some (join "\n" t.errors))

-- `IsRetryNeeded`: whether to ask again, and the error.
unfoldable pub is_retry_needed : (ℕ → String) → ClusterLibraryStatuses → Bool × Option String
unfolding tally_from tally_status
is_retry_needed show cls =
    conclude show (tally_from (record { pending = 0; ready = 0; errors = [] }) cls.library_statuses)
