-- ===== src/Tests/Libraries.antt =====
-- A cluster with one library installed and one pending, and a configuration that keeps the first.
use terraform_provider_datab.Base.{◌≡◌, String, false, not, ◌&&◌, ◌||◌, none, [], ◌∷◌, any}
use terraform_provider_datab.Compute.Libraries.{
  Library, ClusterLibraryList, LibraryStatus, ClusterLibraryStatuses, library_of, is_some, diff,
  is_retry_needed,
}
use terraform_provider_datab.Compute.Libraries.Diff.{has_key, diff-has_key}
use terraform_provider_datab.Compute.Libraries.Waiting.{is_waiting, has_failed, is_retry_needed_iff}

abbrev jar : String → Library
jar path = record { jar = path; egg = ""; whl = ""; pypi = none; maven = none; cran = none }

abbrev status : String → String → LibraryStatus
status path text = record {
  library = jar path;
  status = text;
  is_library_installed_on_all_clusters = false;
  messages = [];
}

abbrev observed : ClusterLibraryStatuses
observed = record {
  cluster_id = "c-1";
  library_statuses = status "a.jar" "INSTALLED" ∷ status "b.jar" "PENDING" ∷ [];
}

abbrev wanted : ClusterLibraryList
wanted = record { cluster_id = "c-1"; libraries = jar "a.jar" ∷ jar "c.jar" ∷ [] }

diff-has_key_example :
    let (install, uninstall) = diff wanted observed in
    let installed = library_of observed.library_statuses in
    (has_key "b.jar" install.libraries
      ≡ (has_key "b.jar" wanted.libraries && not (has_key "b.jar" installed)))
    × (has_key "b.jar" uninstall.libraries
        ≡ (has_key "b.jar" installed && not (has_key "b.jar" wanted.libraries)))
    × (install.cluster_id ≡ wanted.cluster_id)
    × (uninstall.cluster_id ≡ wanted.cluster_id)
diff-has_key_example = diff-has_key wanted observed "b.jar"

is_retry_needed_iff_example :
    ((is_retry_needed (λ n. "some") observed).0 ≡ any is_waiting observed.library_statuses)
    × (is_some (is_retry_needed (λ n. "some") observed).1
        ≡ (any is_waiting observed.library_statuses || any has_failed observed.library_statuses))
is_retry_needed_iff_example = is_retry_needed_iff (λ n. "some") observed
