-- ===== src/Compute/Selection/SparkVersions.antt =====
-- compute/clusters.go `LatestSparkVersion`. `newer v w` stands for `semver.Compare(v, w) > 0` of
-- golang.org/x/mod, which is not part of the program.
pub mod Latest
use Prim.Native.String
use Prim.Native.Char.{Char, code}
use terraform_provider_datab.Base.{
  ℕ, String, ◌<>◌, ◌≡◌, refl, Bool, true, false, not, ◌&&◌, ◌||◌, List, [], ◌∷◌, arith, leb, ltb,
  length, keep, if◌then◌else◌, contains, has_prefix, drop_chars, sort_by, ◌==◌, All, Bool-cases,
  IsStrictOrder, sort_by-LeastFirst, LeastFirst, All-sort_by, un_All-sort_by, map,
}
use terraform_provider_datab.Compute.Selection.NodeTypes.{same_bool}
use terraform_provider_datab.Common.Errors.{Error, other, Result, ok, err}

pub record SparkVersion : Type 0 where
  pub version : String
  pub description : String

pub record SparkVersionRequest : Type 0 where
  pub long_term_support : Bool
  pub beta : Bool
  pub latest : Bool
  pub ml : Bool
  pub genomics : Bool
  pub gpu : Bool
  pub scala : String
  pub spark_version : String
  pub photon : Bool

abbrev is_digit : ℕ → Bool
is_digit c = leb 48 c && leb c 57

abbrev before_digit : Char → String × String → String × String
before_digit c (digits, rest) = (String.◌∷◌ c digits, rest)

-- The digits that a text begins with, and the rest.
unfoldable pub span_digits : String → String × String
span_digits String.[] = ("", "")
span_digits (String.◌∷◌ c s) =
    let longer = before_digit c (span_digits s) in
    if is_digit (code c) then longer else ("", String.◌∷◌ c s)

abbrev dbr_minor : String → String → String × String → String
dbr_minor s major (minor, rest) =
    if not (minor == "") && has_prefix rest ".x-" then major <> ("." <> minor) else s

abbrev dbr_major : String → String × String → String
dbr_major s (major, rest) =
    if not (major == "") && has_prefix rest "."
    then dbr_minor s major (span_digits (drop_chars 1 rest))
    else s

-- `extractDbrVersions`: the group of `^(\d+\.\d+)\.x-.*`, or the whole text.
unfoldable pub extract_dbr_versions : String → String
unfolding span_digits has_prefix drop_chars
extract_dbr_versions s = dbr_major s (span_digits s)

-- Does a listed version match the request?
unfoldable pub matches_request : SparkVersionRequest → SparkVersion → Bool
unfolding contains
matches_request req v =
    contains v.version ("-scala" <> req.scala)
    && (not (contains v.version "apache-spark-")
        && same_bool (contains v.version "-ml-") req.ml
        && same_bool (contains v.version "-hls-") req.genomics
        && same_bool (contains v.version "-gpu-") req.gpu
        && same_bool (contains v.version "-photon-") req.photon
        && same_bool (contains v.description "Beta") req.beta)
    && (not req.long_term_support || (contains v.description "LTS" || contains v.version "-esr-"))
    && (req.spark_version == "" || contains v.description ("Apache Spark " <> req.spark_version))

-- The versions that the loop collects.
unfoldable pub matching_versions : SparkVersionRequest → List SparkVersion → List String
matching_versions req listed = map (λ v. v.version) (keep (matches_request req) listed)

abbrev pub no_results : Error
no_results =
    other
      "spark versions query returned no results. Please change your search criteria and try again"

abbrev pub multiple_results : Error
multiple_results =
    other
      "spark versions query returned multiple results. Please change your search criteria and try again"

module _ (newer : String → String → Bool) where
  -- `sparkVersionsType.Less`
  unfoldable pub less_version : String → String → Bool
  less_version v w = newer ("v" <> extract_dbr_versions v) ("v" <> extract_dbr_versions w)

  abbrev pub first_version : List String → Result String
  first_version [] = err no_results
  first_version (v ∷ _) = ok v

  unfoldable pub pick_version : Bool → List String → Result String
  pick_version latest [] = err no_results
  pick_version latest (v ∷ []) = ok v
  pick_version latest (v ∷ w ∷ more) =
      if latest then first_version (sort_by less_version (v ∷ w ∷ more)) else err multiple_results

  unfoldable pub latest_spark_version : SparkVersionRequest → List SparkVersion → Result String
  unfolding pick_version matching_versions
  latest_spark_version req listed = pick_version req.latest (matching_versions req listed)

  abbrev pub version_or_default : Result String → String
  version_or_default (ok v) = v
  version_or_default (err e) = "7.3.x-scala2.12"
