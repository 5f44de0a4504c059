-- ===== src/Compute/Selection/SparkVersions/Latest.antt =====
-- What `LatestSparkVersion` answers with, branch by branch.
use terraform_provider_datab.Base.{
  subst, ◌≡◌, ◌≢◌, ◌⊎◌, inl, inr, contains, eq_iff, ◌==◌, Bool-cases, refl, sym, String, ◌<>◌, Bool,
  true, false, List, [], ◌∷◌, arith, All, IsStrictOrder, sort_by, sort_by-LeastFirst, LeastFirst,
  un_All-sort_by, mem_of_mem-sort_by,
}
use mathlib.Core.List.{Memᴰ}
use terraform_provider_datab.Compute.Selection.NodeTypes.{same_bool}
use terraform_provider_datab.Common.Errors.{ok}
use terraform_provider_datab.Compute.Selection.SparkVersions.{
  SparkVersion, SparkVersionRequest, matching_versions, less_version, pick_version,
  latest_spark_version, first_version, extract_dbr_versions, matches_request,
}

-- A version as semver is asked about it.
abbrev pub semver : String → String
semver v = "v" <> extract_dbr_versions v

-- A version with the description that it is listed with fits a request.
abbrev pub Fits : SparkVersionRequest → SparkVersion → Type 0
Fits req v =
    (contains v.version ("-scala" <> req.scala) ≡ true)
    × (contains v.version "apache-spark-" ≡ false)
    × (contains v.version "-ml-" ≡ req.ml)
    × (contains v.version "-hls-" ≡ req.genomics)
    × (contains v.version "-gpu-" ≡ req.gpu)
    × (contains v.version "-photon-" ≡ req.photon)
    × (contains v.description "Beta" ≡ req.beta)
    × (req.long_term_support ≡ true
        → (contains v.description "LTS" ≡ true) ⊎ (contains v.version "-esr-" ≡ true))
    × (req.spark_version ≢ ""
        → contains v.description ("Apache Spark " <> req.spark_version) ≡ true)

same_bool-eq : (a b : Bool) → same_bool a b ≡ true → a ≡ b
same_bool-eq a b h = ground arith

matches_request-Fits :
    (req : SparkVersionRequest) (v : SparkVersion) → matches_request req v ≡ true → Fits req v
unfolding matches_request
matches_request-Fits req v h = (
  ground arith,
  ground arith,
  ground arith,
  ground arith,
  ground arith,
  ground arith,
  ground arith,
  λ l. elim (Bool-cases (contains v.description "LTS")) [
    | inl e ↦ inl e
    | inr e ↦ inr (ground arith)
  ],
  λ n. ground (arith, eq_iff req.spark_version ""),
)

Fits-matches_request :
    (req : SparkVersionRequest) (v : SparkVersion) → Fits req v → matches_request req v ≡ true
unfolding matches_request
Fits-matches_request req v (scala, plain, ml, genomics, gpu, photon, beta, lts, spark) =
    elim (Bool-cases (req.spark_version == "")) [
      | inl e ↦ ground arith
      | inr e ↦
          let k = spark (λ q. absurd (ground (arith, eq_iff req.spark_version ""))) in ground arith
    ]

-- A version of the list than which semver finds none in the list newer.
record IsNewest (newer : String → String → Bool) (v : String) (versions : List String)
    : Type 0 where
  listed : Memᴰ v versions
  newest : All (λ w. newer (semver w) (semver v) ≡ false) versions

-- The version of a listed entry that fits the request, where semver finds no entry that fits newer.
pub record IsLatest (newer : String → String → Bool) (req : SparkVersionRequest) (v : String)
    (entries : List SparkVersion) : Type 0 where
  pub entry : SparkVersion
  pub listed : Memᴰ entry entries
  pub named : entry.version ≡ v
  pub fits : Fits req entry
  pub newest : All (λ e. Fits req e → newer (semver e.version) (semver v) ≡ false) entries

entry-cons :
    (req : SparkVersionRequest) (v : String) (x : SparkVersion) (xs : List SparkVersion)
    {versions : List String}
    → matches_request req x ≡ true
    → (Memᴰ v versions → (e : SparkVersion) × Memᴰ e xs × (e.version ≡ v) × Fits req e)
    → Memᴰ v (x.version ∷ versions)
    → (e : SparkVersion) × Memᴰ e (x ∷ xs) × (e.version ≡ v) × Fits req e
entry-cons req v x xs f ih (Memᴰ.head e) = (x, Memᴰ.head refl, sym e, matches_request-Fits req x f)
entry-cons req v x xs f ih (Memᴰ.tail m) = let (e, k, n, t) = ih m in (e, Memᴰ.tail k, n, t)

matching_versions-entry :
    (req : SparkVersionRequest) (v : String) (entries : List SparkVersion)
    → Memᴰ v (matching_versions req entries)
    → (e : SparkVersion) × Memᴰ e entries × (e.version ≡ v) × Fits req e
unfolding matching_versions
matching_versions-entry req v [] m = elim m [ ]
matching_versions-entry req v (x ∷ xs) m = elim (Bool-cases (matches_request req x)) [
  | inl f ↦ entry-cons req v x xs f (matching_versions-entry req v xs) (rw f at m)
  | inr f ↦
      let (e, k, n, t) = matching_versions-entry req v xs (rw f at m) in (e, Memᴰ.tail k, n, t)
]

matching_versions-newest :
    (req : SparkVersionRequest) (P : String → Type 0) (entries : List SparkVersion)
    → All P (matching_versions req entries)
    → All (λ e. Fits req e → P e.version) entries
unfolding matching_versions
matching_versions-newest req P [] h = tt
matching_versions-newest req P (x ∷ xs) h = elim (Bool-cases (matches_request req x)) [
  | inl f ↦ let (p, ps) = rw f at h in (λ _. p, matching_versions-newest req P xs ps)
  | inr f ↦ (
    λ t. absurd (let k = Fits-matches_request req x t in ground arith),
    matching_versions-newest req P xs (rw f at h),
  )
]

-- An order of what semver compares orders the listed versions.
less_version-IsStrictOrder :
    (newer : String → String → Bool) → IsStrictOrder newer → IsStrictOrder (less_version newer)
unfolding less_version
less_version-IsStrictOrder newer order = record {
  asymm = λ a b h. order.asymm (semver a) (semver b) h;
  comparison = λ a b c h. order.comparison (semver a) (semver b) (semver c) h;
}

module _ (newer : String → String → Bool) (order : IsStrictOrder newer) where
  sort_by-IsNewest :
      (v : String) (sorted versions : List String)
      → sort_by (less_version newer) versions ≡ sorted
      → first_version newer sorted ≡ ok v
      → IsNewest newer v versions
  unfolding less_version
  sort_by-IsNewest v [] versions s e = absurd (ground arith)
  sort_by-IsNewest v (x ∷ xs) versions s e =
      let same : x ≡ v = cc in
      let first : LeastFirst (less_version newer) (less_version-IsStrictOrder newer order)
          (x ∷ xs) =
        subst (LeastFirst (less_version newer) (less_version-IsStrictOrder newer order)) s (
          sort_by-LeastFirst (less_version newer) (less_version-IsStrictOrder newer order)
            versions) in
      subst (λ u. IsNewest newer u versions) same
        record {
          listed =
              mem_of_mem-sort_by (less_version newer) versions x
                (subst (Memᴰ x) (sym s) (Memᴰ.head refl));
          newest =
              un_All-sort_by (less_version newer) (λ w. newer (semver w) (semver x) ≡ false)
                versions
                (subst (λ l. All (λ w. newer (semver w) (semver x) ≡ false) l) (sym s) first);
        }

  single-IsNewest : (x : String) → IsNewest newer x (x ∷ [])
  unfolding sort_by less_version
  single-IsNewest x = record {
    listed = Memᴰ.head refl;
    newest =
        sort_by-LeastFirst (less_version newer) (less_version-IsStrictOrder newer order) (x ∷ []);
  }

  pick_version-IsNewest :
      (latest : Bool) (versions : List String) (v : String)
      → pick_version newer latest versions ≡ ok v
      → IsNewest newer v versions
  unfolding pick_version
  pick_version-IsNewest latest [] v h = absurd (ground arith)
  pick_version-IsNewest latest (x ∷ []) v h =
      let same : x ≡ v = cc in subst (λ u. IsNewest newer u (x ∷ [])) same (single-IsNewest x)
  pick_version-IsNewest true (x ∷ y ∷ more) v h = sort_by-IsNewest v _ (x ∷ y ∷ more) refl h
  pick_version-IsNewest false (x ∷ y ∷ more) v h = absurd (ground arith)

  -- Where the order of versions that semver gives is a strict order with ties: a version that
  -- `LatestSparkVersion` answers with is that of a listed entry that fits the request, and semver finds
  -- no entry that fits newer than it, both as `extractDbrVersions` reads them.
  pub latest_spark_version-IsLatest :
      (req : SparkVersionRequest) (entries : List SparkVersion) (v : String)
      → latest_spark_version newer req entries ≡ ok v
      → IsLatest newer req v entries
  unfolding latest_spark_version
  latest_spark_version-IsLatest req entries v h =
      let found = pick_version-IsNewest req.latest (matching_versions req entries) v h in
      let (e, m, n, t) = matching_versions-entry req v entries found.listed in
      record {
        entry = e;
        listed = m;
        named = n;
        fits = t;
        newest =
            matching_versions-newest req (λ w. newer (semver w) (semver v) ≡ false) entries
              found.newest;
      }
