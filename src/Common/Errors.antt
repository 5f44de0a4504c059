-- ===== src/Common/Errors.antt =====
-- common/http.go, the errors: `APIError` and the questions that callers ask of an error. A Go
-- function that returns `(A, error)` gives a `Result A`.
use terraform_provider_datab.Base.{
  ℕ, String, Bool, false, List, [], ◌∷◌, eqb, contains, any, ◌≡◌, refl, ◌⊎◌, inl, inr,
}

pub record ApiError : Type 0 where
  pub error_code : String
  pub message : String
  pub resource : String
  pub status_code : ℕ

-- Go's `error`: an `APIError`, or any other value with its text.
pub data Error : Type 0 where
  api : ApiError → Error
  other : String → Error

pub data Result {ℓ} (A : Type ℓ) : Type ℓ where
  ok : A → Result A
  err : Error → Result A

pub Result-cases {ℓ} :
    {A : Type ℓ} (r : Result A) → ((e : Error) × (r ≡ err e)) ⊎ ((a : A) × (r ≡ ok a))
Result-cases (err e) = inl (e, refl)
Result-cases (ok a) = inr (a, refl)

-- `err.Error()`
abbrev pub error_text : Error → String
error_text (api e) = e.message
error_text (other text) = text

abbrev pub is_missing_api : ApiError → Bool
is_missing_api e = eqb e.status_code 404

abbrev pub is_too_many_requests : ApiError → Bool
is_too_many_requests e = eqb e.status_code 429

-- `common.IsMissing`
abbrev pub is_missing : Error → Bool
is_missing (api e) = is_missing_api e
is_missing (other text) = false

abbrev pub not_found : String → Error
not_found message =
    api (record { error_code = "NOT_FOUND"; message = message; resource = ""; status_code = 404 })

abbrev pub transient_error_string_matches : List String
transient_error_string_matches =
    "com.databricks.backend.manager.util.UnknownWorkerEnvironmentException"
    ∷ "does not have any associated worker environments" ∷ "There is no worker environment with id"
    ∷ "Unknown worker environment" ∷ "ClusterNotReadyException" ∷ "connection reset by peer"
    ∷ "connection refused" ∷ "Unexpected error" ∷ "i/o timeout" ∷ []

unfoldable pub is_retriable : ApiError → Bool
is_retriable e = any (contains e.message) transient_error_string_matches
