-- ===== src/Common/Http/Retrying.antt =====
-- What a retried or failed exchange tells its caller.
use terraform_provider_datab.Base.{
  ◌≡◌, sym, not, ◌&&◌, refl, String, true, false, Option, none, some, arith, Bool-cases,
  Option-cases, inl, inr, eqb, leb, ◌≤◌, ◌<◌, ◌⊎◌,
}
use terraform_provider_datab.Common.Errors.{ApiError, api}
use terraform_provider_datab.Common.Http.{
  Response, is_testing, is_accounts_client, is_accounts_api, common_error_clarity, Unmarshalled,
  parse_error, response, too_many_requests, check_http_retry,
}

module _ (unmarshal : String → Unmarshalled) (pre_text : String → Option String) where
  clarity-status_code :
      (host : String) (resp : Response) (e : ApiError)
      → common_error_clarity host resp ≡ some e
      → e.status_code ≡ resp.status_code
  unfolding common_error_clarity
  clarity-status_code host resp e h =
      elim (Bool-cases
        (not (is_testing resp) && (is_accounts_client host && not (is_accounts_api resp)))) [
          | inl a ↦ let k = rw (a, common_error_clarity) at h in ground arith
          | inr a ↦
              elim (Bool-cases (
                not (is_testing resp) && (is_accounts_api resp && not (is_accounts_client host)))) [
                  | inl b ↦ let k = rw (a, b, common_error_clarity) at h in ground arith
                  | inr b ↦ absurd (let k = rw (a, b, common_error_clarity) at h in ground arith)
                ]
        ]

  parse_error-status_code :
      (host : String) (resp : Response)
      → (parse_error unmarshal pre_text host resp).status_code ≡ resp.status_code
  unfolding parse_error common_error_clarity
  parse_error-status_code host resp = elim (Option-cases resp.body) [
    | inl e ↦ rw e refl
    | inr (text, e) ↦ elim (Option-cases (common_error_clarity host resp)) [
      | inl f ↦ rw (e, f) refl
      | inr (x, f) ↦ rw (e, f) (clarity-status_code host resp x f)
    ]
  ]

  -- A response whose status is below 400 is no error and is not retried. Any other is an API error with
  -- the status of the response, whatever its body is, and one with the status 429 is retried.
  pub check_http_retry-status :
      (host : String) (resp : Response)
      → ((resp.status_code < 400)
          × (check_http_retry unmarshal pre_text host (response resp) ≡ (false, none)))
        ⊎ ((400 ≤ resp.status_code)
            × (e : ApiError) × ((check_http_retry unmarshal pre_text host (response resp)).1
                ≡ some (api e))
            × (e.status_code ≡ resp.status_code)
            × (resp.status_code ≡ 429
                → (check_http_retry unmarshal pre_text host (response resp)).0 ≡ true))
  unfolding check_http_retry
  check_http_retry-status host resp = elim (Bool-cases (eqb resp.status_code 429)) [
    | inl e ↦
        let same : resp.status_code ≡ 429 = ground arith in
        inr (omega (arith, same), too_many_requests, rw e refl, sym same, λ h. rw e refl)
    | inr e ↦ elim (Bool-cases (leb 400 resp.status_code)) [
      | inl f ↦ inr (
        ground arith,
        parse_error unmarshal pre_text host resp,
        rw (e, f) refl,
        parse_error-status_code host resp,
        λ h. absurd (ground arith),
      )
      | inr f ↦ inl (ground arith, rw (e, f) refl)
    ]
  ]
