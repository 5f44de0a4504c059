-- ===== src/Common/Http/Clarity.antt =====
-- When an error says that the host does not fit the request.
use terraform_provider_datab.Base.{
  ◌≡◌, refl, ◌↔◌, String, Bool, true, false, not, ◌&&◌, none, some, arith, if◌then◌else◌,
}
use terraform_provider_datab.Common.Errors.{ApiError}
use terraform_provider_datab.Common.Http.{
  Response, is_accounts_client, is_accounts_api, is_testing, common_error_clarity,
}

clarity_cases :
    (t c a : Bool) (x y : ApiError)
    → ((if not t && (c && not a) then some x else if not t && (a && not c) then some y else none)
        ≡ none)
      ↔ ((t ≡ false) → c ≡ a)
clarity_cases true c a x y = (λ h k. absurd (ground arith), λ h. refl)
clarity_cases false true true x y = (λ h k. refl, λ h. refl)
clarity_cases false false false x y = (λ h k. refl, λ h. refl)
clarity_cases false true false x y =
    (λ h k. absurd (ground arith), λ h. absurd (let k = h refl in ground arith))
clarity_cases false false true x y =
    (λ h k. absurd (ground arith), λ h. absurd (let k = h refl in ground arith))

-- The answer is that there is nothing to clear up exactly where the request goes to a test server, or
-- the client and the request agree on whether they are for accounts.
common_error_clarity_iff :
    (host : String) (resp : Response)
    → (common_error_clarity host resp ≡ none)
      ↔ ((is_testing resp ≡ false) → is_accounts_client host ≡ is_accounts_api resp)
unfolding common_error_clarity
common_error_clarity_iff host resp =
    clarity_cases (is_testing resp) (is_accounts_client host) (is_accounts_api resp) _ _
