-- ===== src/Compute/Jobs/Addressing.antt =====
-- Which jobs can be managed by the IDs that their creation gives.
use terraform_provider_datab.Base.{
  ℕ, ◌≤◌, ◌<◌, ◌≡◌, refl, ap, ◌∙◌, ◌⊎◌, inl, inr, String, Bool, List, ◌∷◌, if◌then◌else◌, ltb,
  arith, Bool-cases,
}
use terraform_provider_datab.Common.Errors.{Error, Result, ok, err, Result-cases}
use terraform_provider_datab.Common.Service.{Server, continue-eq-ok}
use terraform_provider_datab.Compute.Retry.{RetryContext}
use terraform_provider_datab.Compute.Jobs.{
  JobSettings, Job, Request, get_job, delete_job_at, reset_job, create_job_at, Reply, api_version,
  sort_tasks_by_key, start_job, create_job, update_job, read_job, delete_job, create_context,
}

module _ (server : Server Request Reply) (sdk : RetryContext (Unit {0}) Request)
    (parse_int : ℕ → String → Result ℕ) (show : ℕ → String) (less : String → String → Bool) where
  -- Each operation on the ID sends its request with this number.
  abbrev pub Reaches : String → ℕ → Type 0
  Reaches id job_id =
      (js : JobSettings) (log : List Request)
      → ((read_job server sdk parse_int show less (api_version js) id log).1
          ≡ get_job (api_version js) job_id ∷ log)
        × ((update_job server sdk parse_int show less id js log).1
            ≡ reset_job (api_version js) job_id js ∷ log)
        × ((delete_job server sdk parse_int show less (api_version js) id log).1
            ≡ delete_job_at (api_version js) job_id ∷ log)

  -- Each operation on the ID fails before it has sent a request.
  abbrev pub IsLost : String → Type 0
  IsLost id =
      (js : JobSettings) (log : List Request)
      → (e : Error) × (read_job server sdk parse_int show less (api_version js) id log
          ≡ (err e, log))
        × (update_job server sdk parse_int show less id js log ≡ (err e, log))
        × (delete_job server sdk parse_int show less (api_version js) id log ≡ (err e, log))

  parsed-Reaches : (id : String) (job_id : ℕ) → parse_int 32 id ≡ ok job_id → Reaches id job_id
  parsed-Reaches id job_id p js log = (
    elim (Result-cases (server log (get_job (api_version js) job_id))) [
      | inl (x, e) ↦ rw (p, e) refl
      | inr (job, e) ↦ rw (p, e) refl
    ],
    elim (Result-cases (server log (reset_job (api_version js) job_id js))) [
      | inl (x, e) ↦ rw (p, e) refl
      | inr (_, e) ↦ rw (p, e) refl
    ],
    elim (Result-cases (server log (delete_job_at (api_version js) job_id))) [
      | inl (x, e) ↦ rw (p, e) refl
      | inr (_, e) ↦ rw (p, e) refl
    ],
  )

  refused-IsLost : (id : String) (e : Error) → parse_int 32 id ≡ err e → IsLost id
  refused-IsLost id e p js log = (e, rw p refl, rw p refl, rw p refl)

  created-id :
      (js : JobSettings) (always_running : Bool) (log log' : List Request) (id : String)
      → create_context server sdk parse_int show less js always_running log ≡ (ok id, log')
      → (job : Job) × (server log (create_job_at (api_version js) (sort_tasks_by_key less js))
          ≡ ok job)
        × (id ≡ show job.job_id)
  unfolding create_context
  created-id js always_running log log' id h =
      let (job, l1, e1, h1) =
        continue-eq-ok (create_job server sdk parse_int show less js log) _ h in
      let (_, l2, e2, h2) =
        continue-eq-ok
          ((if always_running
              then start_job server sdk parse_int show less job.job_id
              else (λ l. (ok tt, l)))
            l1)
          _ h1 in
      (job, ap (λ r. r.0) e1, ground arith)

  -- Where `strconv.ParseInt` with 32 bits gives back the printed numbers below 2^31 and refuses the
  -- others: the ID of a job that was created with success is its number; where that is below 2^31, each of
  -- Read, Update and Delete of this ID sends its request with the number, and otherwise each fails
  -- before it has sent a request.
  pub create_context-Reaches :
      ((n : ℕ) → n < 2147483648 → parse_int 32 (show n) ≡ ok n)
      → ((n : ℕ) → 2147483648 ≤ n → (e : Error) × (parse_int 32 (show n) ≡ err e))
      → (js : JobSettings) (always_running : Bool) (log log' : List Request) (id : String)
      → create_context server sdk parse_int show less js always_running log ≡ (ok id, log')
      → (job : Job) × (server log (create_job_at (api_version js) (sort_tasks_by_key less js))
          ≡ ok job)
        × (id ≡ show job.job_id)
        × (((job.job_id < 2147483648) × Reaches id job.job_id)
            ⊎ ((2147483648 ≤ job.job_id) × IsLost id))
  create_context-Reaches parses refuses js always_running log log' id h =
      let (job, made, same) = created-id js always_running log log' id h in
      (
        job,
        made,
        same,
        elim (Bool-cases (ltb job.job_id 2147483648)) [
          | inl e ↦
              let small : job.job_id < 2147483648 = ground arith in
              inl (
                small,
                parsed-Reaches id job.job_id (ap (parse_int 32) same ∙ parses job.job_id small),
              )
          | inr e ↦
              let large : 2147483648 ≤ job.job_id = ground arith in
              let (x, p) = refuses job.job_id large in
              inr (large, refused-IsLost id x (ap (parse_int 32) same ∙ p))
        ],
      )
