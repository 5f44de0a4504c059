-- ===== src/Compute/Libraries/Waiting.antt =====
-- When `IsRetryNeeded` asks to wait, and when it reports an error.
use terraform_provider_datab.Base.{
  ℕ, ◌≡◌, refl, ◌∙◌, String, Bool, false, not, ◌&&◌, ◌||◌, List, [], ◌∷◌, ◌++◌, arith, ltb, ◌==◌,
  eq_iff, any, Bool-cases, inl, inr,
}
use terraform_provider_datab.Compute.Libraries.{
  LibraryStatus, ClusterLibraryStatuses, Tally, is_pending_status, is_ready_status, failure_text,
  tally_status, tally_from, is_empty, is_some, is_retry_needed, conclude,
}

-- A status of this cluster alone whose library is still being installed.
abbrev pub is_waiting : LibraryStatus → Bool
is_waiting s =
    not s.is_library_installed_on_all_clusters
    && (s.status == "PENDING" || s.status == "RESOLVING" || s.status == "INSTALLING")

abbrev pub has_failed : LibraryStatus → Bool
has_failed s = not s.is_library_installed_on_all_clusters && s.status == "FAILED"

tally_status-pending :
    (t : Tally) (s : LibraryStatus)
    → ltb 0 (tally_status t s).pending ≡ (ltb 0 t.pending || is_waiting s)
unfolding tally_status
tally_status-pending t s = ground arith

is_empty-append {ℓ} : {A : Type ℓ} (xs : List A) (x : A) → is_empty (xs ++ x ∷ []) ≡ false
is_empty-append [] x = refl
is_empty-append (y ∷ ys) x = refl

failed_is_no_other :
    (s : String) → s ≡ "FAILED" → (is_pending_status s ≡ false) × (is_ready_status s ≡ false)
failed_is_no_other s e = rw e (refl, refl)

tally_status-errors :
    (t : Tally) (s : LibraryStatus)
    → is_empty (tally_status t s).errors ≡ (is_empty t.errors && not (has_failed s))
unfolding tally_status
tally_status-errors t s = elim (Bool-cases (s.status == "FAILED")) [
  | inl failed ↦
      let (p, r) = failed_is_no_other s.status ((eq_iff _ _).0 failed) in
      rw (failed, p, r, tally_status) (ground (arith, is_empty-append t.errors (failure_text s)))
  | inr other ↦ rw (other, tally_status) (ground arith)
]

or_assoc : (a b c : Bool) → ((a || b) || c) ≡ (a || (b || c))
or_assoc a b c = ground arith

and_not_or : (a b c : Bool) → ((a && not b) && not c) ≡ (a && not (b || c))
and_not_or a b c = ground arith

tally_from-pending :
    (t : Tally) (ss : List LibraryStatus)
    → ltb 0 (tally_from t ss).pending ≡ (ltb 0 t.pending || any is_waiting ss)
unfolding tally_from
tally_from-pending t [] = ground arith
tally_from-pending t (s ∷ ss) =
    tally_from-pending (tally_status t s) ss
    ∙ rw (tally_status-pending t s) (or_assoc (ltb 0 t.pending) (is_waiting s) (any is_waiting ss))

tally_from-errors :
    (t : Tally) (ss : List LibraryStatus)
    → is_empty (tally_from t ss).errors ≡ (is_empty t.errors && not (any has_failed ss))
unfolding tally_from
tally_from-errors t [] = ground arith
tally_from-errors t (s ∷ ss) =
    tally_from-errors (tally_status t s) ss
    ∙ rw (tally_status-errors t s)
        (and_not_or (is_empty t.errors) (has_failed s) (any has_failed ss))

conclude-cases :
    (show : ℕ → String) (t : Tally)
    → ((conclude show t).0 ≡ ltb 0 t.pending)
      × (is_some (conclude show t).1 ≡ (ltb 0 t.pending || not (is_empty t.errors)))
conclude-cases show t = ground arith

-- `IsRetryNeeded` asks for a retry exactly when some library of this cluster alone has the status
-- PENDING, RESOLVING or INSTALLING, and it reports an error exactly when that is so or some library of
-- this cluster alone has the status FAILED.
pub is_retry_needed_iff :
    (show : ℕ → String) (cls : ClusterLibraryStatuses)
    → ((is_retry_needed show cls).0 ≡ any is_waiting cls.library_statuses)
      × (is_some (is_retry_needed show cls).1
          ≡ (any is_waiting cls.library_statuses || any has_failed cls.library_statuses))
unfolding is_retry_needed
is_retry_needed_iff show cls =
    let start : Tally = record { pending = 0; ready = 0; errors = [] } in
    let t = tally_from start cls.library_statuses in
    let p = tally_from-pending start cls.library_statuses in
    let e = tally_from-errors start cls.library_statuses in
    let (c, d) = conclude-cases show t in (c ∙ p, d ∙ ground (arith, p, e))
