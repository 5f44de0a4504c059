-- ===== src/Common/Http/Masking/Length.antt =====
-- How long a text of the log can be.
use text.Mathlib.TextLemmas.{length-append, length-nil, length-cons}
use terraform_provider_datab.Base.{
  ℕ, zero, suc, ◌+◌, ◌-◌, ◌≤◌, String, ◌<>◌, count, Option, ◌==◌, ltb, arith, Bool-cases,
  Option-cases, inl, inr,
}
use terraform_provider_datab.Common.Http.Masking.{
  Fields, take_chars, more_bytes, only_n_bytes, recursive_mask, max_bytes, redacted_dump,
}

count-take_chars : (n : ℕ) (s : String) → count (take_chars n s) ≤ n
unfolding take_chars
count-take_chars zero s = omega (arith, length-nil)
count-take_chars (suc n) String.[] = omega (arith, length-nil)
count-take_chars (suc n) (String.◌∷◌ c s) =
    omega (arith, length-cons c (take_chars n s), count-take_chars n s)

module _ (show : ℕ → String) (short : (n : ℕ) → count (show n) ≤ 19) where
  count-more_bytes : (n : ℕ) → count (more_bytes show n) ≤ 36
  count-more_bytes n = omega (
    arith,
    length-append "... (" (show n <> " more bytes)"),
    length-append (show n) " more bytes)",
    short n,
  )

  count-only_n_bytes : (s : String) (n : ℕ) → count (only_n_bytes show s n) ≤ n + 36
  unfolding only_n_bytes
  count-only_n_bytes s n = elim (Bool-cases (ltb n (count s))) [
    | inl e ↦ rw e (
        omega (
          arith,
          length-append (take_chars n s) (more_bytes show (count s - n)),
          count-take_chars n s,
          count-more_bytes (count s - n),
        ))
    | inr e ↦ rw e (let k : count s ≤ n = ground arith in omega (arith, k))
  ]

  max_bytes-le : (n m : ℕ) → n ≤ m → 1024 ≤ m → max_bytes show n ≤ m
  max_bytes-le n m fits large = ground arith

  -- Where a number is printed with at most 19 digits: for every m that is at least 1024 and at least the
  -- client's limit n, a dump for the log has at most m characters and 36 more.
  pub count-redacted_dump :
      (unmarshal : String → Option Fields) (print : Fields → String) (n m : ℕ) (body : String)
      → n ≤ m
      → 1024 ≤ m
      → count (redacted_dump show unmarshal print n body) ≤ m + 36
  unfolding redacted_dump
  count-redacted_dump unmarshal print n m body fits large = elim (Bool-cases (body == "")) [
    | inl e ↦ rw e (omega (arith, length-nil))
    | inr e ↦ elim (Option-cases (unmarshal body)) [
      | inl f ↦ rw (e, f) (omega (arith, length-nil))
      | inr (found, f) ↦
          rw (e, f)
            (omega (
              arith,
              max_bytes-le n m fits large,
              count-only_n_bytes (print (recursive_mask show n found)) (max_bytes show n),
            ))
    ]
  ]
