-- ===== src/Tests/Masking.antt =====
-- A request that stores a secret, within an object; the client's limit is 3 characters.
use terraform_provider_datab.Base.{
  ℕ, ◌≤◌, ◌+◌, ◌≡◌, refl, inl, inr, Bool-cases, String, count, if◌then◌else◌, eqb, some, arith,
}
use terraform_provider_datab.Common.Http.Masking.{
  Fields, object, text, scalar, no_fields, field, redacted, take_chars, only_n_bytes, mask_value,
  recursive_mask, redacted_dump,
}
use terraform_provider_datab.Common.Http.Masking.Redaction.{
  AreClean, field_names, recursive_mask-AreClean,
}
use terraform_provider_datab.Common.Http.Masking.Length.{count-redacted_dump}

abbrev put_secret : Fields
put_secret = field "scope" (text "production") (
    field "secret" (object (field "string_value" (text "hunter2") no_fields))
      (field "version" (scalar "1") no_fields))

abbrev show : ℕ → String
show n = if eqb n 7 then "7" else "many"

mask_run :
    recursive_mask show 3 put_secret
    ≡ field "scope" (text "pro... (7 more bytes)") (
        field "secret"
          (object (field "string_value" redacted no_fields))
          (field "version" (scalar "1") no_fields))
unfolding recursive_mask mask_value only_n_bytes take_chars
mask_run = refl

recursive_mask-AreClean_example :
    (field_names (recursive_mask show 3 put_secret) ≡ field_names put_secret)
    × AreClean (recursive_mask show 3 put_secret)
recursive_mask-AreClean_example = recursive_mask-AreClean show 3 put_secret

show_short : (n : ℕ) → count (show n) ≤ 19
show_short n = elim (Bool-cases (eqb n 7)) [
  | inl e ↦ rw e (omega arith)
  | inr e ↦ rw e (omega arith)
]

count-redacted_dump_example :
    count (redacted_dump show (λ body. some put_secret) (λ fields. "{}") 3 "{}") ≤ 1024 + 36
count-redacted_dump_example =
    count-redacted_dump show show_short (λ body. some put_secret) (λ fields. "{}") 3 1024 "{}"
      (omega arith) (omega arith)
