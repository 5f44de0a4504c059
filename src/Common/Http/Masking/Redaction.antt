-- ===== src/Common/Http/Masking/Redaction.antt =====
-- Masking leaves no secret in the objects of a request.
use terraform_provider_datab.Base.{
  ℕ, ◌≡◌, refl, ap, List, [], ◌∷◌, String, true, inl, inr, arith, Bool-cases, eq_iff, ◌⊎◌,
}
use terraform_provider_datab.Common.Http.Masking.{
  Json, Fields, object, text, array, scalar, no_fields, field, Items, redacted, is_secret,
  mask_value, recursive_mask,
}

abbrev pub IsSecretName : String → Type 0
IsSecretName k = (k ≡ "string_value") ⊎ (k ≡ "token_value") ⊎ (k ≡ "content")

is_secret-true : (k : String) → IsSecretName k → is_secret k ≡ true
is_secret-true k h =
    ground (arith, eq_iff k "string_value", eq_iff k "token_value", eq_iff k "content")

-- Each secret field is redacted, at any depth of objects within objects.
abbrev mutual
  pub IsClean : Json → Type 0
  IsClean (object fields) = AreClean fields
  IsClean (text s) = Unit
  IsClean (array items) = Unit
  IsClean (scalar s) = Unit

  pub AreClean : Fields → Type 0
  AreClean no_fields = Unit
  AreClean (field k v more) = (IsSecretName k → v ≡ redacted) × IsClean v × AreClean more

abbrev pub field_names : Fields → List String
field_names no_fields = []
field_names (field k v more) = k ∷ field_names more

module _ (show : ℕ → String) where
  mutual
    unfolding mask_value

    mask_value-IsClean : (n : ℕ) (v : Json) → IsClean (mask_value show n v)
    mask_value-IsClean n (object fields) = recursive_mask-AreClean_fields n fields
    mask_value-IsClean n (text s) = tt
    mask_value-IsClean n (array items) = tt
    mask_value-IsClean n (scalar s) = tt

    recursive_mask-AreClean_fields :
        (n : ℕ) (fields : Fields) → AreClean (recursive_mask show n fields)
    recursive_mask-AreClean_fields n no_fields = tt
    recursive_mask-AreClean_fields n (field k v more) =
        let rest = recursive_mask-AreClean_fields n more in
        elim (Bool-cases (is_secret k)) [
          | inl e ↦ rw e ((λ h. refl), tt, rest)
          | inr e ↦ rw e (
            (λ h. absurd (let s = is_secret-true k h in ground arith)),
            mask_value-IsClean n v,
            rest,
          )
        ]

  -- Masking keeps the names of the fields in order, and redacts each field whose name is string_value, token_value or content, in the
  -- object and in all objects within objects. Arrays are not looked into.
  pub recursive_mask-AreClean :
      (n : ℕ) (fields : Fields)
      → (field_names (recursive_mask show n fields) ≡ field_names fields)
        × AreClean (recursive_mask show n fields)
  unfolding recursive_mask
  recursive_mask-AreClean n no_fields = (refl, tt)
  recursive_mask-AreClean n (field k v more) = (
    ap (λ t. k ∷ t) (recursive_mask-AreClean n more).0,
    recursive_mask-AreClean_fields n (field k v more),
  )

  -- What an array holds is written to the log as it is: a secret in it is not redacted.
  mask_array : (n : ℕ) (items : Items) → mask_value show n (array items) ≡ array items
  unfolding mask_value
  mask_array n items = refl
