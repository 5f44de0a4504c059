-- ===== src/Identity/Scim/Entitlements.antt =====
-- What reading entitlements into the data of a resource does to each field.
use terraform_provider_datab.Base.{
  ◌≡◌, refl, subst, ◌∙◌, ◌⊎◌, String, Bool, true, false, List, [], ◌∷◌, ◌==◌, ◌||◌, arith, eq_iff,
  Bool-cases, inl, inr,
}
use terraform_provider_datab.Common.Errors.{Error, ok}
use terraform_provider_datab.Identity.Scim.{
  ComplexValue, EntitlementData, has_value, field_name, read_into_data,
}

-- Each field is set where it was, or where the entitlements have its value.
abbrev pub IsMerged : List ComplexValue → EntitlementData → EntitlementData → Type 0
IsMerged e d d' =
    (d'.allow_cluster_create ≡ (d.allow_cluster_create || has_value e "allow-cluster-create"))
    × (d'.allow_instance_pool_create
        ≡ (d.allow_instance_pool_create || has_value e "allow-instance-pool-create"))
    × (d'.allow_sql_analytics_access
        ≡ (d.allow_sql_analytics_access || has_value e "databricks-sql-access"))
    × (d'.workspace_access ≡ (d.workspace_access || has_value e "workspace-access"))

or_false : (b : Bool) → b ≡ (b || false)
or_false true = refl
or_false false = refl

or_true : (b : Bool) → true ≡ (b || true)
or_true true = refl
or_true false = refl

value-cases :
    (v : String)
    → (v ≡ "allow-cluster-create")
      ⊎ (v ≡ "allow-instance-pool-create")
      ⊎ (v ≡ "databricks-sql-access")
      ⊎ (v ≡ "workspace-access")
      ⊎ (field_name v ≡ "")
value-cases v = elim (Bool-cases (v == "allow-cluster-create")) [
  | inl e ↦ inl (ground (arith, eq_iff v "allow-cluster-create"))
  | inr e ↦ elim (Bool-cases (v == "allow-instance-pool-create")) [
    | inl f ↦ inr (inl (ground (arith, eq_iff v "allow-instance-pool-create")))
    | inr f ↦ elim (Bool-cases (v == "databricks-sql-access")) [
      | inl g ↦ inr (inr (inl (ground (arith, eq_iff v "databricks-sql-access"))))
      | inr g ↦ elim (Bool-cases (v == "workspace-access")) [
        | inl k ↦ inr (inr (inr (inl (ground (arith, eq_iff v "workspace-access")))))
        | inr k ↦ inr (inr (inr (inr (rw (e, f, g, k) refl))))
      ]
    ]
  ]
]

module _ (invalid_address : String → Error) where
  -- Reading entitlements into the data, where it succeeds, sets each field of a value that is among the
  -- entitlements, and leaves each other field as it was, also where it was set.
  pub read_into_data-IsMerged :
      (e : List ComplexValue) (d d' : EntitlementData)
      → read_into_data invalid_address e d ≡ ok d'
      → IsMerged e d d'
  unfolding read_into_data has_value
  read_into_data-IsMerged [] d d' h =
      let same : d ≡ d' = ground arith in
      subst (IsMerged [] d) same (
        or_false d.allow_cluster_create,
        or_false d.allow_instance_pool_create,
        or_false d.allow_sql_analytics_access,
        or_false d.workspace_access,
      )
  read_into_data-IsMerged (ent ∷ e) d d' h = elim (value-cases ent.value) [
    | inl v ↦
        let (a, b, c, w) =
          read_into_data-IsMerged e (record d { allow_cluster_create = true }) d'
            (rw (v, read_into_data) at h) in
        rw v (a ∙ or_true d.allow_cluster_create, b, c, w)
    | inr (inl v) ↦
        let (a, b, c, w) =
          read_into_data-IsMerged e (record d { allow_instance_pool_create = true }) d'
            (rw (v, read_into_data) at h) in
        rw v (a, b ∙ or_true d.allow_instance_pool_create, c, w)
    | inr (inr (inl v)) ↦
        let (a, b, c, w) =
          read_into_data-IsMerged e (record d { allow_sql_analytics_access = true }) d'
            (rw (v, read_into_data) at h) in
        rw v (a, b, c ∙ or_true d.allow_sql_analytics_access, w)
    | inr (inr (inr (inl v))) ↦
        let (a, b, c, w) =
          read_into_data-IsMerged e (record d { workspace_access = true }) d'
            (rw (v, read_into_data) at h) in
        rw v (a, b, c, w ∙ or_true d.workspace_access)
    | inr (inr (inr (inr v))) ↦ absurd (let k = rw (v, read_into_data) at h in ground arith)
  ]
