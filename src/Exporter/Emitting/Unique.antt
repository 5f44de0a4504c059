-- ===== src/Exporter/Emitting/Unique.antt =====
-- No resource is exported twice.
use terraform_provider_datab.Base.{
  ℕ, zero, suc, ◌≡◌, ◌≢◌, refl, sym, ◌∙◌, inl, inr, true, false, Option, none, some, List, [], ◌∷◌,
  ◌==◌, eq_iff, arith, Bool-cases, Option-cases, contains,
}
use terraform_provider_datab.Exporter.Model.{
  Resource, Imported, Importable, ImportContext, match_pair,
}
use terraform_provider_datab.Exporter.Emitting.{
  has, Provider, with_id, with_data, marked, imported_resource, Emitter, emit_each, after_import,
  import_and_add, named, emit_found, emit_marked, emit,
}
use terraform_provider_datab.Exporter.Emitting.Counting.{IsUnique, add-IsUnique, unchanged}

module _ (provider : Provider) where
  abbrev Keeps : Emitter provider → Type 0
  Keeps inner =
      (r : Resource) (ic ic' : ImportContext) → IsUnique ic → inner r ic ≡ some ic' → IsUnique ic'

  emit_each-IsUnique :
      (inner : Emitter provider) (keeps : Keeps inner) (rs : List Resource) (ic ic' : ImportContext)
      → IsUnique ic
      → emit_each provider inner rs ic ≡ some ic'
      → IsUnique ic'
  unfolding emit_each
  emit_each-IsUnique inner keeps [] ic ic' u e = unchanged ic ic' u e
  emit_each-IsUnique inner keeps (r ∷ rs) ic ic' u e = elim (Option-cases (inner r ic)) [
    | inl f ↦ absurd (let k = rw (f, emit_each) at e in ground arith)
    | inr (mid, f) ↦
        emit_each-IsUnique inner keeps rs mid ic' (keeps r ic mid u f) (rw (f, emit_each) at e)
  ]

  after_import-IsUnique :
      (i : Imported) (r : Resource) (o : Option ImportContext) (ic' : ImportContext)
      → r.id ≢ ""
      → ((ic : ImportContext) → o ≡ some ic → IsUnique ic)
      → after_import provider i r o ≡ some ic'
      → IsUnique ic'
  after_import-IsUnique i r none ic' h u e = absurd (ground arith)
  after_import-IsUnique i r (some ic) ic' h u e = elim (Option-cases i.failure) [
    | inl f ↦ add-IsUnique ic (imported_resource r i) ic' h (u ic refl) (rw f at e)
    | inr (x, f) ↦ u ic' (rw f at e)
  ]

  import_and_add-IsUnique :
      (inner : Emitter provider) (keeps : Keeps inner) (o : Option (Resource → Imported))
      (r : Resource) (ic ic' : ImportContext)
      → r.id ≢ ""
      → IsUnique ic
      → import_and_add provider inner o r ic ≡ some ic'
      → IsUnique ic'
  import_and_add-IsUnique inner keeps none r ic ic' h u e = add-IsUnique ic r ic' h u e
  import_and_add-IsUnique inner keeps (some f) r ic ic' h u e =
      after_import-IsUnique (f r) r (emit_each provider inner (f r).emitted ic) ic' h
        (λ mid k. emit_each-IsUnique inner keeps (f r).emitted ic mid u k) e

  with_id-id : (ir : Importable) (r s : Resource) → with_id ir r ≡ some s → s.id ≢ ""
  unfolding with_id
  with_id-id ir r s e = ground (arith, eq_iff r.id "", eq_iff s.id "")

  with_data-id : (r s : Resource) → with_data provider r ≡ some s → s.id ≡ r.id
  unfolding with_data
  with_data-id r s e = ground arith

  emit_found-IsUnique :
      (inner : Emitter provider) (keeps : Keeps inner) (ir : Importable) (r : Resource)
      (ic ic' : ImportContext)
      → IsUnique ic
      → emit_found provider inner ir (with_id ir r) ic ≡ some ic'
      → IsUnique ic'
  emit_found-IsUnique inner keeps ir r ic ic' u e = elim (Option-cases (with_id ir r)) [
    | inl f ↦ unchanged ic ic' u (rw f at e)
    | inr (s, f) ↦ elim (Option-cases (with_data provider s)) [
      | inl g ↦ unchanged ic ic' u (rw (f, g) at e)
      | inr (t, g) ↦
          import_and_add-IsUnique inner keeps ir.custom_import (named provider ir ic t) ic ic'
            (λ z. with_id-id ir r s f (sym (with_data-id s t g) ∙ z)) u (rw (f, g) at e)
    ]
  ]

  emit_marked-IsUnique :
      (inner : Emitter provider) (keeps : Keeps inner) (r : Resource) (ic ic' : ImportContext)
      → IsUnique ic
      → emit_marked provider inner r ic ≡ some ic'
      → IsUnique ic'
  emit_marked-IsUnique inner keeps r ic ic' u e =
      elim (Bool-cases (provider.is_available r.resource_type)) [
        | inr f ↦ unchanged ic ic' u (rw f at e)
        | inl f ↦ elim (Option-cases (provider.importable r.resource_type)) [
          | inl g ↦ unchanged ic ic' u (rw (f, g) at e)
          | inr (ir, g) ↦ elim (Bool-cases (contains ic.services ir.service)) [
            | inr h ↦ unchanged ic ic' u (rw (f, g, h) at e)
            | inl h ↦ emit_found-IsUnique inner keeps ir r ic ic' u (rw (f, g, h) at e)
          ]
        ]
      ]

  -- Emitting a resource, to any depth of the resources that its import emits in turn, keeps the state
  -- free of duplicates: of each type and ID it holds at most one resource.
  pub emit-IsUnique :
      (depth : ℕ) (r : Resource) (ic ic' : ImportContext)
      → IsUnique ic
      → emit provider depth r ic ≡ some ic'
      → IsUnique ic'
  unfolding emit
  emit-IsUnique zero r ic ic' u e = unchanged ic ic' u e
  emit-IsUnique (suc depth) r ic ic' u e = elim (Bool-cases ((match_pair r).1 == "")) [
    | inl f ↦ unchanged ic ic' u (rw (f, emit) at e)
    | inr f ↦ elim (Option-cases (has ic r)) [
      | inl g ↦ absurd (let k = rw (f, g, emit) at e in ground arith)
      | inr (true, g) ↦ unchanged ic ic' u (rw (f, g, emit) at e)
      | inr (false, g) ↦
          emit_marked-IsUnique (emit provider depth) (emit-IsUnique depth) r (marked ic r) ic' u
            (rw (f, g, emit) at e)
    ]
  ]
