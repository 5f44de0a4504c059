-- ===== src/Exporter/Emitting/Dropping.antt =====
-- A resource that is emitted with the very name that it is exported under is not exported.
use terraform_provider_datab.Base.{
  ℕ, suc, ◌≡◌, ◌≢◌, refl, ap, sym, ◌∙◌, String, true, false, Option, none, some, arith, ◌==◌,
  eq_iff, eq_refl, Bool-cases, Option-cases, inl, inr, contains,
}
use terraform_provider_datab.Exporter.Model.{
  Data, Resource, Importable, ImportContext, match_pair, resource_text,
}
use terraform_provider_datab.Exporter.Emitting.{
  has, add, Provider, Emitter, with_id, with_data, with_id_of, marked, emit_marked, resource_name,
  emit,
}

has-marked :
    (ic : ImportContext) (r s : Resource)
    → resource_text s ≡ resource_text r
    → has (marked ic r) s ≡ some true
unfolding has
has-marked ic r s e = rw (e, eq_refl (resource_text r)) refl

with_data-shape :
    (provider : Provider) (r s : Resource)
    → with_data provider r ≡ some s
    → (o : Option Data) × (s ≡ record r { state_data = o })
unfolding with_data
with_data-shape provider r s h = elim (Option-cases r.state_data) [
  | inr (d, e) ↦
      (r.state_data, (let k : r ≡ s = (let k = rw (e, with_data) at h in ground arith) in sym k))
  | inl e ↦ elim (Option-cases (provider.read r)) [
    | inl f ↦ absurd (let k = rw (e, f, with_data) at h in ground arith)
    | inr (d, f) ↦ (
      some (with_id_of r d),
      (let k : record r { state_data = some (with_id_of r d) } ≡ s =
            (let k = rw (e, f, with_data) at h in ground arith) in
          sym k),
    )
  ]
]

with_data-text :
    (provider : Provider) (r s : Resource) (name : String)
    → with_data provider r ≡ some s
    → name ≡ r.name
    → resource_text (record s { name = name }) ≡ resource_text r
unfolding resource_text match_pair
with_data-text provider r s name h e =
    let (o, shape) = with_data-shape provider r s h in
    ap (λ t. resource_text (record t { name = name })) shape
    ∙ ap (λ n. resource_text (record r { name = n; state_data = o })) e

unmoved :
    (ic mid ic' : ImportContext)
    → mid.state ≡ ic.state
    → mid.scope ≡ ic.scope
    → some mid ≡ some ic'
    → (ic'.state ≡ ic.state) × (ic'.scope ≡ ic.scope)
unmoved ic mid ic' p q e =
    let k : mid ≡ ic' = ground arith in
    (sym (ap (λ t. t.state) k) ∙ p, sym (ap (λ t. t.scope) k) ∙ q)

emit_marked-drops :
    (provider : Provider) (inner : Emitter provider) (r s : Resource) (ir : Importable)
    (ic ic' : ImportContext)
    → r.id ≢ ""
    → provider.importable r.resource_type ≡ some ir
    → ir.custom_import ≡ none
    → with_data provider r ≡ some s
    → resource_name provider ic ir s ≡ r.name
    → emit_marked provider inner r (marked ic r) ≡ some ic'
    → (ic'.state ≡ ic.state) × (ic'.scope ≡ ic.scope)
unfolding with_id add resource_name
emit_marked-drops provider inner r s ir ic ic' id found plain read name e =
    elim (Bool-cases (provider.is_available r.resource_type)) [
      | inr f ↦ unmoved ic (marked ic r) ic' refl refl (rw f at e)
      | inl f ↦ elim (Bool-cases (contains ic.services ir.service)) [
        | inr g ↦ unmoved ic (marked ic r) ic' refl refl (rw (f, found, g) at e)
        | inl g ↦
            let h : (r.id == "") ≡ false = ground (arith, eq_iff r.id "") in
            let t = with_data-text provider r s (resource_name provider ic ir s) read name in
            let old = has-marked ic r (record s { name = resource_name provider ic ir s }) t in
            unmoved ic (marked ic r) ic' refl refl
              (rw (f, found, g, with_id, h, read, plain, add, old) at e)
      ]
    ]

-- An emitted resource that has an ID and no custom import, whose name after fixing is the name that it
-- was emitted with, changes neither the state nor the scope: it takes itself for one that is already
-- there.
pub emit_drops :
    (provider : Provider) (depth : ℕ) (r s : Resource) (ir : Importable) (ic ic' : ImportContext)
    → r.id ≢ ""
    → provider.importable r.resource_type ≡ some ir
    → ir.custom_import ≡ none
    → with_data provider r ≡ some s
    → resource_name provider ic ir s ≡ r.name
    → emit provider (suc depth) r ic ≡ some ic'
    → (ic'.state ≡ ic.state) × (ic'.scope ≡ ic.scope)
unfolding emit
emit_drops provider depth r s ir ic ic' id found plain read name e =
    elim (Bool-cases ((match_pair r).1 == "")) [
      | inl f ↦ unmoved ic ic ic' refl refl (rw (f, emit) at e)
      | inr f ↦ elim (Option-cases (has ic r)) [
        | inl g ↦ absurd (let k = rw (f, g, emit) at e in ground arith)
        | inr (true, g) ↦ unmoved ic ic ic' refl refl (rw (f, g, emit) at e)
        | inr (false, g) ↦
            emit_marked-drops provider (emit provider depth) r s ir ic ic' id found plain read name
              (rw (f, g, emit) at e)
      ]
    ]
