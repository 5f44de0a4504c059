-- ===== src/Exporter/Emitting/Counting.antt =====
-- How many resources of a type and an ID the state holds, and that adding one keeps it at one.
use terraform_provider_datab.Base.{
  ℕ, ◌+◌, ◌≤◌, ◌≡◌, ◌≢◌, refl, ap, subst, inl, inr, String, Bool, true, false, ◌&&◌, ◌||◌, Option,
  none, some, List, [], ◌∷◌, ◌++◌, ◌==◌, eq_iff, lookup, insert, lookup-insert, any, arith,
  Bool-cases, Option-cases,
}
use terraform_provider_datab.Exporter.Model.{
  Data, Resource, ResourceApproximation, ImportContext, match_pair, resource_text,
}
use terraform_provider_datab.Exporter.Emitting.{
  or_else, any_instance, any_resource, has, approximation, add_new, add,
}

abbrev pub has_id : String → List (String × String) → Bool
has_id id attributes = elim (lookup "id" attributes) [ none ↦ false | some x ↦ x == id ]

-- Is this a resource of the type with the ID?
abbrev pub names : String → String → ResourceApproximation → Bool
names ty id sr = sr.resource_type == ty && any (has_id id) sr.instances

abbrev one_if : Bool → ℕ
one_if true = 1
one_if false = 0

abbrev pub count_named : String → String → List ResourceApproximation → ℕ
count_named ty id [] = 0
count_named ty id (sr ∷ more) = one_if (names ty id sr) + count_named ty id more

-- Of each type and ID there is at most one resource in the state.
abbrev pub IsUnique : ImportContext → Type 0
IsUnique ic = (ty id : String) → count_named ty id ic.state ≤ 1

count_named-append :
    (ty id : String) (xs ys : List ResourceApproximation)
    → count_named ty id (xs ++ ys) ≡ count_named ty id xs + count_named ty id ys
count_named-append ty id [] ys = omega arith
count_named-append ty id (x ∷ xs) ys = omega (arith, count_named-append ty id xs ys)

any_instance-false :
    (id : String) (is : List (List (String × String)))
    → any_instance "id" id is ≡ some false
    → any (has_id id) is ≡ false
unfolding any_instance
any_instance-false id [] h = refl
any_instance-false id (i ∷ more) h = ground (arith, any_instance-false id more)

or_else-false : (a b : Option Bool) → or_else a b ≡ some false → (a ≡ some false) × (b ≡ some false)
or_else-false none b h = absurd (ground arith)
or_else-false (some true) b h = absurd (ground arith)
or_else-false (some false) b h = (refl, h)

any_resource-false :
    (ty id : String) (rs : List ResourceApproximation)
    → any_resource ty "id" id rs ≡ some false
    → count_named ty id rs ≡ 0
unfolding any_resource
any_resource-false ty id [] h = refl
any_resource-false ty id (r ∷ more) h = elim (Bool-cases (r.resource_type == ty)) [
  | inl e ↦
      let (f, g) =
        or_else-false (any_instance "id" id r.instances) (any_resource ty "id" id more)
          (rw (e, any_resource) at h) in
      let ih = any_resource-false ty id more g in
      rw (e, any_instance-false id r.instances f) (omega (arith, ih))
  | inr e ↦
      let ih = any_resource-false ty id more (rw (e, any_resource) at h) in rw e (omega (arith, ih))
]

match_pair-id : (r : Resource) → r.id ≢ "" → match_pair r ≡ ("id", r.id)
unfolding match_pair
match_pair-id r h = ground (arith, eq_iff r.id "")

has-false :
    (ic : ImportContext) (r : Resource)
    → r.id ≢ ""
    → has ic r ≡ some false
    → count_named r.resource_type r.id ic.state ≡ 0
unfolding has
has-false ic r h e =
    let p = match_pair-id r h in
    elim (Bool-cases (any (λ s. s == resource_text r) ic.importing)) [
      | inl f ↦ absurd (let k = rw (f, has) at e in ground arith)
      | inr f ↦ any_resource-false r.resource_type r.id ic.state (rw (p, f, has) at e)
    ]

has_id-insert :
    (id x : String) (attributes : List (String × String))
    → has_id id (insert "id" x attributes) ≡ (x == id)
has_id-insert id x attributes =
    ap (λ o. elim o [ none ↦ false | some y ↦ y == id ]) (lookup-insert "id" "id" x attributes)

one_if-le : (b : Bool) → one_if b ≤ 1
one_if-le true = omega arith
one_if-le false = omega arith

names-approximation :
    (ty id : String) (ic : ImportContext) (r : Resource) (d : Data)
    → names ty id (approximation ic r d) ≡ true
    → (r.resource_type ≡ ty) × (r.id ≡ id)
names-approximation ty id ic r d h =
    let k = ap (λ b. r.resource_type == ty && (b || false)) (has_id-insert id r.id d.attributes) in
    ground (arith, eq_iff r.resource_type ty, eq_iff r.id id)

add_new-IsUnique :
    (ic : ImportContext) (r : Resource) (d : Data)
    → IsUnique ic
    → count_named r.resource_type r.id ic.state ≡ 0
    → IsUnique (add_new ic r d)
add_new-IsUnique ic r d u z = elim (Bool-cases (d.id == "")) [
  | inl e ↦ rw e u
  | inr e ↦ rw e (λ ty id.
      let k = count_named-append ty id ic.state (approximation ic r d ∷ []) in
      elim (Bool-cases (names ty id (approximation ic r d))) [
        | inl f ↦
            let (et, ei) = names-approximation ty id ic r d f in
            let zero_count =
              subst (λ t. count_named t id ic.state ≡ 0) et
                (subst (λ i. count_named r.resource_type i ic.state ≡ 0) ei z) in
            omega (arith, k, zero_count, one_if-le (names ty id (approximation ic r d)))
        | inr f ↦ let k' = rw f at k in omega (arith, k', u ty id)
      ])
]

pub unchanged : (ic ic' : ImportContext) → IsUnique ic → some ic ≡ some ic' → IsUnique ic'
unchanged ic ic' u e = let k : ic ≡ ic' = ground arith in subst IsUnique k u

-- Adding a resource that has an ID keeps the state free of duplicates.
pub add-IsUnique :
    (ic : ImportContext) (r : Resource) (ic' : ImportContext)
    → r.id ≢ ""
    → IsUnique ic
    → add ic r ≡ some ic'
    → IsUnique ic'
unfolding add
add-IsUnique ic r ic' h u e = elim (Option-cases (has ic r)) [
  | inl f ↦ absurd (let k = rw (f, add) at e in ground arith)
  | inr (true, f) ↦ unchanged ic ic' u (rw (f, add) at e)
  | inr (false, f) ↦ elim (Option-cases r.state_data) [
    | inl g ↦ absurd (let k = rw (f, g, add) at e in ground arith)
    | inr (d, g) ↦
        let k : add_new ic r d ≡ ic' = (let k = rw (f, g, add) at e in ground arith) in
        subst IsUnique k (add_new-IsUnique ic r d u (has-false ic r h f))
  ]
]
