-- ===== src/Access/SqlPermissions/Grants.antt =====
-- What `read` makes of the rows of `SHOW GRANT`.
use mathlib.Core.List.{append-nil, append_assoc}
use terraform_provider_datab.Base.{
  ◌≤◌, ◌≡◌, refl, sym, ◌∙◌, ap, String, Bool, true, false, not, ◌&&◌, equal_fold, has_prefix, none,
  some, List, [], ◌∷◌, ◌++◌, arith, if◌then◌else◌, ◌==◌, eq_iff, Bool-cases, Option-cases, inl, inr,
  subst,
}
use terraform_provider_datab.Access.SqlPermissions.Assigned.{assigned, assigned-add_privilege}
use terraform_provider_datab.Access.SqlPermissions.{
  PrivilegeAssignment, ObjectType, type_text, GrantRow, add_to_last, add_privilege, is_relevant,
  collect_grants,
}

-- All privileges of the assignments of a principal, in order.
abbrev pub granted : String → List PrivilegeAssignment → List String
granted p [] = []
granted p (a ∷ more) = if a.principal == p then a.privileges ++ granted p more else granted p more

-- Is the row about the object? A row about `CATALOG$` is about the catalog, whatever its key.
abbrev names_object : ObjectType → String → GrantRow → Bool
names_object ty key row =
    if row.object_type == "CATALOG$"
    then equal_fold "CATALOG" (type_text ty) && equal_fold "" key
    else equal_fold row.object_type (type_text ty) && equal_fold row.object_key key

-- The rows of the object that neither deny nor tell the owner.
pub is_shown : ObjectType → String → GrantRow → Bool
is_shown ty key row =
    names_object ty key row && (not (has_prefix row.action "DENIED_") && not (row.action == "OWN"))

-- The actions of the rows of a principal that are about the object and are kept, in order.
abbrev pub shown_actions : ObjectType → String → String → List GrantRow → List String
shown_actions ty key p [] = []
shown_actions ty key p (row ∷ rows) =
    if is_shown ty key row && row.principal == p
    then row.action ∷ shown_actions ty key p rows
    else shown_actions ty key p rows

-- What adding one action does to the privileges of each principal.
abbrev with_action : String → String → String → List String → List String
with_action principal action p old = if principal == p then old ++ action ∷ [] else old

granted-append :
    (p : String) (xs ys : List PrivilegeAssignment)
    → granted p (xs ++ ys) ≡ granted p xs ++ granted p ys
granted-append p [] ys = refl
granted-append p (x ∷ xs) ys = elim (Bool-cases (x.principal == p)) [
  | inl e ↦ rw e (
      ap (λ t. x.privileges ++ t) (granted-append p xs ys)
      ∙ sym (append_assoc x.privileges (granted p xs) (granted p ys)))
  | inr e ↦ rw e (granted-append p xs ys)
]

add_to_last-none :
    (principal action : String) (old : List PrivilegeAssignment)
    → add_to_last principal action old ≡ none
    → granted principal old ≡ []
unfolding add_to_last
add_to_last-none principal action [] h = refl
add_to_last-none principal action (a ∷ more) h =
    elim (Option-cases (add_to_last principal action more)) [
      | inl e ↦ elim (Bool-cases (a.principal == principal)) [
        | inl q ↦ absurd (ground arith)
        | inr q ↦ rw q (add_to_last-none principal action more e)
      ]
      | inr (more', e) ↦ absurd (ground arith)
    ]

append_two :
    (xs ys : List String) (a : String) → ys ≡ [] → (xs ++ a ∷ []) ++ ys ≡ (xs ++ ys) ++ a ∷ []
append_two xs ys a e = rw e (append-nil _ ∙ ap (λ t. t ++ a ∷ []) (sym (append-nil xs)))

granted-head :
    (principal action p : String) (a : PrivilegeAssignment) (more : List PrivilegeAssignment)
    → a.principal ≡ principal
    → granted principal more ≡ []
    → granted p (record a { privileges = a.privileges ++ action ∷ [] } ∷ more)
      ≡ with_action principal action p (granted p (a ∷ more))
granted-head principal action p a more same alone = elim (Bool-cases (principal == p)) [
  | inl q ↦
      let e : (a.principal == p) ≡ true = rw same q in
      let g : granted p more ≡ [] =
        subst (λ r. granted r more ≡ []) ((eq_iff principal p).0 q) alone in
      rw (q, e) (append_two a.privileges (granted p more) action g)
  | inr q ↦ let e : (a.principal == p) ≡ false = rw same q in rw (q, e)
]

granted-tail :
    (principal action p : String) (a : PrivilegeAssignment) (more more' : List PrivilegeAssignment)
    → granted p more' ≡ with_action principal action p (granted p more)
    → granted p (a ∷ more') ≡ with_action principal action p (granted p (a ∷ more))
granted-tail principal action p a more more' ih = elim (Bool-cases (a.principal == p)) [
  | inl e ↦ elim (Bool-cases (principal == p)) [
    | inl q ↦
        let g : granted p more' ≡ granted p more ++ action ∷ [] = rw q at ih in
        rw (e, q, g) (sym (append_assoc a.privileges (granted p more) (action ∷ [])))
    | inr q ↦ let g : granted p more' ≡ granted p more = rw q at ih in rw (e, q, g)
  ]
  | inr e ↦ rw e ih
]

granted-add_to_last :
    (principal action p : String) (old new : List PrivilegeAssignment)
    → add_to_last principal action old ≡ some new
    → granted p new ≡ with_action principal action p (granted p old)
unfolding add_to_last
granted-add_to_last principal action p [] new h = absurd (ground arith)
granted-add_to_last principal action p (a ∷ more) new h =
    elim (Option-cases (add_to_last principal action more)) [
      | inl e ↦
          let same : a.principal ≡ principal = ground (arith, eq_iff a.principal principal) in
          let n : record a { privileges = a.privileges ++ action ∷ [] } ∷ more ≡ new =
            ground arith in
          subst (λ l. granted p l ≡ with_action principal action p (granted p (a ∷ more))) n
            (granted-head principal action p a more same (add_to_last-none principal action more e))
      | inr (more', e) ↦
          let n : a ∷ more' ≡ new = ground arith in
          subst (λ l. granted p l ≡ with_action principal action p (granted p (a ∷ more))) n
            (granted-tail principal action p a more more'
              (granted-add_to_last principal action p more more' e))
    ]

new_at_end :
    (principal action p : String) (old : List PrivilegeAssignment)
    → granted p (old ++ (record { principal = principal; privileges = action ∷ [] }) ∷ [])
      ≡ with_action principal action p (granted p old)
new_at_end principal action p old = elim (Bool-cases (principal == p)) [
  | inl q ↦ granted-append p old _ ∙ rw q
  | inr q ↦ granted-append p old _ ∙ rw q (append-nil _)
]

granted-add_privilege :
    (principal action p : String) (old : List PrivilegeAssignment)
    → granted p (add_privilege principal action old)
      ≡ with_action principal action p (granted p old)
unfolding add_privilege
granted-add_privilege principal action p old =
    elim (Option-cases (add_to_last principal action old)) [
      | inl e ↦ rw e (new_at_end principal action p old)
      | inr (new, e) ↦ rw e (granted-add_to_last principal action p old new e)
    ]

moved_in :
    (b : Bool) (g : List String) (a : String) (rest : List String)
    → (if b then g ++ a ∷ [] else g) ++ rest ≡ g ++ (if b then a ∷ rest else rest)
moved_in true g a rest = append_assoc g (a ∷ []) rest
moved_in false g a rest = refl

is_relevant-is_shown :
    (ty : ObjectType) (key : String) (row : GrantRow) → is_relevant ty key row ≡ is_shown ty key row
unfolding is_relevant is_shown
is_relevant-is_shown ty key row = elim (Bool-cases (row.object_type == "CATALOG$")) [
  | inl e ↦ rw e (ground arith)
  | inr e ↦ rw e (ground arith)
]

-- Where a principal had at most one assignment before the rows were read: `read` collects for it exactly
-- the actions of those rows that name the principal, are about the object and are neither denials nor
-- ownership, in the order of the rows, after those it had; and all of them in one assignment.
pub granted-collect_grants :
    (ty : ObjectType) (key p : String) (found : List PrivilegeAssignment) (rows : List GrantRow)
    → assigned p found ≤ 1
    → (granted p (collect_grants ty key found rows)
        ≡ granted p found ++ shown_actions ty key p rows)
      × (assigned p (collect_grants ty key found rows) ≤ 1)
unfolding collect_grants
granted-collect_grants ty key p found [] one = (sym (append-nil _), one)
granted-collect_grants ty key p found (row ∷ rows) one = elim (Bool-cases (is_shown ty key row)) [
  | inr r ↦ rw (is_relevant-is_shown ty key row, r) (granted-collect_grants ty key p found rows one)
  | inl r ↦
      let (all, single) =
        granted-collect_grants ty key p (add_privilege row.principal row.action found) rows
          (assigned-add_privilege row.principal row.action p found one) in
      rw (is_relevant-is_shown ty key row, r)
        (
          all
              ∙ ap (λ g. g ++ shown_actions ty key p rows)
                  (granted-add_privilege row.principal row.action p found)
              ∙ moved_in (row.principal == p) (granted p found) row.action
                  (shown_actions ty key p rows),
          single,
        )
]
