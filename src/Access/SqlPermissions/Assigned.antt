-- ===== src/Access/SqlPermissions/Assigned.antt =====
-- `read` keeps one assignment for each principal: its loop merges the rows of a principal.
use terraform_provider_datab.Base.{
  ℕ, ◌+◌, ◌≤◌, ◌≡◌, refl, String, none, some, List, [], ◌∷◌, ◌++◌, arith, if◌then◌else◌, ◌==◌,
  eq_iff, Bool-cases, Option-cases, inl, inr, subst,
}
use terraform_provider_datab.Access.SqlPermissions.{PrivilegeAssignment, add_to_last, add_privilege}

-- All privileges of the assignments of a principal, in order.
abbrev pub granted : String → List PrivilegeAssignment → List String
granted p [] = []
granted p (a ∷ more) = if a.principal == p then a.privileges ++ granted p more else granted p more

-- How many assignments a principal has.
abbrev pub assigned : String → List PrivilegeAssignment → ℕ
assigned p [] = 0
assigned p (a ∷ more) = (if a.principal == p then 1 else 0) + assigned p more

assigned-append :
    (p : String) (xs ys : List PrivilegeAssignment)
    → assigned p (xs ++ ys) ≡ assigned p xs + assigned p ys
assigned-append p [] ys = omega arith
assigned-append p (x ∷ xs) ys = omega (arith, assigned-append p xs ys)

assigned-none :
    (principal action : String) (old : List PrivilegeAssignment)
    → add_to_last principal action old ≡ none
    → assigned principal old ≡ 0
unfolding add_to_last
assigned-none principal action [] h = refl
assigned-none principal action (a ∷ more) h =
    elim (Option-cases (add_to_last principal action more)) [
      | inl e ↦ elim (Bool-cases (a.principal == principal)) [
        | inl q ↦ absurd (ground arith)
        | inr q ↦ rw q (omega (arith, assigned-none principal action more e))
      ]
      | inr (more', e) ↦ absurd (ground arith)
    ]

assigned-add_to_last :
    (principal action p : String) (old new : List PrivilegeAssignment)
    → add_to_last principal action old ≡ some new
    → assigned p new ≡ assigned p old
unfolding add_to_last
assigned-add_to_last principal action p [] new h = absurd (ground arith)
assigned-add_to_last principal action p (a ∷ more) new h =
    elim (Option-cases (add_to_last principal action more)) [
      | inl e ↦
          let n : record a { privileges = a.privileges ++ action ∷ [] } ∷ more ≡ new =
            ground arith in
          subst (λ l. assigned p l ≡ assigned p (a ∷ more)) n refl
      | inr (more', e) ↦
          let n : a ∷ more' ≡ new = ground arith in
          subst (λ l. assigned p l ≡ assigned p (a ∷ more)) n
            (omega (arith, assigned-add_to_last principal action p more more' e))
    ]

-- A row adds no second assignment for a principal.
pub assigned-add_privilege :
    (principal action p : String) (old : List PrivilegeAssignment)
    → assigned p old ≤ 1
    → assigned p (add_privilege principal action old) ≤ 1
unfolding add_privilege
assigned-add_privilege principal action p old one =
    elim (Option-cases (add_to_last principal action old)) [
      | inr (new, e) ↦ rw e (omega (arith, assigned-add_to_last principal action p old new e))
      | inl e ↦ elim (Bool-cases (principal == p)) [
        | inr q ↦ rw (e, assigned-append p old _, q) (omega arith)
        | inl q ↦
            let z : assigned p old ≡ 0 =
              subst (λ r. assigned r old ≡ 0) ((eq_iff principal p).0 q)
                (assigned-none principal action old e) in
            rw (e, assigned-append p old _, q, z) (omega arith)
      ]
    ]
