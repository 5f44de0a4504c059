-- ===== src/Access/Permissions/Reading.antt =====
-- What is kept of an access control list, and which lists pass the check of a plan.
use terraform_provider_datab.Base.{
  ◌≡◌, not, ◌&&◌, ◌||◌, ◌≢◌, ◌⊎◌, inl, inr, String, true, false, List, [], ◌∷◌, arith, ◌==◌, eq_iff,
  Bool-cases, some, Option-cases, All,
}
use terraform_provider_datab.Access.Permissions.{
  AccessControl, AccessControlChange, to_access_control_change,
}
use terraform_provider_datab.Access.Permissions.Lifecycle.{Mapping, modifiable, string_in_slice}

to_access_control_change-names :
    (ac : AccessControl) (c : AccessControlChange)
    → to_access_control_change ac ≡ some c
    → (c.user_name ≡ ac.user_name)
      × (c.group_name ≡ ac.group_name)
      × (c.service_principal_name ≡ ac.service_principal_name)
unfolding to_access_control_change
to_access_control_change-names ac c h = ground arith

-- A change that may be in the state of a resource.
abbrev pub IsModifiable : String → String → AccessControlChange → Type 0
IsModifiable id my_name c =
    ((c.group_name ≢ "admins") ⊎ (id ≡ "/authorization/passwords"))
    × (c.user_name ≢ my_name)
    × (c.service_principal_name ≢ my_name)

kept-IsModifiable :
    (id my_name : String) (ac : AccessControl) (c : AccessControlChange)
    → to_access_control_change ac ≡ some c
    → (ac.group_name == "admins" && not (id == "/authorization/passwords")) ≡ false
    → (my_name == ac.user_name || my_name == ac.service_principal_name) ≡ false
    → IsModifiable id my_name c
kept-IsModifiable id my_name ac c g e f =
    let (u, n, s) = to_access_control_change-names ac c g in
    let a = eq_iff ac.group_name "admins" in
    let b = eq_iff id "/authorization/passwords" in
    let p = eq_iff my_name ac.user_name in
    let q = eq_iff my_name ac.service_principal_name in
    ground (
      arith,
      eq_iff ac.group_name "admins",
      eq_iff id "/authorization/passwords",
      eq_iff my_name ac.user_name,
      eq_iff my_name ac.service_principal_name,
    )

-- What is read into the state of a resource holds no permission of the group of admins, unless the
-- object is the passwords, and none of the calling user, by the name of a user or of a service
-- principal.
pub modifiable-IsModifiable :
    (id my_name : String) (acl : List AccessControl)
    → All (IsModifiable id my_name) (modifiable id my_name acl)
unfolding modifiable
modifiable-IsModifiable id my_name [] = tt
modifiable-IsModifiable id my_name (ac ∷ more) =
    let ih = modifiable-IsModifiable id my_name more in
    elim (Bool-cases (ac.group_name == "admins" && not (id == "/authorization/passwords"))) [
      | inl e ↦ rw e ih
      | inr e ↦
          elim (Bool-cases (my_name == ac.user_name || my_name == ac.service_principal_name)) [
            | inl f ↦ rw (e, f) ih
            | inr f ↦ elim (Option-cases (to_access_control_change ac)) [
              | inl g ↦ rw (e, f, g) ih
              | inr (c, g) ↦ rw (e, f, g) (kept-IsModifiable id my_name ac c g e f, ih)
            ]
          ]
    ]

-- What the check of a plan demands of an access control.
abbrev pub IsAllowed : Mapping → String → AccessControlChange → Type 0
IsAllowed m my_name c =
    (string_in_slice c.permission_level m.allowed_permission_levels ≡ true)
    × (c.user_name ≢ my_name)
