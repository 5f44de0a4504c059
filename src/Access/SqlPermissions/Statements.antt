-- ===== src/Access/SqlPermissions/Statements.antt =====
-- Which statements `enforce` and `revoke` run, in which order.
use terraform_provider_datab.Base.{
  ◌≡◌, refl, sym, ◌∙◌, ap, String, some, List, [], ◌∷◌, arith, map, subst,
}
use terraform_provider_datab.Common.Errors.{ok}
use terraform_provider_datab.Common.Service.{continue-eq-ok}
use terraform_provider_datab.Access.SqlPermissions.Id.{
  HasPlainNames, load_table_acl-sql_permissions_id,
}
use terraform_provider_datab.Access.SqlPermissions.{
  PrivilegeAssignment, SqlPermissions, ObjectType, type_and_key, Statement, CommandResults, failed,
  succeeded, Executor, show_grant, revoke_all, grant, read_rows, read_object, read_permissions,
  apply_object, apply_statement, apply_each, revoke_existing, revoke, enforce, collect_grants,
  GrantRow,
}

-- Statements run one after the other, the newest at the head.
abbrev pub push_all : List Statement → List Statement → List Statement
push_all [] log = log
push_all (s ∷ more) log = push_all more (s ∷ log)

type_and_key-cluster :
    (ta : SqlPermissions) (id : String)
    → type_and_key (record ta { cluster_id = id }) ≡ type_and_key ta
unfolding type_and_key
type_and_key-cluster ta id = refl

module _ (executor : Executor) where
  apply_object-log :
      (qb : ObjectType → String → Statement) (ty : ObjectType) (key : String)
      (log log' : List Statement)
      → apply_object executor qb (some (ty, key)) log ≡ (ok tt, log')
      → log' ≡ qb ty key ∷ log
  apply_object-log qb ty key log log' h = ground arith

  apply_each-log :
      (ta : SqlPermissions) (ty : ObjectType) (key : String)
      (qb : PrivilegeAssignment → ObjectType → String → Statement)
      (assignments : List PrivilegeAssignment) (log log' : List Statement)
      → type_and_key ta ≡ some (ty, key)
      → apply_each executor ta qb assignments log ≡ (ok tt, log')
      → log' ≡ push_all (map (λ a. qb a ty key) assignments) log
  unfolding apply_each apply_statement
  apply_each-log ta ty key qb [] log log' e h = ground arith
  apply_each-log ta ty key qb (a ∷ more) log log' e h =
      let (u, l, first, rest) =
        continue-eq-ok (apply_object executor (qb a) (type_and_key ta) log) _ h in
      let p : l ≡ qb a ty key ∷ log =
        apply_object-log (qb a) ty key log l
          (subst (λ o. apply_object executor (qb a) o log ≡ (ok tt, l)) e first) in
      apply_each-log ta ty key qb more l log' e rest ∙ ap (push_all (map (λ b. qb b ty key) more)) p

  -- The rows that `SHOW GRANT` answered with at this point.
  abbrev Shown : SqlPermissions → ObjectType → String → List Statement → List GrantRow → Type 0
  Shown ta ty key log rows = executor log (show_grant ta ty key) ≡ succeeded rows

  read_rows-log :
      (ta : SqlPermissions) (ty : ObjectType) (key : String) (log log' : List Statement)
      (existing : SqlPermissions) (r : CommandResults)
      → executor log (show_grant ta ty key) ≡ r
      → read_rows executor ta ty key r (show_grant ta ty key ∷ log) ≡ (ok existing, log')
      → (rows : List GrantRow) × Shown ta ty key log rows
        × (existing.privilege_assignments ≡ collect_grants ty key [] rows)
        × (log' ≡ show_grant ta ty key ∷ log)
  read_rows-log ta ty key log log' existing (succeeded rows) e h =
      let same : record ta { privilege_assignments = collect_grants ty key [] rows } ≡ existing =
        cc in
      (rows, e, ap (λ p. p.privilege_assignments) (sym same), cc)
  read_rows-log ta ty key log log' existing (failed text) e h = absurd (ground arith)

  read_permissions-log :
      (ta : SqlPermissions) (ty : ObjectType) (key : String) (log log' : List Statement)
      (existing : SqlPermissions)
      → type_and_key ta ≡ some (ty, key)
      → read_permissions executor ta log ≡ (ok existing, log')
      → (rows : List GrantRow) × Shown ta ty key log rows
        × (existing.privilege_assignments ≡ collect_grants ty key [] rows)
        × (log' ≡ show_grant ta ty key ∷ log)
  unfolding read_permissions
  read_permissions-log ta ty key log log' existing e h =
      read_rows-log ta ty key log log' existing (executor log (show_grant ta ty key)) refl
        (subst (λ o. read_object executor ta o log ≡ (ok existing, log')) e h)

  revoke-log :
      (ta : SqlPermissions) (ty : ObjectType) (key : String) (log log' : List Statement)
      → HasPlainNames ta
      → type_and_key ta ≡ some (ty, key)
      → revoke executor ta log ≡ (ok tt, log')
      → (rows : List GrantRow) × Shown ta ty key log rows
        × (log'
            ≡ push_all
                (map (revoke_all ta ty key) (collect_grants ty key [] rows))
                (show_grant ta ty key ∷ log))
  unfolding revoke
  revoke-log ta ty key log log' plain e h =
      let (loaded, l, k) = load_table_acl-sql_permissions_id ta ty key plain e in
      let found : SqlPermissions = record loaded { cluster_id = ta.cluster_id } in
      let run = subst (λ r. revoke_existing executor ta r log ≡ (ok tt, log')) l h in
      let (existing, l1, e1, h1) = continue-eq-ok (read_permissions executor found log) _ run in
      let (rows, shown, as1, p) =
        read_permissions-log found ty key log l1 existing
          (type_and_key-cluster loaded ta.cluster_id ∙ k) e1 in
      (
        rows,
        shown,
        apply_each-log ta ty key (λ a t n. revoke_all ta t n a) existing.privilege_assignments l1
              log' e h1
            ∙ ap (λ a. push_all (map (revoke_all ta ty key) a) l1) as1
            ∙ ap (push_all (map (revoke_all ta ty key) (collect_grants ty key [] rows))) p,
      )

  -- For an object whose names hold no backtick and whose database holds no dot: whenever `enforce`
  -- succeeds, the statements that it has run are exactly one `SHOW GRANT`, then one `REVOKE ALL
  -- PRIVILEGES` for each assignment that `read` collects from the rows shown, then one `GRANT` for
  -- each configured assignment, all on the object of the configuration and in the order of the lists.
  pub enforce-log :
      (ta : SqlPermissions) (ty : ObjectType) (key : String) (log log' : List Statement)
      → HasPlainNames ta
      → type_and_key ta ≡ some (ty, key)
      → enforce executor ta log ≡ (ok tt, log')
      → (rows : List GrantRow) × (executor log (show_grant ta ty key) ≡ succeeded rows)
        × (log'
            ≡ push_all (map (grant ta ty key) ta.privilege_assignments) (
                push_all
                  (map (revoke_all ta ty key) (collect_grants ty key [] rows))
                  (show_grant ta ty key ∷ log)))
  unfolding enforce
  enforce-log ta ty key log log' plain e h =
      let (u, l1, e1, h1) = continue-eq-ok (revoke executor ta log) _ h in
      let (rows, shown, p) = revoke-log ta ty key log l1 plain e e1 in
      (
        rows,
        shown,
        apply_each-log ta ty key (λ a t n. grant ta t n a) ta.privilege_assignments l1 log' e h1
            ∙ ap (push_all (map (grant ta ty key) ta.privilege_assignments)) p,
      )
