-- ===== src/Access/Permissions/Ownership.antt =====
-- Which access control list is written.
use mathlib.Core.List.{Memᴰ, append-nil, append_assoc}
use terraform_provider_datab.Base.{
  ◌≡◌, refl, sym, ◌∙◌, inl, inr, String, true, false, ◌||◌, List, [], ◌∷◌, ◌++◌, arith, ◌==◌,
  eq_iff, Bool-cases, has_prefix, any, replace_all, ◌≢◌, subst, some, Option-cases,
}
use terraform_provider_datab.Common.Errors.{ok}
use terraform_provider_datab.Common.Service.{Server, send, continue-eq-ok}
use terraform_provider_datab.Access.Permissions.{
  AccessControl, AccessControlChange, Request, put, post, patch, get, me, read_job, Reply, is_owner,
  to_access_control_change, ObjectAcl, user_with, with_admins, kept_for_admins,
  url_path_for_object_id, put_permissions, update_permissions, delete_permissions,
}

-- The newest request writes this list, by one of the three methods.
abbrev pub Written : List AccessControlChange → List Request → Type 0
Written acl [] = ⊥
Written acl (put path a ∷ log) = a ≡ acl
Written acl (post path a ∷ log) = a ≡ acl
Written acl (patch path a ∷ log) = a ≡ acl
Written acl (_ ∷ log) = ⊥

any-append :
    (xs ys : List AccessControlChange)
    → any is_owner (xs ++ ys) ≡ (any is_owner xs || any is_owner ys)
any-append [] ys = refl
any-append (x ∷ xs) ys = ground (arith, any-append xs ys)

module _ (server : Server Request Reply) where
  -- `put` writes the list that it is given, perhaps with more at its end.
  abbrev Writes : List AccessControlChange → List Request → Type 0
  Writes acl log = (extra : List AccessControlChange) × Written (acl ++ extra) log

  put_permissions-Writes :
      (id : String) (acl : List AccessControlChange) (log log' : List Request)
      → put_permissions server id acl log ≡ (ok tt, log')
      → Writes acl log'
  unfolding put_permissions
  put_permissions-Writes id acl log log' e = elim (Bool-cases (has_prefix id "/sql/")) [
    | inr plain ↦
        let run : send server (put (url_path_for_object_id id) acl) log ≡ (ok tt, log') =
          rw (plain, put_permissions) at e in
        let p : put (url_path_for_object_id id) acl ∷ log ≡ log' = cc in
        subst (Writes acl) p ([], sym (append-nil acl))
    | inl sql ↦
        let (name, l, e1, rest) =
          continue-eq-ok (send server me log) _ (rw (sql, put_permissions) at e) in
        elim (Bool-cases (has_prefix id "/sql/endpoints/")) [
          | inl endpoints ↦
              let run : send server
                    (patch (url_path_for_object_id id) (acl ++ (user_with name "CAN_MANAGE") ∷ []))
                    l
                  ≡ (ok tt, log') =
                rw endpoints at rest in
              let p : patch (url_path_for_object_id id) (acl ++ (user_with name "CAN_MANAGE") ∷ [])
                    ∷ l
                  ≡ log' =
                cc in
              subst (Writes acl) p ((user_with name "CAN_MANAGE") ∷ [], refl)
          | inr others ↦
              let run : send server
                    (post (url_path_for_object_id id) (acl ++ (user_with name "CAN_MANAGE") ∷ [])) l
                  ≡ (ok tt, log') =
                rw others at rest in
              let p : post (url_path_for_object_id id) (acl ++ (user_with name "CAN_MANAGE") ∷ [])
                    ∷ l
                  ≡ log' =
                cc in
              subst (Writes acl) p ((user_with name "CAN_MANAGE") ∷ [], refl)
        ]
  ]

  abbrev pub WritesOwner : List Request → Type 0
  WritesOwner log = (acl : List AccessControlChange) × Written acl log × (any is_owner acl ≡ true)

  owned :
      (acl : List AccessControlChange) (log : List Request)
      → any is_owner acl ≡ true
      → Writes acl log
      → WritesOwner log
  owned acl log h (extra, w) = (acl ++ extra, w, any-append acl extra ∙ rw h refl)

  appended_owner :
      (acl : List AccessControlChange) (name : String)
      → any is_owner (acl ++ (user_with name "IS_OWNER") ∷ []) ≡ true
  appended_owner acl name = any-append acl _ ∙ ground arith

  -- Whenever an update of the permissions of a job succeeds, the last request has written an access
  -- control list in which somebody is the owner.
  pub update_permissions-WritesOwner :
      (id : String) (given : List AccessControlChange) (log log' : List Request)
      → has_prefix id "/jobs" ≡ true
      → update_permissions server id given log ≡ (ok tt, log')
      → WritesOwner log'
  unfolding update_permissions
  update_permissions-WritesOwner id given log log' job e =
      elim (Bool-cases (any is_owner (with_admins id given))) [
        | inl has ↦ owned (with_admins id given) log' has (
            put_permissions-Writes id (with_admins id given) log log'
              (rw (job, has, update_permissions) at e))
        | inr lacks ↦
            let (name, l, e1, rest) =
              continue-eq-ok (send server me log) _ (rw (job, lacks, update_permissions) at e) in
            owned _ log' (appended_owner (with_admins id given) name)
              (put_permissions-Writes id _ l log' rest)
      ]

kept_for_admins-head :
    (id : String) (a : AccessControl) (more : List AccessControl) (change : AccessControlChange)
    → (id == "/authorization/passwords") ≡ false
    → (a.group_name == "admins") ≡ true
    → to_access_control_change a ≡ some change
    → Memᴰ change (kept_for_admins id (a ∷ more))
unfolding kept_for_admins
kept_for_admins-head id a more change pw g c = rw (g, pw, c, kept_for_admins) (Memᴰ.head refl)

kept_for_admins-mem :
    (id : String) (acls : List AccessControl) (ac : AccessControl) (change : AccessControlChange)
    → (id == "/authorization/passwords") ≡ false
    → Memᴰ ac acls
    → ac.group_name ≡ "admins"
    → to_access_control_change ac ≡ some change
    → Memᴰ change (kept_for_admins id acls)
unfolding kept_for_admins
kept_for_admins-mem id [] ac change pw m g c = elim m [ ]
kept_for_admins-mem id (a ∷ more) ac change pw (Memᴰ.head same) g c =
    kept_for_admins-head id a more change pw
      (subst (λ x. (x.group_name == "admins") ≡ true) same ((eq_iff ac.group_name "admins").1 g))
      (subst (λ x. to_access_control_change x ≡ some change) same c)
kept_for_admins-mem id (a ∷ more) ac change pw (Memᴰ.tail m) g c =
    let ih = kept_for_admins-mem id more ac change pw m g c in
    elim (Bool-cases (a.group_name == "admins")) [
      | inr other ↦ rw (other, kept_for_admins) ih
      | inl admins ↦ elim (Option-cases (to_access_control_change a)) [
        | inl e ↦ rw (admins, pw, e, kept_for_admins) ih
        | inr (ch, e) ↦ rw (admins, pw, e, kept_for_admins) (Memᴰ.tail ih)
      ]
    ]

mem-extra :
    (acl extra : List AccessControlChange) (c : AccessControlChange)
    → Memᴰ c acl
    → Memᴰ c (acl ++ extra)
mem-extra (x ∷ acl) extra c (Memᴰ.head e) = Memᴰ.head e
mem-extra (x ∷ acl) extra c (Memᴰ.tail m) = Memᴰ.tail (mem-extra acl extra c m)
mem-extra [] extra c m = elim m [ ]

module _ (server : Server Request Reply) where
  delete_permissions-Writes :
      (id : String) (log log' : List Request)
      → delete_permissions server id log ≡ (ok tt, log')
      → (acl : ObjectAcl) × (server log (get (url_path_for_object_id id)) ≡ ok acl)
        × (extra : List AccessControlChange) × Written
            (kept_for_admins id acl.access_control_list ++ extra)
            log'
  unfolding delete_permissions
  delete_permissions-Writes id log log' h =
      let (acl, l, e, rest) =
        continue-eq-ok (send server (get (url_path_for_object_id id)) log) _ h in
      let kept = kept_for_admins id acl.access_control_list in
      elim (Bool-cases (has_prefix id "/jobs")) [
        | inr plain ↦
            let (extra, w) = put_permissions-Writes server id kept l log' (rw plain at rest) in
            (acl, ground arith, extra, w)
        | inl job ↦
            let (creator, l2, e2, run) =
              continue-eq-ok (send server (read_job (replace_all id "/jobs/" "")) l) _
                (rw job at rest) in
            let owner = (user_with creator "IS_OWNER") ∷ [] in
            let (extra, w) = put_permissions-Writes server id (kept ++ owner) l2 log' run in
            (
              acl,
              ground arith,
              owner ++ extra,
              subst (λ a. Written a log') (append_assoc kept owner extra) w,
            )
      ]

  -- Whenever permissions of an object other than the passwords are deleted with success, the service
  -- has described the object's access control list, and every direct permission there of the group of
  -- admins is in the list that the last request has written.
  pub delete_permissions-keeps_admins :
      (id : String) (log log' : List Request)
      → id ≢ "/authorization/passwords"
      → delete_permissions server id log ≡ (ok tt, log')
      → (acl : ObjectAcl) × (written : List AccessControlChange) × (server log
            (get (url_path_for_object_id id))
          ≡ ok acl)
        × Written written log'
        × ((ac : AccessControl) (change : AccessControlChange)
            → Memᴰ ac acl.access_control_list
            → ac.group_name ≡ "admins"
            → to_access_control_change ac ≡ some change
            → Memᴰ change written)
  delete_permissions-keeps_admins id log log' pw h =
      let (acl, e, extra, w) = delete_permissions-Writes id log log' h in
      let kept = kept_for_admins id acl.access_control_list in
      let other : (id == "/authorization/passwords") ≡ false =
        ground (arith, eq_iff id "/authorization/passwords") in
      (
        acl,
        kept ++ extra,
        e,
        w,
        λ ac change m g c.
            mem-extra kept extra change
              (kept_for_admins-mem id acl.access_control_list ac change other m g c),
      )
