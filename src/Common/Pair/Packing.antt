-- ===== src/Common/Pair/Packing.antt =====
-- What is packed into an ID is unpacked from it.
use text.Mathlib.TextEquality.{eq_iff}
use terraform_provider_datab.Base.{
  ◌≡◌, ◌≢◌, refl, ap, sym, ◌∙◌, String, ◌<>◌, Char, code, true, false, some, List, ◌∷◌, ◌==◌, cut,
  Free, cut_at, arith, Bool-cases, inl, inr, ◌⊎◌, subst, none,
}
use terraform_provider_datab.Common.Errors.{Error, Result, ok, err, Result-cases}
use terraform_provider_datab.Common.Service.{Server}
use terraform_provider_datab.Common.Pair.{
  Pair, ResourceData, get, pack, unpack, unpack_parts, unpacked, Request, read_context,
  create_context, delete_context, Reply, read_binding, create_binding, delete_binding,
}

-- The separator is a character that is not in the text, and any more characters.
abbrev pub Separates : String → String → Type 0
Separates separator l =
    (d : Char) × (more : String) × (separator ≡ String.◌∷◌ d more) × Free (code d) l

same_outcome :
    {A : Type 0} {a b : A} {log log' : List Request}
    → ◌≡◌ {A = Result A × List Request} (ok a, log) (ok b, log')
    → (a ≡ b) × (log ≡ log')
same_outcome h = (ground arith, ground arith)

unlike : (s t : String) → (s == t) ≡ false → s ≢ t
unlike s t h = ground (arith, eq_iff s t)

module _ (parse_int : String → Result String) where
  differs : (s t : String) → s ≢ t → (s == t) ≡ false
  differs s t h = ground (arith, eq_iff s t)

  unpack-some :
      (p : Pair) (d : ResourceData) (l r : String)
      → cut p.separator d.id ≡ some (l, r)
      → l ≢ ""
      → r ≢ ""
      → (p.right_is_int ≡ false) ⊎ (parse_int r ≡ ok r)
      → ((unpack parse_int p d).0 ≡ ok (l, r)) × ((unpack parse_int p d).1.id ≡ d.id)
  unfolding unpack
  unpack-some p d l r e h k kind =
      rw (e, differs l "" h, differs r "" k)
        (elim (Bool-cases p.right_is_int) [
          | inr f ↦ rw f (refl, refl)
          | inl f ↦ elim kind [
            | inl g ↦ absurd (let c : true ≡ false = sym f ∙ g in ground arith)
            | inr g ↦ rw (f, g) (refl, refl)
          ]
        ])

  cut_packed :
      (separator l r : String)
      → Separates separator l
      → cut separator (l <> (separator <> r)) ≡ some (l, r)
  cut_packed separator l r (d, more, e, free) =
      subst (λ t. cut t (l <> (t <> r)) ≡ some (l, r)) (sym e) (cut_at d more l r free)

  -- Where the separator's first character is not in the left attribute, neither attribute is empty
  -- and the right one is a string or a number that is parsed to itself, unpacking the ID that was
  -- packed gives both attributes back and leaves the ID.
  pub unpack-pack :
      (p : Pair) (d : ResourceData)
      → Separates p.separator (get d p.left)
      → get d p.left ≢ ""
      → get d p.right ≢ ""
      → (p.right_is_int ≡ false) ⊎ (parse_int (get d p.right) ≡ ok (get d p.right))
      → ((unpack parse_int p (pack p d)).0 ≡ ok (get d p.left, get d p.right))
        × ((unpack parse_int p (pack p d)).1.id ≡ (pack p d).id)
  unpack-pack p d sep l r kind =
      unpack-some p (pack p d) (get d p.left) (get d p.right)
        (cut_packed p.separator (get d p.left) (get d p.right) sep) l r kind

  -- An ID that cannot be cut at the separator, or has an empty part, is an error and clears the ID of
  -- the data.
  unpack-clears :
      (p : Pair) (d : ResourceData)
      → (cut p.separator d.id ≡ none)
        ⊎ ((l : String) × (cut p.separator d.id ≡ some (l, "")))
        ⊎ ((r : String) × (cut p.separator d.id ≡ some ("", r)))
      → (e : Error) × ((unpack parse_int p d).0 ≡ err e) × ((unpack parse_int p d).1.id ≡ "")
  unfolding unpack
  unpack-clears p d (inl e) = rw e (_, refl, refl)
  unpack-clears p d (inr (inl (l, e))) = elim (Bool-cases (l == "")) [
    | inl f ↦ rw (e, unpack_parts, f) (_, refl, refl)
    | inr f ↦ rw (e, unpack_parts, f) (_, refl, refl)
  ]
  unpack-clears p d (inr (inr (r, e))) = rw e (_, refl, refl)

  module _ (server : Server Request Reply) where
    read_binding-names :
        (p : Pair) (d : ResourceData) (l r : String) (log : List Request)
        → (unpack parse_int p d).0 ≡ ok (l, r)
        → (read_binding parse_int server p d log).1 ≡ read_context l r ∷ log
    unfolding read_binding
    read_binding-names p d l r log h =
        rw (h, unpacked)
          (elim (Result-cases (server log (read_context l r))) [
            | inl (x, f) ↦ rw f refl
            | inr (u, f) ↦ rw f refl
          ])

    delete_binding-names :
        (p : Pair) (d : ResourceData) (l r : String) (log : List Request)
        → (unpack parse_int p d).0 ≡ ok (l, r)
        → (delete_binding parse_int server p d log).1 ≡ delete_context l r ∷ log
    unfolding delete_binding
    delete_binding-names p d l r log h = rw (h, unpacked) refl

    create_binding_ok :
        (p : Pair) (d d' : ResourceData) (log log' : List Request)
        → create_binding parse_int server p d log ≡ (ok d', log')
        → (get d p.left ≢ "")
          × (get d p.right ≢ "")
          × (d' ≡ pack p d)
          × (log' ≡ create_context (get d p.left) (get d p.right) ∷ log)
    unfolding create_binding
    create_binding_ok p d d' log log' h =
        let l = get d p.left in
        let r = get d p.right in
        elim (Bool-cases (l == "")) [
          | inl e ↦ absurd (let k = rw (e, create_binding) at h in ground arith)
          | inr e ↦ elim (Bool-cases (r == "")) [
            | inl f ↦ absurd (let k = rw (e, f, create_binding) at h in ground arith)
            | inr f ↦ elim (Result-cases (server log (create_context l r))) [
              | inl (x, g) ↦ absurd (let k = rw (e, f, g, create_binding) at h in ground arith)
              | inr (u, g) ↦
                  let (same, logged) = same_outcome (rw (e, f, g, create_binding) at h) in
                  (unlike l "" e, unlike r "" f, sym same, sym logged)
            ]
          ]
        ]

    -- What is created with the separator's first character not in the left attribute, for a pair of
    -- strings, is read and deleted later by the two names that it was created with.
    pub create_binding-names :
        (p : Pair) (d d' : ResourceData) (log log' : List Request)
        → Separates p.separator (get d p.left)
        → p.right_is_int ≡ false
        → create_binding parse_int server p d log ≡ (ok d', log')
        → (log' ≡ create_context (get d p.left) (get d p.right) ∷ log)
          × ((read_binding parse_int server p d' log').1
              ≡ read_context (get d p.left) (get d p.right) ∷ log')
          × ((delete_binding parse_int server p d' log').1
              ≡ delete_context (get d p.left) (get d p.right) ∷ log')
    create_binding-names p d d' log log' sep text h =
        let (l, r, same, e) = create_binding_ok p d d' log log' h in
        let f = ap (λ t. (unpack parse_int p t).0) same ∙ (unpack-pack p d sep l r (inl text)).0 in
        (
          e,
          read_binding-names p d' (get d p.left) (get d p.right) log' f,
          delete_binding-names p d' (get d p.left) (get d p.right) log' f,
        )
