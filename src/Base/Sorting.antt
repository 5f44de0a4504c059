-- ===== src/Base/Sorting.antt =====
-- `sort.Slice` and `sort.Sort` on a short slice: Go's insertion sort, which moves each element to the
-- left for as long as it is less than its neighbour. On a longer slice Go may order equal elements
-- differently; the lemmas on the first element are stated for an order in which that is all.
use mathlib.Core.Path.{◌≡◌, refl}
use mathlib.Core.Logic.{◌⊎◌, inl, inr}
use mathlib.Core.Bool.{Bool, true, false}
use mathlib.Core.List.{List, [], ◌∷◌, Memᴰ}
use native.Mathlib.Omega.{arith}
use terraform_provider_datab.Base.Tests.{if◌then◌else◌, Bool-cases}
use terraform_provider_datab.Base.Lists.{All, all, All-mem, All-of_mem}

module _ {ℓ} {A : Type ℓ} (less : A → A → Bool) where
  unfoldable pub insert_last : A → List A → List A
  insert_last x [] = x ∷ []
  insert_last x (y ∷ ys) = if all (less x) (y ∷ ys) then x ∷ y ∷ ys else y ∷ insert_last x ys

  unfoldable pub sort_from : List A → List A → List A
  unfolding insert_last
  sort_from acc [] = acc
  sort_from acc (x ∷ xs) = sort_from (insert_last x acc) xs

  unfoldable pub sort_by : List A → List A
  unfolding sort_from
  sort_by xs = sort_from [] xs

  -- Sorting loses and invents no element.
  module _ {κ} (P : A → Type κ) where
    All-insert_last : (x : A) (ys : List A) → P x → All P ys → All P (insert_last x ys)
    unfolding insert_last
    All-insert_last x [] p _ = (p, tt)
    All-insert_last x (y ∷ ys) p (q, h) = elim (Bool-cases (all (less x) (y ∷ ys))) [
      | inl e ↦ rw (e, insert_last) (p, (q, h))
      | inr e ↦ rw (e, insert_last) (q, All-insert_last x ys p h)
    ]

    All-sort_from : (acc xs : List A) → All P acc → All P xs → All P (sort_from acc xs)
    unfolding sort_from
    All-sort_from acc [] h _ = h
    All-sort_from acc (x ∷ xs) h (p, k) =
        All-sort_from (insert_last x acc) xs (All-insert_last x acc p h) k

    pub All-sort_by : (xs : List A) → All P xs → All P (sort_by xs)
    unfolding sort_by
    All-sort_by xs h = All-sort_from [] xs tt h

    un_All-insert_last : (x : A) (ys : List A) → All P (insert_last x ys) → P x × All P ys
    unfolding insert_last
    un_All-insert_last x [] (p, _) = (p, tt)
    un_All-insert_last x (y ∷ ys) h = elim (Bool-cases (all (less x) (y ∷ ys))) [
      | inl e ↦ rw (e, insert_last) at h
      | inr e ↦
          let (q, rest) = let k : All P (y ∷ insert_last x ys) = rw (e, insert_last) at h in k in
          let (p, ps) = un_All-insert_last x ys rest in (p, (q, ps))
    ]

    un_All-sort_from : (acc xs : List A) → All P (sort_from acc xs) → All P acc × All P xs
    unfolding sort_from
    un_All-sort_from acc [] h = (h, tt)
    un_All-sort_from acc (x ∷ xs) h =
        let (k, rest) = un_All-sort_from (insert_last x acc) xs h in
        let (p, ps) = un_All-insert_last x acc k in (ps, (p, rest))

    pub un_All-sort_by : (xs : List A) → All P (sort_by xs) → All P xs
    unfolding sort_by
    un_All-sort_by xs h = (un_All-sort_from [] xs h).1

module _ {ℓ} {A : Type ℓ} (less : A → A → Bool) where
  pub mem_of_mem-sort_by : (xs : List A) (x : A) → Memᴰ x (sort_by less xs) → Memᴰ x xs
  mem_of_mem-sort_by xs x m =
      All-mem (λ y. Memᴰ y xs) (sort_by less xs) x
        (All-sort_by less (λ y. Memᴰ y xs) xs (All-of_mem (λ y. Memᴰ y xs) xs (λ y k. k))) m

-- A strict order in which elements may tie.
pub record IsStrictOrder {ℓ} {A : Type ℓ} (less : A → A → Bool) : Type ℓ where
  pub asymm : (a b : A) → less a b ≡ true → less b a ≡ false
  pub comparison : (a b c : A) → less a c ≡ true → (less a b ≡ true) ⊎ (less b c ≡ true)

module _ {ℓ} {A : Type ℓ} (less : A → A → Bool) (order : IsStrictOrder less) where
  -- Nothing in the list is less than its first element.
  abbrev pub LeastFirst : List A → Type 0
  LeastFirst [] = Unit
  LeastFirst (x ∷ xs) = All (λ w. less w x ≡ false) (x ∷ xs)

  irrefl : (a : A) → less a a ≡ false
  irrefl a = elim (Bool-cases (less a a)) [ inl e ↦ order.asymm a a e | inr e ↦ e ]

  all-flip : (x : A) (ys : List A) → all (less x) ys ≡ true → All (λ w. less w x ≡ false) ys
  all-flip x [] h = tt
  all-flip x (y ∷ ys) h = (ground (arith, order.asymm x y), all-flip x ys (ground arith))

  below_all :
      (x h : A) (ys : List A)
      → less x h ≡ true
      → All (λ w. less w h ≡ false) ys
      → all (less x) ys ≡ true
  below_all x h [] e _ = refl
  below_all x h (y ∷ ys) e (p, ps) = elim (order.comparison x y h e) [
    | inl q ↦ rw q (below_all x h ys e ps)
    | inr q ↦ cc
  ]

  insert_last-LeastFirst :
      (x : A) (ys : List A) → LeastFirst ys → LeastFirst (insert_last less x ys)
  unfolding insert_last
  insert_last-LeastFirst x [] _ = (irrefl x, tt)
  insert_last-LeastFirst x (y ∷ ys) h = elim (Bool-cases (all (less x) (y ∷ ys))) [
    | inl e ↦ rw (e, insert_last) (irrefl x, all-flip x (y ∷ ys) e)
    | inr e ↦ elim (Bool-cases (less x y)) [
      | inl q ↦ cc (below_all x y (y ∷ ys) q h)
      | inr q ↦ rw (e, insert_last) (h.0, All-insert_last less (λ w. less w y ≡ false) x ys q h.1)
    ]
  ]

  sort_from-LeastFirst : (acc xs : List A) → LeastFirst acc → LeastFirst (sort_from less acc xs)
  unfolding sort_from
  sort_from-LeastFirst acc [] h = h
  sort_from-LeastFirst acc (x ∷ xs) h =
      sort_from-LeastFirst (insert_last less x acc) xs (insert_last-LeastFirst x acc h)

  pub sort_by-LeastFirst : (xs : List A) → LeastFirst (sort_by less xs)
  unfolding sort_by
  sort_by-LeastFirst xs = sort_from-LeastFirst [] xs tt
