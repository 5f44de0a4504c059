-- ===== src/Base/Words.antt =====
-- Go's `strings` functions that the provider calls, over the native texts. Letters are folded as in
-- ASCII: a text with other letters folds as if they had no case.
use Prim.Native.Nat.{ℕ, zero, suc, ◌+◌, ◌-◌}
use Prim.Native.Char.{Char, code}
use Prim.Native.String.{String, [], ◌∷◌, count, ◌++◌ as ◌<>◌}
use mathlib.Core.Path.{◌≡◌, refl}
use mathlib.Core.Bool.{Bool, true, false, ◌&&◌, ◌||◌}
use mathlib.Core.Option.{Option, none, some}
use mathlib.Core.List.{List}
use text.Mathlib.Text.{◌==◌}
use terraform_provider_datab.Base.Tests.{if◌then◌else◌, eqb, leb}

-- `strings.HasPrefix(s, p)`
unfoldable pub has_prefix : String → String → Bool
has_prefix s [] = true
has_prefix [] (c ∷ p) = false
has_prefix (d ∷ s) (c ∷ p) = eqb (code d) (code c) && has_prefix s p

-- `strings.Contains(s, t)`
unfoldable pub contains : String → String → Bool
unfolding has_prefix
contains [] t = has_prefix [] t
contains (d ∷ s) t = has_prefix (d ∷ s) t || contains s t

-- `s[n:]` on a text whose first `n` characters are ASCII
unfoldable pub drop_chars : ℕ → String → String
drop_chars zero s = s
drop_chars (suc n) [] = []
drop_chars (suc n) (c ∷ s) = drop_chars n s

abbrev pub first_longer : Char → Option (String × String) → Option (String × String)
first_longer c none = none
first_longer c (some (l, r)) = some (c ∷ l, r)

-- `strings.SplitN(s, sep, 2)` for a `sep` that is not empty: the two parts, or `none` where Go's
-- answer has one part.
unfoldable pub cut : String → String → Option (String × String)
cut sep [] = none
cut sep (c ∷ s) =
    let rest = cut sep s in
    if has_prefix (c ∷ s) sep
    then some ("", drop_chars (count sep) (c ∷ s))
    else first_longer c rest

-- `strings.ReplaceAll(s, old, new)` for an `old` that is not empty; `skip` counts the characters of
-- an occurrence that are still to be passed over.
unfoldable pub replace_from : String → String → String → ℕ → String
replace_from old new [] skip = []
replace_from old new (c ∷ s) (suc skip) = replace_from old new s skip
replace_from old new (c ∷ s) zero = elim (has_prefix (c ∷ s) old) [
  | true ↦ new <> replace_from old new s (count old - 1)
  | false ↦ c ∷ replace_from old new s 0
]

unfoldable pub replace_all : String → String → String → String
unfolding replace_from
replace_all s old new = replace_from old new s 0

abbrev pub to_lower_code : ℕ → ℕ
to_lower_code c = if leb 65 c && leb c 90 then c + 32 else c

-- `strings.EqualFold(s, t)`
unfoldable pub equal_fold : String → String → Bool
equal_fold [] [] = true
equal_fold [] (d ∷ t) = false
equal_fold (c ∷ s) [] = false
equal_fold (c ∷ s) (d ∷ t) = eqb (to_lower_code (code c)) (to_lower_code (code d)) && equal_fold s t

-- `strings.HasSuffix(s, p)`
unfoldable pub has_suffix : String → String → Bool
has_suffix s p = if leb (count p) (count s) then drop_chars (count s - count p) s == p else false

abbrev join_char : Char → List String → List String
join_char c List.[] = List.◌∷◌ (c ∷ []) List.[]
join_char c (List.◌∷◌ part parts) = List.◌∷◌ (c ∷ part) parts

-- `strings.Split(s, sep)` for the `sep` that is the one character of this code
unfoldable pub split : ℕ → String → List String
split sep [] = List.◌∷◌ "" List.[]
split sep (c ∷ s) =
    let rest = split sep s in if eqb (code c) sep then List.◌∷◌ "" rest else join_char c rest

-- `strings.Join(parts, sep)`
unfoldable pub join : String → List String → String
join sep List.[] = ""
join sep (List.◌∷◌ s List.[]) = s
join sep (List.◌∷◌ s (List.◌∷◌ t more)) = s <> (sep <> join sep (List.◌∷◌ t more))

text_tests :
    (contains "in state Pending now" "Pending" ≡ true)
    × (cut "/" "table/a/b" ≡ some ("table", "a/b"))
    × (replace_all "/jobs/12" "/jobs/" "" ≡ "12")
    × (join ", " (List.◌∷◌ "a" (List.◌∷◌ "b" List.[])) ≡ "a, b")
    × (equal_fold "Any File" "ANY FILE" ≡ true)
unfolding contains cut replace_all join equal_fold has_prefix drop_chars
text_tests = (refl, refl, refl, refl, refl)
