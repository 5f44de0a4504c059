-- ===== src/Base/Cutting.antt =====
-- Cutting a text at a separator, and removing a character from it, where the character is absent from
-- the part before.
use Prim.Native.Char.{Char, code}
use Prim.Native.String.{String, [], ◌∷◌, count, ◌++◌ as ◌<>◌}
use Prim.Native.Nat.{ℕ, zero, suc, ◌-◌}
use mathlib.Core.Path.{◌≡◌, refl, ap, ◌∙◌, sym}
use mathlib.Core.Logic.{◌≢◌}
use mathlib.Core.Bool.{true, false}
use mathlib.Core.Option.{Option, none, some}
use native.Mathlib.Omega.{arith}
use text.Mathlib.TextLemmas.{nil-append, cons-append, length-cons, length-nil}
use terraform_provider_datab.Base.Tests.{eqb}
use terraform_provider_datab.Base.Words.{has_prefix, cut, first_longer, drop_chars, replace_from}

-- No character of the text has this code.
abbrev pub Free : ℕ → String → Type 0
Free n [] = Unit
Free n (c ∷ s) = (code c ≢ n) × Free n s

pub Free-append : (n : ℕ) (s t : String) → Free n s → Free n t → Free n (s <> t)
Free-append n [] t _ h = rw nil-append h
Free-append n (c ∷ s) t (p, k) h = rw cons-append (p, Free-append n s t k h)

has_prefix_nil : (s : String) → has_prefix s [] ≡ true
unfolding has_prefix
has_prefix_nil [] = refl
has_prefix_nil (c ∷ s) = refl

has_prefix_one : (c d : Char) (s : String) → has_prefix (c ∷ s) (d ∷ []) ≡ eqb (code c) (code d)
unfolding has_prefix
has_prefix_one c d s = rw (has_prefix_nil s) (ground arith)

count_one : (d : Char) → count (d ∷ []) ≡ suc zero
count_one d = length-cons d [] ∙ ap suc length-nil

drop_one : (c d : Char) (s : String) → drop_chars (count (d ∷ [])) (c ∷ s) ≡ s
unfolding drop_chars
drop_one c d s = ap (λ n. drop_chars n (c ∷ s)) (count_one d)

same_code : (d : Char) → eqb (code d) (code d) ≡ true
same_code d = ground arith

other_code : (c d : Char) → code c ≢ code d → eqb (code c) (code d) ≡ false
other_code c d h = ground arith

cut_here : (d : Char) (s : String) → cut (d ∷ []) (d ∷ s) ≡ some ("", s)
unfolding cut
cut_here d s =
    rw (has_prefix_one d d s, same_code d)
      (ap (λ t. let o : Option (String × String) = some ("", t) in o) (drop_one d d s))

cut_later :
    (c d : Char) (s : String)
    → code c ≢ code d
    → cut (d ∷ []) (c ∷ s) ≡ first_longer c (cut (d ∷ []) s)
unfolding cut
cut_later c d s h = rw (has_prefix_one c d s, other_code c d h)

pub cut_first :
    (d : Char) (p s : String) → Free (code d) p → cut (d ∷ []) (p <> (d ∷ s)) ≡ some (p, s)
cut_first d [] s h = ap (cut (d ∷ [])) (nil-append (d ∷ s)) ∙ cut_here d s
cut_first d (c ∷ p) s (q, h) =
    ap (cut (d ∷ [])) (cons-append c p (d ∷ s))
    ∙ cut_later c d (p <> (d ∷ s)) q
    ∙ ap (first_longer c) (cut_first d p s h)

pub cut_absent : (d : Char) (s : String) → Free (code d) s → cut (d ∷ []) s ≡ none
unfolding cut
cut_absent d [] h = refl
cut_absent d (c ∷ s) (q, h) = cut_later c d s q ∙ ap (first_longer c) (cut_absent d s h)

remove_other :
    (c d : Char) (s : String)
    → code c ≢ code d
    → replace_from (d ∷ []) [] (c ∷ s) 0 ≡ c ∷ replace_from (d ∷ []) [] s 0
unfolding replace_from
remove_other c d s h = rw (has_prefix_one c d s, other_code c d h, replace_from)

-- Removing a character passes over what lacks it, and drops it where it stands.
pub remove_plain :
    (d : Char) (p s : String)
    → Free (code d) p
    → replace_from (d ∷ []) [] (p <> s) 0 ≡ p <> replace_from (d ∷ []) [] s 0
remove_plain d [] s h = ap (λ t. replace_from (d ∷ []) [] t 0) (nil-append s) ∙ sym (nil-append _)
remove_plain d (c ∷ p) s (q, h) =
    ap (λ t. replace_from (d ∷ []) [] t 0) (cons-append c p s)
    ∙ remove_other c d (p <> s) q
    ∙ ap (λ t. c ∷ t) (remove_plain d p s h)
    ∙ sym (cons-append c p _)

pub remove_here :
    (d : Char) (s : String) → replace_from (d ∷ []) [] (d ∷ s) 0 ≡ replace_from (d ∷ []) [] s 0
unfolding replace_from
remove_here d s =
    rw (has_prefix_one d d s, same_code d, replace_from)
      (nil-append _ ∙ ap (λ n. replace_from (d ∷ []) [] s n) (ap (λ n. n - 1) (count_one d)))

prefix_other : (c d : Char) (s t : String) → code c ≢ code d → has_prefix (c ∷ s) (d ∷ t) ≡ false
unfolding has_prefix
prefix_other c d s t h = rw (other_code c d h) refl

pub has_prefix-append : (p s : String) → has_prefix (p <> s) p ≡ true
unfolding has_prefix
has_prefix-append [] s = has_prefix_nil ([] <> s)
has_prefix-append (c ∷ p) s = rw (cons-append, same_code c) (has_prefix-append p s)

drop_chars-append : (p s : String) → drop_chars (count p) (p <> s) ≡ s
unfolding drop_chars
drop_chars-append [] s = nil-append s
drop_chars-append (c ∷ p) s =
    ap (λ n. drop_chars n ((c ∷ p) <> s)) (length-cons c p)
    ∙ ap (drop_chars (suc (count p))) (cons-append c p s)
    ∙ drop_chars-append p s

cut_head :
    (d : Char) (sep t s : String)
    → has_prefix (d ∷ t) (d ∷ sep) ≡ true
    → drop_chars (count (d ∷ sep)) (d ∷ t) ≡ s
    → cut (d ∷ sep) (d ∷ t) ≡ some ("", s)
unfolding cut
cut_head d sep t s h k = rw (h, k) refl

cut_past :
    (c d : Char) (sep s : String)
    → code c ≢ code d
    → cut (d ∷ sep) (c ∷ s) ≡ first_longer c (cut (d ∷ sep) s)
unfolding cut
cut_past c d sep s h =
    let e : has_prefix (c ∷ s) (d ∷ sep) ≡ false = prefix_other c d s sep h in rw e refl

cut_now : (d : Char) (sep s : String) → cut (d ∷ sep) ((d ∷ sep) <> s) ≡ some ("", s)
unfolding cut
cut_now d sep s =
    let e = cons-append d sep s in
    let h = sym (ap (λ t. has_prefix t (d ∷ sep)) e) ∙ has_prefix-append (d ∷ sep) s in
    let k = sym (ap (drop_chars (count (d ∷ sep))) e) ∙ drop_chars-append (d ∷ sep) s in
    ap (cut (d ∷ sep)) e ∙ cut_head d sep (sep <> s) s h k

-- A text is cut at the first separator, whose first character is absent from the part before.
pub cut_at :
    (d : Char) (sep p s : String)
    → Free (code d) p
    → cut (d ∷ sep) (p <> ((d ∷ sep) <> s)) ≡ some (p, s)
cut_at d sep [] s h = ap (cut (d ∷ sep)) (nil-append _) ∙ cut_now d sep s
cut_at d sep (c ∷ p) s (q, h) =
    ap (cut (d ∷ sep)) (cons-append c p _)
    ∙ cut_past c d sep _ q
    ∙ ap (first_longer c) (cut_at d sep p s h)
