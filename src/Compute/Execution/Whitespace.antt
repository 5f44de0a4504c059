-- ===== src/Compute/Execution/Whitespace.antt =====
-- `TrimLeadingWhitespace` of internal/utils.go, on ASCII texts, whose bytes are their characters.
use Prim.Native.Char.{Char, code}
use terraform_provider_datab.Base.{
  ℕ, suc, String, ◌<>◌, count, Bool, true, false, List, [], ◌∷◌, if◌then◌else◌, ◌==◌, ◌||◌, ltb,
  eqb, drop_chars, replace_all, split,
}

abbrev is_blank_char : Char → Bool
is_blank_char c = eqb (code c) 32 || eqb (code c) 9

-- The least of the indents so far and the place of the line's first character that is no space.
unfoldable pub indent_from : ℕ → String → ℕ → ℕ
indent_from pos String.[] least = least
indent_from pos (String.◌∷◌ c s) least =
    let rest = indent_from (suc pos) s least in
    if is_blank_char c then rest else if ltb pos least then pos else least

unfoldable pub least_indent : List String → ℕ → ℕ
least_indent [] least = least
least_indent (line ∷ lines) least = least_indent lines (indent_from 0 line least)

unfoldable pub is_blank : String → Bool
is_blank String.[] = true
is_blank (String.◌∷◌ c s) = let rest = is_blank s in if is_blank_char c then rest else false

abbrev pub cut_indent : ℕ → String → String
cut_indent n line = if ltb (count line) n then line <> "\n" else drop_chars n line <> "\n"

unfoldable pub trimmed_lines : ℕ → List String → String
trimmed_lines n [] = ""
trimmed_lines n (line ∷ lines) =
    let rest = trimmed_lines n lines in
    if line == "" || is_blank line then rest else cut_indent n line <> rest

unfoldable pub trim_leading_whitespace : String → String
trim_leading_whitespace command_str =
    let lines = split 10 (replace_all command_str "\t" "    ") in
    trimmed_lines (least_indent lines 2147483647) lines
