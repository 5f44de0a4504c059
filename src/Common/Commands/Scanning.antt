-- ===== src/Common/Commands/Scanning.antt =====
-- A loop `for cr.Scan(...)` sees every row.
use terraform_provider_datab.Base.{
  ℕ, zero, suc, ◌+◌, ◌≤◌, ◌<◌, ◌≡◌, refl, ap, sym, ◌∙◌, String, true, not, Option, none, some, List,
  [], ◌∷◌, map, arith, leb, length, take, drop, All, if◌then◌else◌, ◌==◌,
}
use terraform_provider_datab.Common.Commands.{
  CommandResults, Scanned, filled, finished, panics, scan_next, scan_rows, scan,
}

-- The rows that a loop over `Scan` sees, on fuel; nothing where it panics or the fuel runs out.
abbrev pub push : List String → Option (List (List String)) → Option (List (List String))
push row none = none
push row (some rows) = some (row ∷ rows)

abbrev pub go_on :
    Scanned → (CommandResults → Option (List (List String))) → Option (List (List String))
go_on (filled row cr) f = push row (f cr)
go_on finished f = some []
go_on panics f = none

unfoldable pub scan_all : ℕ → ℕ → CommandResults → Option (List (List String))
scan_all zero n cr = none
scan_all (suc fuel) n cr = go_on (scan n cr) (scan_all fuel n)

drop_next :
    (p : ℕ) (rows : List (List String)) (row : List String) (more : List (List String))
    → drop p rows ≡ row ∷ more
    → drop (p + 1) rows ≡ more
drop_next zero rows row more h = ap (drop 1) h
drop_next (suc p) [] row more h = absurd (ground arith)
drop_next (suc p) (r ∷ rows) row more h =
    let e : suc (p + 1) ≡ suc p + 1 = omega arith in
    ap (λ k. drop k (r ∷ rows)) (sym e) ∙ drop_next p rows row more h

scan-next :
    (rows : List (List String)) (row : List String) (more : List (List String)) (n : ℕ)
    (cr : CommandResults)
    → cr.result_type ≡ "table"
    → cr.rows ≡ some rows
    → drop cr.pos rows ≡ row ∷ more
    → leb n (length row) ≡ true
    → scan n cr ≡ filled (take n row) (record cr { pos = cr.pos + 1 })
unfolding scan
scan-next rows row more n cr t r d e =
    ap (λ b. if not b then finished else scan_rows n cr.rows cr) (ap (λ s. s == "table") t)
    ∙ ap (λ o. scan_rows n o cr) r
    ∙ ap (λ l. scan_next n l cr) d
    ∙ ap (λ b. if b then filled (take n row) (record cr { pos = cr.pos + 1 }) else panics) e

scan_all-left :
    (left rows : List (List String)) (fuel n : ℕ) (cr : CommandResults)
    → cr.result_type ≡ "table"
    → cr.rows ≡ some rows
    → drop cr.pos rows ≡ left
    → All (λ cols. n ≤ length cols) left
    → length left < fuel
    → scan_all fuel n cr ≡ some (map (take n) left)
unfolding scan_all scan
scan_all-left left rows zero n cr t r d w f = absurd (omega (arith, f))
scan_all-left [] rows (suc fuel) n cr t r d w f = rw (t, r, d) refl
scan_all-left (row ∷ more) rows (suc fuel) n cr t r d (w, ws) f =
    let e : leb n (length row) ≡ true = ground arith in
    let ih =
      scan_all-left more rows fuel n (record cr { pos = cr.pos + 1 }) t r
        (drop_next cr.pos rows row more d) ws (omega (arith, f)) in
    ap (λ x. go_on x (scan_all fuel n)) (scan-next rows row more n cr t r d e)
    ∙ ap (push (take n row)) ih

-- Scanning a table whose rows have all the columns that are asked for gives each row in order, then
-- ends, with fuel that is more than the number of rows.
pub scan_all-rows :
    (rows : List (List String)) (fuel n : ℕ) (cr : CommandResults)
    → cr.result_type ≡ "table"
    → cr.rows ≡ some rows
    → cr.pos ≡ 0
    → All (λ cols. n ≤ length cols) rows
    → length rows < fuel
    → scan_all fuel n cr ≡ some (map (take n) rows)
scan_all-rows rows fuel n cr t r p w f =
    scan_all-left rows rows fuel n cr t r (ap (λ k. drop k rows) p) w f
