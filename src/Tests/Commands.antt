-- ===== src/Tests/Commands.antt =====
-- A table of two rows and two columns.
use terraform_provider_datab.Base.{◌≡◌, refl, String, some, List, [], ◌∷◌, map, take, arith}
use terraform_provider_datab.Common.Commands.{CommandResults}
use terraform_provider_datab.Common.Commands.Scanning.{scan_all, scan_all-rows}

abbrev two_rows : List (List String)
two_rows = ("ada" ∷ "SELECT" ∷ []) ∷ ("bob" ∷ "MODIFY" ∷ []) ∷ []

abbrev grants : CommandResults
grants = record {
  result_type = "table";
  summary = "";
  cause = "";
  text_data = "";
  rows = some two_rows;
  pos = 0;
}

scan_all-rows_example : scan_all 3 2 grants ≡ some (map (take 2) two_rows)
scan_all-rows_example =
    scan_all-rows two_rows 3 2 grants refl refl refl (omega arith, (omega arith, tt)) (omega arith)
