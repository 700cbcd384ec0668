-- ===== src/Smoke/Commands/Tests.antt =====
-- The operations on concrete inputs.
use doris_ducklake.Prelude.{
  Result, Text, [], err, false, has_text, is_digit, is_space, lookup, lstrip, ok, refl, split,
  starts_with, strip, text, text_eq, true, value_error, ◌∷◌, ◌≡◌,
}
use doris_ducklake.Prelude.Digits.{is_numeral, read, read_from}
use doris_ducklake.Json.{Value, arr, end, field, get, item, nil, obj, str}
use doris_ducklake.Preflight.Manifest.{lower}
use doris_ducklake.Smoke.Policy.{integer}
use doris_ducklake.Smoke.Procedures.{integers}
use doris_ducklake.Smoke.Lake.{Environ, data_path_of, database_of}
use doris_ducklake.Smoke.Commands.{
  catalog_sql, compare_integers, expected_rows, is_scan_plan, reference_of, single_or_list,
}

compares_counts :
    compare_integers (text "eq") (text "15000,60175") (text "15000" ∷ text "60175" ∷ [])
    ≡ ok (record {
      operator = text "eq";
      expected = single_or_list (15000 ∷ 60175 ∷ []);
      actual = single_or_list (15000 ∷ 60175 ∷ []);
    })
unfolding compare_integers integers integer split text text_eq is_digit read read_from is_numeral
compares_counts = refl

accepts_plan : is_scan_plan (text "VPaimonScanNode table: lake.tpch.ORDERS") ≡ true
unfolding is_scan_plan strip lstrip is_space has_text lower starts_with text
accepts_plan = refl

refuses_plan : is_scan_plan (text "EMPTYSET") ≡ false
unfolding is_scan_plan strip lstrip is_space has_text lower starts_with text
refuses_plan = refl

-- A reference with the rows of another case.
abbrev foreign_reference : Value
foreign_reference = obj (
    field (text "query") (str (text "delete_rows"))
      (field (text "duckdb_version") (str (text "1.5.6")) (field (text "rows") (arr nil) end)))

refuses_reference :
    expected_rows (text "tpch_sample") foreign_reference
    ≡ err (value_error "Wrong native-oracle reference identity")
unfolding expected_rows reference_of get item text text_eq lookup
refuses_reference = refl

abbrev run_token : Text
run_token = text "0123456789abcdef0123456789abcdef"

abbrev an_environ : Environ
an_environ =
    (text "SMOKE_RUN_ID", run_token)
    ∷ (text "PG_DB", database_of run_token)
    ∷ (text "DATA_PATH", data_path_of run_token)
    ∷ (text "SMOKE_PG_CONTAINER", text "pg")
    ∷ (text "SMOKE_PG_USER", text "duck")
    ∷ (text "SMOKE_PG_PASSWORD", text "it's")
    ∷ (text "SMOKE_MINIO_CONTAINER", text "minio")
    ∷ (text "SMOKE_S3_KEY_ID", text "key")
    ∷ (text "SMOKE_S3_SECRET", text "secret")
    ∷ []

abbrev a_statement : Result Text
a_statement = catalog_sql an_environ (text "recreate")

abbrev text_or_empty : Result Text → Text
text_or_empty (err _) = []
text_or_empty (ok t) = t
