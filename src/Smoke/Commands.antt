-- ===== src/Smoke/Commands.antt =====
-- The remaining operations of `main` in compose/smoke_checks.py: the comparisons of numbers and of
-- rows, the plan, the fixtures, and the statement that makes the run's catalog.
mod Tests
pub mod Catalog
use doris_ducklake.Prelude.{
  Bool, List, Result, Text, [], err, has_no_items, has_text, if◌then◌else◌, join, lookup, map,
  member, none, not, ok, or_key_error, require, some, split, splitlines, strip, text, text_eq,
  value_error, ℕ, ◌&&◌, ◌++◌, ◌>>=◌, ◌>>◌, ◌∷◌,
}
use doris_ducklake.Prelude.Int.{pos}
use doris_ducklake.Json.{Value, arr, get, is_obj, is_text, item, num, to_items}
use doris_ducklake.Preflight.Manifest.{lower}
use doris_ducklake.Smoke.Procedures.{integers}
use doris_ducklake.Smoke.Lake.{
  Environ, database_of, doris_literal, require_smoke_lake, required_duckdb,
}
use doris_ducklake.Smoke.Rows.{Row, fixtures}

-- What is handed to `record`.
pub record Comparison : Type 0 where
  pub operator : Text
  pub expected : Value
  pub actual : Value

abbrev pub number_value : ℕ → Value
number_value n = num (pos n)

-- `values[0] if len(values) == 1 else values`
abbrev pub single_or_list : List ℕ → Value
single_or_list (n ∷ []) = number_value n
single_or_list ns = arr (to_items (map number_value ns))

-- The operations `eq` and `ge`.
unfoldable pub compare_integers : Text → Text → List Text → Result Comparison
compare_integers operation expected actual = do
  wanted ← integers (split b',' expected)
  found ← integers actual
  ok (record {
    operator = (if text_eq operation (text "ge") then text "ge" else text "eq");
    expected = single_or_list wanted;
    actual = single_or_list found;
  })

-- The operation `plan`. Only letters of ASCII are looked for, and no other becomes one of these.
unfoldable pub is_scan_plan : Text → Bool
is_scan_plan output =
    not (has_no_items (strip output))
    && has_text (text "scan") (lower output)
    && has_text (text "orders") (lower output)

-- The operation `fixture`.
unfoldable pub expected_fixture : Text → Result (List Row)
expected_fixture name = elim (lookup name fixtures) [
  | some rows ↦ ok rows
  | none ↦ err (value_error "Unknown expected row fixture")
]

unfoldable pub read_lines : (Text → Result Value) → List Text → Result (List Value)
read_lines read_json [] = ok []
read_lines read_json (line ∷ lines) = do
  row ← read_json line
  rows ← read_lines read_json lines
  ok (row ∷ rows)

-- The rows of a native reference, which must be that of the case.
unfoldable pub reference_of : Text → Value → Result Value
reference_of case reference = do
  query ← get (text "query") reference
  version ← get (text "duckdb_version") reference
  require (is_text query case && is_text version required_duckdb)
      "Wrong native-oracle reference identity"
  item (text "rows") reference

unfoldable pub expected_rows : Text → Value → Result Value
expected_rows case reference =
    let found = reference_of case reference in if is_obj reference then found else ok reference

-- The operation `rows`.
unfoldable pub compare_rows_read : (Text → Result Value) → Text → Text → Text → Result Comparison
compare_rows_read read_json case reference output = do
  rows ← read_lines read_json (splitlines output)
  read ← read_json reference
  expected ← expected_rows case read
  ok (record { operator = text "eq"; expected = expected; actual = arr (to_items rows) })

unfoldable pub catalog_properties : Environ → Result (List (Text × Text))
catalog_properties environ = do
  postgres ← or_key_error (lookup (text "SMOKE_PG_CONTAINER") environ)
  database ← or_key_error (lookup (text "PG_DB") environ)
  user ← or_key_error (lookup (text "SMOKE_PG_USER") environ)
  password ← or_key_error (lookup (text "SMOKE_PG_PASSWORD") environ)
  warehouse ← or_key_error (lookup (text "DATA_PATH") environ)
  minio ← or_key_error (lookup (text "SMOKE_MINIO_CONTAINER") environ)
  key ← or_key_error (lookup (text "SMOKE_S3_KEY_ID") environ)
  secret ← or_key_error (lookup (text "SMOKE_S3_SECRET") environ)
  ok (
      (text "type", text "ducklake")
      ∷ (text "metadata.url", text "jdbc:postgresql://" ++ postgres ++ text ":5432/" ++ database)
      ∷ (text "metadata.user", user)
      ∷ (text "metadata.password", password)
      ∷ (text "storage.warehouse", warehouse)
      ∷ (text "s3.endpoint", text "http://" ++ minio ++ text ":9000")
      ∷ (text "s3.region", text "us-east-1")
      ∷ (text "s3.access_key", key)
      ∷ (text "s3.secret_key", secret)
      ∷ (text "use_path_style", text "true")
      ∷ (text "maintenance.min-retention", text "1s")
      ∷ [])

abbrev pub property : Text × Text → Text
property (k, v) = doris_literal k ++ b'=' ∷ doris_literal v

abbrev pub drop_first : Text → Text → Text
drop_first operation name =
    if text_eq operation (text "recreate")
    then text "DROP CATALOG " ++ name ++ b';' ∷ 10 ∷ []
    else []

unfoldable pub catalog_statement : Text → Text → List (Text × Text) → Text
catalog_statement operation name properties =
    drop_first operation name
    ++ text "CREATE CATALOG "
    ++ name
    ++ text " PROPERTIES ("
    ++ join b',' (map property properties)
    ++ text ");"

abbrev pub catalog_operations : List Text
catalog_operations = text "create" ∷ text "recreate" ∷ []

-- The operation `catalog-sql`.
unfoldable pub catalog_sql : Environ → Text → Result Text
unfolding member
catalog_sql environ operation = do
  require_smoke_lake environ
  token ← or_key_error (lookup (text "SMOKE_RUN_ID") environ)
  properties ← catalog_properties environ
  require (member operation catalog_operations) "Unknown catalog operation"
  ok (catalog_statement operation (database_of token) properties)
