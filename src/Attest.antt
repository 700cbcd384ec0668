-- ===== src/Attest.antt =====
-- What the attestation reads from the server: compose/plugin_attest.py, `inventory_rows`,
-- `validate_inventory` and `alive_versions`; Gates and Provider are `ProviderAttestation`.
mod Tests
pub mod Inventory
pub mod Versions
pub mod Gates
pub mod Provider
use doris_ducklake.Prelude.{
  Bool, Dict, Guard, List, Result, String, Text, [], and_then, err, false, if◌then◌else◌, insert,
  length, lookup, ltb, member, not, ok, or_key_error, require, split, splitlines, text, text_eq,
  true, value_error, ◌&&◌, ◌++◌, ◌==◌, ◌>>=◌, ◌>>◌, ◌||◌, ◌∷◌,
}

-- `INVENTORY_COLUMNS`
abbrev pub inventory_columns : List Text
inventory_columns =
    text "EXTENSION_NAME" ∷ text "EXTENSION_TYPE" ∷ text "EXTENSION_VERSION" ∷ text "SOURCE" ∷ []

-- `dict(zip(columns, values))`: of a repeated column the last value stands.
unfoldable pub zip_onto : Dict Text → List Text → List Text → Dict Text
unfolding insert
zip_onto row [] values = row
zip_onto row (c ∷ cs) [] = row
zip_onto row (c ∷ cs) (v ∷ vs) = zip_onto (insert c v row) cs vs

unfoldable pub parse_row : String → List Text → Text → Result (Dict Text)
parse_row complaint columns line =
    let values = split b'\t' line in
    require (length values == length columns) complaint >> ok (zip_onto [] columns values)

unfoldable pub parse_rows : List Text → Result (List (Dict Text))
parse_rows [] = ok []
parse_rows (line ∷ lines) = do
  row ← parse_row "Malformed extension inventory row" inventory_columns line
  rows ← parse_rows lines
  ok (row ∷ rows)

unfoldable pub inventory_rows : Text → Result (List (Dict Text))
inventory_rows output = parse_rows (splitlines output)

abbrev pub connector_name : Text
connector_name = text "ducklake"

-- `row[k] == value`
unfoldable pub column_is : Text → Text → Dict Text → Result Bool
column_is k value row = do v ← or_key_error (lookup k row); ok (text_eq v value)

unfoldable pub is_external_connector : Dict Text → Result Bool
is_external_connector row = do
  name ← column_is (text "EXTENSION_NAME") connector_name row
  kind ← and_then name (column_is (text "EXTENSION_TYPE") (text "CONNECTOR") row)
  and_then kind (column_is (text "SOURCE") (text "EXTERNAL") row)

unfoldable pub validate_row : Dict Text → Text → Guard
validate_row row expected = do
  external ← is_external_connector row
  require external "DuckLake extension is not the intended external connector"
  current ← column_is (text "EXTENSION_VERSION") expected row
  require current "Loaded DuckLake build identity is null, stale or unexpected"

unfoldable pub validate_inventory : List (Dict Text) → Text → Guard
validate_inventory [] expected = err (value_error "Expected exactly one DuckLake extension row")
validate_inventory (row ∷ []) expected = validate_row row expected
validate_inventory (_ ∷ _ ∷ _) expected =
    err (value_error "Expected exactly one DuckLake extension row")

-- `len(set(columns)) == len(columns)`
unfoldable pub are_distinct : List Text → Bool
unfolding member
are_distinct [] = true
are_distinct (t ∷ ts) = not (member t ts) && are_distinct ts

unfoldable pub has_header : List Text → Bool
has_header columns =
    are_distinct columns && member (text "Alive") columns && member (text "Version") columns

abbrev pub no_versions : List Text
no_versions = [] ∷ text "NULL" ∷ text "\\N" ∷ []

-- `versions.add(version)`
unfoldable pub add_version : Text → List Text → List Text
unfolding member
add_version version versions =
    if member version versions then versions else versions ++ version ∷ []

-- The version of a live server; that of another is not read.
unfoldable pub add_live : Bool → Dict Text → List Text → Result (List Text)
add_live false row versions = ok versions
add_live true row versions = do
  version ← or_key_error (lookup (text "Version") row)
  require (not (member version no_versions)) "Missing live runtime source version"
  ok (add_version version versions)

abbrev pub liveness : List Text
liveness = text "true" ∷ text "false" ∷ []

-- One round of the loop in `alive_versions`.
unfoldable pub alive_version : List Text → List Text → Text → Result (List Text)
alive_version columns versions line = do
  row ← parse_row "Malformed runtime inventory row" columns line
  alive ← or_key_error (lookup (text "Alive") row)
  require (member alive liveness) "Malformed runtime liveness value"
  add_live (text_eq alive (text "true")) row versions

unfoldable pub collect_versions : List Text → List Text → List Text → Result (List Text)
collect_versions columns versions [] = ok versions
collect_versions columns versions (line ∷ lines) =
    alive_version columns versions line >>= (λ more. collect_versions columns more lines)

-- `sorted` on texts, by their code points.
unfoldable pub text_le : Text → Text → Bool
text_le [] ys = true
text_le (x ∷ xs) [] = false
text_le (x ∷ xs) (y ∷ ys) = ltb x y || ((x == y) && text_le xs ys)

unfoldable pub insert_text : Text → List Text → List Text
insert_text t [] = t ∷ []
insert_text t (u ∷ us) = if text_le t u then t ∷ u ∷ us else u ∷ insert_text t us

unfoldable pub sort_texts : List Text → List Text
sort_texts [] = []
sort_texts (t ∷ ts) = insert_text t (sort_texts ts)

unfoldable pub versions_of : List Text → Result (List Text)
versions_of [] = err (value_error "Missing runtime inventory header")
versions_of (header ∷ lines) = do
  let columns = split b'\t' header
  require (has_header columns) "Malformed runtime inventory header"
  versions ← collect_versions columns [] lines
  ok (sort_texts versions)

unfoldable pub alive_versions : Text → Result (List Text)
alive_versions output = versions_of (splitlines output)
