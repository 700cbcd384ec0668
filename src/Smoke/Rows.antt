-- ===== src/Smoke/Rows.antt =====
-- compose/smoke_rows.py: the fixtures, the reference queries, and the checks that rows read by
-- DuckDB must pass before they are printed.
pub mod Typed
use doris_ducklake.Prelude.{
  Bool, Dict, Guard, List, Option, Result, String, Text, [], contains, every, false, if◌then◌else◌,
  length, lookup, ltb, map, none, ok, or_key_error, require, some, text, text_eq, texts_equal, true,
  ℕ, ◌&&◌, ◌==◌, ◌>>=◌, ◌>>◌, ◌∷◌,
}
use doris_ducklake.Json.{Value, arr, bool, dec, null, num, obj, str}
use doris_ducklake.Smoke.Exact.{py_eq}
use doris_ducklake.Smoke.Policy.{int}

abbrev pub Row : Type 0
Row = List Value

abbrev named : ℕ → String → Row
named n name = int n ∷ str (text name) ∷ []

abbrev pair : ℕ → Value → Row
pair n v = int n ∷ v ∷ []

-- `FIXTURES`
abbrev pub fixtures : Dict (List Row)
fixtures =
    (text "empty", [])
    ∷ (text "two", named 1 "alice" ∷ named 2 "bob" ∷ [])
    ∷ (text "three", named 1 "alice" ∷ named 2 "bob" ∷ named 3 "charlie" ∷ [])
    ∷ (text "nullable", pair 1 (int 10) ∷ pair 2 null ∷ pair 3 (int 30) ∷ pair 4 null ∷ [])
    ∷ (text "defaults", pair 1 (int 42) ∷ pair 2 (int 42) ∷ pair 3 (int 42) ∷ pair 4 (int 99) ∷ [])
    ∷ []

-- `int` or `str`, as a column's type.
pub data ColumnType : Type 0 where
  integer_type : ColumnType
  text_type : ColumnType

pub record Query : Type 0 where
  pub sql : Text
  pub count : Option ℕ
  pub types : ColumnType × ColumnType

abbrev query : String → Option ℕ → ColumnType → Query
query sql count second = record { sql = text sql; count = count; types = (integer_type, second) }

-- `QUERIES`
abbrev pub queries : Dict Query
queries =
    (
      text "tpch_sample",
      query "SELECT o_orderkey,o_orderstatus FROM lake.tpch.orders ORDER BY o_orderkey LIMIT 5"
          (some 5) text_type,
    )
    ∷ (
      text "delete_rows",
      query "SELECT o_orderkey,o_orderstatus FROM lake.tpch.step7_orders ORDER BY o_orderkey"
          (some 93) text_type,
    )
    ∷ (
      text "filter_rows",
      query
          "SELECT o_orderkey,o_orderstatus FROM lake.tpch.orders WHERE o_orderkey < 100 ORDER BY o_orderkey"
          none text_type,
    )
    ∷ (
      text "nullable_rows",
      query "SELECT id,v FROM lake.tpch.count_col_check ORDER BY id" (some 4) integer_type,
    )
    ∷ (
      text "defaults",
      query "SELECT a,b FROM lake.tpch.default_probe ORDER BY a" (some 4) integer_type,
    )
    ∷ []

-- `type(a) is type(e)`
abbrev pub same_type : Value → Value → Bool
same_type null null = true
same_type (bool _) (bool _) = true
same_type (num _) (num _) = true
same_type (dec _) (dec _) = true
same_type (str _) (str _) = true
same_type (arr _) (arr _) = true
same_type (obj _) (obj _) = true
same_type _ _ = false

-- Two rows of one length, value by value.
unfoldable pub same_row : Row → Row → Bool
same_row [] [] = true
same_row [] (e ∷ es) = false
same_row (a ∷ as_) [] = false
same_row (a ∷ as_) (e ∷ es) = same_type a e && py_eq a e && same_row as_ es

-- The loop over `zip(actual, expected)`.
unfoldable pub compare_rows : List Row → List Row → Guard
compare_rows [] expected = ok tt
compare_rows (row ∷ rows) [] = ok tt
compare_rows (row ∷ rows) (wanted ∷ expected) =
    require (same_row row wanted) "Native typed rows differ from expected fixture"
    >> compare_rows rows expected

unfoldable pub validate_rows : List Row → List Row → Result (List Row)
validate_rows rows expected = do
  require (length rows == length expected) "Native row count differs from expected fixture"
  compare_rows rows expected
  ok rows

-- `description` by its pairs of a name and a type's text.
unfoldable pub validate_write_schema : List (Text × Text) → Guard
validate_write_schema description =
    require
      ((length description == 2)
        && texts_equal (map (λ d. d.0) description) (text "id" ∷ text "name" ∷ [])
        && texts_equal (map (λ d. d.1) description) (text "INTEGER" ∷ text "VARCHAR" ∷ []))
      "Native write fixture schema differs from INTEGER/VARCHAR contract"

-- `v is None or type(v) is t`
abbrev pub is_of : ColumnType → Value → Bool
is_of t null = true
is_of integer_type (num _) = true
is_of text_type (str _) = true
is_of _ _ = false

abbrev pub has_types : ColumnType × ColumnType → Row → Bool
has_types (s, t) (u ∷ v ∷ []) = is_of s u && is_of t v
has_types types _ = false

abbrev pub count_is : Option ℕ → ℕ → Bool
count_is none n = ltb 0 n && ltb n 100
count_is (some count) n = n == count

unfoldable pub has_shape : Query → List Row → Bool
has_shape q rows = count_is q.count (length rows) && every (has_types q.types) rows

unfoldable pub check_fixture : Text → Text → Text → List Row → Guard
check_fixture key name fixture rows =
    if text_eq key name
    then (do
      expected ← or_key_error (lookup fixture fixtures)
      checked ← validate_rows rows expected
      ok tt)
    else ok tt

-- What `main` checks between the query and the print. `fetch` is `con.execute(sql).fetchall()`.
unfoldable pub reference_rows : (Text → Result (List Row)) → Text → Result (List Row)
reference_rows fetch key = do
  require (contains key queries) "Unknown native reference query"
  q ← or_key_error (lookup key queries)
  rows ← fetch q.sql
  require (has_shape q rows) "Native reference row shape/type/count mismatch"
  check_fixture key (text "nullable_rows") (text "nullable") rows
  check_fixture key (text "defaults") (text "defaults") rows
  ok rows
