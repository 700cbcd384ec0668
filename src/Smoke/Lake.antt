-- ===== src/Smoke/Lake.antt =====
-- compose/smoke_lake.py: the guard on the lake that a helper may touch, the quoting of values into
-- SQL and connection texts, and the statements of `connect_smoke`.
pub mod Quoting
pub mod Guarding
use doris_ducklake.Prelude.{
  Bool, Dict, Guard, List, Option, Result, Text, [], err, every, false, if◌then◌else◌, is_hex, join,
  length, lookup, none, ok, or_key_error, require, some, text, text_eq, true, ℕ, ◌&&◌, ◌++◌, ◌==◌,
  ◌>>=◌, ◌>>◌, ◌∷◌,
}

-- `os.environ`
abbrev pub Environ : Type 0
Environ = Dict Text

-- `os.environ.get(k) == value`
unfoldable pub variable_is : Text → Environ → Text → Bool
unfolding lookup
variable_is k environ value = elim (lookup k environ) [ none ↦ false | some v ↦ text_eq v value ]

abbrev pub or_empty : Option Text → Text
or_empty none = []
or_empty (some t) = t

unfoldable pub is_token : Text → Bool
is_token token = (length token == 32) && every is_hex token

abbrev pub database_of : Text → Text
database_of token = text "doris_smoke_" ++ token

abbrev pub data_path_of : Text → Text
data_path_of token = text "s3://ducklake/doris-smoke/" ++ token ++ text "/"

unfoldable pub require_smoke_lake : Environ → Guard
require_smoke_lake environ = do
  let token = or_empty (lookup (text "SMOKE_RUN_ID") environ)
  require (is_token token) "SMOKE_RUN_ID must be exactly 32 lowercase hex characters"
  require (variable_is (text "PG_DB") environ (database_of token))
      "PG_DB must be doris_smoke_<SMOKE_RUN_ID>"
  require (variable_is (text "DATA_PATH") environ (data_path_of token))
      "DATA_PATH must be s3://ducklake/doris-smoke/<SMOKE_RUN_ID>/"

-- `value.replace(c, new)`, for one character.
unfoldable pub replace : ℕ → Text → Text → Text
replace c new [] = []
replace c new (x ∷ xs) = let rest = replace c new xs in if x == c then new ++ rest else x ∷ rest

abbrev pub quote : ℕ
quote = b'\''

abbrev pub double_quote : ℕ
double_quote = b'"'

abbrev pub backslash : ℕ
backslash = b'\\'

unfoldable pub sql_literal : Text → Text
sql_literal value = quote ∷ replace quote (quote ∷ quote ∷ []) value ++ quote ∷ []

unfoldable pub doris_literal : Text → Text
doris_literal value =
    quote
      ∷ replace quote (quote ∷ quote ∷ []) (replace backslash (backslash ∷ backslash ∷ []) value)
    ++ quote ∷ []

unfoldable pub identifier : Text → Text
identifier value =
    double_quote ∷ replace double_quote (double_quote ∷ double_quote ∷ []) value
    ++ double_quote ∷ []

-- `option` of `postgres_attach_uri`.
unfoldable pub uri_option : Text → Text → Text
uri_option key value =
    key
    ++ b'='
      ∷ quote
      ∷ replace quote (backslash ∷ quote ∷ [])
          (replace backslash (backslash ∷ backslash ∷ []) value)
    ++ quote ∷ []

abbrev pub uri_keys : List (Text × Text)
uri_keys =
    (text "dbname", text "PG_DB")
    ∷ (text "host", text "PG_HOST")
    ∷ (text "user", text "PG_USER")
    ∷ (text "password", text "PG_PASSWORD")
    ∷ []

unfoldable pub uri_options : Environ → List (Text × Text) → Result (List Text)
uri_options environ [] = ok []
uri_options environ ((key, variable) ∷ rest) = do
  value ← or_key_error (lookup variable environ)
  options ← uri_options environ rest
  ok (uri_option key value ∷ options)

unfoldable pub postgres_attach_uri : Environ → Result Text
postgres_attach_uri environ = do
  options ← uri_options environ uri_keys
  ok (text "ducklake:postgres:" ++ join b' ' options)

unfoldable pub create_secret : Environ → Result Text
create_secret environ = do
  key ← or_key_error (lookup (text "S3_KEY_ID") environ)
  secret ← or_key_error (lookup (text "S3_SECRET") environ)
  endpoint ← or_key_error (lookup (text "S3_ENDPOINT") environ)
  ok (
      text "CREATE SECRET lake_s3 (TYPE S3, KEY_ID "
      ++ sql_literal key
      ++ text ", SECRET "
      ++ sql_literal secret
      ++ text ", ENDPOINT "
      ++ sql_literal endpoint
      ++ text ", URL_STYLE 'path', USE_SSL false)")

unfoldable pub attach_lake : Environ → Result Text
attach_lake environ = do
  uri ← postgres_attach_uri environ
  path ← or_key_error (lookup (text "DATA_PATH") environ)
  ok (
      text "ATTACH "
      ++ sql_literal uri
      ++ text " AS lake (DATA_PATH "
      ++ sql_literal path
      ++ text ")")

-- The statements in their order. Each text is built only when the earlier ones have run.
unfoldable pub statements : Environ → List (Result Text)
statements environ =
    ok (text "INSTALL ducklake")
    ∷ ok (text "LOAD ducklake")
    ∷ ok (text "INSTALL httpfs")
    ∷ ok (text "LOAD httpfs")
    ∷ ok (text "INSTALL postgres")
    ∷ ok (text "LOAD postgres")
    ∷ create_secret environ
    ∷ attach_lake environ
    ∷ []

-- A DuckDB connection, by what was executed on it.
pub record Connection : Type 0 where
  pub executed : List Text
  pub closed : Bool

abbrev pub required_duckdb : Text
required_duckdb = text "1.5.6"

abbrev pub version_is : Option Text → Bool
version_is none = false
version_is (some v) = text_eq v required_duckdb

-- `execute` is `con.execute` on a connection that has executed the given statements.
module _ (execute : List Text → Text → Guard) where
  abbrev pub after_statement :
      List Text → Text → Guard → (List Text → List Text × Guard) → List Text × Guard
  after_statement done sql (err e) next = (done ++ sql ∷ [], err e)
  after_statement done sql (ok _) next = next (done ++ sql ∷ [])

  unfoldable pub execute_all : List (Result Text) → List Text → List Text × Guard
  execute_all [] done = (done, ok tt)
  execute_all (err e ∷ rest) done = (done, err e)
  execute_all (ok sql ∷ rest) done = after_statement done sql (execute done sql) (execute_all rest)

  abbrev pub close_on_error : List Text × Guard → Connection × Guard
  close_on_error (done, ok _) = (record { executed = done; closed = false }, ok tt)
  close_on_error (done, err e) = (record { executed = done; closed = true }, err e)

  unfoldable pub may_connect : Environ → Option Text → Guard
  may_connect environ version = do
    require_smoke_lake environ
    require (version_is version) "Smoke oracle requires duckdb 1.5.6"

  -- No connection is opened where the guards raise.
  abbrev pub open_connection : Environ → Guard → Option Connection × Guard
  open_connection environ (err e) = (none, err e)
  open_connection environ (ok _) =
      let (connection, ended) = close_on_error (execute_all (statements environ) []) in
      (some connection, ended)

  unfoldable pub connect_smoke : Environ → Option Text → Option Connection × Guard
  connect_smoke environ version = open_connection environ (may_connect environ version)
