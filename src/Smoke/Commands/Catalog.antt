-- ===== src/Smoke/Commands/Catalog.antt =====
-- The catalog that a smoke run makes is on its own lake.
use doris_ducklake.Prelude.{List, Text, lookup, some, text, ◌++◌, ◌≡◌}
use doris_ducklake.Smoke.Lake.{data_path_of, database_of}

-- The properties name the run's database and its data path.
pub record AreOwn (token : Text) (properties : List (Text × Text)) : Type 0 where
  pub postgres : Text
  pub url :
      lookup (text "metadata.url") properties
      ≡ some (text "jdbc:postgresql://" ++ postgres ++ text ":5432/" ++ database_of token)
  pub warehouse : lookup (text "storage.warehouse") properties ≡ some (data_path_of token)
