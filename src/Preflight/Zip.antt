-- ===== src/Preflight/Zip.antt =====
-- `zip_files` of compose/plugin_preflight.py. A ZIP archive is what `infolist()` and `read` give
-- of it: its entries in order, each with its contents.
use doris_ducklake.Prelude.{
  Bool, Dict, List, Result, Text, [], contains, if◌then◌else◌, insert, not, ok, require, ℕ, ◌%◌,
  ◌/◌, ◌==◌, ◌>>=◌, ◌>>◌, ◌||◌, ◌∷◌,
}
use doris_ducklake.Preflight.Path.{canonical_path}

pub record Entry : Type 0 where
  pub filename : Text
  pub is_dir : Bool
  -- `external_attr >> 16`
  pub mode : ℕ
  pub content : List ℕ

abbrev pub Archive : Type 0
Archive = List Entry

-- `stat.S_IFMT(mode)`, as the number that stands in its four bits: 8 is S_IFREG.
abbrev pub file_type : ℕ → ℕ
file_type mode = mode / 4096 % 16

unfoldable pub add_entry : Dict Entry → Entry → Result (Dict Entry)
add_entry result entry = do
  canonical_path entry.filename
  require ((file_type entry.mode == 0) || (file_type entry.mode == 8)) "Nonregular ZIP entry"
  require (not (contains entry.filename result)) "Duplicate ZIP entry"
  ok (insert entry.filename entry result)

unfoldable pub zip_files_from : Dict Entry → Archive → Result (Dict Entry)
zip_files_from result [] = ok result
zip_files_from result (entry ∷ entries) =
    let skipped = zip_files_from result entries in
    let added = (do result' ← add_entry result entry; zip_files_from result' entries) in
    if entry.is_dir then skipped else added

unfoldable pub zip_files : Archive → Result (Dict Entry)
zip_files archive = zip_files_from [] archive
