-- ===== src/Volume/Candidate.antt =====
-- `prepare` and `snapshot` of compose/plugin_volume.py: what stands in the worker's own directory
-- before the volume is touched.
use doris_ducklake.Prelude.{
  Dict, List, Option, Result, Text, [], contains, err, if◌then◌else◌, insert, keys, lookup, none,
  ok, or_key_error, os_error, require, some, split, text, text_eq, type_error, ℕ, ◌++◌, ◌>>=◌, ◌>>◌,
  ◌∷◌,
}
use doris_ducklake.Json.{Value, entries_of, item, str}
use doris_ducklake.Attest.{sort_texts}
use doris_ducklake.Preflight.Zip.{Archive, Entry}
use doris_ducklake.Preflight.Bundle.{verify_bundle}
use doris_ducklake.Volume.{
  Backup, Inventory, Tree, backup_schema, directory, inventory, regular, same_inventory, special,
  verify_backup, verify_installed,
}

-- `archive.open(name)`: the last entry of that name stands for it.
unfoldable pub open_entry : Text → Archive → Option Entry
open_entry name [] = none
open_entry name (entry ∷ entries) =
    let later = open_entry name entries in
    elim later [ some e ↦ some e | none ↦ if text_eq entry.filename name then some entry else none ]

-- The names of the directories above a path, the outermost first.
unfoldable pub parents_of : Text → List Text → List Text
parents_of above [] = []
parents_of above (part ∷ []) = []
parents_of above (part ∷ next ∷ parts) =
    (above ++ part) ∷ parents_of (above ++ part ++ b'/' ∷ []) (next ∷ parts)

-- `value.items()` of a bundle's files.
unfoldable pub text_entries : Dict Value → Result (Dict Text)
text_entries [] = ok []
text_entries ((k, str t) ∷ rest) = do more ← text_entries rest; ok ((k, t) ∷ more)
text_entries (_ ∷ rest) = err type_error

-- `directory_mode` is the mode of a directory that is made.
module _ (directory_mode : ℕ) where
  -- `mkdir(parents=True, exist_ok=True)`, and an error where a file is in the way.
  unfoldable pub make_directory : Text → Tree → Result Tree
  make_directory name t = elim (lookup name t) [
    | none ↦ ok (insert name (directory directory_mode) t)
    | some (directory mode) ↦ ok t
    | some (regular mode content) ↦ err os_error
    | some special ↦ err os_error
  ]

  unfoldable pub make_directories : List Text → Tree → Result Tree
  make_directories [] t = ok t
  make_directories (name ∷ names) t = do more ← make_directory name t; make_directories names more

  -- `open("xb")`, the copy, and `chmod(0o644)`.
  unfoldable pub write_new : Text → List ℕ → Tree → Result Tree
  write_new name content t =
      if contains name t then err os_error else ok (insert name (regular 420 content) t)

  unfoldable pub extract : Archive → List Text → Tree → Result Tree
  extract archive [] t = ok t
  extract archive (name ∷ names) t = do
    above ← make_directories (parents_of [] (split b'/' name)) t
    entry ← or_key_error (open_entry name archive)
    more ← write_new name entry.content above
    extract archive names more

  module _ (sha256 : List ℕ → Text) (open_zip : List ℕ → Result Archive) where
    -- The bundle's files and the candidate directory, which is verified like a volume.
    unfoldable pub prepare : List ℕ → Value → Result (Dict Text × Tree)
    prepare zip_bytes raw = do
      artifact ← verify_bundle sha256 open_zip zip_bytes raw
      listed ← item (text "files") artifact
      files ← text_entries (entries_of listed)
      archive ← open_zip zip_bytes
      candidate ← extract archive (keys files) []
      verified ← verify_installed sha256 candidate files
      ok (files, candidate)

-- `pack` is the tar archive that `tarfile` makes of these entries of the volume, and `open_tar`
-- reads one.
module _ (hash : List ℕ → Text) (pack : List Text → Result (List ℕ))
    (open_tar : List ℕ → Result Tree) where
  unfoldable pub names_of : Inventory → List Text
  names_of i = sort_texts (keys i.directories ++ keys i.files)

  abbrev pub backup_of : Inventory → List ℕ → Backup hash
  backup_of held archive = record {
    schema = backup_schema hash;
    held = held;
    archive_sha256 = hash archive;
  }

  -- `before` and `after` are what stands in the volume when it is listed the first time and the
  -- second time.
  unfoldable pub snapshot : Tree → Tree → Result (List ℕ × Backup hash)
  snapshot before after = do
    held ← inventory hash before
    archive ← pack (names_of held)
    again ← inventory hash after
    require (same_inventory again held) "Plugin volume changed during backup"
    verify_backup hash open_tar archive (backup_of held archive)
    ok (archive, backup_of held archive)
