-- ===== src/Volume.antt =====
-- compose/plugin_volume.py: the inventory of a plugin volume, and the checks of what is installed
-- and of a rollback archive. Candidate is `prepare` and `snapshot`, Install is `install`.
mod Tests
pub mod Exactness
pub mod Candidate
pub mod Install
use doris_ducklake.Prelude.{
  Bool, Dict, Guard, List, Result, Text, [], contains, dict_eq, err, every, insert, keys, map,
  map_values, not, ok, require, text, text_eq, value_error, ℕ, ◌&&◌, ◌==◌, ◌>>=◌, ◌>>◌, ◌∷◌,
}
use doris_ducklake.Preflight.Path.{canonical_path}
use Prim.Native.Nat.{bit_and}

-- What stands at a path below the root: `lstat` tells a directory and a regular file from the rest.
pub data Node : Type 0 where
  directory : ℕ → Node
  regular : ℕ → List ℕ → Node
  special : Node

-- The entries below a root, in the order of `sorted(root.rglob("*"))`, by their names from there.
abbrev pub Tree : Type 0
Tree = Dict Node

pub record FileRecord : Type 0 where
  pub sha256 : Text
  pub mode : ℕ

pub record Inventory : Type 0 where
  pub files : Dict FileRecord
  pub directories : Dict ℕ

abbrev pub no_entries : Inventory
no_entries = record { files = []; directories = [] }

abbrev pub same_number : ℕ → ℕ → Bool
same_number m n = m == n

abbrev pub same_record : FileRecord → FileRecord → Bool
same_record r s = text_eq r.sha256 s.sha256 && (r.mode == s.mode)

-- `{…} == {…}` of two inventories.
unfoldable pub same_inventory : Inventory → Inventory → Bool
same_inventory i j =
    dict_eq same_record i.files j.files && dict_eq same_number i.directories j.directories

-- `mode & 0o444 == 0o444`
abbrev pub is_readable : FileRecord → Bool
is_readable r = bit_and r.mode 292 == 292

-- `hash` is `file_hash` of a file's bytes.
module _ (hash : List ℕ → Text) where
  unfoldable pub add_node : Text → Node → Inventory → Result Inventory
  add_node name (directory mode) i = ok (record i { directories = insert name mode i.directories })
  add_node name (regular mode content) i =
      ok (record i { files = insert name (record { sha256 = hash content; mode = mode }) i.files })
  add_node name special i = err (value_error "Nonregular installed plugin entry")

  unfoldable pub inventory_from : Inventory → Tree → Result Inventory
  inventory_from i [] = ok i
  inventory_from i ((name, node) ∷ rest) = do
    canonical_path name
    more ← add_node name node i
    inventory_from more rest

  unfoldable pub inventory : Tree → Result Inventory
  inventory root = inventory_from no_entries root

  abbrev pub digest_of : FileRecord → Text
  digest_of r = r.sha256

  unfoldable pub is_lib_only : Dict ℕ → Bool
  is_lib_only directories =
      every (λ (d : Text). text_eq d (text "lib")) (keys directories)
      && contains (text "lib") directories

  abbrev pub record_of : Text × FileRecord → FileRecord
  record_of e = e.1

  -- `artifact_files` is `artifact["files"]`.
  unfoldable pub verify_installed : Tree → Dict Text → Result Inventory
  verify_installed root artifact_files = do
    actual ← inventory root
    require (dict_eq text_eq (map_values digest_of actual.files) artifact_files)
        "Installed plugin file set/checksums differ from selected bundle"
    require (is_lib_only actual.directories) "Unexpected installed plugin directories"
    require (every is_readable (map record_of actual.files)) "Unreadable installed plugin files"
    ok actual

  -- previous.json
  pub record Backup : Type 0 where
    pub schema : Text
    pub held : Inventory
    pub archive_sha256 : Text

  abbrev pub backup_schema : Text
  backup_schema = text "doris-plugin-backup-v1"

  -- An entry of the rollback archive: its name, and a node that is neither a directory nor a
  -- regular file if it is `special`.
  unfoldable pub add_backup_entry : Text → Node → Inventory → Result Inventory
  add_backup_entry name node i = do
    canonical_path name
    require (not (contains name i.files) && not (contains name i.directories))
        "Duplicate rollback entry"
    add_node name node i

  unfoldable pub backup_entries : Inventory → Tree → Result Inventory
  backup_entries i [] = ok i
  backup_entries i ((name, node) ∷ rest) = do
    more ← add_backup_entry name node i
    backup_entries more rest

  -- `open_tar` reads the archive's entries from its bytes.
  unfoldable pub verify_backup : (List ℕ → Result Tree) → List ℕ → Backup → Guard
  verify_backup open_tar archive receipt = do
    require (text_eq receipt.schema backup_schema && text_eq (hash archive) receipt.archive_sha256)
        "Rollback archive checksum mismatch"
    entries ← open_tar archive
    held ← backup_entries no_entries entries
    require (same_inventory held receipt.held) "Rollback archive contents differ"
