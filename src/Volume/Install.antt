-- ===== src/Volume/Install.antt =====
-- `prepare`, `snapshot` and `install` of compose/plugin_volume.py. The volume is the state that
-- `install` changes, entry by entry, and that stays changed when an exception is raised.
pub mod Guarded
use doris_ducklake.Deploy.Exec.{Exec, gets, modify, pure, return, ◌>>=◌, ◌>>◌}
use doris_ducklake.Prelude.{
  Bool, Dict, Guard, List, Result, Text, [], has_char, insert, keep, map, not, require, starts_with,
  text, text_eq, ℕ, ◌++◌, ◌||◌, ◌∷◌,
}
use doris_ducklake.Volume.{
  Inventory, Node, Tree, directory, inventory, same_inventory, verify_installed,
}

-- Whether an entry can be removed, or written: `unlink`, `rmtree`, `copytree` and `chmod` may fail.
pub record Disk : Type 0 where
  pub can_remove : Text → Guard
  pub can_write : Text → Guard

-- An entry of a directory: what stands at a name with no `/`.
abbrev pub is_top : Text → Bool
is_top name = not (has_char b'/' name)

-- What `root.iterdir()` gives.
unfoldable pub top_names : Tree → List Text
top_names root = keep is_top (map (λ (e : Text × Node). e.0) root)

-- The entry itself or what stands below it.
unfoldable pub is_within : Text → Text → Bool
is_within top name = text_eq name top || starts_with name (top ++ b'/' ∷ [])

-- `shutil.rmtree(entry)` or `entry.unlink()`
unfoldable pub without_entry : Text → Tree → Tree
without_entry top root = keep (λ (e : Text × Node). not (is_within top e.0)) root

abbrev pub lib_name : Text
lib_name = text "lib"

-- What stands in `candidate/lib`.
unfoldable pub lib_entries : Tree → Tree
lib_entries candidate = keep (λ (e : Text × Node). is_within lib_name e.0) candidate

-- `(root / "lib").chmod(0o755)`
unfoldable pub with_lib_mode : Tree → Tree
with_lib_mode root = insert lib_name (directory 493) root

module _ (hash : List ℕ → Text) (disk : Disk) where
  unfoldable pub remove_entry : Text → Exec Tree (Unit {0})
  remove_entry name = do pure (disk.can_remove name); modify (without_entry name)

  unfoldable pub remove_entries : List Text → Exec Tree (Unit {0})
  remove_entries [] = return tt
  remove_entries (name ∷ names) = do remove_entry name; remove_entries names

  unfoldable pub write_entry : Text → Node → Exec Tree (Unit {0})
  write_entry name node = do pure (disk.can_write name); modify (insert name node)

  unfoldable pub write_entries : Tree → Exec Tree (Unit {0})
  write_entries [] = return tt
  write_entries ((name, node) ∷ entries) = do write_entry name node; write_entries entries

  unfoldable pub chmod_lib : Exec Tree (Unit {0})
  chmod_lib = do pure (disk.can_write lib_name); modify with_lib_mode

  -- From the first removal to the last write.
  unfoldable pub replace_files : Tree → Exec Tree (Unit {0})
  replace_files candidate = do
    root ← gets (λ (t : Tree). t)
    remove_entries (top_names root)
    write_entries (lib_entries candidate)
    chmod_lib

  unfoldable pub check_snapshot : Inventory → Exec Tree (Unit {0})
  check_snapshot held = do
    root ← gets (λ (t : Tree). t)
    found ← pure (inventory hash root)
    pure (
        require (same_inventory found held)
          "Stopped plugin volume differs from preserved rollback snapshot")

  -- `prepared` is the outcome of `prepare`, and `held` the inventory in previous.json.
  unfoldable pub install : Result (Dict Text × Tree) → Inventory → Exec Tree Inventory
  install prepared held = do
    ready ← pure prepared
    check_snapshot held
    replace_files ready.1
    root ← gets (λ (t : Tree). t)
    pure (verify_installed hash root ready.0)
