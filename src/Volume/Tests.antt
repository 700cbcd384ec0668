-- ===== src/Volume/Tests.antt =====
-- A volume with one library.
use doris_ducklake.Volume.Install.{
  Disk, check_snapshot, chmod_lib, install, is_within, lib_entries, remove_entries, remove_entry,
  replace_files, top_names, with_lib_mode, without_entry, write_entries, write_entry,
}
use doris_ducklake.Volume.Install.Guarded.{IsPreserved, install-guarded, install_exact}
use doris_ducklake.Deploy.Exec.{gets, modify, pure, ◌>>=◌}
use doris_ducklake.Prelude.{
  Dict, List, Result, Text, Unique, [], contains, dict_eq, has_char, insert, lookup, ok, refl,
  split, starts_with, text, text_eq, ℕ, ◌∷◌, ◌≡◌, ◌⊎◌,
}
use doris_ducklake.Preflight.Path.{canonical_path, is_canonical}
use doris_ducklake.Volume.{
  Inventory, Tree, add_node, directory, inventory, inventory_from, is_lib_only, regular,
  same_inventory, verify_installed,
}
use doris_ducklake.Volume.Exactness.{digest_at, verify_installed_exact}

abbrev bytes_hash : List ℕ → Text
bytes_hash bytes = bytes

abbrev a_volume : Tree
a_volume = (text "lib", directory 493) ∷ (text "lib/a.jar", regular 420 (text "jar")) ∷ []

abbrev bundle_files : Dict Text
bundle_files = (text "lib/a.jar", text "jar") ∷ []

abbrev volume_inventory : Inventory
volume_inventory = record {
  files = (text "lib/a.jar", record { sha256 = text "jar"; mode = 420 }) ∷ [];
  directories = (text "lib", 493) ∷ [];
}

volume_verified : verify_installed bytes_hash a_volume bundle_files ≡ ok volume_inventory
unfolding verify_installed inventory inventory_from add_node canonical_path is_canonical insert
    contains lookup dict_eq text text_eq is_lib_only split
volume_verified = refl

volume-Unique : Unique a_volume
unfolding lookup text text_eq
volume-Unique = (refl, (refl, tt))

verify_installed_exact_example :
    lookup (text "lib/a.jar") bundle_files
    ≡ digest_at bytes_hash (lookup (text "lib/a.jar") a_volume)
verify_installed_exact_example =
    verify_installed_exact bytes_hash a_volume bundle_files volume_inventory volume-Unique
      volume_verified (text "lib/a.jar")

-- A volume with an older library, which the snapshot holds.
abbrev old_volume : Tree
old_volume = (text "lib", directory 493) ∷ (text "lib/old.jar", regular 420 (text "old")) ∷ []

abbrev old_inventory : Inventory
old_inventory = record {
  files = (text "lib/old.jar", record { sha256 = text "old"; mode = 420 }) ∷ [];
  directories = (text "lib", 493) ∷ [];
}

abbrev any_disk : Disk
any_disk = record { can_remove = λ name. ok tt; can_write = λ name. ok tt }

abbrev prepared_bundle : Result (Dict Text × Tree)
prepared_bundle = ok (bundle_files, a_volume)

volume_replaced :
    install bytes_hash any_disk prepared_bundle old_inventory old_volume
    ≡ (a_volume, ok volume_inventory)
unfolding install check_snapshot replace_files remove_entries remove_entry write_entries write_entry
    chmod_lib with_lib_mode lib_entries without_entry is_within top_names ◌>>=◌ gets modify pure
    verify_installed inventory inventory_from add_node canonical_path is_canonical insert contains
    lookup dict_eq text text_eq is_lib_only split same_inventory has_char starts_with
volume_replaced = refl

old_volume-Unique : Unique old_volume
unfolding lookup text text_eq
old_volume-Unique = (refl, (refl, tt))

install_exact_example :
    (ready : Dict Text × Tree) × (prepared_bundle ≡ ok ready)
    × ((q : Text) → lookup q ready.0 ≡ digest_at bytes_hash (lookup q a_volume))
install_exact_example =
    install_exact bytes_hash any_disk prepared_bundle old_inventory volume_inventory old_volume
      a_volume old_volume-Unique volume_replaced

install-guarded_example :
    ((install bytes_hash any_disk prepared_bundle old_inventory old_volume).0 ≡ old_volume)
    ⊎ ((ready : Dict Text × Tree) × (prepared_bundle ≡ ok ready)
        × IsPreserved bytes_hash any_disk old_volume old_inventory)
install-guarded_example =
    install-guarded bytes_hash any_disk prepared_bundle old_inventory old_volume
