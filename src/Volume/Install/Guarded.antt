-- ===== src/Volume/Install/Guarded.antt =====
-- The volume is changed only after the snapshot is confirmed, and what is installed is the bundle.
use doris_ducklake.Volume.Exactness.{digest_at, verify_installed_exact}
use doris_ducklake.Deploy.Exec.{Exec, continue, gets, modify, pure, ◌>>=◌}
use doris_ducklake.Deploy.Ran.{bind-ok, gets-ok, pure-ok}
use doris_ducklake.Prelude.{
  Bool-cases, Dict, List, Result, Text, Unique, [], ap, err, inl, inr, insert, insert-Unique,
  keep-Unique, lookup, not, ok, refl, subst, sym, true, ℕ, ◌∙◌, ◌∷◌, ◌≡◌, ◌⊎◌,
}
use doris_ducklake.Volume.{
  Inventory, Node, Tree, directory, inventory, same_inventory, verify_installed,
}
use doris_ducklake.Volume.Install.{
  Disk, check_snapshot, chmod_lib, install, is_within, lib_name, remove_entries, remove_entry,
  replace_files, with_lib_mode, without_entry, write_entries, write_entry,
}

module _ (hash : List ℕ → Text) (disk : Disk) where
  -- The snapshot that was kept is one of this volume.
  abbrev pub IsPreserved : Tree → Inventory → Type 0
  IsPreserved root held =
      (found : Inventory) × (inventory hash root ≡ ok found) × (same_inventory found held ≡ true)

  checked :
      (root : Tree) (held : Inventory) (ready : Dict Text × Tree) (r : Result Inventory)
      → inventory hash root ≡ r
      → (((install hash disk (ok ready) held root).0 ≡ root) ⊎ IsPreserved root held)
  unfolding install check_snapshot ◌>>=◌ gets pure
  checked root held ready (err raised) e = inl (rw e)
  checked root held ready (ok found) e = elim (Bool-cases (same_inventory found held)) [
    | inl same ↦ inr (found, e, same)
    | inr other ↦ inl (rw (e, other))
  ]

  -- Whatever install does, on every branch: it leaves the volume as it was, or the candidate had
  -- been prepared and the volume's inventory is the one that the rollback snapshot holds.
  pub install-guarded :
      (prepared : Result (Dict Text × Tree)) (held : Inventory) (root : Tree)
      → ((install hash disk prepared held root).0 ≡ root)
        ⊎ ((ready : Dict Text × Tree) × (prepared ≡ ok ready) × IsPreserved root held)
  unfolding install ◌>>=◌ pure
  install-guarded (err raised) held root = inl refl
  install-guarded (ok ready) held root = elim (checked root held ready _ refl) [
    | inl unchanged ↦ inl unchanged
    | inr preserved ↦ inr (ready, refl, preserved)
  ]

  -- No path stands twice.
  abbrev AllUnique {ℓ} : {A : Type ℓ} → Exec Tree A → Type 0
  AllUnique m = (t : Tree) → Unique t → Unique (m t).0

  continue-Unique {ℓ κ} :
      {A : Type ℓ} {B : Type κ} (p : Tree × Result A) (k : A → Exec Tree B)
      → Unique p.0
      → ((a : A) → AllUnique (k a))
      → Unique (continue p k).0
  continue-Unique (t, err raised) k u rest = u
  continue-Unique (t, ok a) k u rest = rest a t u

  bind-AllUnique {ℓ κ} :
      {A : Type ℓ} {B : Type κ} (m : Exec Tree A) (k : A → Exec Tree B)
      → AllUnique m
      → ((a : A) → AllUnique (k a))
      → AllUnique (m >>= k)
  unfolding ◌>>=◌
  bind-AllUnique m k first rest t u = continue-Unique (m t) k (first t u) rest

  pure-AllUnique {ℓ} : {A : Type ℓ} (r : Result A) → AllUnique (pure r)
  unfolding pure
  pure-AllUnique r t u = u

  gets-AllUnique {ℓ} : {A : Type ℓ} (f : Tree → A) → AllUnique (gets f)
  unfolding gets
  gets-AllUnique f t u = u

  removed-AllUnique : (name : Text) → AllUnique (modify (without_entry name))
  unfolding modify without_entry
  removed-AllUnique name t u = keep-Unique (λ (e : Text × Node). not (is_within name e.0)) t u

  inserted-AllUnique : (name : Text) (node : Node) → AllUnique (modify (insert name node))
  unfolding modify
  inserted-AllUnique name node t u = insert-Unique name node t u

  chmod-AllUnique : AllUnique (modify with_lib_mode)
  unfolding modify with_lib_mode
  chmod-AllUnique t u = insert-Unique lib_name (directory 493) t u

  ruleset unique = (
    bind-AllUnique, pure-AllUnique, gets-AllUnique, removed-AllUnique, inserted-AllUnique,
    chmod-AllUnique,
  )

  remove_entries-AllUnique : (names : List Text) → AllUnique (remove_entries hash disk names)
  unfolding remove_entries remove_entry
  remove_entries-AllUnique [] = search unique
  remove_entries-AllUnique (name ∷ names) = search (unique, remove_entries-AllUnique names)

  write_entries-AllUnique : (entries : Tree) → AllUnique (write_entries hash disk entries)
  unfolding write_entries write_entry
  write_entries-AllUnique [] = search unique
  write_entries-AllUnique ((name, node) ∷ entries) =
      search (unique, write_entries-AllUnique entries)

  replace_files-AllUnique : (candidate : Tree) → AllUnique (replace_files hash disk candidate)
  unfolding replace_files chmod_lib
  replace_files-AllUnique candidate =
      search (unique, remove_entries-AllUnique, write_entries-AllUnique)

  check_snapshot-AllUnique : (held : Inventory) → AllUnique (check_snapshot hash disk held)
  unfolding check_snapshot
  check_snapshot-AllUnique held = search unique

  install-AllUnique :
      (prepared : Result (Dict Text × Tree)) (held : Inventory)
      → AllUnique (install hash disk prepared held)
  unfolding install
  install-AllUnique prepared held =
      search (unique, check_snapshot-AllUnique, replace_files-AllUnique)

  -- If install returns, then the candidate had been prepared, and at every path of the volume the
  -- bundle has a file with some digest exactly if a regular file with that digest stands there.
  pub install_exact :
      (prepared : Result (Dict Text × Tree)) (held actual : Inventory) (root after : Tree)
      → Unique root
      → install hash disk prepared held root ≡ (after, ok actual)
      → (ready : Dict Text × Tree) × (prepared ≡ ok ready)
        × ((q : Text) → lookup q ready.0 ≡ digest_at hash (lookup q after))
  unfolding install
  install_exact prepared held actual root after u p =
      let (t₁, ready, got, p₁) = bind-ok _ _ root p in
      let (t₂, _, _, p₂) = bind-ok _ _ t₁ p₁ in
      let (t₃, _, _, p₃) = bind-ok _ _ t₂ p₂ in
      let (t₄, t, read, p₄) = bind-ok _ _ t₃ p₃ in
      let (same, verified) = pure-ok (verify_installed hash t ready.0) t₄ p₄ in
      let (same₃, is_t) = gets-ok (λ (x : Tree). x) t₃ read in
      let is_after : t ≡ after = sym is_t ∙ same₃ ∙ same in
      let unique =
        subst (λ (x : Tree × Result Inventory). Unique x.0) p
          (install-AllUnique prepared held root u) in
      (
        ready,
        (pure-ok prepared root got).1,
        λ q.
            verify_installed_exact hash t ready.0 actual (subst Unique (sym is_after) unique)
              verified q
            ∙ ap (λ (x : Tree). digest_at hash (lookup q x)) is_after,
      )
