-- ===== src/Volume/Exactness.antt =====
-- What `verify_installed` has compared: every path of the volume.
use doris_ducklake.Prelude.Counting.{dict_eq-lookup}
use doris_ducklake.Prelude.{
  >>=-eq-ok, Bool, Bool-cases, Dict, List, Option, Text, Unique, [], ap, dict_eq, false,
  if◌then◌else◌, inl, inr, insert-Unique, lookup, lookup-insert, map_values, map_values-Unique,
  none, ok, ok_injective, refl, require->>-eq-ok, some, subst, sym, text_eq, text_eq_sound, true, ℕ,
  ◌∙◌, ◌∷◌, ◌≡◌,
}
use doris_ducklake.Preflight.Path.{canonical_path}
use doris_ducklake.Volume.{
  FileRecord, Inventory, Node, Tree, add_node, digest_of, directory, inventory, inventory_from,
  no_entries, regular, special, verify_installed,
}

module _ (hash : List ℕ → Text) where
  -- What the inventory holds for a node, over what it held before.
  abbrev recorded : Option Node → Option FileRecord → Option FileRecord
  recorded none before = before
  recorded (some (directory _)) before = before
  recorded (some (regular mode content)) before =
      some (record { sha256 = hash content; mode = mode })
  recorded (some special) before = before

  -- The digest of the regular file at a path.
  abbrev pub digest_at : Option Node → Option Text
  digest_at (some (regular mode content)) = some (hash content)
  digest_at _ = none

  add_node-files :
      (name q : Text) (node : Node) (i j : Inventory)
      → add_node hash name node i ≡ ok j
      → lookup q j.files
        ≡ (if text_eq name q then recorded (some node) (lookup q i.files) else lookup q i.files)
  unfolding add_node
  add_node-files name q (directory mode) i j h =
      sym (ap (λ (x : Inventory). lookup q x.files) (ok_injective h))
      ∙ same_branches (text_eq name q) (lookup q i.files)
    where
      same_branches : (b : Bool) (o : Option FileRecord) → o ≡ (if b then o else o)
      same_branches true o = refl
      same_branches false o = refl
  add_node-files name q (regular mode content) i j h =
      sym (ap (λ (x : Inventory). lookup q x.files) (ok_injective h))
      ∙ lookup-insert name q (record { sha256 = hash content; mode = mode }) i.files
  add_node-files name q special i j h = cc

  inventory-files :
      (t : Tree) (q : Text) (i j : Inventory)
      → Unique t
      → inventory_from hash i t ≡ ok j
      → lookup q j.files ≡ recorded (lookup q t) (lookup q i.files)
  unfolding inventory_from lookup
  inventory-files [] q i j u h = sym (ap (λ (x : Inventory). lookup q x.files) (ok_injective h))
  inventory-files ((name, node) ∷ rest) q i j u h =
      let (_, _, h₁) = >>=-eq-ok (canonical_path name) _ h in
      let (more, added, h₂) = >>=-eq-ok (add_node hash name node i) _ h₁ in
      let later = inventory-files rest q more j u.1 h₂ in
      let first = add_node-files name q node i more added in
      elim (Bool-cases (text_eq name q)) [
        | inl same ↦
            let gone : lookup q rest ≡ none =
              subst (λ t. lookup t rest ≡ none) (text_eq_sound name q same) u.0 in
            let here =
              subst
                (λ b.
                  lookup q more.files
                  ≡ (if b then recorded (some node) (lookup q i.files) else lookup q i.files))
                same first in
            rw same (later ∙ ap (λ o. recorded o (lookup q more.files)) gone ∙ here)
        | inr other ↦
            let here =
              subst
                (λ b.
                  lookup q more.files
                  ≡ (if b then recorded (some node) (lookup q i.files) else lookup q i.files))
                other first in
            rw other (later ∙ ap (recorded (lookup q rest)) here)
      ]

  add_node-Unique :
      (name : Text) (node : Node) (i j : Inventory)
      → Unique i.files
      → add_node hash name node i ≡ ok j
      → Unique j.files
  unfolding add_node
  add_node-Unique name (directory mode) i j u h =
      subst (λ (x : Inventory). Unique x.files) (ok_injective h) u
  add_node-Unique name (regular mode content) i j u h =
      subst (λ (x : Inventory). Unique x.files) (ok_injective h)
        (insert-Unique name (record { sha256 = hash content; mode = mode }) i.files u)
  add_node-Unique name special i j u h = cc

  inventory-Unique :
      (t : Tree) (i j : Inventory)
      → Unique i.files
      → inventory_from hash i t ≡ ok j
      → Unique j.files
  unfolding inventory_from
  inventory-Unique [] i j u h = subst (λ (x : Inventory). Unique x.files) (ok_injective h) u
  inventory-Unique ((name, node) ∷ rest) i j u h =
      let (_, _, h₁) = >>=-eq-ok (canonical_path name) _ h in
      let (more, added, h₂) = >>=-eq-ok (add_node hash name node i) _ h₁ in
      inventory-Unique rest more j (add_node-Unique name node i more u added) h₂

  abbrev recorded_digest : Option FileRecord → Option Text
  recorded_digest none = none
  recorded_digest (some r) = some r.sha256

  lookup-digests :
      (q : Text) (files : Dict FileRecord)
      → lookup q (map_values (digest_of hash) files) ≡ recorded_digest (lookup q files)
  unfolding lookup
  lookup-digests q [] = refl
  lookup-digests q ((name, r) ∷ files) = elim (Bool-cases (text_eq name q)) [
    | inl same ↦ rw same refl
    | inr other ↦ rw other (lookup-digests q files)
  ]

  digest_at-recorded : (o : Option Node) → recorded_digest (recorded o none) ≡ digest_at o
  digest_at-recorded none = refl
  digest_at-recorded (some (directory _)) = refl
  digest_at-recorded (some (regular _ _)) = refl
  digest_at-recorded (some special) = refl

  nothing_before : (q : Text) → lookup q no_entries.files ≡ none
  unfolding lookup
  nothing_before q = refl

  -- If verify_installed accepts a volume, in whose listing no path stands twice, for a bundle's
  -- files, then at every path the bundle has a file with some digest exactly if the volume has a
  -- regular file whose bytes have that digest.
  pub verify_installed_exact :
      (root : Tree) (artifact_files : Dict Text) (actual : Inventory)
      → Unique root
      → verify_installed hash root artifact_files ≡ ok actual
      → (q : Text) → lookup q artifact_files ≡ digest_at (lookup q root)
  unfolding verify_installed inventory
  verify_installed_exact root artifact_files actual u h q =
      let (i, taken, h₁) = >>=-eq-ok (inventory_from hash no_entries root) _ h in
      let (same, _) =
        require->>-eq-ok (dict_eq text_eq (map_values (digest_of hash) i.files) artifact_files) _ _
          h₁ in
      let digests = map_values (digest_of hash) i.files in
      let unique =
        map_values-Unique (digest_of hash) i.files (inventory-Unique root no_entries i tt taken) in
      let agree = dict_eq-lookup text_eq digests artifact_files q text_eq_sound unique same in
      let files =
        inventory-files root q no_entries i u taken
        ∙ ap (recorded (lookup q root)) (nothing_before q) in
      sym agree
      ∙ lookup-digests q i.files
      ∙ ap recorded_digest files
      ∙ digest_at-recorded (lookup q root)
