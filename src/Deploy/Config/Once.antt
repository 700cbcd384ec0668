-- ===== src/Deploy/Config/Once.antt =====
-- The runtime configuration changes in one way at most, and at most once.
use doris_ducklake.Prelude.{All, Bool, List, Text, [], some, split, true, ℕ, ◌∷◌, ◌≡◌, ◌⊎◌}
use doris_ducklake.Deploy.Config.{Config, network_values, only_value, with_duplicate}

-- On a first boot, the bytes are the staged ones with one more line, which repeats the one value
-- that the staged ones give to the key.
pub record IsDuplicated (original observed : List ℕ) : Type 0 where
  pub value : List ℕ
  pub is_only : only_value (network_values (split 10 original)) ≡ some value
  pub is_line : observed ≡ with_duplicate original value

module _ (hash : List ℕ → Text) where
  -- Every round observes the staged bytes, by their digest, until one observes the duplicate; from
  -- there on every round observes that one.
  abbrev pub ChangesOnce : Bool → List ℕ → List (List ℕ) → Type 0
  ChangesOnce first_boot original [] = Unit {0}
  ChangesOnce first_boot original (observed ∷ later) =
      ((hash observed ≡ hash original) × ChangesOnce first_boot original later)
      ⊎ ((first_boot ≡ true)
          × IsDuplicated original observed
          × All (λ o. hash o ≡ hash observed) later)
