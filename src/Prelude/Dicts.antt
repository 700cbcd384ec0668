-- ===== src/Prelude/Dicts.antt =====
-- Python's `dict` with text keys: an association list in insertion order.
use mathlib.Core.Path.{◌≡◌, refl, ◌∙◌}
use mathlib.Core.Bool.{Bool, true, false, ◌&&◌}
use mathlib.Core.Option.{Option, none, some}
use mathlib.Core.Logic.{inl, inr}
use mathlib.Core.List.{List, [], ◌∷◌, map}
use native.Mathlib.Omega.{arith}
use doris_ducklake.Prelude.Tests.{Bool-cases, if◌then◌else◌, ◌==◌}
use doris_ducklake.Prelude.Lists.{every, keep, length}
use doris_ducklake.Prelude.Texts.{Text, text_eq, text_eq_iff}

abbrev pub Dict {ℓ} : Type ℓ → Type ℓ
Dict V = List (Text × V)

module _ {ℓ} {V : Type ℓ} where
  -- `d.get(k)`
  unfoldable pub lookup : Text → Dict V → Option V
  lookup k [] = none
  lookup k ((j, v) ∷ d) = if text_eq j k then some v else lookup k d

  -- `d[k] = v`
  unfoldable pub insert : Text → V → Dict V → Dict V
  insert k v [] = (k, v) ∷ []
  insert k v ((j, w) ∷ d) = if text_eq j k then (j, v) ∷ d else (j, w) ∷ insert k v d

  -- `k in d`
  unfoldable pub contains : Text → Dict V → Bool
  unfolding lookup
  contains k d = elim (lookup k d) [ none ↦ false | some _ ↦ true ]

  abbrev pub keys : Dict V → List Text
  keys d = map (λ e. e.0) d

  -- CPython's `d == e`: as many entries, and each entry of `d` is found in `e` with an equal value.
  unfoldable pub dict_eq : (V → V → Bool) → Dict V → Dict V → Bool
  unfolding lookup
  dict_eq eq d e =
      (length d == length e)
      && every (λ (k, v). elim (lookup k e) [ none ↦ false | some w ↦ eq v w ]) d

  pub lookup-insert :
      (k j : Text) (v : V) (d : Dict V)
      → lookup j (insert k v d) ≡ (if text_eq k j then some v else lookup j d)
  unfolding lookup insert
  lookup-insert k j v [] = refl
  lookup-insert k j v ((i, w) ∷ d) =
      ground (arith, text_eq_iff k j, text_eq_iff i k, text_eq_iff i j, lookup-insert k j v d)

-- No key stands twice, as in any `dict`.
abbrev pub Unique {ℓ} : {V : Type ℓ} → Dict V → Type ℓ
Unique [] = Unit
Unique ((k, _) ∷ d) = (lookup k d ≡ none) × Unique d

module _ {ℓ} {V : Type ℓ} where
  pub insert-Unique : (k : Text) (v : V) (d : Dict V) → Unique d → Unique (insert k v d)
  unfolding insert lookup
  insert-Unique k v [] h = (refl, tt)
  insert-Unique k v ((j, w) ∷ d) h = elim (Bool-cases (text_eq j k)) [
    | inl same ↦ rw same h
    | inr other ↦ rw other (
      lookup-insert k j v d ∙ ground (arith, text_eq_iff j k, text_eq_iff k j, h.0),
      insert-Unique k v d h.1,
    )
  ]

  pub lookup-keep :
      (p : Text × V → Bool) (k : Text) (d : Dict V) → lookup k d ≡ none → lookup k (keep p d) ≡ none
  unfolding lookup
  lookup-keep p k [] h = refl
  lookup-keep p k ((j, v) ∷ d) h = ground (arith, lookup-keep p k d)

  pub keep-Unique : (p : Text × V → Bool) (d : Dict V) → Unique d → Unique (keep p d)
  keep-Unique p [] h = tt
  keep-Unique p ((j, v) ∷ d) h = elim (Bool-cases (p (j, v))) [
    | inl kept ↦ rw kept (lookup-keep p j d h.0, keep-Unique p d h.1)
    | inr dropped ↦ rw dropped (keep-Unique p d h.1)
  ]

module _ {ℓ κ} {V : Type ℓ} {W : Type κ} where
  -- A dictionary comprehension that keeps the keys.
  abbrev pub map_values : (V → W) → Dict V → Dict W
  map_values f [] = []
  map_values f ((k, v) ∷ d) = (k, f v) ∷ map_values f d

  lookup-map_values :
      (f : V → W) (k : Text) (d : Dict V) → lookup k d ≡ none → lookup k (map_values f d) ≡ none
  unfolding lookup
  lookup-map_values f k [] h = refl
  lookup-map_values f k ((j, v) ∷ d) h = ground (arith, lookup-map_values f k d)

  pub map_values-Unique : (f : V → W) (d : Dict V) → Unique d → Unique (map_values f d)
  map_values-Unique f [] h = tt
  map_values-Unique f ((j, v) ∷ d) h = (lookup-map_values f j d h.0, map_values-Unique f d h.1)
