-- ===== src/Preflight/Records/Sorted.antt =====
-- Sorting the entries of a dictionary changes the value of no key.
use doris_ducklake.Prelude.{
  Dict, Text, Unique, [], ap, arith, if◌then◌else◌, lookup, none, refl, some, text_eq, text_eq_iff,
  ◌∙◌, ◌∷◌, ◌≡◌,
}
use doris_ducklake.Preflight.Records.{insert_entry, sort_entries}

module _ {ℓ} {V : Type ℓ} where
  lookup-insert_entry :
      (k : Text) (e : Text × V) (d : Dict V)
      → lookup e.0 d ≡ none
      → lookup k (insert_entry e d) ≡ (if text_eq e.0 k then some e.1 else lookup k d)
  unfolding insert_entry lookup
  lookup-insert_entry k e [] h = refl
  lookup-insert_entry k e (x ∷ xs) h =
      ground (
        arith,
        text_eq_iff e.0 k,
        text_eq_iff x.0 k,
        text_eq_iff x.0 e.0,
        lookup-insert_entry k e xs,
      )

  pub lookup-sort_entries :
      (k : Text) (d : Dict V) → Unique d → lookup k (sort_entries d) ≡ lookup k d
  unfolding sort_entries lookup
  lookup-sort_entries k [] h = refl
  lookup-sort_entries k (e ∷ es) h =
      lookup-insert_entry k e (sort_entries es) (lookup-sort_entries e.0 es h.1 ∙ h.0)
      ∙ ap (λ o. if text_eq e.0 k then some e.1 else o) (lookup-sort_entries k es h.1)
