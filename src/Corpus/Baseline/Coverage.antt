-- ===== src/Corpus/Baseline/Coverage.antt =====
-- What an accepted baseline accounts for.
use doris_ducklake.Prelude.{
  ==_iff, Bool-cases, List, Text, [], and_true, ap, arith, every, inl, inr, map, member, ok,
  ok_injective, refl, require->>-eq-ok, some_of, subst, sym, text_eq, text_eq_sound, true, ◌&&◌,
  ◌++◌, ◌==◌, ◌||◌, ◌↔◌, ◌∙◌, ◌∷◌, ◌≡◌, ◌⊎◌,
}
use doris_ducklake.Corpus.Baseline.{
  BaselineReceipt, Measurements, accounted_of, baseline_measurements, baseline_schema,
  count_failures, has_outcomes, have_no_repeats, is_covered, is_oracle_only, measurements_of,
  path_of, same_set,
}

-- A path is one of a list's.
abbrev pub IsIn : Text → List Text → Type 0
IsIn path paths = member path paths ≡ true

pub record IsBaseline (receipt : BaselineReceipt) (m : Measurements) : Type 0 where
  pub no_mirror : receipt.doris_mirrors ≡ 0
  pub all_failures : m.failed_records ≡ count_failures receipt.files
  pub as_reported : m.failed_records ≡ receipt.failed
  pub accounted :
      (path : Text)
      → IsIn path receipt.selected
        ↔ (IsIn path (map path_of receipt.files) ⊎ IsIn path receipt.missing_files)
  pub not_both :
      (path : Text) → IsIn path (map path_of receipt.files) → IsIn path receipt.missing_files → ⊥

member_append : (t : Text) (xs ys : List Text) → member t (xs ++ ys) ≡ (member t xs || member t ys)
unfolding member
member_append t [] ys = refl
member_append t (x ∷ xs) ys = ground (arith, member_append t xs ys)

every-member :
    (xs ys : List Text) (t : Text)
    → every (λ x. member x ys) xs ≡ true
    → member t xs ≡ true
    → member t ys ≡ true
unfolding member
every-member [] ys t all is_in = cc
every-member (x ∷ xs) ys t all is_in = elim (Bool-cases (text_eq t x)) [
  | inl same ↦
      subst (λ u. member u ys ≡ true) (sym (text_eq_sound t x same))
        (and_true (member x ys) _ all).0
  | inr other ↦ every-member xs ys t (and_true (member x ys) _ all).1 (ground arith)
]

same_set-member :
    (xs ys : List Text) (t : Text)
    → same_set xs ys ≡ true
    → (member t xs ≡ true) ↔ (member t ys ≡ true)
unfolding same_set
same_set-member xs ys t h =
    let both = and_true (every (λ x. member x ys) xs) (every (λ y. member y xs) ys) h in
    (every-member xs ys t both.0, every-member ys xs t both.1)

have_no_repeats-disjoint :
    (xs ys : List Text) (t : Text)
    → have_no_repeats (xs ++ ys) ≡ true
    → member t xs ≡ true
    → member t ys ≡ true
    → ⊥
unfolding have_no_repeats member
have_no_repeats-disjoint [] ys t h is_x is_y = cc
have_no_repeats-disjoint (x ∷ xs) ys t h is_x is_y = elim (Bool-cases (text_eq t x)) [
  | inl same ↦
      let in_ys = subst (λ u. member u ys ≡ true) (text_eq_sound t x same) is_y in
      ground (arith, h, in_ys, member_append x xs ys)
  | inr other ↦ have_no_repeats-disjoint xs ys t (ground arith) (ground arith) is_y
]

is_covered-accounted :
    (present missing selected : List Text) (t : Text)
    → is_covered (present ++ missing) selected ≡ true
    → (IsIn t selected ↔ (IsIn t present ⊎ IsIn t missing)) × (IsIn t present → IsIn t missing → ⊥)
unfolding is_covered
is_covered-accounted present missing selected t h =
    let both =
      and_true (have_no_repeats (present ++ missing)) (same_set (present ++ missing) selected) h in
    let (there, back) = same_set-member (present ++ missing) selected t both.1 in
    let joined = member_append t present missing in
    (
      (
        λ s. ground (arith, joined, back s),
        λ e.
            there
              (elim e [ inl p ↦ ground (arith, joined, p) | inr m ↦ ground (arith, joined, m) ]),
      ),
      have_no_repeats-disjoint present missing t both.0,
    )

-- When baseline_measurements accepts a receipt, no record was mirrored to Doris, the failures
-- that it reports are all outcomes of the files that failed and as many as the receipt says, and
-- every selected path is either that of a file or a missing one, never both, and no others are.
pub baseline_measurements-IsBaseline :
    (receipt : BaselineReceipt) (m : Measurements)
    → baseline_measurements receipt ≡ ok m
    → IsBaseline receipt m
unfolding baseline_measurements is_oracle_only measurements_of
baseline_measurements-IsBaseline receipt m h =
    let (oracle, h₁) =
      require->>-eq-ok (text_eq receipt.schema baseline_schema && (receipt.doris_mirrors == 0)) _ _
        h in
    let (_, h₂) = require->>-eq-ok (some_of has_outcomes receipt.files) _ _ h₁ in
    let (covered, h₃) =
      require->>-eq-ok (is_covered (accounted_of receipt) receipt.selected) _ _ h₂ in
    let (counted, h₄) = require->>-eq-ok (count_failures receipt.files == receipt.failed) _ _ h₃ in
    let same = sym (ap (λ (x : Measurements). x.failed_records) (ok_injective h₄)) in
    record {
      no_mirror = ground arith;
      all_failures = same;
      as_reported = same ∙ (==_iff (count_failures receipt.files) receipt.failed).0 counted;
      accounted = λ path.
          (is_covered-accounted (map path_of receipt.files) receipt.missing_files receipt.selected
            path covered).0;
      not_both = λ path.
          (is_covered-accounted (map path_of receipt.files) receipt.missing_files receipt.selected
            path covered).1;
    }
