-- ===== src/Smoke/Procedures/Counting.antt =====
-- What a counted result has been checked for.
-- An expiry's output, column by column.
use doris_ducklake.Prelude.{
  ==_iff, >>=-eq-ok, List, Text, [], and_true, ap, if◌then◌else◌, length, ok, ok_injective, refl,
  require->>-eq-ok, split, subst, text, text_eq, text_eq_refl, text_eq_sound, true, ℕ, ◌&&◌, ◌==◌,
  ◌∙◌, ◌∷◌, ◌≡◌,
}
use doris_ducklake.Smoke.Policy.{integer}
use doris_ducklake.Smoke.Procedures.{
  are_distinct_numbers, collection_result, expiry_result, expiry_scope, is_actual_result,
  is_actual_run, procedure, read_ids,
}

pub record IsExpiry (output : Text) (count : ℕ) : Type 0 where
  pub dry : Text
  pub counted : Text
  pub other : Text
  pub listed : Text
  pub ids : List ℕ
  pub columns : split b'\t' output ≡ dry ∷ expiry_scope ∷ counted ∷ other ∷ listed ∷ []
  pub actual : is_actual_run dry ≡ true
  pub says : integer counted ≡ ok count
  pub lists : read_ids listed ≡ ok ids
  pub distinct : are_distinct_numbers ids ≡ true
  pub as_many : length ids ≡ count

expiry_result-columns :
    (output : Text) (values : List Text) (r : ℕ × ℕ)
    → split b'\t' output ≡ values
    → is_actual_result values ≡ true
    → expiry_result values ≡ ok r
    → IsExpiry output r.0 × (r.1 ≡ 0)
unfolding expiry_result
expiry_result-columns output [] r e a h = cc
expiry_result-columns output (_ ∷ []) r e a h = cc
expiry_result-columns output (_ ∷ _ ∷ []) r e a h = cc
expiry_result-columns output (_ ∷ _ ∷ _ ∷ []) r e a h = cc
expiry_result-columns output (_ ∷ _ ∷ _ ∷ _ ∷ []) r e a h = cc
expiry_result-columns output (_ ∷ _ ∷ _ ∷ _ ∷ _ ∷ _ ∷ _) r e a h = cc
expiry_result-columns output (dry ∷ scope ∷ counted ∷ other ∷ listed ∷ []) r e a h =
    let (scoped, h₁) = require->>-eq-ok (text_eq scope expiry_scope) _ _ h in
    let (count, is_count, h₂) = >>=-eq-ok (integer counted) _ h₁ in
    let (checked, _, h₃) = >>=-eq-ok (integer other) _ h₂ in
    let (ids, are_ids, h₄) = >>=-eq-ok (read_ids listed) _ h₃ in
    let (agree, h₅) = require->>-eq-ok (are_distinct_numbers ids && (length ids == count)) _ _ h₄ in
    let both = and_true (are_distinct_numbers ids) (length ids == count) agree in
    let same_scope = text_eq_sound scope expiry_scope scoped in
    subst (λ (x : ℕ × ℕ). IsExpiry output x.0 × (x.1 ≡ 0)) (ok_injective h₅)
      (
        record {
          dry = dry;
          counted = counted;
          other = other;
          listed = listed;
          ids = ids;
          columns = e ∙ ap (λ (s : Text). dry ∷ s ∷ counted ∷ other ∷ listed ∷ []) same_scope;
          actual = a;
          says = is_count;
          lists = are_ids;
          distinct = both.0;
          as_many = (==_iff (length ids) count).0 both.1;
        },
        refl,
      )

-- When procedure accepts the output of an expiry, the output has five columns, is of an actual
-- and catalog-wide run, and the count that it gives is the number of its pairwise distinct
-- snapshot identifiers, with no failure reported beside it.
pub procedure-IsExpiry :
    (output : Text) (r : ℕ × ℕ)
    → procedure (text "expiry") output ≡ ok r
    → IsExpiry output r.0 × (r.1 ≡ 0)
unfolding procedure
procedure-IsExpiry output r h =
    let (actual, h₁) = require->>-eq-ok (is_actual_result (split b'\t' output)) _ _ h in
    let h₂ =
      subst
        (λ b.
          (if b
            then expiry_result (split b'\t' output)
            else collection_result (text "expiry") (split b'\t' output))
          ≡ ok r)
        (text_eq_refl (text "expiry")) h₁ in
    expiry_result-columns output (split b'\t' output) r refl actual h₂
