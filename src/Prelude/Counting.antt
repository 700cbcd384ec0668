-- ===== src/Prelude/Counting.antt =====
-- Two dictionaries of one length have the same keys if one's keys are among the other's.
use doris_ducklake.Prelude.{
  ==_iff, Bool, Bool-cases, Dict, Option, Option-cases, Text, Unique, [], and_true, ap, arith,
  contains, dict_eq, every, false, if-eq, if◌then◌else◌, inl, inr, length, lookup, none, refl, some,
  some_injective, subst, suc, sym, text_eq, text_eq_iff, text_eq_sound, true, ◌==◌, ◌||◌, ◌∙◌, ◌∷◌,
  ◌≡◌, ◌≢◌,
}

module _ {κ} {W : Type κ} where
  contains-here :
      (k q : Text) (w : W) (d : Dict W) → text_eq k q ≡ true → contains q ((k, w) ∷ d) ≡ true
  unfolding contains lookup
  contains-here k q w d h = ground arith

  contains-there :
      (k q : Text) (w : W) (d : Dict W) → contains q d ≡ true → contains q ((k, w) ∷ d) ≡ true
  unfolding contains lookup
  contains-there k q w d h = ground arith

module _ {ℓ} {V : Type ℓ} where
  -- The dictionary without the first entry of a key.
  unfoldable erase : Text → Dict V → Dict V
  erase k [] = []
  erase k ((j, w) ∷ e) = if text_eq j k then e else (j, w) ∷ erase k e

  length-erase : (k : Text) (e : Dict V) → contains k e ≡ true → length e ≡ suc (length (erase k e))
  unfolding erase contains lookup
  length-erase k [] h = cc
  length-erase k ((j, w) ∷ e) h = elim (Bool-cases (text_eq j k)) [
    | inl same ↦ rw same refl
    | inr other ↦ rw other (ap suc (length-erase k e (contains-tail h other)))
  ]
    where
      contains-tail : contains k ((j, w) ∷ e) ≡ true → text_eq j k ≡ false → contains k e ≡ true
      contains-tail h other = ground arith

  contains-cons :
      (q j : Text) (w : V) (e : Dict V) → contains q ((j, w) ∷ e) ≡ (text_eq j q || contains q e)
  unfolding contains lookup
  contains-cons q j w e = ground arith

  erase-cons :
      (k j : Text) (w : V) (e : Dict V)
      → erase k ((j, w) ∷ e) ≡ (if text_eq j k then e else (j, w) ∷ erase k e)
  unfolding erase
  erase-cons k j w e = refl

  contains-erase :
      (k q : Text) (e : Dict V) → text_eq k q ≡ false → contains q (erase k e) ≡ contains q e
  contains-erase k q [] h = unfold erase in refl
  contains-erase k q ((j, w) ∷ e) h = elim (Bool-cases (text_eq j k)) [
    | inl same ↦
        let is_k = text_eq_sound j k same in
        let apart : text_eq j q ≡ false = ap (λ t. text_eq t q) is_k ∙ h in
        rw (erase-cons k j w e, same, contains-cons q j w e, apart) refl
    | inr other ↦
        rw
          (
            erase-cons k j w e,
            other,
            contains-cons q j w (erase k e),
            contains-cons q j w e,
            contains-erase k q e h,
          )
          refl
  ]

  -- The keys of `d` are keys of `e`.
  abbrev pub IsWithin {κ} : {W : Type κ} → Dict W → Dict V → Type κ
  IsWithin [] e = Unit
  IsWithin ((k, _) ∷ d) e = (contains k e ≡ true) × IsWithin d e

  IsWithin-erase {κ} :
      {W : Type κ} (k : Text) (d : Dict W) (e : Dict V)
      → lookup k d ≡ none
      → IsWithin d e
      → IsWithin d (erase k e)
  unfolding lookup
  IsWithin-erase k [] e fresh h = tt
  IsWithin-erase k ((j, w) ∷ d) e fresh h = elim (Bool-cases (text_eq j k)) [
    | inl same ↦ cc (rw same at fresh)
    | inr other ↦ (
      contains-erase k j e (ground (arith, text_eq_iff k j, text_eq_iff j k)) ∙ h.0,
      IsWithin-erase k d e (rw other at fresh) h.1,
    )
  ]

  nothing : (e : Dict V) (q : Text) → length e ≡ 0 → contains q e ≢ true
  unfolding contains lookup
  nothing [] q n h = cc
  nothing (x ∷ e) q n h = cc

  pub contains-within {κ} :
      {W : Type κ} (d : Dict W) (e : Dict V) (q : Text)
      → Unique d
      → IsWithin d e
      → length d ≡ length e
      → contains q e ≡ true
      → contains q d ≡ true
  contains-within [] e q u h n is_in = absurd (nothing e q (sym n) is_in)
  contains-within ((k, v) ∷ d) e q u h n is_in = elim (Bool-cases (text_eq k q)) [
    | inl same ↦ contains-here k q v d same
    | inr other ↦ contains-there k q v d (
        contains-within d (erase k e) q u.1 (IsWithin-erase k d e u.0 h.1)
          (omega (arith, n, length-erase k e h.0)) (contains-erase k q e other ∙ is_in))
  ]

  -- What one entry of `dict_eq` says.
  found_equal :
      (eq : V → V → Bool) (k : Text) (v : V) (o : Option V)
      → elim o [ none ↦ false | some w ↦ eq v w ] ≡ true
      → (w : V) × (o ≡ some w) × (eq v w ≡ true)
  found_equal eq k v none h = cc
  found_equal eq k v (some w) h = (w, refl, h)

  contains-some : (k : Text) (e : Dict V) {w : V} → lookup k e ≡ some w → contains k e ≡ true
  unfolding contains
  contains-some k e h = rw (contains, h) refl

  contains-none : (k : Text) (e : Dict V) → lookup k e ≡ none → contains k e ≡ false
  unfolding contains
  contains-none k e h = rw (contains, h) refl

  entries-IsWithin :
      (eq : V → V → Bool) (d e : Dict V)
      → every (λ (k, v). elim (lookup k e) [ none ↦ false | some w ↦ eq v w ]) d ≡ true
      → IsWithin d e
  entries-IsWithin eq [] e h = tt
  entries-IsWithin eq ((k, v) ∷ d) e h =
      let both = and_true (elim (lookup k e) [ none ↦ false | some w ↦ eq v w ]) _ h in
      let (w, found, _) = found_equal eq k v (lookup k e) both.0 in
      (contains-some k e found, entries-IsWithin eq d e both.1)

  entries-lookup :
      (eq : V → V → Bool) (d e : Dict V) (q : Text) (v : V)
      → every (λ (k, x). elim (lookup k e) [ none ↦ false | some w ↦ eq x w ]) d ≡ true
      → lookup q d ≡ some v
      → (w : V) × (lookup q e ≡ some w) × (eq v w ≡ true)
  unfolding lookup
  entries-lookup eq [] e q v h is_v = cc
  entries-lookup eq ((k, x) ∷ d) e q v h is_v =
      let both = and_true (elim (lookup k e) [ none ↦ false | some w ↦ eq x w ]) _ h in
      elim (if-eq (text_eq k q) (some x) (lookup q d) is_v) [
        | inl (same, first) ↦
            let (w, found, equal) = found_equal eq k x (lookup k e) both.0 in
            (
              w,
              ap (λ t. lookup t e) (sym (text_eq_sound k q same)) ∙ found,
              subst (λ y. eq y w ≡ true) (some_injective first) equal,
            )
        | inr (_, later) ↦ entries-lookup eq d e q v both.1 later
      ]

  -- Equal dictionaries answer alike.
  pub dict_eq-lookup :
      (eq : V → V → Bool) (d e : Dict V) (q : Text)
      → ((v w : V) → eq v w ≡ true → v ≡ w)
      → Unique d
      → dict_eq eq d e ≡ true
      → lookup q d ≡ lookup q e
  unfolding dict_eq
  dict_eq-lookup eq d e q sound u h =
      let both = and_true (length d == length e) _ h in
      elim (Option-cases (lookup q d)) [
        | inr (v, is_v) ↦
            let (w, found, equal) = entries-lookup eq d e q v both.1 is_v in
            is_v ∙ ap some (sound v w equal) ∙ sym found
        | inl missing ↦ elim (Option-cases (lookup q e)) [
          | inl also ↦ missing ∙ sym also
          | inr (w, found) ↦
              let there =
                contains-within d e q u (entries-IsWithin eq d e both.1)
                  ((==_iff (length d) (length e)).0 both.0) (contains-some q e found) in
              cc (there, contains-none q d missing)
        ]
      ]
