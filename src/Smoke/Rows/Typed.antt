-- ===== src/Smoke/Rows/Typed.antt =====
-- Rows that are accepted for a fixture are the fixture.
use doris_ducklake.Smoke.Exact.Reflexive.{IsDocument, py_eq_refl}
use doris_ducklake.Prelude.{
  ==_self, >>=-eq-ok, >>=-ok, All, Dict, List, Result, Text, [], and_true, ap, ap₂, arith, contains,
  if-eq, if◌then◌else◌, inl, inr, length, lookup, ok, ok_injective, or_key_error,
  or_key_error-eq-ok, refl, require->>-eq-ok, require->>-ok, some, some_injective, subst, sym, text,
  text_eq, text_eq_iff, text_eq_sound, true, ◌&&◌, ◌==◌, ◌>>=◌, ◌>>◌, ◌↔◌, ◌∙◌, ◌∷◌, ◌≡◌,
}
use doris_ducklake.Prelude.Int.{negsuc, pos, ℤ, ◌-ℤ◌}
use doris_ducklake.Json.{Value, arr, bool, dec, eq_Decimal, null, num, obj, str}
use doris_ducklake.Smoke.Exact.{py_eq}
use doris_ducklake.Smoke.Rows.{
  Query, Row, check_fixture, compare_rows, fixtures, has_shape, queries, reference_rows, same_row,
  same_type, validate_rows,
}

-- A value whose `==` tells it from every other value of its type.
abbrev pub IsPlain : Value → Type 0
IsPlain null = Unit
IsPlain (num _) = Unit
IsPlain (str _) = Unit
IsPlain _ = ⊥

integer-eq : (a b : ℤ) → py_eq (num a) (num b) ≡ true → a ≡ b
unfolding py_eq eq_Decimal ◌-ℤ◌
integer-eq (pos n) (pos m) h = ap pos (ground arith)
integer-eq (pos n) (negsuc m) h = ground arith
integer-eq (negsuc n) (pos m) h = ground arith
integer-eq (negsuc n) (negsuc m) h = ap negsuc (ground arith)

plain-eq : (a e : Value) → IsPlain e → same_type a e ≡ true → py_eq a e ≡ true → a ≡ e
unfolding py_eq
plain-eq null null p t h = refl
plain-eq (num a) (num b) p t h = ap num (integer-eq a b h)
plain-eq (str a) (str b) p t h = ap str (text_eq_sound a b h)
plain-eq (bool _) null p t h = cc
plain-eq (num _) null p t h = cc
plain-eq (dec _) null p t h = cc
plain-eq (str _) null p t h = cc
plain-eq (arr _) null p t h = cc
plain-eq (obj _) null p t h = cc
plain-eq null (num _) p t h = cc
plain-eq (bool _) (num _) p t h = cc
plain-eq (dec _) (num _) p t h = cc
plain-eq (str _) (num _) p t h = cc
plain-eq (arr _) (num _) p t h = cc
plain-eq (obj _) (num _) p t h = cc
plain-eq null (str _) p t h = cc
plain-eq (bool _) (str _) p t h = cc
plain-eq (num _) (str _) p t h = cc
plain-eq (dec _) (str _) p t h = cc
plain-eq (arr _) (str _) p t h = cc
plain-eq (obj _) (str _) p t h = cc
plain-eq _ (bool _) p t h = absurd p
plain-eq _ (dec _) p t h = absurd p
plain-eq _ (arr _) p t h = absurd p
plain-eq _ (obj _) p t h = absurd p

same_row-eq : (as_ es : Row) → All IsPlain es → same_row as_ es ≡ true → as_ ≡ es
unfolding same_row
same_row-eq [] [] p h = refl
same_row-eq [] (e ∷ es) p h = cc
same_row-eq (a ∷ as_) [] p h = cc
same_row-eq (a ∷ as_) (e ∷ es) p h =
    let first = and_true (same_type a e && py_eq a e) (same_row as_ es) h in
    let equal = and_true (same_type a e) (py_eq a e) first.0 in
    ap₂ ◌∷◌ (plain-eq a e p.0 equal.0 equal.1) (same_row-eq as_ es p.1 first.1)

compare_rows-eq :
    (rows expected : List Row)
    → All (All IsPlain) expected
    → (length rows == length expected) ≡ true
    → compare_rows rows expected ≡ ok tt
    → rows ≡ expected
unfolding compare_rows
compare_rows-eq [] [] p n h = refl
compare_rows-eq [] (e ∷ es) p n h = ground arith
compare_rows-eq (a ∷ as_) [] p n h = ground arith
compare_rows-eq (a ∷ as_) (e ∷ es) p n h =
    let (same, rest) = require->>-eq-ok (same_row a e) _ _ h in
    ap₂ ◌∷◌ (same_row-eq a e p.0 same) (compare_rows-eq as_ es p.1 (ground arith) rest)

plain_self : (e : Value) → IsPlain e → (same_type e e && py_eq e e) ≡ true
unfolding IsDocument
plain_self null p = py_eq_refl null tt
plain_self (num n) p = py_eq_refl (num n) tt
plain_self (str s) p = py_eq_refl (str s) tt
plain_self (bool _) p = absurd p
plain_self (dec _) p = absurd p
plain_self (arr _) p = absurd p
plain_self (obj _) p = absurd p

same_row_self : (es : Row) → All IsPlain es → same_row es es ≡ true
unfolding same_row
same_row_self [] p = refl
same_row_self (e ∷ es) p = ground (arith, plain_self e p.0, same_row_self es p.1)

compare_rows_self : (rows : List Row) → All (All IsPlain) rows → compare_rows rows rows ≡ ok tt
unfolding compare_rows
compare_rows_self [] p = refl
compare_rows_self (r ∷ rs) p = require->>-ok _ (same_row_self r p.0) (compare_rows_self rs p.1)

-- Against a fixture of integers, texts and nulls, validate_rows accepts the fixture's rows and no
-- others, and it returns them.
pub validate_rows_iff :
    (rows expected result : List Row)
    → All (All IsPlain) expected
    → (validate_rows rows expected ≡ ok result) ↔ ((rows ≡ expected) × (result ≡ expected))
unfolding validate_rows
validate_rows_iff rows expected result p = (
  λ h.
      let (n, h₁) = require->>-eq-ok (length rows == length expected) _ _ h in
      let (_, compared, h₂) = >>=-eq-ok (compare_rows rows expected) _ h₁ in
      let same = compare_rows-eq rows expected p n compared in (same, sym (ok_injective h₂) ∙ same),
  λ (same, returned).
      require->>-ok _ (ap (λ r. length r == length expected) same ∙ ==_self (length expected)) (
        >>=-ok _ (ap (λ r. compare_rows r expected) same ∙ compare_rows_self expected p)
          (ap ok (same ∙ sym returned))),
)

-- What every reference query's rows have, and the two that must be their fixture.
pub record AreReference (key : Text) (rows : List Row) : Type 0 where
  pub query : Query
  pub is_known : lookup key queries ≡ some query
  pub shape : has_shape query rows ≡ true
  pub nullable : key ≡ text "nullable_rows" → lookup (text "nullable") fixtures ≡ some rows
  pub defaults : key ≡ text "defaults" → lookup (text "defaults") fixtures ≡ some rows

lookup-All {ℓ κ} :
    {V : Type ℓ} (P : V → Type κ) (k : Text) (d : Dict V) {v : V}
    → All (λ (e : Text × V). P e.1) d
    → lookup k d ≡ some v
    → P v
unfolding lookup
lookup-All P k [] all h = cc
lookup-All P k ((j, w) ∷ d) all h = elim (if-eq (text_eq j k) (some w) (lookup k d) h) [
  | inl (_, found) ↦ subst P (some_injective found) all.0
  | inr (_, later) ↦ lookup-All P k d all.1 later
]

fixture-IsPlain :
    (name : Text) {rows : List Row} → lookup name fixtures ≡ some rows → All (All IsPlain) rows
fixture-IsPlain name h =
    lookup-All (All (All IsPlain)) name fixtures
      (
        tt,
        (
          ((tt, (tt, tt)), ((tt, (tt, tt)), tt)),
          (
            ((tt, (tt, tt)), ((tt, (tt, tt)), ((tt, (tt, tt)), tt))),
            (
              ((tt, (tt, tt)), ((tt, (tt, tt)), ((tt, (tt, tt)), ((tt, (tt, tt)), tt)))),
              (((tt, (tt, tt)), ((tt, (tt, tt)), ((tt, (tt, tt)), ((tt, (tt, tt)), tt)))), tt),
            ),
          ),
        ),
      )
      h

check_fixture-eq :
    (key name fixture : Text) (rows : List Row)
    → check_fixture key name fixture rows ≡ ok tt
    → key ≡ name
    → lookup fixture fixtures ≡ some rows
unfolding check_fixture
check_fixture-eq key name fixture rows h same =
    let h₁ =
      subst
        (λ b.
          (if b
            then (do
              expected ← or_key_error (lookup fixture fixtures)
              checked ← validate_rows rows expected
              ok tt)
            else ok tt)
          ≡ ok tt)
        ((text_eq_iff key name).1 same) h in
    let (expected, is_expected, h₂) = >>=-eq-ok (or_key_error (lookup fixture fixtures)) _ h₁ in
    let (checked, valid, _) = >>=-eq-ok (validate_rows rows expected) _ h₂ in
    let found = or_key_error-eq-ok (lookup fixture fixtures) is_expected in
    let (equal, _) =
      (validate_rows_iff rows expected checked (fixture-IsPlain fixture found)).0 valid in
    found ∙ ap some (sym equal)

-- When reference_rows returns rows for a key, the key is that of one of the queries, the rows
-- have its count and its column types, and those of `nullable_rows` and of `defaults` are the
-- fixture itself.
pub reference_rows-AreReference :
    (fetch : Text → Result (List Row)) (key : Text) (rows : List Row)
    → reference_rows fetch key ≡ ok rows
    → AreReference key rows
unfolding reference_rows
reference_rows-AreReference fetch key rows h =
    let (_, h₁) = require->>-eq-ok (contains key queries) _ _ h in
    let (q, is_q, h₂) = >>=-eq-ok (or_key_error (lookup key queries)) _ h₁ in
    let (read, _, h₃) = >>=-eq-ok (fetch q.sql) _ h₂ in
    let (shape, h₄) = require->>-eq-ok (has_shape q read) _ _ h₃ in
    let (_, first, h₅) =
      >>=-eq-ok (check_fixture key (text "nullable_rows") (text "nullable") read)
        (λ _. check_fixture key (text "defaults") (text "defaults") read >> ok read) h₄ in
    let (_, second, h₆) =
      >>=-eq-ok (check_fixture key (text "defaults") (text "defaults") read) (λ _. ok read) h₅ in
    let same : read ≡ rows = ok_injective h₆ in
    subst (AreReference key) same (record {
      query = q;
      is_known = or_key_error-eq-ok (lookup key queries) is_q;
      shape = shape;
      nullable = check_fixture-eq key _ _ read first;
      defaults = check_fixture-eq key _ _ read second;
    })
