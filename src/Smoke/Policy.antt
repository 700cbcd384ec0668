-- ===== src/Smoke/Policy.antt =====
-- The required cases of compose/smoke_checks.py, the expectation that each must be checked
-- against, and `evaluate`, the operators by which it is.
use doris_ducklake.Prelude.{
  Bool, Dict, Guard, List, Option, Result, String, Text, [], err, every, false, if◌then◌else◌,
  length, lookup, ltb, member, none, ok, require, some, text, text_eq, true, value_error, ℕ, ◌&&◌,
  ◌==◌, ◌∷◌,
}
use doris_ducklake.Prelude.Int.{eq_ℤ, leb_ℤ, pos, ℤ, ◌-ℤ◌}
use doris_ducklake.Prelude.Digits.{is_numeral, read}
use doris_ducklake.Json.{
  Value, arr, bool, cons, entries_of, is_int, is_obj, is_str, is_text, items, nil, null, num, str,
  to_items,
}
use doris_ducklake.Smoke.Exact.{exact}

-- `REQUIRED`
abbrev pub required_cases : List Text
required_cases =
    text "tpch_counts"
    ∷ text "tpch_sample"
    ∷ text "nullable_counts"
    ∷ text "nullable_rows"
    ∷ text "filter_plan"
    ∷ text "filter_rows"
    ∷ text "delete_file"
    ∷ text "delete_count"
    ∷ text "delete_rows"
    ∷ text "ddl_schema_create"
    ∷ text "ddl_columns"
    ∷ text "ddl_empty"
    ∷ text "ddl_insert"
    ∷ text "ddl_bucket"
    ∷ text "ddl_drop"
    ∷ text "w2_rows"
    ∷ text "w2_files"
    ∷ text "w2c_rows"
    ∷ text "w2c_buckets"
    ∷ text "w2c_pruning"
    ∷ text "ctas_rows"
    ∷ text "ctas_files"
    ∷ text "defaults"
    ∷ text "expiry"
    ∷ text "cleanup"
    ∷ text "orphans"
    ∷ text "gc_referenced"
    ∷ text "fixture_cleanup"
    ∷ []

abbrev pub int : ℕ → Value
int n = num (pos n)

abbrev pub list : List Value → Value
list vs = arr (to_items vs)

abbrev pub named_row : ℕ → String → Value
named_row n name = list (int n ∷ str (text name) ∷ [])

abbrev pub two_rows : Value
two_rows = list (named_row 1 "alice" ∷ named_row 2 "bob" ∷ [])

-- `THREE`
abbrev pub three_rows : Value
three_rows = list (named_row 1 "alice" ∷ named_row 2 "bob" ∷ named_row 3 "charlie" ∷ [])

abbrev pair_row : ℕ → ℕ → Value
pair_row a b = list (int a ∷ int b ∷ [])

abbrev pub nullable_values : Value
nullable_values =
    list (pair_row 1 10 ∷ list (int 2 ∷ null ∷ []) ∷ pair_row 3 30 ∷ list (int 4 ∷ null ∷ []) ∷ [])

abbrev pub default_values : Value
default_values = list (pair_row 1 42 ∷ pair_row 2 42 ∷ pair_row 3 42 ∷ pair_row 4 99 ∷ [])

abbrev pub equals : Value → Text × Value
equals v = (text "eq", v)

abbrev pub at_least : ℕ → Text × Value
at_least n = (text "ge", int n)

-- `POLICY`
abbrev pub policy : Dict (Text × Value)
policy =
    (text "tpch_counts", equals (list (int 15000 ∷ int 60175 ∷ [])))
    ∷ (text "nullable_counts", equals (list (int 4 ∷ int 2 ∷ [])))
    ∷ (text "nullable_rows", equals nullable_values)
    ∷ (text "filter_plan", equals (bool true))
    ∷ (text "delete_file", at_least 1)
    ∷ (text "delete_count", equals (int 93))
    ∷ (text "ddl_schema_create", equals (int 1))
    ∷ (text "ddl_columns", equals (list (str (text "id") ∷ str (text "name") ∷ [])))
    ∷ (text "ddl_empty", equals (list []))
    ∷ (text "ddl_insert", equals two_rows)
    ∷ (text "ddl_bucket", equals (list (str (text "bucket(4)") ∷ [])))
    ∷ (text "ddl_drop", equals (int 0))
    ∷ (text "w2_rows", equals three_rows)
    ∷ (text "w2_files", at_least 1)
    ∷ (text "w2c_rows", equals three_rows)
    ∷ (text "w2c_buckets", equals (list (int 1 ∷ int 2 ∷ int 3 ∷ [])))
    ∷ (text "w2c_pruning", equals (int 1))
    ∷ (text "ctas_rows", equals three_rows)
    ∷ (text "ctas_files", at_least 1)
    ∷ (text "defaults", equals default_values)
    ∷ (text "expiry", (text "expiry", null))
    ∷ (text "cleanup", (text "cleanup", null))
    ∷ (text "orphans", (text "orphans", null))
    ∷ (text "gc_referenced", equals three_rows)
    ∷ (text "fixture_cleanup", equals (bool true))
    ∷ []

-- `re.fullmatch(r"[0-9]+", value)`, then `int(value)`.
unfoldable pub integer : Text → Result ℕ
integer value =
    if is_numeral value
    then ok (read value)
    else err (value_error "Expected an unsigned integer result")

-- `actual.get(k)`, if its type is `int`.
unfoldable pub int_of : Text → Dict Value → Option ℤ
int_of k d = elim (lookup k d) [ none ↦ none | some v ↦ elim v [ num n ↦ some n | _ ↦ none ] ]

abbrev pub is_at_least : Option ℤ → ℕ → Bool
is_at_least none n = false
is_at_least (some i) n = leb_ℤ (pos n) i

abbrev pub is_zero : Option ℤ → Bool
is_zero none = false
is_zero (some i) = eq_ℤ i (pos 0)

abbrev difference_is : Option ℤ → Option ℤ → Option ℤ → Bool
difference_is (some before) (some after) (some expired) = eq_ℤ (before -ℤ after) expired
difference_is _ _ _ = false

-- `actual.get(k) == "…"`
unfoldable pub field_is : Text → Dict Value → Text → Bool
field_is k d t = elim (lookup k d) [ none ↦ false | some v ↦ is_text v t ]

unfoldable pub expiry_holds : Dict Value → Bool
expiry_holds d =
    is_at_least (int_of (text "expired") d) 1
    && is_at_least (int_of (text "after") d) 1
    && difference_is (int_of (text "before") d) (int_of (text "after") d)
        (int_of (text "expired") d)

unfoldable pub cleanup_holds : Dict Value → Bool
cleanup_holds d =
    is_at_least (int_of (text "deleted") d) 1
    && is_zero (int_of (text "failed") d)
    && field_is (text "blob") d (text "gone")
    && is_zero (int_of (text "schedule") d)

unfoldable pub orphans_hold : Dict Value → Bool
orphans_hold d =
    is_at_least (int_of (text "deleted") d) 1
    && is_zero (int_of (text "failed") d)
    && field_is (text "orphan") d (text "gone")
    && field_is (text "success") d (text "present")
    && field_is (text "foreign") d (text "present")

abbrev ge_holds : Value → Value → Bool
ge_holds (num actual) (num expected) = leb_ℤ expected actual
ge_holds _ _ = false

unfoldable pub evaluate : Text → Value → Value → Result Bool
evaluate operator actual expected =
    if text_eq operator (text "eq")
    then ok (exact actual expected)
    else if text_eq operator (text "ge")
    then ok (ge_holds actual expected)
    else if text_eq operator (text "expiry")
    then ok (is_obj actual && expiry_holds (entries_of actual))
    else if text_eq operator (text "cleanup")
    then ok (is_obj actual && cleanup_holds (entries_of actual))
    else if text_eq operator (text "orphans")
    then ok (is_obj actual && orphans_hold (entries_of actual))
    else err (value_error "Unknown assertion operator")

-- A row of the native oracle: an integer and a text.
abbrev pub is_oracle_row : Value → Bool
is_oracle_row (arr (cons key (cons status nil))) = is_int key && is_str status
is_oracle_row _ = false

abbrev oracle_count : Text → ℕ → Bool
oracle_count case n =
    if text_eq case (text "filter_rows")
    then ltb 0 n && ltb n 100
    else n == (if text_eq case (text "tpch_sample") then 5 else 93)

abbrev pub are_oracle_rows : Text → Value → Bool
are_oracle_rows case (arr rows) =
    oracle_count case (length (items rows)) && every is_oracle_row (items rows)
are_oracle_rows case _ = false

abbrev follows_policy : Option (Text × Value) → Text → Value → Bool
follows_policy none operator expected = false
follows_policy (some (op, value)) operator expected = text_eq operator op && exact expected value

-- The condition of either branch of `validate_policy`.
unfoldable pub is_policy : Text → Text → Value → Bool
is_policy case operator expected =
    if member case (text "tpch_sample" ∷ text "delete_rows" ∷ text "filter_rows" ∷ [])
    then text_eq operator (text "eq") && are_oracle_rows case expected
    else follows_policy (lookup case policy) operator expected

unfoldable pub validate_policy : Text → Text → Value → Guard
validate_policy case operator expected =
    require (is_policy case operator expected) "Assertion differs from its required case policy"
