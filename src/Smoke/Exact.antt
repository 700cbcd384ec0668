-- ===== src/Smoke/Exact.antt =====
-- `exact` and `serializable` of compose/smoke_checks.py, and Python's looser `==` on documents.
pub mod Reflexive
use doris_ducklake.Prelude.{
  Bool, Dict, List, Option, Text, [], contains, every, false, keys, length, lookup, none, some,
  text, text_eq, true, ◌&&◌, ◌+◌, ◌==◌, ◌∷◌,
}
use doris_ducklake.Prelude.Int.{eq_ℤ, negsuc, pos}
use doris_ducklake.Json.{
  Decimal, Elements, Fields, Value, arr, bool, cons, dec, end, eq_Decimal, field, is_null, items,
  nil, null, num, obj, pairs, same_bool, str,
}

-- `actual.keys() == expected.keys()`, for dictionaries without a repeated key.
unfoldable pub same_key_set : Dict Value → Dict Value → Bool
same_key_set d e = (length d == length e) && every (λ k. contains k d) (keys e)

-- Equality that tells a Boolean from a number and an integer from a fraction.
unfoldable mutual
  pub exact : Value → Value → Bool
  exact a null = is_null a
  exact (bool a) (bool b) = same_bool a b
  exact _ (bool b) = false
  exact (num a) (num b) = eq_ℤ a b
  exact _ (num b) = false
  exact (dec a) (dec b) = eq_Decimal a b
  exact _ (dec b) = false
  exact (str a) (str b) = text_eq a b
  exact _ (str b) = false
  exact (arr a) (arr b) = exact_items (items a) b
  exact _ (arr b) = false
  exact (obj a) (obj b) = same_key_set (pairs a) (pairs b) && exact_fields (pairs a) b
  exact _ (obj b) = false

  -- The lengths are compared along the way.
  pub exact_items : List Value → Elements → Bool
  exact_items [] nil = true
  exact_items (a ∷ as_) nil = false
  exact_items [] (cons e es) = false
  exact_items (a ∷ as_) (cons e es) = exact a e && exact_items as_ es

  pub exact_fields : Dict Value → Fields → Bool
  exact_fields actual end = true
  exact_fields actual (field k e es) =
      (elim (lookup k actual) [ none ↦ false | some a ↦ exact a e ]) && exact_fields actual es

-- A Boolean and an integer count as numbers for `==`.
abbrev pub as_decimal : Value → Option Decimal
as_decimal (bool true) = some (record { negative = false; coefficient = 1; exponent = pos 0 })
as_decimal (bool false) = some (record { negative = false; coefficient = 0; exponent = pos 0 })
as_decimal (num (pos n)) = some (record { negative = false; coefficient = n; exponent = pos 0 })
as_decimal (num (negsuc n)) =
    some (record { negative = true; coefficient = n + 1; exponent = pos 0 })
as_decimal (dec d) = some d
as_decimal _ = none

abbrev pub eq_numbers : Option Decimal → Option Decimal → Bool
eq_numbers (some a) (some b) = eq_Decimal a b
eq_numbers _ _ = false

-- Python's `==` on decoded documents.
unfoldable mutual
  pub py_eq : Value → Value → Bool
  py_eq a null = is_null a
  py_eq a (bool b) = eq_numbers (as_decimal a) (as_decimal (bool b))
  py_eq a (num b) = eq_numbers (as_decimal a) (as_decimal (num b))
  py_eq a (dec b) = eq_numbers (as_decimal a) (some b)
  py_eq (str a) (str b) = text_eq a b
  py_eq _ (str b) = false
  py_eq (arr a) (arr b) = py_eq_items (items a) b
  py_eq _ (arr b) = false
  py_eq (obj a) (obj b) = same_key_set (pairs a) (pairs b) && py_eq_fields (pairs a) b
  py_eq _ (obj b) = false

  pub py_eq_items : List Value → Elements → Bool
  py_eq_items [] nil = true
  py_eq_items (a ∷ as_) nil = false
  py_eq_items [] (cons e es) = false
  py_eq_items (a ∷ as_) (cons e es) = py_eq a e && py_eq_items as_ es

  pub py_eq_fields : Dict Value → Fields → Bool
  py_eq_fields actual end = true
  py_eq_fields actual (field k e es) =
      (elim (lookup k actual) [ none ↦ false | some a ↦ py_eq a e ]) && py_eq_fields actual es

-- `decimal_text` is `str` of a `Decimal`.
module _ (decimal_text : Decimal → Text) where
  unfoldable mutual
    pub serializable : Value → Value
    serializable (dec d) = obj (field (text "decimal") (str (decimal_text d)) end)
    serializable (arr vs) = arr (serializable_items vs)
    serializable (obj fs) = obj (serializable_fields fs)
    serializable null = null
    serializable (bool b) = bool b
    serializable (num n) = num n
    serializable (str s) = str s

    pub serializable_items : Elements → Elements
    serializable_items nil = nil
    serializable_items (cons v vs) = cons (serializable v) (serializable_items vs)

    pub serializable_fields : Fields → Fields
    serializable_fields end = end
    serializable_fields (field k v fs) = field k (serializable v) (serializable_fields fs)
