-- ===== src/Smoke/Exact/Reflexive.antt =====
-- `exact` and `==` hold of a document and itself.
use doris_ducklake.Prelude.{
  Bool-cases, Dict, Text, Unique, arith, contains, every, false, inl, inr, keys, lookup, none, refl,
  some, text_eq, text_eq_iff, text_eq_refl, true, ◌∷◌, ◌≡◌,
}
use doris_ducklake.Prelude.Int.{diff_self, negsuc, pos}
use doris_ducklake.Json.{
  Decimal, Elements, Fields, Value, arr, bool, cons, dec, end, eq_Decimal, field, items, nil, null,
  num, obj, pairs, str,
}
use doris_ducklake.Smoke.Exact.{eq_numbers, py_eq, py_eq_fields, py_eq_items, same_key_set}

-- No object of the document has a key twice, as in all that `json.loads` returns.
unfoldable mutual
  pub IsDocument : Value → Type 0
  IsDocument (arr vs) = AreDocuments vs
  IsDocument (obj fs) = Unique (pairs fs) × HasDocuments fs
  IsDocument null = Unit
  IsDocument (bool _) = Unit
  IsDocument (num _) = Unit
  IsDocument (dec _) = Unit
  IsDocument (str _) = Unit

  pub AreDocuments : Elements → Type 0
  AreDocuments nil = Unit
  AreDocuments (cons v vs) = IsDocument v × AreDocuments vs

  pub HasDocuments : Fields → Type 0
  HasDocuments end = Unit
  HasDocuments (field _ v fs) = IsDocument v × HasDocuments fs

-- Each entry of the second is found in the first.
abbrev IsSubDict : Dict Value → Fields → Type 0
IsSubDict d end = Unit
IsSubDict d (field k v fs) = (lookup k d ≡ some v) × IsSubDict d fs

IsSubDict-cons :
    (k : Text) (v : Value) (d : Dict Value) (fs : Fields)
    → lookup k (pairs fs) ≡ none
    → IsSubDict d fs
    → IsSubDict ((k, v) ∷ d) fs
unfolding lookup
IsSubDict-cons k v d end u h = tt
IsSubDict-cons k v d (field j w fs) u h = elim (Bool-cases (text_eq j k)) [
  | inl same ↦ cc (rw same at u)
  | inr other ↦ (
    ground (arith, text_eq_iff k j, text_eq_iff j k),
    IsSubDict-cons k v d fs (rw other at u) h.1,
  )
]

IsSubDict-refl : (fs : Fields) → Unique (pairs fs) → IsSubDict (pairs fs) fs
unfolding lookup
IsSubDict-refl end u = tt
IsSubDict-refl (field k v fs) u =
    (rw text_eq_refl, IsSubDict-cons k v (pairs fs) fs u.0 (IsSubDict-refl fs u.1))

every-contains :
    (d : Dict Value) (fs : Fields)
    → IsSubDict d fs
    → every (λ k. contains k d) (keys (pairs fs)) ≡ true
unfolding contains
every-contains d end h = refl
every-contains d (field k v fs) h = rw (contains, h.0) (every-contains d fs h.1)

same_key_set_refl : (fs : Fields) → Unique (pairs fs) → same_key_set (pairs fs) (pairs fs) ≡ true
unfolding same_key_set
same_key_set_refl fs u = ground (arith, every-contains (pairs fs) fs (IsSubDict-refl fs u))

eq_Decimal_refl : (d : Decimal) → eq_Decimal d d ≡ true
unfolding eq_Decimal
eq_Decimal_refl d = rw (diff_self d.exponent) (ground arith)

eq_numbers_refl : (d : Decimal) → eq_numbers (some d) (some d) ≡ true
eq_numbers_refl d = eq_Decimal_refl d

mutual
  unfolding py_eq IsDocument

  py_eq_self : (v : Value) → IsDocument v → py_eq v v ≡ true
  py_eq_self null h = refl
  py_eq_self (bool true) h = eq_numbers_refl _
  py_eq_self (bool false) h = eq_numbers_refl _
  py_eq_self (num (pos n)) h = eq_numbers_refl _
  py_eq_self (num (negsuc n)) h = eq_numbers_refl _
  py_eq_self (dec d) h = eq_numbers_refl d
  py_eq_self (str s) h = text_eq_refl s
  py_eq_self (arr vs) h = py_eq_items_self vs h
  py_eq_self (obj fs) h =
      rw (same_key_set_refl fs h.0) (py_eq_fields_self (pairs fs) fs (IsSubDict-refl fs h.0) h.1)

  py_eq_items_self : (vs : Elements) → AreDocuments vs → py_eq_items (items vs) vs ≡ true
  py_eq_items_self nil h = refl
  py_eq_items_self (cons v vs) h = rw (py_eq_self v h.0) (py_eq_items_self vs h.1)

  py_eq_fields_self :
      (d : Dict Value) (fs : Fields) → IsSubDict d fs → HasDocuments fs → py_eq_fields d fs ≡ true
  py_eq_fields_self d end s h = refl
  py_eq_fields_self d (field k v fs) s h =
      rw (s.0, py_eq_self v h.0) (py_eq_fields_self d fs s.1 h.1)

pub py_eq_refl : (v : Value) → IsDocument v → py_eq v v ≡ true
py_eq_refl v h = py_eq_self v h
