-- ===== src/Json.antt =====
-- Decoded JSON documents, as `json.loads` hands them to compose/*.py, and the dynamic operations
-- that the scripts apply to them. An object is its list of pairs, in document order.
use doris_ducklake.Prelude.{
  Bool, Dict, List, Result, Text, [], ap, attribute_error, contains, err, false, if◌then◌else◌,
  insert, key_error, keys, lookup, map, member, none, not, ok, require, some, text, text_eq,
  text_eq_sound, true, type_error, ℕ, ◌&&◌, ◌*◌, ◌+◌, ◌==◌, ◌>>=◌, ◌>>◌, ◌^◌, ◌||◌, ◌∷◌, ◌≡◌,
}
use doris_ducklake.Prelude.Int.{eq_ℤ, neg_part, negsuc, pos, pos_part, ℤ, ◌-ℤ◌}
use doris_ducklake.Prelude.Digits.{show}

-- A `Decimal`, the value of `parse_float`: ± coefficient * 10 ^ exponent.
pub record Decimal : Type 0 where
  pub negative : Bool
  pub coefficient : ℕ
  pub exponent : ℤ

mutual
  pub data Value : Type 0 where
    null : Value
    bool : Bool → Value
    num : ℤ → Value
    dec : Decimal → Value
    str : Text → Value
    arr : Elements → Value
    obj : Fields → Value

  pub data Fields : Type 0 where
    end : Fields
    field : Text → Value → Fields → Fields

  pub data Elements : Type 0 where
    nil : Elements
    cons : Value → Elements → Elements

abbrev pub items : Elements → List Value
items nil = []
items (cons v vs) = v ∷ items vs

abbrev pub pairs : Fields → Dict Value
pairs end = []
pairs (field k v fs) = (k, v) ∷ pairs fs

abbrev pub to_items : List Value → Elements
to_items [] = nil
to_items (v ∷ vs) = cons v (to_items vs)

abbrev pub to_fields : Dict Value → Fields
to_fields [] = end
to_fields ((k, v) ∷ d) = field k v (to_fields d)

abbrev pub same_bool : Bool → Bool → Bool
same_bool true y = y
same_bool false y = not y

-- `Decimal.__eq__`: numeric, so that 1.0 and 1.00 are equal, and 0 and -0.
unfoldable pub eq_Decimal : Decimal → Decimal → Bool
unfolding ◌-ℤ◌
eq_Decimal a b =
    let shift = a.exponent -ℤ b.exponent in
    (a.coefficient * 10 ^ pos_part shift == b.coefficient * 10 ^ neg_part shift)
    && ((a.coefficient == 0) || same_bool a.negative b.negative)

-- `bool(v)`.
unfoldable pub truthy : Value → Bool
truthy null = false
truthy (bool b) = b
truthy (num i) = not (eq_ℤ i (pos 0))
truthy (dec d) = not (d.coefficient == 0)
truthy (str []) = false
truthy (str (_ ∷ _)) = true
truthy (arr nil) = false
truthy (arr (cons _ _)) = true
truthy (obj end) = false
truthy (obj (field _ _ _)) = true

abbrev pub is_str : Value → Bool
is_str (str _) = true
is_str _ = false

abbrev pub is_int : Value → Bool
is_int (num _) = true
is_int _ = false

abbrev pub is_obj : Value → Bool
is_obj (obj _) = true
is_obj _ = false

abbrev pub is_null : Value → Bool
is_null null = true
is_null _ = false

-- `v == "…"`, for a constant text.
abbrev pub is_text : Value → Text → Bool
is_text (str s) t = text_eq s t
is_text _ t = false

-- `v.get(k)`, which is `None` on a missing key.
unfoldable pub get : Text → Value → Result Value
get k (obj fs) = elim (lookup k (pairs fs)) [ none ↦ ok null | some v ↦ ok v ]
get k _ = err attribute_error

-- `v.get(k, d)`.
unfoldable pub get_default : Text → Value → Value → Result Value
get_default k d (obj fs) = elim (lookup k (pairs fs)) [ none ↦ ok d | some v ↦ ok v ]
get_default k d _ = err attribute_error

-- `v[k]`, for a text `k`.
unfoldable pub item : Text → Value → Result Value
item k (obj fs) = elim (lookup k (pairs fs)) [ none ↦ err key_error | some v ↦ ok v ]
item k _ = err type_error

-- `k in v`, for an object.
unfoldable pub has_key : Text → Value → Result Bool
has_key k (obj fs) = ok (contains k (pairs fs))
has_key k _ = err type_error

-- `for x in v`: the items of a list, or the keys of an object. A text is iterated nowhere.
unfoldable pub iterate : Value → Result (List Value)
iterate (arr vs) = ok (items vs)
iterate (obj fs) = ok (map str (keys (pairs fs)))
iterate _ = err type_error

-- `v or []`, `v or {}`.
abbrev pub or_else : Value → Value → Value
or_else v d = if truthy v then v else d

-- `v in {"…", …}`: a list or an object has no hash.
unfoldable pub in_set : Value → List Text → Result Bool
unfolding member
in_set (arr _) ts = err type_error
in_set (obj _) ts = err type_error
in_set (str s) ts = ok (member s ts)
in_set _ ts = ok false

-- `v.get(k, {})`, for a `k` that is itself a value: what is no text is no key of a JSON object,
-- and a list or an object has no hash.
unfoldable pub by_key : Value → Value → Result Value
by_key (str k) (obj fs) = elim (lookup k (pairs fs)) [ none ↦ ok (obj end) | some v ↦ ok v ]
by_key (arr _) (obj fs) = err type_error
by_key (obj _) (obj fs) = err type_error
by_key _ (obj fs) = ok (obj end)
by_key k _ = err attribute_error

-- `str(v)`. It is read only for being a number or one of a few texts, which the `repr` of a
-- fraction, a list or an object never is: such a value is represented by its first character.
unfoldable pub to_text : Value → Text
unfolding show
to_text null = text "None"
to_text (bool true) = text "True"
to_text (bool false) = text "False"
to_text (num (pos n)) = show n
to_text (num (negsuc n)) = b'-' ∷ show (n + 1)
to_text (dec _) = text "."
to_text (str s) = s
to_text (arr _) = text "["
to_text (obj _) = text "{"

-- `object_pairs_hook=unique_object`, applied to every object from the inside out.
unfoldable pub unique_object : Dict Value → Dict Value → Result (Dict Value)
unfolding contains insert
unique_object result [] = ok result
unique_object result ((key, value) ∷ rest) = do
  require (not (contains key result)) "Duplicate JSON key"
  unique_object (insert key value result) rest

unfoldable mutual
  pub decode_unique : Value → Result Value
  decode_unique (arr vs) = do us ← decode_items vs; ok (arr us)
  decode_unique (obj fs) = do
    gs ← decode_fields fs
    d ← unique_object [] (pairs gs)
    ok (obj (to_fields d))
  decode_unique null = ok null
  decode_unique (bool b) = ok (bool b)
  decode_unique (num i) = ok (num i)
  decode_unique (dec d) = ok (dec d)
  decode_unique (str s) = ok (str s)

  pub decode_items : Elements → Result Elements
  decode_items nil = ok nil
  decode_items (cons v vs) = do u ← decode_unique v; us ← decode_items vs; ok (cons u us)

  pub decode_fields : Fields → Result Fields
  decode_fields end = ok end
  decode_fields (field k v fs) = do u ← decode_unique v; gs ← decode_fields fs; ok (field k u gs)

-- The entries of an object.
abbrev pub entries_of : Value → Dict Value
entries_of (obj fs) = pairs fs
entries_of _ = []

pub is_text-eq : (v : Value) (t : Text) → is_text v t ≡ true → v ≡ str t
is_text-eq (str s) t h = ap str (text_eq_sound s t h)
is_text-eq null t h = cc
is_text-eq _ t h = cc

pub str_injective : {s t : Text} → str s ≡ str t → s ≡ t
str_injective h = cc
