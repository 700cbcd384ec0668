-- ===== src/Smoke/Procedures.antt =====
-- The operations of `main` in compose/smoke_checks.py that turn a procedure's output, or the
-- arguments of a check, into the values that are recorded.
pub mod Counting
use doris_ducklake.Prelude.{
  Bool, Dict, List, Result, Text, [], err, false, if◌then◌else◌, length, lookup, member, not, ok,
  or_key_error, require, split, text, text_eq, true, value_error, ℕ, ◌&&◌, ◌==◌, ◌>>=◌, ◌>>◌, ◌||◌,
  ◌∷◌,
}
use doris_ducklake.Prelude.Int.{pos}
use doris_ducklake.Json.{Fields, Value, end, field, num, obj, str}
use doris_ducklake.Preflight.Manifest.{lower}
use doris_ducklake.Smoke.Policy.{integer}

-- `values[0].lower() in {"false", "0"}`
unfoldable pub is_actual_run : Text → Bool
unfolding member
is_actual_run dry = member (lower dry) (text "false" ∷ text "0" ∷ [])

abbrev pub expiry_scope : Text
expiry_scope = text "catalog-wide (ignores the named table)"

unfoldable pub integers : List Text → Result (List ℕ)
integers [] = ok []
integers (t ∷ ts) = do n ← integer t; ns ← integers ts; ok (n ∷ ns)

-- `[integer(v) for v in field.split(",")] if field else []`
abbrev pub read_ids : Text → Result (List ℕ)
read_ids [] = ok []
read_ids (c ∷ cs) = integers (split b',' (c ∷ cs))

unfoldable pub has_number : ℕ → List ℕ → Bool
has_number n [] = false
has_number n (m ∷ ms) = (n == m) || has_number n ms

-- `len(set(ids)) == len(ids)`
unfoldable pub are_distinct_numbers : List ℕ → Bool
unfolding has_number
are_distinct_numbers [] = true
are_distinct_numbers (n ∷ ns) = not (has_number n ns) && are_distinct_numbers ns

-- The count of expired snapshots, and nothing that failed.
unfoldable pub expiry_result : List Text → Result (ℕ × ℕ)
expiry_result (dry ∷ scope ∷ counted ∷ other ∷ listed ∷ []) = do
  require (text_eq scope expiry_scope) "Unexpected expiry result schema/scope"
  count ← integer counted
  checked ← integer other
  ids ← read_ids listed
  require (are_distinct_numbers ids && (length ids == count)) "Expiry IDs/count differ"
  ok (count, 0)
expiry_result values = err (value_error "Unexpected expiry result schema/scope")

-- The counts of deleted files and of failures.
unfoldable pub collection_result : Text → List Text → Result (ℕ × ℕ)
unfolding member
collection_result operation (dry ∷ retention ∷ deleted ∷ failed ∷ []) = do
  require (member operation (text "cleanup" ∷ text "orphans" ∷ []) && text_eq retention (text "1s"))
      "Unexpected file-GC result schema/retention"
  d ← integer deleted
  f ← integer failed
  ok (d, f)
collection_result operation values = err (value_error "Unexpected file-GC result schema/retention")

abbrev pub is_actual_result : List Text → Bool
is_actual_result [] = false
is_actual_result (dry ∷ _) = is_actual_run dry

-- The two numbers that are printed.
unfoldable pub procedure : Text → Text → Result (ℕ × ℕ)
procedure operation output = do
  let values = split b'\t' output
  require (is_actual_result values) "Expected an actual, non-dry-run procedure result"
  if text_eq operation (text "expiry")
      then expiry_result values
      else collection_result operation values

-- `numeric`
abbrev pub numeric_fields : List Text
numeric_fields =
    text "expired"
    ∷ text "before"
    ∷ text "after"
    ∷ text "deleted"
    ∷ text "failed"
    ∷ text "schedule"
    ∷ []

abbrev pub fields_by_case : Dict (List Text)
fields_by_case =
    (text "expiry", text "expired" ∷ text "before" ∷ text "after" ∷ [])
    ∷ (text "cleanup", text "deleted" ∷ text "failed" ∷ text "blob" ∷ text "schedule" ∷ [])
    ∷ (
      text "orphans",
      text "deleted" ∷ text "failed" ∷ text "orphan" ∷ text "success" ∷ text "foreign" ∷ [],
    )
    ∷ []

unfoldable pub counter : Text → Text → Result Value
unfolding member
counter name value =
    if member name numeric_fields then (do n ← integer value; ok (num (pos n))) else ok (str value)

unfoldable pub counters : List Text → List Text → Result Fields
counters (name ∷ names) (value ∷ values) = do
  v ← counter name value
  rest ← counters names values
  ok (field name v rest)
counters _ _ = ok end

-- The dictionary that the `stats` operation records.
unfoldable pub stats : Text → List Text → Result Value
stats case values = do
  names ← or_key_error (lookup case fields_by_case)
  require (length values == length names) "Missing procedure/state counters"
  entries ← counters names values
  ok (obj entries)
