-- ===== src/Smoke/Answers.antt =====
-- Answers of the object store and of the maintenance procedures, on concrete inputs.
use doris_ducklake.Prelude.{
  Text, [], err, is_digit, is_space, lookup, lstrip, member, none, ok, refl, some, split, strip,
  text, text_eq, value_error, ℕ, ◌∷◌, ◌≡◌,
}
use doris_ducklake.Prelude.Int.{pos}
use doris_ducklake.Prelude.Digits.{is_numeral, read}
use doris_ducklake.Json.{Value, end, field, get, num, obj, str, truthy}
use doris_ducklake.Preflight.Manifest.{lower}
use doris_ducklake.Smoke.Policy.{integer}
use doris_ducklake.Smoke.Objects.{
  ExitCode, absent_state, codes_of, gone, is_confirmed, is_explicit, is_normalized, object_state,
}
use doris_ducklake.Smoke.Objects.Absence.{RestsOn, object_state-RestsOn}
use doris_ducklake.Smoke.Procedures.{
  are_distinct_numbers, counter, counters, expiry_result, has_number, integers, is_actual_run,
  procedure, stats,
}
use doris_ducklake.Smoke.Procedures.Counting.{IsExpiry, procedure-IsExpiry}

-- The shape of a missing key after normalization.
abbrev missing_answer : Value
missing_answer = obj (
    field (text "status") (str (text "error")) (
      field (text "error")
        (obj (
          field (text "type") (str (text "fatal")) (
            field (text "cause")
              (obj (
                field (text "message") (str (text "Object does not exist"))
                  (field (text "error") (obj end) end)))
              end)))
        end))

abbrev failed_exit : ExitCode
failed_exit = some (pos 1)

abbrev good_exit : ExitCode
good_exit = some (pos 0)

object_gone : object_state (ok missing_answer) failed_exit (some (text " \n")) good_exit ≡ ok gone
unfolding object_state absent_state is_confirmed is_normalized get lookup text text_eq truthy
    codes_of is_explicit member strip lstrip is_space lower
object_gone = refl

-- The same answer without a listing confirms nothing.
object_unconfirmed :
    object_state (ok missing_answer) failed_exit none none
    ≡ err (value_error "Object stat failed for a reason other than independently confirmed absence")
unfolding object_state absent_state is_confirmed is_normalized get lookup text text_eq truthy
    codes_of is_explicit member strip lstrip is_space lower
object_unconfirmed = refl

object_state-RestsOn_example : RestsOn gone missing_answer failed_exit (some (text " \n")) good_exit
object_state-RestsOn_example =
    object_state-RestsOn missing_answer failed_exit (some (text " \n")) good_exit gone object_gone

abbrev an_expiry : Text
an_expiry = text "False\tcatalog-wide (ignores the named table)\t2\t7\t11,12"

expiry_read : procedure (text "expiry") an_expiry ≡ ok (2, 0)
unfolding procedure is_actual_run lower member expiry_result integer integers are_distinct_numbers
    has_number split text text_eq is_numeral read is_digit
expiry_read = refl

abbrev no_failure : ℕ
no_failure = 0

procedure-IsExpiry_example : IsExpiry an_expiry 2 × (no_failure ≡ 0)
procedure-IsExpiry_example = procedure-IsExpiry an_expiry (2, 0) expiry_read

stats_read :
    stats (text "cleanup") (text "4" ∷ text "0" ∷ text "gone" ∷ text "0" ∷ [])
    ≡ ok (
        obj (
          field (text "deleted") (num (pos 4)) (
            field (text "failed") (num (pos 0)) (
              field
                (text "blob")
                (str (text "gone"))
                (field (text "schedule") (num (pos 0)) end)))))
unfolding stats counters counter integer lookup member text text_eq is_numeral read is_digit
stats_read = refl
