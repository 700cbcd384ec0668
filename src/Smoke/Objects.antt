-- ===== src/Smoke/Objects.antt =====
-- `object_state` of compose/smoke_checks.py: what the answer of `mc stat`, and a listing of the
-- same path, say about an object.
pub mod Absence
use doris_ducklake.Prelude.{
  Bool, List, Option, Result, Text, [], and_then, false, has_no_items, if◌then◌else◌, member, none,
  ok, require, some, some_of, strip, text, text_eq, true, ◌&&◌, ◌++◌, ◌>>=◌, ◌>>◌, ◌||◌, ◌∷◌,
}
use doris_ducklake.Prelude.Int.{eq_ℤ, pos, ℤ}
use doris_ducklake.Json.{
  Elements, Fields, Value, arr, bool, cons, dec, end, field, get, is_text, item, nil, null, num,
  obj, or_else, str,
}
use doris_ducklake.Preflight.Manifest.{lower}

-- The texts that `object_state` returns.
pub data ObjectState : Type 0 where
  present : ObjectState
  gone : ObjectState

-- A process's exit code, if it was given.
abbrev pub ExitCode : Type 0
ExitCode = Option ℤ

abbrev pub is_success : ExitCode → Bool
is_success none = false
is_success (some code) = eq_ℤ code (pos 0)

-- A code that stands under this key: `key.lower() == "code" and isinstance(item, str)`.
abbrev pub code_under : Text → Value → List Text
code_under key (str s) = if text_eq (lower key) (text "code") then s ∷ [] else []
code_under key _ = []

-- `walk`
unfoldable mutual
  pub codes_of : Value → List Text
  codes_of (obj fs) = codes_in fs
  codes_of (arr vs) = codes_among vs
  codes_of null = []
  codes_of (bool _) = []
  codes_of (num _) = []
  codes_of (dec _) = []
  codes_of (str _) = []

  pub codes_in : Fields → List Text
  codes_in end = []
  codes_in (field key item fs) = code_under key item ++ codes_of item ++ codes_in fs

  pub codes_among : Elements → List Text
  codes_among nil = []
  codes_among (cons v vs) = codes_of v ++ codes_among vs

abbrev pub missing_codes : List Text
missing_codes = text "NoSuchKey" ∷ text "NoSuchObject" ∷ []

unfoldable pub is_explicit : List Text → Bool
unfolding member
is_explicit codes = some_of (λ c. member c missing_codes) codes

-- `listing is not None and not listing.strip()`
abbrev pub is_blank : Option Text → Bool
is_blank none = false
is_blank (some listing) = has_no_items (strip listing)

abbrev pub is_empty_object : Value → Bool
is_empty_object (obj end) = true
is_empty_object _ = false

-- The shape into which `mc` normalizes a missing key.
unfoldable pub is_normalized : Value → Value → Result Bool
is_normalized error cause = do
  kind ← get (text "type") error
  and_then (is_text kind (text "fatal")) (do
    message ← get (text "message") cause
    and_then (is_text message (text "Object does not exist"))
        (do inner ← get (text "error") cause; ok (is_empty_object inner)))

unfoldable pub is_confirmed : Value → List Text → Option Text → ExitCode → Result Bool
is_confirmed payload codes listing listing_exit = do
  found ← get (text "error") payload
  let error = or_else found (obj end)
  nested ← get (text "cause") error
  shape ← and_then (has_no_items codes) (is_normalized error (or_else nested (obj end)))
  and_then shape (ok (is_success listing_exit && is_blank listing))

unfoldable pub absent_state : Value → Option Text → ExitCode → Result ObjectState
absent_state payload listing listing_exit = do
  confirmed ← is_confirmed payload (codes_of payload) listing listing_exit
  status ← get (text "status") payload
  require (is_text status (text "error") && (is_explicit (codes_of payload) || confirmed))
      "Object stat failed for a reason other than independently confirmed absence"
  ok gone

unfoldable pub present_state : Value → Result ObjectState
present_state payload = do
  status ← get (text "status") payload
  require (is_text status (text "success")) "Object stat did not report success"
  ok present

-- `payload` is `json.loads(text)`.
unfoldable pub object_state : Result Value → ExitCode → Option Text → ExitCode → Result ObjectState
object_state decoded exit_code listing listing_exit = decoded >>= (λ payload.
    if is_success exit_code
    then present_state payload
    else absent_state payload listing listing_exit)
