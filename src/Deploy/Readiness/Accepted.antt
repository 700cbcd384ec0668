-- ===== src/Deploy/Readiness/Accepted.antt =====
-- What a frontend has shown that `wait_ready` accepts.
use doris_ducklake.Prelude.{
  >>=-eq-ok, Option, Text, and_then, and_then-eq-true, ap, ap₂, arith, false, if-eq, inl, inr, none,
  not, ok, ok_injective, refl, require->>-eq-ok, require-eq-ok, some, some_injective, starts_with,
  sym, text, true, ◌>>=◌, ◌∙◌, ◌≡◌,
}
use doris_ducklake.Json.{Value, item, null, str, truthy}
use doris_ducklake.Smoke.Exact.{py_eq}
use doris_ducklake.Deploy.Process.{
  Process, is_after, is_fresh, is_never_started, is_same_identity, never_started, process_record,
}
use doris_ducklake.Deploy.Readiness.{check_kept, check_started, started_of}

-- A start time that is one, after that of the frontend before.
pub record IsFreshStart (started : Value) (prior : Option Process) : Type 0 where
  pub at : Text
  pub is_time : started ≡ str at
  pub has_started : starts_with at never_started ≡ false
  pub is_after_prior : is_after started prior ≡ ok true

time-parts :
    (v : Value) (prior : Option Process)
    → (is_never_started v >>= (λ never. and_then (not never) (is_after v prior))) ≡ ok true
    → IsFreshStart v prior
time-parts (str t) prior q =
    let (begun, later) = and_then-eq-true (not (starts_with t never_started)) _ q in
    record { at = t; is_time = refl; has_started = ground arith; is_after_prior = later }
time-parts null prior q = cc q
time-parts _ prior q = cc q

fresh-parts :
    (started : Value) (prior : Option Process)
    → is_fresh started prior ≡ ok true
    → IsFreshStart started prior
unfolding is_fresh
fresh-parts started prior p = elim (if-eq (truthy started) _ (ok false) p) [
  | inl (_, read) ↦ time-parts started prior read
  | inr (_, not_set) ↦ cc not_set
]

kept-parts :
    (prior : Option Process) (instance : Value) (p current : Process)
    → check_kept prior instance ≡ ok tt
    → prior ≡ some p
    → process_record instance ≡ ok current
    → is_same_identity current p ≡ true
unfolding check_kept
kept-parts none instance p current accepted is_p is_current = cc
kept-parts (some q) instance p current accepted is_p is_current =
    let (c, is_c, same) = >>=-eq-ok (process_record instance) _ accepted in
    let holds = require-eq-ok (is_same_identity c q) _ same in
    let e : c ≡ current = ok_injective (sym is_c ∙ is_current) in
    ap₂ is_same_identity (sym e) (sym (some_injective is_p)) ∙ holds

-- It has started after the frontend before, from the selected image, and if there was one before,
-- it has kept that one's identity, image, host name and mounts.
pub record IsAccepted (prior : Option Process) (fe_image instance : Value) : Type 0 where
  pub started : Value
  pub has_start : started_of instance ≡ ok started
  pub fresh : IsFreshStart started prior
  pub image : Value
  pub has_image : item (text "Image") instance ≡ ok image
  pub is_selected : py_eq image fe_image ≡ true
  pub is_kept :
      (p current : Process)
      → prior ≡ some p
      → process_record instance ≡ ok current
      → is_same_identity current p ≡ true

pub check_started-IsAccepted :
    (prior : Option Process) (fe_image instance : Value)
    → check_started prior fe_image instance ≡ ok tt
    → IsAccepted prior fe_image instance
unfolding check_started
check_started-IsAccepted prior fe_image instance p =
    let (started, has_start, p₁) = >>=-eq-ok (started_of instance) _ p in
    let (fresh, is_f, p₂) = >>=-eq-ok (is_fresh started prior) _ p₁ in
    let (holds, p₃) = require->>-eq-ok fresh _ _ p₂ in
    let (image, has_image, p₄) = >>=-eq-ok (item (text "Image") instance) _ p₃ in
    let (selected, p₅) = require->>-eq-ok (py_eq image fe_image) _ _ p₄ in
    record {
      started = started;
      has_start = has_start;
      fresh = fresh-parts started prior (is_f ∙ ap ok holds);
      image = image;
      has_image = has_image;
      is_selected = selected;
      is_kept = λ q current is_q is_current. kept-parts prior instance q current p₅ is_q is_current;
    }
