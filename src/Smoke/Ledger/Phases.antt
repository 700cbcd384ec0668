-- ===== src/Smoke/Ledger/Phases.antt =====
-- What the ledger of a smoke run promises, without its texts and stamps: a machine with four
-- phases, which every process of smoke_checks.py implements.
use doris_ducklake.Prelude.Int.{ℤ}
use doris_ducklake.Smoke.Policy.{required_cases}
use doris_ducklake.Smoke.Ledger.Completed.{validate_ledger-covers}
use doris_ducklake.Smoke.Ledger.Lifecycle.{
  Event, check, complete, finishable-Finishable, give_up, initialize-fresh, judge-Judged,
  or_unchanged, perform, start,
}
use doris_ducklake.Prelude.{
  >>=-eq-ok, Bool, List, Option, Result, Result-cases, Text, [], ap, arith, err, every, false, inl,
  inr, length, map, member, none, ok, ok_injective, or_key_error, refl, some, subst, suc, sym, text,
  text_eq, true, ℕ, ◌++◌, ◌==◌, ◌∙◌, ◌∷◌, ◌≡◌, ◌≢◌,
}
use doris_ducklake.Json.{Decimal, Value}
use doris_ducklake.Smoke.Ledger.{
  Check, Files, Ledger, Receipt, RunState, abort, abort_ledger, append_check, are_all_there,
  case_of, close_files, close_ledger, commit_check, context, covers_required, finish, finishable,
  initialize, is_open_for, judge, new_ledger, record_check, validate_ledger, write_receipt,
}

-- `running` knows the cases that have passed, the oldest first.
pub data Phase : Type 0 where
  not_begun : Phase
  running : List Text → Phase
  stopped : Phase
  completed : Phase

abbrev phase_at : Bool → Bool → List Text → Phase
phase_at true passed cases = running cases
phase_at false true cases = completed
phase_at false false cases = stopped

abbrev pub phase_of : Option Ledger → Phase
phase_of none = not_begun
phase_of (some l) =
    phase_at (text_eq l.status (text "checking")) (text_eq l.status (text "passed"))
      (map case_of l.checks)

-- What one process may do. A case is recorded once, and only a required one; a run is completed
-- when it has as many cases as are required, and all of these; whatever has begun can be stopped,
-- and nothing leads on from there.
pub data Moves : Phase → Phase → Type 0 where
  stays : (p : Phase) → Moves p p
  begins : Moves not_begun (running [])
  passes :
      (cases : List Text) (case : Text)
      → member case required_cases ≡ true
      → member case cases ≡ false
      → Moves (running cases) (running (cases ++ case ∷ []))
  fails : (cases : List Text) → Moves (running cases) stopped
  revokes : Moves completed stopped
  completes :
      (cases : List Text)
      → (length cases == length required_cases) ≡ true
      → every (λ r. member r cases) required_cases ≡ true
      → Moves (running cases) completed

between : {p p' q q' : Phase} → p' ≡ p → q' ≡ q → Moves p q → Moves p' q'
between {p} {p'} {q} {q'} same₁ same₂ m =
    subst (λ x. Moves x q') (sym same₁) (subst (Moves p) (sym same₂) m)

checking-running :
    (l : Ledger)
    → text_eq l.status (text "checking") ≡ true
    → phase_of (some l) ≡ running (map case_of l.checks)
checking-running l checking = rw checking refl

stopping : (p : Phase) → p ≢ not_begun → Moves p stopped
stopping not_begun there = absurd (there refl)
stopping (running cases) there = fails cases
stopping stopped there = stays stopped
stopping completed there = revokes

has_begun :
    (checking passed : Bool) (cases : List Text) → phase_at checking passed cases ≢ not_begun
has_begun true passed cases e = cc
has_begun false true cases e = cc
has_begun false false cases e = cc

new_ledger-running :
    (state : RunState) (run_id at : Text) (l : Ledger)
    → new_ledger state run_id at ≡ ok l
    → phase_of (some l) ≡ running []
unfolding new_ledger text text_eq
new_ledger-running state run_id at l made =
    let (build, _, made₁) = >>=-eq-ok (or_key_error state.build_id) _ made in
    let (sources, _, made₂) = >>=-eq-ok (or_key_error state.runtime_sources) _ made₁ in
    let (target, _, made₃) = >>=-eq-ok (or_key_error state.smoke_target) _ made₂ in
    ap (λ (x : Ledger). phase_of (some x)) (sym (ok_injective made₃))

length-map {ℓ κ} :
    {A : Type ℓ} {B : Type κ} (f : A → B) (xs : List A) → length (map f xs) ≡ length xs
length-map f [] = refl
length-map f (x ∷ xs) = ap suc (length-map f xs)

map-append {ℓ κ} :
    {A : Type ℓ} {B : Type κ} (f : A → B) (xs ys : List A) → map f (xs ++ ys) ≡ map f xs ++ map f ys
map-append f [] ys = refl
map-append f (x ∷ xs) ys = ap (λ zs. f x ∷ zs) (map-append f xs ys)

open-parts :
    (l : Ledger) (case : Text)
    → is_open_for l case ≡ true
    → (text_eq l.status (text "checking") ≡ true)
      × (member case required_cases ≡ true)
      × (member case (map case_of l.checks) ≡ false)
unfolding is_open_for
open-parts l case h = (ground arith, ground arith, ground arith)

module _ (decimal_text : Decimal → Text) (dumps : Ledger → List ℕ) (sha256 : List ℕ → Text)
    (source : List ℕ) (state : RunState) where
  abbrev Moved : Files → Files → Type 0
  Moved files files' = Moves (phase_of files.ledger) (phase_of files'.ledger)

  start-Moves :
      (files : Files) (run_id at : Text) (r : Result Files)
      → initialize state run_id at files ≡ r
      → Moved files (or_unchanged files r)
  start-Moves files run_id at (err e) done = stays (phase_of files.ledger)
  start-Moves files run_id at (ok files') done =
      let (fresh, l, made, is_files) =
        initialize-fresh decimal_text dumps sha256 source state run_id at files done in
      subst (λ p. Moves p (phase_of files'.ledger)) (sym (ap phase_of fresh))
        (subst (Moves not_begun)
          (sym (
            ap (λ (f : Files). phase_of f.ledger) is_files
            ∙ new_ledger-running state run_id at l made))
          begins)

  -- The ledger with one more row.
  append-phase :
      (l : Ledger) (c : Check)
      → text_eq l.status (text "checking") ≡ true
      → phase_of (some (append_check decimal_text dumps sha256 source l c true))
        ≡ running (map case_of l.checks ++ c.case ∷ [])
  unfolding append_check
  append-phase l c checking =
      checking-running (append_check decimal_text dumps sha256 source l c true) checking
      ∙ ap running (map-append case_of l.checks (c ∷ []))

  failed-phase :
      (l : Ledger) (c : Check)
      → c.outcome ≡ text "failed"
      → phase_of (some (append_check decimal_text dumps sha256 source l c false)) ≡ stopped
  unfolding append_check text text_eq
  failed-phase l c is_failed =
      ap
        (λ (o : Text).
          phase_at (text_eq o (text "checking")) (text_eq o (text "passed"))
            (map case_of (l.checks ++ c ∷ [])))
        is_failed

  check-Moves :
      (files : Files) (case operator : Text) (expected actual : Value) (at : Text)
      (r : Result (Ledger × (Check × Bool)))
      → judge decimal_text dumps sha256 source state case operator expected actual at files ≡ r
      → Moved files (commit_check decimal_text dumps sha256 source files r).0
  unfolding commit_check
  check-Moves files case operator expected actual at (err e) judged = stays (phase_of files.ledger)
  check-Moves files case operator expected actual at (ok (l, (c, true))) judged =
      let j =
        judge-Judged decimal_text dumps sha256 source state case operator expected actual at files
          judged in
      let (checking, required, unseen) = open-parts l case j.is_open in
      let same : c.case ≡ case = ap (λ (x : Check). x.case) j.built in
      between (ap phase_of j.there ∙ checking-running l checking)
        (append-phase l c checking ∙ ap (λ x. running (map case_of l.checks ++ x ∷ [])) same)
        (passes (map case_of l.checks) case required unseen)
  check-Moves files case operator expected actual at (ok (l, (c, false))) judged =
      let j =
        judge-Judged decimal_text dumps sha256 source state case operator expected actual at files
          judged in
      let (checking, _, _) = open-parts l case j.is_open in
      let is_failed : c.outcome ≡ text "failed" = ap (λ (x : Check). x.outcome) j.built in
      between (ap phase_of j.there ∙ checking-running l checking) (failed-phase l c is_failed)
        (fails (map case_of l.checks))

  abort-Moves :
      (o : Option Ledger) (phase : Text) (code : ℤ) (at : Text)
      → Moves
          (phase_of o)
          (phase_of (abort_ledger decimal_text dumps sha256 source o phase code at))
  unfolding abort_ledger text text_eq
  abort-Moves none phase code at = stays not_begun
  abort-Moves (some l) phase code at = stopping (phase_of (some l)) (has_begun _ _ _)

  give_up-Moves :
      (phase : Text) (code : ℤ) (at : Text) (files : Files)
      → Moved files
          (or_unchanged files (abort decimal_text dumps sha256 source state phase code at files))
  unfolding abort
  give_up-Moves phase code at files = elim (Result-cases (context state)) [
    | inl (e, raised) ↦ rw raised (stays (phase_of files.ledger))
    | inr (_, passed) ↦ rw passed (abort-Moves files.ledger phase code at)
  ]

  written-phase :
      (files : Files) (r : Result Receipt)
      → (write_receipt decimal_text dumps sha256 source files r).0.ledger ≡ files.ledger
  unfolding write_receipt
  written-phase files (err e) = refl
  written-phase files (ok receipt) = refl

  closed-phase :
      (l : Ledger) (at : Text)
      → phase_of (some (close_ledger decimal_text dumps sha256 source l at)) ≡ completed
  unfolding text text_eq
  closed-phase l at = refl

  covered-parts :
      (l : Ledger)
      → covers_required decimal_text dumps sha256 source l.checks ≡ true
      → ((length l.checks == length required_cases) ≡ true)
        × (every (λ r. member r (map case_of l.checks)) required_cases ≡ true)
  unfolding covers_required are_all_there
  covered-parts l covers = (ground arith, ground arith)

  covered :
      (l : Ledger)
      → validate_ledger decimal_text dumps sha256 source l state ≡ ok tt
      → ((length (map case_of l.checks) == length required_cases) ≡ true)
        × (every (λ r. member r (map case_of l.checks)) required_cases ≡ true)
  covered l valid =
      let (covers, _) = validate_ledger-covers decimal_text dumps sha256 source state l valid in
      let (many, all_there) = covered-parts l covers in
      (ap (λ n. n == length required_cases) (length-map case_of l.checks) ∙ many, all_there)

  complete-Moves :
      (at : Text) (files : Files) (r : Result Ledger)
      → finishable decimal_text dumps sha256 source state files ≡ r
      → Moved files (close_files decimal_text dumps sha256 source state at files r).0
  unfolding close_files
  complete-Moves at files (err e) done = stays (phase_of files.ledger)
  complete-Moves at files (ok l) done =
      let k = finishable-Finishable decimal_text dumps sha256 source state files done in
      let (many, all_there) = covered l k.valid in
      between (ap phase_of k.there ∙ checking-running l k.is_checking)
        (ap phase_of (written-phase _ _) ∙ closed-phase l at)
        (completes (map case_of l.checks) many all_there)

  -- Each process of smoke_checks.py, whatever its arguments and whether or not it raises, takes
  -- the ledger from one phase to another only as this machine allows.
  pub perform-Moves :
      (e : Event) (files : Files)
      → Moves
          (phase_of files.ledger)
          (phase_of (perform decimal_text dumps sha256 source state e files).ledger)
  unfolding perform record_check finish
  perform-Moves (start run_id at) files = start-Moves files run_id at _ refl
  perform-Moves (check case operator expected actual at) files =
      check-Moves files case operator expected actual at _ refl
  perform-Moves (give_up phase code at) files = give_up-Moves phase code at files
  perform-Moves (complete at) files = complete-Moves at files _ refl
