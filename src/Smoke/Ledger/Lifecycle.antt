-- ===== src/Smoke/Ledger/Lifecycle.antt =====
-- The processes that a smoke run starts on its ledger, in any order and with any arguments. Each
-- is a run of smoke_checks.py; what it raises ends that process and not the next.
use doris_ducklake.Smoke.Policy.{evaluate, is_policy, validate_policy}
use doris_ducklake.Prelude.{
  >>=-eq-ok, Bool, List, Option, Result, Text, [], ap, err, false, is_none, none, ok, ok_injective,
  or_key_error, refl, require->>-eq-ok, some, subst, sym, text, text_eq, true, ℕ, ◌∙◌, ◌∷◌, ◌≡◌,
}
use doris_ducklake.Prelude.Int.{ℤ}
use doris_ducklake.Json.{Decimal, Value}
use doris_ducklake.Smoke.Ledger.{
  Check, Files, KnownFailure, Ledger, RunState, abort, context, exception_of, find_known, finish,
  finishable, initialize, is_open_for, is_own, is_run_id, judge, new_check, new_ledger, read_file,
  record_check, validate_ledger,
}

pub data Event : Type 0 where
  start : Text → Text → Event
  check : Text → Text → Value → Value → Text → Event
  give_up : Text → ℤ → Text → Event
  complete : Text → Event

pub read_file-eq-ok {ℓ} : {A : Type ℓ} (o : Option A) {a : A} → read_file o ≡ ok a → o ≡ some a
read_file-eq-ok none h = cc
read_file-eq-ok (some b) h = ap some (ok_injective h)

-- No failure is known, so none is expected.
exception_of-none :
    (p : Bool) (case : Text) (actual sources : Value) → exception_of p case actual sources ≡ none
unfolding exception_of find_known
exception_of-none true case actual sources = refl
exception_of-none false case actual sources = refl

is_none-eq {ℓ} : {A : Type ℓ} (o : Option A) → is_none o ≡ true → o ≡ none
is_none-eq none h = refl
is_none-eq (some a) h = cc

-- The files after a process that may raise before it writes.
abbrev pub or_unchanged : Files → Result Files → Files
or_unchanged files (err _) = files
or_unchanged files (ok files') = files'

module _ (decimal_text : Decimal → Text) (dumps : Ledger → List ℕ) (sha256 : List ℕ → Text)
    (source : List ℕ) (state : RunState) where
  unfoldable pub perform : Event → Files → Files
  perform (start run_id now) files = or_unchanged files (initialize state run_id now files)
  perform (check case operator expected actual now) files =
      (record_check decimal_text dumps sha256 source state case operator expected actual now
        files).0
  perform (give_up phase code now) files =
      or_unchanged files (abort decimal_text dumps sha256 source state phase code now files)
  perform (complete now) files = (finish decimal_text dumps sha256 source state now files).0

  unfoldable pub perform_all : List Event → Files → Files
  perform_all [] files = files
  perform_all (e ∷ es) files = perform_all es (perform e files)

  -- An invariant of the files.
  pub perform_all-invariant {ℓ} :
      (P : Files → Type ℓ)
      → ((e : Event) (files : Files) → P files → P (perform e files))
      → (es : List Event) (files : Files) → P files
      → P (perform_all es files)
  unfolding perform_all
  perform_all-invariant P step [] files h = h
  perform_all-invariant P step (e ∷ es) files h =
      perform_all-invariant P step es (perform e files) (step e files h)

module _ (decimal_text : Decimal → Text) (dumps : Ledger → List ℕ) (sha256 : List ℕ → Text)
    (source : List ℕ) (state : RunState) where
  -- What `record` knows when it writes.
  pub record Judged (case operator : Text) (expected actual : Value) (now : Text) (files : Files)
      (l : Ledger) (c : Check) (passed : Bool) : Type 0 where
    pub there : files.ledger ≡ some l
    pub is_open : is_open_for l case ≡ true
    pub by_policy : is_policy case operator expected ≡ true
    pub evaluated : evaluate operator actual expected ≡ ok passed
    pub built :
        c ≡ new_check decimal_text dumps sha256 source case operator expected actual now passed none

  pub judge-Judged :
      (case operator : Text) (expected actual : Value) (now : Text) (files : Files) {l : Ledger}
      {c : Check} {passed : Bool}
      → judge decimal_text dumps sha256 source state case operator expected actual now files
        ≡ ok (l, (c, passed))
      → Judged case operator expected actual now files l c passed
  unfolding judge validate_policy
  judge-Judged case operator expected actual now files {l} {c} {passed} h =
      let (_, _, h₁) = >>=-eq-ok (context state) _ h in
      let (ledger, is_l, h₂) = >>=-eq-ok (read_file files.ledger) _ h₁ in
      let (build, _, h₃) = >>=-eq-ok (or_key_error state.build_id) _ h₂ in
      let (_, h₄) = require->>-eq-ok (is_own ledger state build) _ _ h₃ in
      let (opened, h₅) = require->>-eq-ok (is_open_for ledger case) _ _ h₄ in
      let (by_policy, h₆) = require->>-eq-ok (is_policy case operator expected) _ _ h₅ in
      let (p, evaluated, h₇) = >>=-eq-ok (evaluate operator actual expected) _ h₆ in
      let (sources, _, h₈) = >>=-eq-ok (or_key_error state.runtime_sources) _ h₇ in
      let same = ok_injective h₈ in
      let same_l : ledger ≡ l = ap (λ (r : Ledger × (Check × Bool)). r.0) same in
      let same_c = ap (λ (r : Ledger × (Check × Bool)). r.1.0) same in
      let same_p : p ≡ passed = ap (λ (r : Ledger × (Check × Bool)). r.1.1) same in
      record {
        there = read_file-eq-ok files.ledger is_l ∙ ap some same_l;
        is_open = subst (λ x. is_open_for x case ≡ true) same_l opened;
        by_policy = by_policy;
        evaluated = evaluated ∙ ap ok same_p;
        built =
            sym same_c
            ∙ ap
                (λ (e : Option KnownFailure).
                  new_check decimal_text dumps sha256 source case operator expected actual now p e)
                (exception_of-none p case actual sources)
            ∙ ap
                (λ (q : Bool).
                  new_check decimal_text dumps sha256 source case operator expected actual now q
                    none)
                same_p;
      }

  pub initialize-fresh :
      (run_id now : Text) (files : Files) {files' : Files}
      → initialize state run_id now files ≡ ok files'
      → (files.ledger ≡ none)
        × (l : Ledger) × (new_ledger state run_id now ≡ ok l)
        × (files' ≡ record files { ledger = some l })
  unfolding initialize
  initialize-fresh run_id now files h =
      let (_, _, h₁) = >>=-eq-ok (context state) _ h in
      let (_, h₂) = require->>-eq-ok (is_run_id run_id) _ _ h₁ in
      let (fresh, h₃) = require->>-eq-ok (is_none files.ledger) _ _ h₂ in
      let (l, made, h₄) = >>=-eq-ok (new_ledger state run_id now) _ h₃ in
      (is_none-eq files.ledger fresh, l, made, sym (ok_injective h₄))

  -- What `finish` knows when it writes.
  pub record Finishable (files : Files) (l : Ledger) : Type 0 where
    pub there : files.ledger ≡ some l
    pub is_checking : text_eq l.status (text "checking") ≡ true
    pub valid : validate_ledger decimal_text dumps sha256 source l state ≡ ok tt
    pub in_context : context state ≡ ok tt

  pub finishable-Finishable :
      (files : Files) {l : Ledger}
      → finishable decimal_text dumps sha256 source state files ≡ ok l
      → Finishable files l
  unfolding finishable
  finishable-Finishable files {l} h =
      let (_, in_context, h₁) = >>=-eq-ok (context state) _ h in
      let (ledger, is_l, h₂) = >>=-eq-ok (read_file files.ledger) _ h₁ in
      let (checking, h₃) = require->>-eq-ok (text_eq ledger.status (text "checking")) _ _ h₂ in
      let (_, valid, h₄) =
        >>=-eq-ok (validate_ledger decimal_text dumps sha256 source ledger state) (λ _. ok ledger)
          h₃ in
      let same : ledger ≡ l = ok_injective h₄ in
      record {
        there = read_file-eq-ok files.ledger is_l ∙ ap some same;
        is_checking =
            subst (λ (x : Ledger). text_eq x.status (text "checking") ≡ true) same checking;
        valid =
            subst (λ (x : Ledger). validate_ledger decimal_text dumps sha256 source x state ≡ ok tt)
              same valid;
        in_context = in_context;
      }
