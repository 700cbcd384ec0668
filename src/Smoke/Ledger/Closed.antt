-- ===== src/Smoke/Ledger/Closed.antt =====
-- Fail closed: a ledger with a failed check, or one that was aborted, is never passed again, and
-- no receipt is written for it.
use doris_ducklake.Prelude.Int.{ℤ}
use doris_ducklake.Smoke.Ledger.Lifecycle.{
  Event, check, complete, finishable-Finishable, give_up, initialize-fresh, judge-Judged,
  or_unchanged, perform, perform_all, perform_all-invariant, read_file-eq-ok, start,
}
use doris_ducklake.Prelude.{
  >>=-eq-ok, Bool, List, Option, Result, Result-cases, Text, ap, arith, err, false, inl, inr, none,
  ok, refl, require->>-eq-ok, some, some_injective, sym, text, text_eq, true, ℕ, ◌∙◌, ◌≡◌, ◌≢◌,
}
use doris_ducklake.Json.{Decimal}
use doris_ducklake.Smoke.Ledger.{
  Check, Files, Ledger, Receipt, RunState, abort, abort_ledger, close_files, commit_check, context,
  finish, initialize, is_open_for, read_file, record_check, verify_completed,
}

-- The ledger is there and its status is neither `checking` nor `passed`.
pub record IsFailed (files : Files) : Type 0 where
  pub ledger : Ledger
  pub there : files.ledger ≡ some ledger
  pub not_checking : text_eq ledger.status (text "checking") ≡ false
  pub not_passed : text_eq ledger.status (text "passed") ≡ false

module _ (decimal_text : Decimal → Text) (dumps : Ledger → List ℕ) (sha256 : List ℕ → Text)
    (source : List ℕ) (state : RunState) where
  abbrev next : Event → Files → Files
  next = perform decimal_text dumps sha256 source state

  -- One process: the failed ledger stays, and the receipt is not touched.
  abbrev Stays : Files → Files → Type 0
  Stays files files' = IsFailed files' × (files'.receipt ≡ files.receipt)

  refused : (files : Files) → IsFailed files → Stays files files
  refused files f = (f, refl)

  start-Stays :
      (files : Files) (r : Result Files)
      → IsFailed files
      → ((files' : Files) → r ≡ ok files' → files.ledger ≡ none)
      → Stays files (or_unchanged files r)
  start-Stays files (err e) f fresh = refused files f
  start-Stays files (ok files') f fresh = cc (fresh files' refl, f.there)

  check-Stays :
      (files : Files) (r : Result (Ledger × (Check × Bool)))
      → IsFailed files
      → ((l : Ledger) (c : Check) (p : Bool)
          → r ≡ ok (l, (c, p))
          → (files.ledger ≡ some l) × (text_eq l.status (text "checking") ≡ true))
      → Stays files (commit_check decimal_text dumps sha256 source files r).0
  unfolding commit_check
  check-Stays files (err e) f was_open = refused files f
  check-Stays files (ok (l, (c, p))) f was_open =
      let (there, checking) = was_open l c p refl in
      let same : f.ledger ≡ l = some_injective (sym f.there ∙ there) in
      cc (f.not_checking, checking, same)

  complete-Stays :
      (now : Text) (files : Files) (r : Result Ledger)
      → IsFailed files
      → ((l : Ledger)
          → r ≡ ok l
          → (files.ledger ≡ some l) × (text_eq l.status (text "checking") ≡ true))
      → Stays files (close_files decimal_text dumps sha256 source state now files r).0
  unfolding close_files
  complete-Stays now files (err e) f was_open = refused files f
  complete-Stays now files (ok l) f was_open =
      let (there, checking) = was_open l refl in
      let same : f.ledger ≡ l = some_injective (sym f.there ∙ there) in
      cc (f.not_checking, checking, same)

  is_open-checking :
      (l : Ledger) (case : Text)
      → is_open_for l case ≡ true
      → text_eq l.status (text "checking") ≡ true
  unfolding is_open_for
  is_open-checking l case h = ground arith

  abort-Stays :
      (phase : Text) (code : ℤ) (now : Text) (files : Files)
      → IsFailed files
      → Stays files (record files {
        ledger = abort_ledger decimal_text dumps sha256 source files.ledger phase code now;
      })
  unfolding abort_ledger text text_eq
  abort-Stays phase code now files f = (
    record {
      ledger = record f.ledger {
        status = text "failed";
        aborted = some (phase, code);
        finished_at = some now;
      };
      there =
          ap (λ (o : Option Ledger). abort_ledger decimal_text dumps sha256 source o phase code now)
            f.there;
      not_checking = refl;
      not_passed = refl;
    },
    refl,
  )

  give_up-Stays :
      (phase : Text) (code : ℤ) (now : Text) (files : Files)
      → IsFailed files
      → Stays files
          (or_unchanged files (abort decimal_text dumps sha256 source state phase code now files))
  unfolding abort
  give_up-Stays phase code now files f = elim (Result-cases (context state)) [
    | inl (e, raised) ↦ rw raised (refused files f)
    | inr (_, passed) ↦ rw passed (abort-Stays phase code now files f)
  ]

  perform-Stays : (e : Event) (files : Files) → IsFailed files → Stays files (next e files)
  unfolding perform record_check finish
  perform-Stays (start run_id now) files f =
      start-Stays files (initialize state run_id now files) f (λ files' done.
        (initialize-fresh decimal_text dumps sha256 source state run_id now files done).0)
  perform-Stays (check case operator expected actual now) files f =
      check-Stays files _ f (λ l c p done.
        let j =
          judge-Judged decimal_text dumps sha256 source state case operator expected actual now
            files done in
        (j.there, is_open-checking l case j.is_open))
  perform-Stays (give_up phase code now) files f = give_up-Stays phase code now files f
  perform-Stays (complete now) files f = complete-Stays now files _ f (λ l done.
      let k = finishable-Finishable decimal_text dumps sha256 source state files done in
      (k.there, k.is_checking))

  verify-refused :
      (files : Files) (r : Receipt)
      → IsFailed files
      → verify_completed decimal_text dumps sha256 source state files ≢ ok r
  unfolding verify_completed
  verify-refused files r f h =
      let (_, _, h₁) = >>=-eq-ok (context state) _ h in
      let (l, is_l, h₂) = >>=-eq-ok (read_file files.ledger) _ h₁ in
      let (passed, _) = require->>-eq-ok (text_eq l.status (text "passed")) _ _ h₂ in
      let same : f.ledger ≡ l = some_injective (sym f.there ∙ read_file-eq-ok files.ledger is_l) in
      cc (f.not_passed, passed, same)

  -- Once the ledger's status is neither `checking` nor `passed`, no processes of the tool,
  -- whatever their arguments and in whatever order, change that or write a receipt, and the run
  -- is never verified as completed.
  pub IsFailed-stays-IsFailed :
      (es : List Event) (files : Files)
      → IsFailed files
      → IsFailed (perform_all decimal_text dumps sha256 source state es files)
        × ((perform_all decimal_text dumps sha256 source state es files).receipt ≡ files.receipt)
        × ((r : Receipt)
            → verify_completed decimal_text dumps sha256 source state
                (perform_all decimal_text dumps sha256 source state es files)
              ≢ ok r)
  IsFailed-stays-IsFailed es files f =
      let (still, same) =
        perform_all-invariant decimal_text dumps sha256 source state (Stays files)
          (λ e files' s. let t = perform-Stays e files' s.0 in (t.0, t.1 ∙ s.1)) es files
          (refused files f) in
      (still, same, λ r. verify-refused _ r still)
