-- ===== src/Smoke/Ledger/Finished.antt =====
-- What `finish` closes, `verify_completed` accepts.
use doris_ducklake.Smoke.Ledger.Lifecycle.{finishable-Finishable}
use doris_ducklake.Prelude.{
  >>=-eq-ok, >>=-ok, List, Result, Text, ap, arith, err, ok, ok_injective, or_key_error,
  or_key_error-eq-ok, refl, require->>-eq-ok, require->>-ok, some, some_injective, subst, sym, text,
  text_eq, text_eq_iff, text_eq_refl, true, ℕ, ◌&&◌, ◌∙◌, ◌≡◌,
}
use doris_ducklake.Json.{Decimal, Value}
use doris_ducklake.Smoke.Exact.Reflexive.{IsDocument, py_eq_refl}
use doris_ducklake.Smoke.Ledger.{
  Files, Ledger, Receipt, RunState, close_files, close_ledger, context, finish, finishable,
  is_bound, is_current_receipt, is_own, ledger_schema, new_receipt, receipt_of, receipt_schema,
  smoke_scope, validate_ledger, verify_completed, write_receipt,
}

module _ (decimal_text : Decimal → Text) (dumps : Ledger → List ℕ) (sha256 : List ℕ → Text)
    (source : List ℕ) (state : RunState) (now : Text) where
  -- Where `finish` came through to its end.
  record Closing (files : Files) : Type 0 where
    ledger : Ledger
    qualification : Text
    target : Value
    was_open : finishable decimal_text dumps sha256 source state files ≡ ok ledger
    has_target : state.smoke_target ≡ some target
    closed : (finish decimal_text dumps sha256 source state now files).0 ≡ record {
      ledger = some (close_ledger decimal_text dumps sha256 source ledger now);
      receipt = some (
          receipt_of decimal_text dumps sha256 source
            (close_ledger decimal_text dumps sha256 source ledger now)
            state
            qualification
            target
            now);
    }

  new_receipt-eq-ok :
      (l : Ledger) (r : Receipt)
      → new_receipt decimal_text dumps sha256 source state l now ≡ ok r
      → (q : Text) × (t : Value) × (state.smoke_target ≡ some t)
        × (r ≡ receipt_of decimal_text dumps sha256 source l state q t now)
  unfolding new_receipt
  new_receipt-eq-ok l r h =
      let (q, _, h₁) = >>=-eq-ok (or_key_error state.qualification) _ h in
      let (t, is_t, h₂) = >>=-eq-ok (or_key_error state.smoke_target) _ h₁ in
      (q, t, or_key_error-eq-ok state.smoke_target is_t, sym (ok_injective h₂))

  write_receipt-made :
      (files : Files) (r : Result Receipt)
      → (write_receipt decimal_text dumps sha256 source files r).1 ≡ ok tt
      → (receipt : Receipt) × (r ≡ ok receipt)
  unfolding write_receipt
  write_receipt-made files (err e) h = cc
  write_receipt-made files (ok receipt) h = (receipt, refl)

  close_files-Closing :
      (files : Files) (r : Result Ledger)
      → finishable decimal_text dumps sha256 source state files ≡ r
      → (close_files decimal_text dumps sha256 source state now files r).1 ≡ ok tt
      → Closing files
  unfolding finish close_files write_receipt
  close_files-Closing files (err e) from h = cc
  close_files-Closing files (ok l) from h =
      let closed = close_ledger decimal_text dumps sha256 source l now in
      let written = record files { ledger = some closed } in
      let (r, made) =
        write_receipt-made written (new_receipt decimal_text dumps sha256 source state closed now)
          h in
      let (q, t, has_t, is_r) = new_receipt-eq-ok closed r made in
      record {
        ledger = l;
        qualification = q;
        target = t;
        was_open = from;
        has_target = has_t;
        closed =
            ap (λ r. (close_files decimal_text dumps sha256 source state now files r).0) from
            ∙ ap (λ r. (write_receipt decimal_text dumps sha256 source written r).0)
                (made ∙ ap ok is_r);
      }

  finish-Closing :
      (files : Files)
      → (finish decimal_text dumps sha256 source state now files).1 ≡ ok tt
      → Closing files
  unfolding finish
  finish-Closing files h = close_files-Closing files _ refl h

  closed-valid :
      (l : Ledger)
      → validate_ledger decimal_text dumps sha256 source
          (close_ledger decimal_text dumps sha256 source l now)
          state
        ≡ validate_ledger decimal_text dumps sha256 source l state
  unfolding validate_ledger is_bound is_own
  closed-valid l = refl

  receipt-current :
      (l : Ledger) (q : Text) (t : Value)
      → text_eq state.owner l.owner ≡ true
      → IsDocument l.runtime_sources
      → IsDocument t
      → is_current_receipt decimal_text dumps sha256 source
          (receipt_of decimal_text dumps sha256 source l state q t now)
          l
          t
        ≡ true
  unfolding is_current_receipt receipt_of
  receipt-current l q t owned ds dt = ground (
    arith,
    owned,
    text_eq_refl receipt_schema,
    text_eq_refl smoke_scope,
    text_eq_refl l.run_id,
    text_eq_refl l.build_id,
    py_eq_refl l.runtime_sources ds,
    py_eq_refl t dt,
    text_eq_refl (sha256 source),
    text_eq_refl (sha256 (dumps l)),
  )

  is_bound-owner :
      (l : Ledger) (build : Text) (sources target : Value)
      → is_bound decimal_text dumps sha256 source l state build sources target ≡ true
      → text_eq state.owner l.owner ≡ true
  unfolding is_bound is_own
  is_bound-owner l build sources target h =
      ground (arith, text_eq_iff l.owner state.owner, text_eq_iff state.owner l.owner)

  validate_ledger-owner :
      (l : Ledger)
      → validate_ledger decimal_text dumps sha256 source l state ≡ ok tt
      → text_eq state.owner l.owner ≡ true
  unfolding validate_ledger
  validate_ledger-owner l h =
      let (_, h₁) =
        require->>-eq-ok (text_eq l.schema ledger_schema && text_eq l.scope smoke_scope) _ _ h in
      let (build, _, h₂) = >>=-eq-ok (or_key_error state.build_id) _ h₁ in
      let (sources, _, h₃) = >>=-eq-ok (or_key_error state.runtime_sources) _ h₂ in
      let (target, _, h₄) = >>=-eq-ok (or_key_error state.smoke_target) _ h₃ in
      let (bound, _) =
        require->>-eq-ok (is_bound decimal_text dumps sha256 source l state build sources target) _
          _ h₄ in
      is_bound-owner l build sources target bound

  verify-closed :
      (l : Ledger) (r : Receipt) (t : Value)
      → context state ≡ ok tt
      → state.smoke_target ≡ some t
      → validate_ledger decimal_text dumps sha256 source l state ≡ ok tt
      → is_current_receipt decimal_text dumps sha256 source r
          (close_ledger decimal_text dumps sha256 source l now)
          t
        ≡ true
      → verify_completed decimal_text dumps sha256 source state (record {
        ledger = some (close_ledger decimal_text dumps sha256 source l now);
        receipt = some r;
      })
        ≡ ok r
  unfolding verify_completed
  verify-closed l r t in_context has_target valid current = >>=-ok _ in_context (
      require->>-ok _ (text_eq_refl (text "passed")) (
        >>=-ok _ (closed-valid l ∙ valid)
          (>>=-ok _ (ap or_key_error has_target) (require->>-ok _ current refl))))

  -- If finish comes through on a ledger whose runtime sources, and the run's smoke target, are
  -- documents without a repeated key, then verify_completed accepts the files that it leaves.
  pub finish-verify_completed :
      (files : Files) (l : Ledger) (t : Value)
      → files.ledger ≡ some l
      → state.smoke_target ≡ some t
      → IsDocument l.runtime_sources
      → IsDocument t
      → (finish decimal_text dumps sha256 source state now files).1 ≡ ok tt
      → (r : Receipt) × (verify_completed decimal_text dumps sha256 source state
            (finish decimal_text dumps sha256 source state now files).0
          ≡ ok r)
  finish-verify_completed files l t there has_target ds dt h =
      let c = finish-Closing files h in
      let k = finishable-Finishable decimal_text dumps sha256 source state files c.was_open in
      let same_l : l ≡ c.ledger = some_injective (sym there ∙ k.there) in
      let same_t : t ≡ c.target = some_injective (sym has_target ∙ c.has_target) in
      let closed = close_ledger decimal_text dumps sha256 source c.ledger now in
      let r =
        receipt_of decimal_text dumps sha256 source closed state c.qualification c.target now in
      let current =
        receipt-current closed c.qualification c.target (validate_ledger-owner c.ledger k.valid)
          (subst (λ (x : Ledger). IsDocument x.runtime_sources) same_l ds)
          (subst IsDocument same_t dt) in
      (
        r,
        subst (λ fs. verify_completed decimal_text dumps sha256 source state fs ≡ ok r)
            (sym c.closed)
            (verify-closed c.ledger r c.target k.in_context c.has_target k.valid current),
      )
