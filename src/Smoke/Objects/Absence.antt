-- ===== src/Smoke/Objects/Absence.antt =====
-- When an object counts as gone.
use doris_ducklake.Prelude.{
  >>=-eq-ok, Bool, List, Option, Text, [], and_then, and_then-eq-true, and_true, ap, arith, false,
  has_no_items, if-eq, inl, inr, ok, ok_injective, refl, require->>-eq-ok, subst, text, true, ◌&&◌,
  ◌||◌, ◌∙◌, ◌∷◌, ◌≡◌, ◌⊎◌,
}
use doris_ducklake.Json.{Value, end, get, is_text, is_text-eq, obj, or_else, str}
use doris_ducklake.Smoke.Objects.{
  ExitCode, ObjectState, absent_state, codes_of, gone, is_blank, is_confirmed, is_explicit,
  is_normalized, is_success, object_state, present, present_state,
}

-- Codes of the answer that name a missing object.
pub record IsGone (payload : Value) (listing : Option Text) (exit_code listing_exit : ExitCode)
    : Type 0 where
  pub stat_failed : is_success exit_code ≡ false
  pub reported : get (text "status") payload ≡ ok (str (text "error"))
  pub evidence :
      (is_explicit (codes_of payload) ≡ true)
      ⊎ ((codes_of payload ≡ []) × (is_success listing_exit ≡ true) × (is_blank listing ≡ true))

pub record IsPresent (payload : Value) (exit_code : ExitCode) : Type 0 where
  pub stat_worked : is_success exit_code ≡ true
  pub reported : get (text "status") payload ≡ ok (str (text "success"))

-- What each answer of `object_state` rests on.
abbrev pub RestsOn : ObjectState → Value → ExitCode → Option Text → ExitCode → Type 0
RestsOn present payload exit_code listing listing_exit = IsPresent payload exit_code
RestsOn gone payload exit_code listing listing_exit = IsGone payload listing exit_code listing_exit

no_codes : (codes : List Text) → has_no_items codes ≡ true → codes ≡ []
no_codes [] h = refl
no_codes (c ∷ cs) h = cc

is_confirmed-blank :
    (payload : Value) (codes : List Text) (listing : Option Text) (listing_exit : ExitCode)
    → is_confirmed payload codes listing listing_exit ≡ ok true
    → (codes ≡ []) × (is_success listing_exit ≡ true) × (is_blank listing ≡ true)
unfolding is_confirmed
is_confirmed-blank payload codes listing listing_exit h =
    let (found, _, h₁) = >>=-eq-ok (get (text "error") payload) _ h in
    let error = or_else found (obj end) in
    let (nested, _, h₂) = >>=-eq-ok (get (text "cause") error) _ h₁ in
    let (shape, is_shape, h₃) =
      >>=-eq-ok (and_then (has_no_items codes) (is_normalized error (or_else nested (obj end)))) _
        h₂ in
    let (holds, h₄) = and_then-eq-true shape _ h₃ in
    let (empty, _) = and_then-eq-true (has_no_items codes) _ (is_shape ∙ ap ok holds) in
    let both = and_true (is_success listing_exit) (is_blank listing) (ok_injective h₄) in
    (no_codes codes empty, both.0, both.1)

gone_evidence :
    (payload : Value) (listing : Option Text) (listing_exit : ExitCode) (confirmed : Bool)
    → is_confirmed payload (codes_of payload) listing listing_exit ≡ ok confirmed
    → (is_explicit (codes_of payload) || confirmed) ≡ true
    → (is_explicit (codes_of payload) ≡ true)
      ⊎ ((codes_of payload ≡ []) × (is_success listing_exit ≡ true) × (is_blank listing ≡ true))
gone_evidence payload listing listing_exit true from h =
    inr (is_confirmed-blank payload (codes_of payload) listing listing_exit from)
gone_evidence payload listing listing_exit false from h = inl (ground arith)

absent_state-RestsOn :
    (payload : Value) (exit_code : ExitCode) (listing : Option Text) (listing_exit : ExitCode)
    (s : ObjectState)
    → is_success exit_code ≡ false
    → absent_state payload listing listing_exit ≡ ok s
    → RestsOn s payload exit_code listing listing_exit
unfolding absent_state
absent_state-RestsOn payload exit_code listing listing_exit s failed h =
    let (confirmed, is_c, h₁) =
      >>=-eq-ok (is_confirmed payload (codes_of payload) listing listing_exit) _ h in
    let (status, is_s, h₂) = >>=-eq-ok (get (text "status") payload) _ h₁ in
    let (holds, h₃) =
      require->>-eq-ok
        (is_text status (text "error") && (is_explicit (codes_of payload) || confirmed)) _ _ h₂ in
    let both =
      and_true (is_text status (text "error")) (is_explicit (codes_of payload) || confirmed)
        holds in
    subst (λ (x : ObjectState). RestsOn x payload exit_code listing listing_exit) (ok_injective h₃)
      (record {
        stat_failed = failed;
        reported = is_s ∙ ap ok (is_text-eq status (text "error") both.0);
        evidence = gone_evidence payload listing listing_exit confirmed is_c both.1;
      })

present_state-RestsOn :
    (payload : Value) (exit_code : ExitCode) (listing : Option Text) (listing_exit : ExitCode)
    (s : ObjectState)
    → is_success exit_code ≡ true
    → present_state payload ≡ ok s
    → RestsOn s payload exit_code listing listing_exit
unfolding present_state
present_state-RestsOn payload exit_code listing listing_exit s worked h =
    let (status, is_s, h₁) = >>=-eq-ok (get (text "status") payload) _ h in
    let (holds, h₂) = require->>-eq-ok (is_text status (text "success")) _ _ h₁ in
    subst (λ (x : ObjectState). RestsOn x payload exit_code listing listing_exit) (ok_injective h₂)
      (record {
        stat_worked = worked;
        reported = is_s ∙ ap ok (is_text-eq status (text "success") holds);
      })

-- When object_state answers `present`, the stat succeeded and says so. When it answers `gone`,
-- the stat failed, its answer reports an error, and that answer either has a code that names a
-- missing object, or it has no code at all and a listing of the path succeeded and is blank.
pub object_state-RestsOn :
    (payload : Value) (exit_code : ExitCode) (listing : Option Text) (listing_exit : ExitCode)
    (s : ObjectState)
    → object_state (ok payload) exit_code listing listing_exit ≡ ok s
    → RestsOn s payload exit_code listing listing_exit
unfolding object_state
object_state-RestsOn payload exit_code listing listing_exit s h =
    elim (if-eq (is_success exit_code) (present_state payload)
      (absent_state payload listing listing_exit) h) [
        | inl (worked, h₁) ↦
            present_state-RestsOn payload exit_code listing listing_exit s worked h₁
        | inr (failed, h₁) ↦ absent_state-RestsOn payload exit_code listing listing_exit s failed h₁
      ]
