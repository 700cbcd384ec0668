-- ===== src/Deploy/Release.antt =====
-- The claim outlives every helper that might still write to the volume.
use doris_ducklake.Deploy.Exec.{continue, gets, handle, modify, pure, ◌>>=◌}
use doris_ducklake.Prelude.{
  Bool-cases, Guard, List, Result, Text, [], ap, arith, err, false, if-eq, if◌then◌else◌, inl, inr,
  length, ok, ok_injective, refl, reverse, reverse_onto, suc, sym, text, text_eq, true, ℕ, ◌+◌,
  ◌||◌, ◌∙◌, ◌∷◌, ◌≡◌, ◌⊎◌,
}
use doris_ducklake.Json.{Value}
use doris_ducklake.Deploy.Claim.{
  Call, Command, Deployment, Step, cleanup_all, cleanup_helpers, event, forget_helper,
  give_up_claim, is_operational, is_unsafe, keep_head, refuse_helper, release, remove_helper,
  remove_owned, try_helper, without,
}
use doris_ducklake.Deploy.Keeping.{Keeps, Keeps-refl, Keeps-trans, remove_owned-AllKeep}

module _ (daemon : List Call → Command → Result Text) (loads : Text → Result Value)
    (save : List (Text × Text) → Guard) (token : Text) where
  -- Taking one helper off the list.
  record Removed (d d' : Deployment) : Type 0 where
    one_less : length d.helpers ≡ suc (length d'.helpers)
    same_state : d'.unsafe_helper_state ≡ d.unsafe_helper_state

  keep_head-length :
      (h : Text) (r : Result (List Text)) (n : ℕ) {rest : List Text}
      → ((hs : List Text) → r ≡ ok hs → n ≡ suc (length hs))
      → keep_head h r ≡ ok rest
      → suc n ≡ suc (length rest)
  keep_head-length h (err e) n rule is_rest = cc
  keep_head-length h (ok hs) n rule is_rest =
      ap suc (rule hs refl) ∙ ap (λ t. suc (length t)) (ok_injective is_rest)

  without-length :
      (h : Text) (hs : List Text) {rest : List Text}
      → without h hs ≡ ok rest
      → length hs ≡ suc (length rest)
  unfolding without
  without-length h [] e = cc
  without-length h (x ∷ xs) e = elim (if-eq (text_eq x h) (ok xs) (keep_head x (without h xs)) e) [
    | inl (_, found) ↦ ap (λ t. suc (length t)) (ok_injective found)
    | inr (_, later) ↦
        keep_head-length x (without h xs) (length xs) (λ hs e'. without-length h xs e') later
  ]

  -- An exception leaves the list as it was.
  abbrev AfterTry : Deployment → Deployment × Guard → Type 0
  AfterTry d (d', err _) = Keeps d d'
  AfterTry d (d', ok _) = Removed d d'

  forget-from :
      (d : Deployment) (h : Text) (r : Result (List Text))
      → without h d.helpers ≡ r
      → AfterTry d
          (continue (d, r) (λ rest. modify (λ (e : Deployment). record e { helpers = rest })))
  unfolding modify
  forget-from d h (err e) from = Keeps-refl d
  forget-from d h (ok rest) from = record {
    one_less = without-length h d.helpers from;
    same_state = refl;
  }

  forget_helper-AfterTry :
      (d : Deployment) (h : Text) → AfterTry d (forget_helper daemon loads save token h d)
  unfolding forget_helper ◌>>=◌ gets pure
  forget_helper-AfterTry d h = forget-from d h (without h d.helpers) refl

  widen : (d e : Deployment) (p : Deployment × Guard) → Keeps d e → AfterTry e p → AfterTry d p
  widen d e (f, err raised) k h = Keeps-trans d e f k h
  widen d e (f, ok _) k h = record {
    one_less = ap length (sym k.same_helpers) ∙ h.one_less;
    same_state = h.same_state ∙ k.same_helper_state;
  }

  after_removal :
      (d : Deployment) (h : Text) (p : Deployment × Guard)
      → Keeps d p.0
      → AfterTry d (continue p (λ _. forget_helper daemon loads save token h))
  after_removal d h (e, err raised) k = k
  after_removal d h (e, ok _) k =
      widen d e (forget_helper daemon loads save token h e) k (forget_helper-AfterTry e h)

  remove_helper-AfterTry :
      (d : Deployment) (h : Text) → AfterTry d (remove_helper daemon loads save token h d)
  unfolding remove_helper ◌>>=◌
  remove_helper-AfterTry d h =
      after_removal d h (remove_owned daemon loads save token h d)
        (remove_owned-AllKeep daemon loads save token h d)

  -- What a round of the loop does when it does not raise.
  Handled : Deployment → Deployment × Guard → Type 0
  Handled d p = (p.1 ≡ ok tt) → (p.0.unsafe_helper_state ≡ true) ⊎ Removed d p.0

  refused :
      (d : Deployment) (h : Text)
      → (refuse_helper daemon loads save token h d).0.unsafe_helper_state ≡ true
  unfolding refuse_helper ◌>>=◌ modify event
  refused d h = refl

  handled :
      (d : Deployment) (h : Text) (p : Deployment × Guard)
      → AfterTry d p
      → Handled d (handle p is_operational (λ _. refuse_helper daemon loads save token h))
  unfolding Handled
  handled d h (e, ok _) after fine = inr after
  handled d h (e, err raised) after fine = elim (Bool-cases (is_operational raised)) [
    | inl caught ↦ inl (rw caught (refused e h))
    | inr missed ↦ cc (missed, fine)
  ]

  keeps_unsafe :
      (d : Deployment) (h : Text) (p : Deployment × Guard)
      → AfterTry d p
      → d.unsafe_helper_state ≡ true
      → (handle p is_operational
          (λ _. refuse_helper daemon loads save token h)).0.unsafe_helper_state
        ≡ true
  keeps_unsafe d h (e, ok _) after was = after.same_state ∙ was
  keeps_unsafe d h (e, err raised) after was = elim (Bool-cases (is_operational raised)) [
    | inl caught ↦ rw caught (refused e h)
    | inr missed ↦ rw missed (after.same_helper_state ∙ was)
  ]

  try_helper-unsafe :
      (d : Deployment) (h : Text)
      → d.unsafe_helper_state ≡ true
      → (try_helper daemon loads save token h d).0.unsafe_helper_state ≡ true
  unfolding try_helper
  try_helper-unsafe d h was = keeps_unsafe d h _ (remove_helper-AfterTry d h) was

  try_helper-Handled :
      (d : Deployment) (h : Text) → Handled d (try_helper daemon loads save token h d)
  unfolding try_helper
  try_helper-Handled d h = handled d h _ (remove_helper-AfterTry d h)

  continue_all-unsafe :
      (hs : List Text) (p : Deployment × Guard)
      → ((e : Deployment)
          → e.unsafe_helper_state ≡ true
          → (cleanup_all daemon loads save token hs e).0.unsafe_helper_state ≡ true)
      → p.0.unsafe_helper_state ≡ true
      → (continue p (λ _. cleanup_all daemon loads save token hs)).0.unsafe_helper_state ≡ true
  continue_all-unsafe hs (e, err raised) next was = was
  continue_all-unsafe hs (e, ok _) next was = next e was

  cleanup_all-unsafe :
      (hs : List Text) (d : Deployment)
      → d.unsafe_helper_state ≡ true
      → (cleanup_all daemon loads save token hs d).0.unsafe_helper_state ≡ true
  unfolding cleanup_all ◌>>=◌ pure
  cleanup_all-unsafe [] d was = was
  cleanup_all-unsafe (h ∷ hs) d was =
      continue_all-unsafe hs (try_helper daemon loads save token h d) (cleanup_all-unsafe hs)
        (try_helper-unsafe d h was)

  -- A round for each helper, or the state is unsafe.
  Emptied : List Text → Deployment → Deployment × Guard → Type 0
  Emptied hs d p =
      (p.1 ≡ ok tt)
      → (p.0.unsafe_helper_state ≡ true) ⊎ (length d.helpers ≡ length hs + length p.0.helpers)

  continue_all-Emptied :
      (h : Text) (hs : List Text) (d : Deployment) (p : Deployment × Guard)
      → ((e : Deployment) → Emptied hs e (cleanup_all daemon loads save token hs e))
      → Handled d p
      → Emptied (h ∷ hs) d (continue p (λ _. cleanup_all daemon loads save token hs))
  unfolding Emptied Handled
  continue_all-Emptied h hs d (e, err raised) next after fine = cc
  continue_all-Emptied h hs d (e, ok _) next after fine = elim (after refl) [
    | inl unsafe ↦ inl (cleanup_all-unsafe hs e unsafe)
    | inr removed ↦ elim (next e fine) [
      | inl unsafe ↦ inl unsafe
      | inr counted ↦ inr (omega (arith, removed.one_less, counted))
    ]
  ]

  cleanup_all-Emptied :
      (hs : List Text) (d : Deployment) → Emptied hs d (cleanup_all daemon loads save token hs d)
  unfolding cleanup_all ◌>>=◌ pure Emptied
  cleanup_all-Emptied [] d = λ fine. inr (omega arith)
  cleanup_all-Emptied (h ∷ hs) d =
      continue_all-Emptied h hs d (try_helper daemon loads save token h d) (cleanup_all-Emptied hs)
        (try_helper-Handled d h)

  length-reverse_onto {ℓ} :
      {A : Type ℓ} (acc xs : List A) → length (reverse_onto acc xs) ≡ length acc + length xs
  length-reverse_onto acc [] = omega arith
  length-reverse_onto acc (x ∷ xs) = omega (arith, length-reverse_onto (x ∷ acc) xs)

  no_helper : (hs : List Text) → length hs ≡ 0 → hs ≡ []
  no_helper [] n = refl
  no_helper (h ∷ hs) n = cc

  cleanup_helpers-empties :
      (d : Deployment)
      → (cleanup_helpers daemon loads save token d).1 ≡ ok tt
      → ((cleanup_helpers daemon loads save token d).0.unsafe_helper_state ≡ true)
        ⊎ ((cleanup_helpers daemon loads save token d).0.helpers ≡ [])
  unfolding cleanup_helpers Emptied
  cleanup_helpers-empties d fine = elim (cleanup_all-Emptied (reverse d.helpers) d fine) [
    | inl unsafe ↦ inl unsafe
    | inr counted ↦ inr (no_helper _ (omega (arith, counted, length-reverse_onto [] d.helpers)))
  ]

  -- What `release` does after the cleanup.
  abbrev settle : Text → Step (Unit {0})
  settle claim = gets (is_unsafe daemon loads save token) >>= (λ unsafe.
      if unsafe
      then event daemon loads save token (text "claim-retained-for-recovery") claim
      else give_up_claim daemon loads save token claim)

  -- Nothing more is asked of Docker, or no helper is left and nothing is in doubt.
  abbrev pub IsSettled : Deployment → Deployment → Type 0
  IsSettled cleaned released =
      (released.calls ≡ cleaned.calls)
      ⊎ ((cleaned.helpers ≡ [])
          × (cleaned.unsafe_helper_state ≡ false)
          × (cleaned.unsafe_fe_state ≡ false))

  retained :
      (claim : Text) (d : Deployment)
      → (event daemon loads save token (text "claim-retained-for-recovery") claim d).0.calls
        ≡ d.calls
  unfolding event
  retained claim d = refl

  settle-IsSettled :
      (claim : Text) (p : Deployment × Guard)
      → (p.1 ≡ ok tt → (p.0.unsafe_helper_state ≡ true) ⊎ (p.0.helpers ≡ []))
      → IsSettled p.0 (continue p (λ _. settle claim)).0
  unfolding ◌>>=◌ gets is_unsafe
  settle-IsSettled claim (d, err raised) rule = inl refl
  settle-IsSettled claim (d, ok _) rule =
      elim (Bool-cases (d.unsafe_helper_state || d.unsafe_fe_state)) [
        | inl unsafe ↦ inl (rw unsafe (retained claim d))
        | inr safe ↦ elim (rule refl) [
          | inl unsafe ↦ ground arith
          | inr empty ↦ inr (empty, ground arith, ground arith)
        ]
      ]

  -- When release gives up a claim, either it runs no docker command after the cleanup of the
  -- helpers, so that the claim's container stays, or that cleanup has left no helper and neither
  -- the helpers nor the frontend are in an uncertain state.
  pub release-IsSettled :
      (claim : Text) (d : Deployment)
      → IsSettled
          (cleanup_helpers daemon loads save token d).0
          (release daemon loads save token claim d).0
  unfolding release ◌>>=◌
  release-IsSettled claim d =
      settle-IsSettled claim (cleanup_helpers daemon loads save token d) (cleanup_helpers-empties d)
