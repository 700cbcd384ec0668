-- ===== src/Corpus/Triage/Retained.antt =====
-- A triage keeps every failure, and never calls one a pass.
use doris_ducklake.Corpus.Baseline.Coverage.{IsBaseline, baseline_measurements-IsBaseline}
use doris_ducklake.Corpus.Baseline.{
  BaselineReceipt, FileEntry, Measurements, accounted_of, baseline_measurements, count_failures,
  has_outcomes, is_covered, is_incomplete, is_oracle_only, measurements_of, path_of,
}
use doris_ducklake.Prelude.{
  >>=-eq-ok, All, Bool, Bool-cases, Dict, List, Result, Text, [], and_true, ap, ap₂, arith, false,
  has_no_items, if◌then◌else◌, inl, inr, keep, lookup, map, ok, ok_injective, or_key_error,
  or_key_error-eq-ok, refl, require->>-eq-ok, some, some_of, subst, sym, text, text_eq,
  text_eq_sound, true, ℕ, ◌&&◌, ◌==◌, ◌∙◌, ◌∷◌, ◌≡◌,
}
use doris_ducklake.Corpus.Triage.{
  Campaign, Classification, Failure, Joined, Producers, adapter_connection_configuration, classify,
  classify_baseline, classify_mirror_error, compare_sources, doris_value_divergence, is_complete,
  is_of_run, join_row, live_only_or_nondeterministic, load_baseline, metadata_backend_axis,
  native_or_replay_baseline, outcomes, replay_format_inspection, state, triage,
  unresolved_baseline_evidence,
}

-- What each of the oracle-only classifications rests on.
pub record IsBacked (c : Classification) (embedded postgres : Text) : Type 0 where
  pub native : c ≡ native_or_replay_baseline → (embedded ≡ text "Fail") × (postgres ≡ text "Fail")
  pub backend : c ≡ metadata_backend_axis → (embedded ≡ text "Pass") × (postgres ≡ text "Fail")
  pub live_only :
      c ≡ live_only_or_nondeterministic → (embedded ≡ text "Pass") × (postgres ≡ text "Pass")

-- A classification that rests on the row alone.
abbrev is_from_row : Classification → Bool
is_from_row native_or_replay_baseline = false
is_from_row metadata_backend_axis = false
is_from_row live_only_or_nondeterministic = false
is_from_row _ = true

from_row-IsBacked : (c : Classification) (e p : Text) → is_from_row c ≡ true → IsBacked c e p
from_row-IsBacked c e p h = record {
  native = λ same. cc (ap is_from_row same, h);
  backend = λ same. cc (ap is_from_row same, h);
  live_only = λ same. cc (ap is_from_row same, h);
}

both-eq : (s t u v : Text) → (text_eq s t && text_eq u v) ≡ true → (s ≡ t) × (u ≡ v)
both-eq s t u v h =
    let parts = and_true (text_eq s t) (text_eq u v) h in
    (text_eq_sound s t parts.0, text_eq_sound u v parts.1)

classify_baseline-IsBacked : (e p : Text) → IsBacked (classify_baseline e p) e p
unfolding classify_baseline
classify_baseline-IsBacked e p =
    elim (Bool-cases (text_eq p (text "Fail") && text_eq e (text "Fail"))) [
      | inl first ↦
          let (is_p, is_e) = both-eq p (text "Fail") e (text "Fail") first in
          rw first (record { native = λ _. (is_e, is_p); backend = λ h. cc; live_only = λ h. cc })
      | inr not_first ↦ elim (Bool-cases (text_eq p (text "Fail") && text_eq e (text "Pass"))) [
        | inl second ↦
            let (is_p, is_e) = both-eq p (text "Fail") e (text "Pass") second in
            rw (not_first, second)
              (record { native = λ h. cc; backend = λ _. (is_e, is_p); live_only = λ h. cc })
        | inr not_second ↦ elim (Bool-cases (text_eq p e && text_eq e (text "Pass"))) [
          | inl third ↦
              let (same, is_e) = both-eq p e e (text "Pass") third in
              rw (not_first, not_second, third)
                (record {
                  native = λ h. cc;
                  backend = λ h. cc;
                  live_only = λ _. (is_e, same ∙ is_e);
                })
          | inr not_third ↦
              rw (not_first, not_second, not_third)
                (from_row-IsBacked unresolved_baseline_evidence e p refl)
        ]
      ]
    ]

if-from_row :
    (c : Bool) (x y : Classification)
    → is_from_row x ≡ true
    → is_from_row y ≡ true
    → is_from_row (if c then x else y) ≡ true
if-from_row true x y h k = h
if-from_row false x y h k = k

mirror-from_row : (file reason : Text) → is_from_row (classify_mirror_error file reason) ≡ true
unfolding classify_mirror_error
mirror-from_row file reason = ground arith

if-IsBacked :
    (c : Bool) (x y : Classification) (e p : Text)
    → IsBacked x e p
    → IsBacked y e p
    → IsBacked (if c then x else y) e p
if-IsBacked true x y e p h k = h
if-IsBacked false x y e p h k = k

classify-IsBacked : (row : Failure) (e p : Text) → IsBacked (classify row e p) e p
unfolding classify
classify-IsBacked row e p =
    if-IsBacked (text_eq row.stage (text "doris-mirror-divergence")) _ _ e p
      (from_row-IsBacked doris_value_divergence e p refl)
      (if-IsBacked (text_eq row.stage (text "doris-adapter-connect")) _ _ e p
        (from_row-IsBacked adapter_connection_configuration e p refl)
        (if-IsBacked (text_eq row.stage (text "format-inspection")) _ _ e p
          (from_row-IsBacked replay_format_inspection e p refl)
          (if-IsBacked (text_eq row.stage (text "doris-mirror-error")) _ _ e p
            (from_row-IsBacked (classify_mirror_error row.file row.reason) e p
              (mirror-from_row row.file row.reason))
            (classify_baseline-IsBacked e p))))

module _ (read_line : Text → Result ℕ) (embedded postgres : BaselineReceipt)
    (producers : Producers) where
  -- What a joined row says of the two runs, and what its classification rests on.
  pub record IsJoined (j : Joined) : Type 0 where
    pub line : ℕ
    pub at_line : read_line j.failure.line ≡ ok line
    pub from_embedded : j.embedded ≡ state (outcomes embedded.files j.failure.file line)
    pub from_postgres : j.postgres ≡ state (outcomes postgres.files j.failure.file line)
    pub backed : IsBacked j.classification j.embedded j.postgres

  abbrev pub failure_of : Joined → Failure
  failure_of j = j.failure

  join_row-IsJoined :
      (row : Failure) (j : Joined)
      → join_row read_line embedded postgres producers row ≡ ok j
      → (j.failure ≡ row) × IsJoined j
  unfolding join_row
  join_row-IsJoined row j h =
      let (line, is_line, h₁) = >>=-eq-ok (read_line row.line) _ h in
      let native = outcomes embedded.files row.file line in
      let pg = outcomes postgres.files row.file line in
      subst (λ (x : Joined). (x.failure ≡ row) × IsJoined x) (ok_injective h₁)
        (
          refl,
          record {
            line = line;
            at_line = is_line;
            from_embedded = refl;
            from_postgres = refl;
            backed = classify-IsBacked row (state native) (state pg);
          },
        )

  -- When triage returns, its rows are the given failures, one for one and in their order, each
  -- with the states of the two oracle runs at its file and line, and a classification that blames
  -- the baseline, the metadata backend or chance only where those two states are what it says.
  pub triage-IsJoined :
      (rows : List Failure) (joined : List Joined)
      → triage read_line rows embedded postgres producers ≡ ok joined
      → (map failure_of joined ≡ rows) × All IsJoined joined
  unfolding triage
  triage-IsJoined [] joined h =
      subst (λ (js : List Joined). (map failure_of js ≡ []) × All IsJoined js) (ok_injective h)
        (refl, tt)
  triage-IsJoined (row ∷ rows) joined h =
      let (j, is_j, h₁) = >>=-eq-ok (join_row read_line embedded postgres producers row) _ h in
      let (js, are_js, h₂) = >>=-eq-ok (triage read_line rows embedded postgres producers) _ h₁ in
      let (same, is_joined) = join_row-IsJoined row j is_j in
      let (rest, are_joined) = triage-IsJoined rows js are_js in
      subst (λ (ks : List Joined). (map failure_of ks ≡ row ∷ rows) × All IsJoined ks)
        (ok_injective h₂) (ap₂ ◌∷◌ same rest, (is_joined, are_joined))

-- What a baseline that is joined has been checked for.
pub record IsLoaded (receipt : BaselineReceipt) (axis : Text) (hashes : Dict Text) : Type 0 where
  pub measurements : Measurements
  pub is_baseline : IsBaseline receipt measurements
  pub complete : map path_of (keep is_incomplete receipt.files) ≡ []
  pub same_axis : receipt.axis ≡ axis
  pub same_sources :
      All (λ (file : FileEntry). lookup file.path hashes ≡ some file.sha256) receipt.files

compare_sources-All :
    (hashes : Dict Text) (files : List FileEntry) {u : Unit {0}}
    → compare_sources hashes files ≡ ok u
    → All (λ (file : FileEntry). lookup file.path hashes ≡ some file.sha256) files
unfolding compare_sources
compare_sources-All hashes [] h = tt
compare_sources-All hashes (file ∷ files) h =
    let (known, is_known, h₁) = >>=-eq-ok (or_key_error (lookup file.path hashes)) _ h in
    let (same, h₂) = require->>-eq-ok (text_eq known file.sha256) _ _ h₁ in
    (
      or_key_error-eq-ok (lookup file.path hashes) is_known
          ∙ ap some (text_eq_sound known file.sha256 same),
      compare_sources-All hashes files h₂,
    )

no_items-eq {ℓ} : {A : Type ℓ} (xs : List A) → has_no_items xs ≡ true → xs ≡ []
no_items-eq [] h = refl
no_items-eq (x ∷ xs) h = cc

is_complete-none :
    (c : Campaign) (m : Measurements) → is_complete c m ≡ true → m.incomplete_files ≡ []
unfolding is_complete
is_complete-none c m h =
    no_items-eq m.incomplete_files (and_true _ (has_no_items m.incomplete_files) h).1

measured :
    (receipt : BaselineReceipt) (m : Measurements)
    → baseline_measurements receipt ≡ ok m
    → measurements_of receipt ≡ m
unfolding baseline_measurements
measured receipt m h =
    let (_, h₁) = require->>-eq-ok (is_oracle_only receipt) _ _ h in
    let (_, h₂) = require->>-eq-ok (some_of has_outcomes receipt.files) _ _ h₁ in
    let (_, h₃) = require->>-eq-ok (is_covered (accounted_of receipt) receipt.selected) _ _ h₂ in
    let (_, h₄) = require->>-eq-ok (count_failures receipt.files == receipt.failed) _ _ h₃ in
    ok_injective h₄

measured-incomplete :
    (receipt : BaselineReceipt) (m : Measurements)
    → measurements_of receipt ≡ m
    → map path_of (keep is_incomplete receipt.files) ≡ m.incomplete_files
unfolding measurements_of
measured-incomplete receipt m h = ap (λ (x : Measurements). x.incomplete_files) h

is_of_run-axis :
    (c : Campaign) (receipt : BaselineReceipt) (axis commit : Text)
    → is_of_run c receipt axis commit ≡ true
    → receipt.axis ≡ axis
unfolding is_of_run
is_of_run-axis c receipt axis commit h = (both-eq c.corpus_commit commit receipt.axis axis h).1

-- When load_baseline accepts a receipt for a campaign, an axis and the mirror's file digests, the
-- receipt is an oracle-only baseline that accounts for its selection, none of its files was cut
-- short, its axis is the one asked for, and each of its files has the digest that the mirror has.
pub load_baseline-IsLoaded :
    (receipt loaded : BaselineReceipt) (campaign : Campaign) (axis commit : Text)
    (hashes : Dict Text)
    → load_baseline receipt campaign axis commit (some hashes) ≡ ok loaded
    → (loaded ≡ receipt) × IsLoaded receipt axis hashes
unfolding load_baseline
load_baseline-IsLoaded receipt loaded campaign axis commit hashes h =
    let (m, is_m, h₁) = >>=-eq-ok (baseline_measurements receipt) _ h in
    let (complete, h₂) = require->>-eq-ok (is_complete campaign m) _ _ h₁ in
    let (of_run, h₃) = require->>-eq-ok (is_of_run campaign receipt axis commit) _ _ h₂ in
    let (_, sources, h₄) = >>=-eq-ok (compare_sources hashes receipt.files) (λ _. ok receipt) h₃ in
    (
      sym (ok_injective h₄),
      record {
        measurements = m;
        is_baseline = baseline_measurements-IsBaseline receipt m is_m;
        complete =
            measured-incomplete receipt m (measured receipt m is_m)
            ∙ is_complete-none campaign m complete;
        same_axis = is_of_run-axis campaign receipt axis commit of_run;
        same_sources = compare_sources-All hashes receipt.files sources;
      },
    )
