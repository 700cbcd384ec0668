-- ===== src/Corpus/Triage/Joining.antt =====
-- The comparisons of `main` in compose/corpus_baseline_triage.py, and the whole of its join.
use doris_ducklake.Prelude.{
  All, Bool, Dict, List, Option, Result, Text, [], err, every, has_no_items, length, map, none, not,
  ok, require, some, text, text_eq, texts_equal, true, value_error, ℕ, ◌&&◌, ◌==◌, ◌>>=◌, ◌>>◌, ◌∷◌,
  ◌≡◌,
}
use doris_ducklake.Corpus.Baseline.{BaselineReceipt}
use doris_ducklake.Corpus.Triage.{Campaign, Failure, Joined, Producers, load_baseline, triage}
use doris_ducklake.Corpus.Triage.Retained.{IsJoined, IsLoaded, failure_of}

-- What is read of the mirror's acceptance.json.
pub record Mirror : Type 0 where
  pub failed : ℕ
  pub corpus_commit : Text
  pub corpus_sha256 : Dict Text

-- The two files of a baseline's directory.
pub record Campaigned : Type 0 where
  pub receipt : BaselineReceipt
  pub campaign : Campaign

-- The arguments about the producer, each of which may be missing.
pub record ProducerArguments : Type 0 where
  pub embedded : Option Campaigned
  pub postgres : Option Campaigned
  pub commit : Option Text

unfoldable pub load : Campaigned → Text → Text → Option (Dict Text) → Result BaselineReceipt
load c axis commit hashes = load_baseline c.receipt c.campaign axis commit hashes

unfoldable pub load_both : Campaigned → Campaigned → Text → Result Producers
load_both embedded postgres commit = do
  require (not (has_no_items commit)) "Both producer backend axes and their commit are required"
  e ← load embedded (text "embedded") commit none
  p ← load postgres (text "postgres") commit none
  ok (some (e, p))

abbrev pub one_missing : Result Producers
one_missing = err (value_error "Both producer backend axes and their commit are required")

abbrev pub load_given : Option Campaigned → Option Campaigned → Option Text → Result Producers
load_given none none commit = ok none
load_given (some e) (some p) (some commit) = load_both e p commit
load_given (some e) (some p) none = one_missing
load_given (some e) none commit = one_missing
load_given none (some p) commit = one_missing

abbrev pub load_producers : ProducerArguments → Result Producers
load_producers given = load_given given.embedded given.postgres given.commit

abbrev pub receipts_of : BaselineReceipt → BaselineReceipt → Producers → List BaselineReceipt
receipts_of embedded postgres none = embedded ∷ postgres ∷ []
receipts_of embedded postgres (some (e, p)) = embedded ∷ postgres ∷ e ∷ p ∷ []

unfoldable pub is_comparable : BaselineReceipt → BaselineReceipt → Bool
is_comparable embedded receipt =
    text_eq receipt.runtime embedded.runtime && texts_equal receipt.selected embedded.selected

module _ (read_line : Text → Result ℕ) where
  -- From the rows of the failure index to those of triage.csv.
  unfoldable pub join_retained :
      List Failure → Mirror → Campaigned → Campaigned → ProducerArguments → Result (List Joined)
  join_retained rows mirror embedded_files postgres_files given = do
    require (length rows == mirror.failed) "Retained failure count differs from its receipt"
    embedded ←
        load embedded_files (text "embedded") mirror.corpus_commit (some mirror.corpus_sha256)
    postgres ←
        load postgres_files (text "postgres") mirror.corpus_commit (some mirror.corpus_sha256)
    producers ← load_producers given
    require (every (is_comparable embedded) (receipts_of embedded postgres producers))
        "Runtime or selected paths changed between baseline axes"
    triage read_line rows embedded postgres producers

-- One receipt has been made like the other.
pub record IsAlike (embedded receipt : BaselineReceipt) : Type 0 where
  pub same_runtime : receipt.runtime ≡ embedded.runtime
  pub same_selected : receipt.selected ≡ embedded.selected

pub record IsRetained (read_line : Text → Result ℕ) (rows : List Failure) (mirror : Mirror)
    (joined : List Joined) : Type 0 where
  pub embedded : BaselineReceipt
  pub postgres : BaselineReceipt
  pub producers : Producers
  pub none_lost : (length rows == mirror.failed) ≡ true
  pub from_embedded : IsLoaded embedded (text "embedded") mirror.corpus_sha256
  pub from_postgres : IsLoaded postgres (text "postgres") mirror.corpus_sha256
  pub alike : All (IsAlike embedded) (receipts_of embedded postgres producers)
  pub same_rows : map (failure_of read_line embedded postgres producers) joined ≡ rows
  pub are_joined : All (IsJoined read_line embedded postgres producers) joined
