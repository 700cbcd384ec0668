-- ===== src/Preflight/Records/Lines.antt =====
-- What `record_lines` writes, as a plain function, and the entries that it lets through.
use doris_ducklake.Prelude.{
  >>=-eq-ok, All, All-map, Dict, Text, [], and_true, arith, every, every-All, is_hex, ok, refl,
  require->>-eq-ok, require-eq-ok, true, ◌++◌, ◌∷◌, ◌≡◌, ◌≢◌,
}
use doris_ducklake.Json.{Value, arr, bool, dec, null, num, obj, str}
use doris_ducklake.Preflight.Path.{canonical_path}
use doris_ducklake.Preflight.Path.Below.{canonical-IsPlain}
use doris_ducklake.Preflight.Records.{is_sha256, line, record_lines}

abbrev pub lines : Text → Dict Value → Text
lines kind [] = []
lines kind ((name, digest) ∷ entries) = line kind name digest ++ lines kind entries

-- A name without a tab and a digest that is a text without a line feed.
pub record IsClean (entry : Text × Value) : Type 0 where
  pub name_no_tab : All (λ c. c ≢ b'\t') entry.0
  pub digest : Text
  pub is_digest : entry.1 ≡ str digest
  pub digest_no_feed : All (λ c. c ≢ b'\n') digest

name-no_tab : (name : Text) → canonical_path name ≡ ok tt → All (λ c. c ≢ b'\t') name
unfolding canonical_path
name-no_tab name h =
    All-map name (λ c p e. ground (arith, p.0))
      (canonical-IsPlain name (require-eq-ok _ _ h)).characters

hex-no_newline : (d : Text) → every is_hex d ≡ true → All (λ c. c ≢ b'\n') d
unfolding is_hex
hex-no_newline d h = All-map d (λ c p e. ground arith) (every-All is_hex d h)

digest-text :
    (digest : Value)
    → is_sha256 digest ≡ true
    → (d : Text) × (digest ≡ str d) × All (λ c. c ≢ b'\n') d
unfolding is_sha256
digest-text (str d) h = (d, refl, hex-no_newline d (and_true _ _ h).1)
digest-text null h = cc
digest-text (bool _) h = cc
digest-text (num _) h = cc
digest-text (dec _) h = cc
digest-text (arr _) h = cc
digest-text (obj _) h = cc

pub record_lines-eq-ok :
    (kind : Text) (entries : Dict Value) {s : Text}
    → record_lines kind entries ≡ ok s
    → (s ≡ lines kind entries) × All IsClean entries
unfolding record_lines
record_lines-eq-ok kind [] h = (ground arith, tt)
record_lines-eq-ok kind ((name, digest) ∷ entries) h =
    let (_, safe, h₁) = >>=-eq-ok (canonical_path name) _ h in
    let (hex, h₂) = require->>-eq-ok (is_sha256 digest) _ _ h₁ in
    let (rest, read_rest, h₃) = >>=-eq-ok (record_lines kind entries) _ h₂ in
    let (same, clean) = record_lines-eq-ok kind entries read_rest in
    let (d, is_d, no_feed) = digest-text digest hex in
    (
      cc (same),
      (
        record {
          name_no_tab = name-no_tab name safe;
          digest = d;
          is_digest = is_d;
          digest_no_feed = no_feed;
        },
        clean,
      ),
    )
