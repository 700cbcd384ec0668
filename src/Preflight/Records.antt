-- ===== src/Preflight/Records.antt =====
-- `records` and `build_id` of compose/plugin_preflight.py: the canonical text of a payload, and
-- the identity that is its digest.
pub mod Lines
pub mod Sorted
pub mod Injective
use doris_ducklake.Prelude.{
  Bool, Dict, List, Result, Text, [], every, false, if◌then◌else◌, is_hex, length, ltb, ok, require,
  text, true, ℕ, ◌&&◌, ◌++◌, ◌==◌, ◌>>=◌, ◌>>◌, ◌||◌, ◌∷◌,
}
use doris_ducklake.Json.{Value, str, to_text}
use doris_ducklake.Preflight.Path.{canonical_path}
use doris_ducklake.Preflight.Utf8.{utf8}

-- The order of Python's `bytes`.
unfoldable pub bytes_le : List ℕ → List ℕ → Bool
bytes_le [] ys = true
bytes_le (x ∷ xs) [] = false
bytes_le (x ∷ xs) (y ∷ ys) = ltb x y || ((x == y) && bytes_le xs ys)

module _ {ℓ} {V : Type ℓ} where
  -- `sorted(entries.items(), key=lambda entry: entry[0].encode("utf-8"))`, a stable sort.
  unfoldable pub insert_entry : Text × V → Dict V → Dict V
  unfolding bytes_le
  insert_entry e [] = e ∷ []
  insert_entry e (x ∷ xs) =
      if bytes_le (utf8 e.0) (utf8 x.0) then e ∷ x ∷ xs else x ∷ insert_entry e xs

  unfoldable pub sort_entries : Dict V → Dict V
  unfolding insert_entry
  sort_entries [] = []
  sort_entries (e ∷ es) = insert_entry e (sort_entries es)

-- `isinstance(digest, str) and re.fullmatch(r"[0-9a-f]{64}", digest)`
unfoldable pub is_sha256 : Value → Bool
unfolding is_hex
is_sha256 (str digest) = (length digest == 64) && every is_hex digest
is_sha256 _ = false

-- `f"{kind}\t{name}\t{digest}\n"`
abbrev pub line : Text → Text → Value → Text
line kind name digest = kind ++ b'\t' ∷ name ++ b'\t' ∷ to_text digest ++ b'\n' ∷ []

unfoldable pub record_lines : Text → Dict Value → Result Text
unfolding canonical_path is_sha256
record_lines kind [] = ok []
record_lines kind ((name, digest) ∷ entries) = do
  canonical_path name
  require (is_sha256 digest) "Invalid SHA-256"
  rest ← record_lines kind entries
  ok (line kind name digest ++ rest)

unfoldable pub records : Text → Dict Value → Result Text
unfolding record_lines sort_entries
records kind entries = record_lines kind (sort_entries entries)

abbrev pub schema : Text
schema = text "doris-plugin-payload-v1"

-- `f"{SCHEMA}\nAPI\t{api}\n"`
abbrev pub header : Text → Text
header api = schema ++ b'\n' ∷ text "API" ++ b'\t' ∷ api ++ b'\n' ∷ []

-- The header, then `records("P", payload)`, then `records("D", runtime)`.
unfoldable pub canonical : Text → Dict Value → Dict Value → Result Text
unfolding records
canonical api payload runtime = do
  p ← records (text "P") payload
  d ← records (text "D") runtime
  ok (header api ++ (p ++ d))

-- `sha256` is the hexadecimal SHA-256 of a sequence of bytes.
module _ (sha256 : List ℕ → Text) where
  unfoldable pub build_id : Text → Dict Value → Dict Value → Result Text
  unfolding canonical
  build_id api payload runtime = do
    c ← canonical api payload runtime
    ok (text "doris-ducklake-v1-" ++ sha256 (utf8 c))
