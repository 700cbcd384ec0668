-- ===== src/Deploy/Config.antt =====
-- The frontend's runtime configuration: `stage_config` and `verify_runtime_config` of
-- compose/plugin_deploy.py, on the bytes of `.fe.conf.runtime`.
pub mod Once
use doris_ducklake.Prelude.{
  Bool, Guard, List, Option, Result, Text, [], drop, ends_with, err, every, false, has_char,
  has_no_items, if◌then◌else◌, leb, none, not, ok, or_key_error, os_error, require, reverse, some,
  split, starts_with, text, text_eq, true, ℕ, ◌&&◌, ◌++◌, ◌==◌, ◌>>=◌, ◌>>◌, ◌||◌, ◌∷◌,
}

-- What stands at a path.
pub data PathState : Type 0 where
  missing : PathState
  file : List ℕ → PathState
  other : PathState

-- What a deployment keeps of the configuration.
pub record Config : Type 0 where
  pub sha256 : Option Text
  pub initialized : Bool
  pub before_start : List ℕ

abbrev pub exists : PathState → Bool
exists missing = false
exists _ = true

abbrev pub is_file : PathState → Bool
is_file (file _) = true
is_file _ = false

-- `path.read_bytes()`
abbrev pub read_bytes : PathState → Result (List ℕ)
read_bytes (file content) = ok content
read_bytes missing = err os_error
read_bytes other = err os_error

abbrev pub elected_network : Text
elected_network = 10 ∷ text "priority_networks = 172.30.80.0/24" ++ 10 ∷ []

abbrev pub network_key : Text
network_key = text "priority_networks"

-- `[ \t]`
unfoldable pub is_blank : ℕ → Bool
is_blank c = (c == 32) || (c == 9)

unfoldable pub skip_blanks : List ℕ → List ℕ
unfolding is_blank
skip_blanks [] = []
skip_blanks (c ∷ cs) = let rest = skip_blanks cs in if is_blank c then rest else c ∷ cs

-- `bytes.strip()`: ASCII white space.
unfoldable pub is_byte_space : ℕ → Bool
is_byte_space c = (leb 9 c && leb c 13) || (c == 32)

unfoldable pub skip_byte_spaces : List ℕ → List ℕ
unfolding is_byte_space
skip_byte_spaces [] = []
skip_byte_spaces (c ∷ cs) =
    let rest = skip_byte_spaces cs in if is_byte_space c then rest else c ∷ cs

unfoldable pub strip_bytes : List ℕ → List ℕ
unfolding skip_byte_spaces
strip_bytes s = reverse (skip_byte_spaces (reverse (skip_byte_spaces s)))

-- What follows the key, up to the line's end: `[ \t]*=[ \t]*([^\r\n#]+)$`, stripped. The group
-- gives a blank back if nothing else is left for it, and that is stripped again.
unfoldable pub assigned : List ℕ → Option (List ℕ)
unfolding strip_bytes
assigned [] = none
assigned (c ∷ cs) =
    if not (c == b'=') || has_no_items cs || has_char 13 cs || has_char b'#' cs
    then none
    else some (strip_bytes cs)

-- The match of the expression on one line.
unfoldable pub network_value : List ℕ → Option (List ℕ)
unfolding skip_blanks assigned
network_value line =
    let start = skip_blanks line in
    if starts_with start network_key then assigned (skip_blanks (drop 17 start)) else none

abbrev pub add_found : Option (List ℕ) → List (List ℕ) → List (List ℕ)
add_found none values = values
add_found (some v) values = v ∷ values

-- `re.findall(rb"(?m)^…$", original)`, each value stripped.
unfoldable pub network_values : List (List ℕ) → List (List ℕ)
network_values [] = []
network_values (line ∷ lines) = add_found (network_value line) (network_values lines)

-- `values and len(set(values)) == 1`, with that value.
unfoldable pub only_value : List (List ℕ) → Option (List ℕ)
only_value [] = none
only_value (v ∷ vs) = if every (text_eq v) vs then some v else none

-- `original + b"priority_networks = " + values[0] + b"\n"`
unfoldable pub with_duplicate : List ℕ → List ℕ → List ℕ
with_duplicate original value = original ++ text "priority_networks = " ++ value ++ 10 ∷ []

unfoldable pub is_duplicate_of : List ℕ → List ℕ → Option (List ℕ) → Bool
is_duplicate_of original observed none = false
is_duplicate_of original observed (some value) = text_eq observed (with_duplicate original value)

-- The change that the first boot makes.
unfoldable pub is_first_boot_change : List ℕ → List ℕ → Bool
is_first_boot_change original observed =
    ends_with original (10 ∷ [])
    && is_duplicate_of original observed (only_value (network_values (split 10 original)))

-- `hash` is SHA-256 of a file's bytes.
module _ (hash : List ℕ → Text) where
  -- `file_hash(path) == digest`
  unfoldable pub has_digest : PathState → Text → Bool
  has_digest (file content) digest = text_eq (hash content) digest
  has_digest _ digest = false

  unfoldable pub check_owned_config : Option Text → PathState → Guard
  check_owned_config none runtime = ok tt
  check_owned_config (some digest) runtime =
      require (has_digest runtime digest) "Runtime configuration changed after ownership snapshot"

  -- What stands there after the repository's default was copied, if nothing did.
  unfoldable pub bootstrap : Bool → PathState → PathState → Result (List ℕ)
  bootstrap has_prior template (file content) = ok content
  bootstrap has_prior template other = err os_error
  bootstrap has_prior template missing = do
    require (not has_prior) "Existing FE runtime configuration is missing"
    content ← read_bytes template
    ok (content ++ elected_network)

  -- `template` is `fe.conf`. The bytes are what stands at `.fe.conf.runtime` afterwards.
  unfoldable pub stage_config : Bool → PathState → PathState → Config → Result (Config × List ℕ)
  stage_config has_prior template runtime config = do
    check_owned_config config.sha256 runtime
    content ← bootstrap has_prior template runtime
    ok (record config { sha256 = some (hash content); before_start = content }, content)

  unfoldable pub is_current : Config → List ℕ → Result Bool
  is_current config observed = do
    digest ← or_key_error config.sha256
    ok (text_eq (hash observed) digest)

  unfoldable pub accept_change : Bool → Config → List ℕ → Result Config
  accept_change first_boot config observed = do
    require
        (first_boot && not config.initialized && is_first_boot_change config.before_start observed)
        "FE runtime configuration changed during restart"
    ok (record config { sha256 = some (hash observed); initialized = true })

  -- `first_boot`, which is read only if the bytes have changed, is that no frontend was there
  -- before, or one that had never been started.
  unfoldable pub verify_runtime_config : Result Bool → Config → List ℕ → Result Config
  verify_runtime_config first_boot config observed = do
    current ← is_current config observed
    (if current then ok config else (do first ← first_boot; accept_change first config observed))

  -- The checks of the rounds of `wait_ready`, each with what it observes.
  unfoldable pub verify_rounds : Bool → Config → List (List ℕ) → Result Config
  verify_rounds first_boot config [] = ok config
  verify_rounds first_boot config (observed ∷ later) = do
    next ← verify_runtime_config (ok first_boot) config observed
    verify_rounds first_boot next later
