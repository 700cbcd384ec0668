-- ===== src/Preflight/Path.antt =====
-- `canonical_path` of compose/plugin_preflight.py.
pub mod Below
use doris_ducklake.Prelude.{
  Bool, Guard, Text, has_char, ltb, not, require, some_of, split, starts_with, text, text_eq, ℕ,
  ◌&&◌, ◌||◌,
}
use doris_ducklake.Prelude.Digits.{is_empty}

abbrev pub is_control : ℕ → Bool
is_control c = ltb c 32

-- `p in {"", ".", ".."}`
abbrev pub is_dot_part : Text → Bool
is_dot_part p = is_empty p || text_eq p (text ".") || text_eq p (text "..")

unfoldable pub is_canonical : Text → Bool
unfolding starts_with has_char split text text_eq
is_canonical name =
    not (is_empty name)
    && not (starts_with name (text "/"))
    && not (has_char b'\\' name)
    && not (some_of is_control name)
    && not (some_of is_dot_part (split b'/' name))

unfoldable pub canonical_path : Text → Guard
unfolding is_canonical
canonical_path name = require (is_canonical name) "Noncanonical plugin path"
