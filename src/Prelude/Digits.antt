-- ===== src/Prelude/Digits.antt =====
-- Decimal numerals: `str(n)` and `int(s)` on the digits 0 to 9.
use doris_ducklake.Prelude.{
  Bool, Text, [], every, false, if◌then◌else◌, is_digit, ltb, not, suc, true, zero, ℕ, ◌%◌, ◌&&◌,
  ◌*◌, ◌+◌, ◌-◌, ◌/◌, ◌∷◌,
}

-- A numeral below 2 ^ fuel ends within `fuel` divisions by ten.
show_from : ℕ → ℕ → Text → Text
show_from zero n acc = acc
show_from (suc fuel) n acc =
    let rest = show_from fuel (n / 10) ((b'0' + n % 10) ∷ acc) in
    if ltb n 10 then (b'0' + n) ∷ acc else rest

unfoldable pub show : ℕ → Text
unfolding show_from
show n = show_from (n + 1) n []

unfoldable pub read_from : ℕ → Text → ℕ
read_from acc [] = acc
read_from acc (c ∷ cs) = read_from (acc * 10 + (c - b'0')) cs

-- `int(s)` of a text that `[0-9]+` matches.
unfoldable pub read : Text → ℕ
unfolding read_from
read s = read_from 0 s

abbrev pub is_empty : Text → Bool
is_empty [] = true
is_empty (_ ∷ _) = false

-- `re.fullmatch(r"[0-9]+", s)`.
unfoldable pub is_numeral : Text → Bool
unfolding is_digit
is_numeral s = not (is_empty s) && every is_digit s
