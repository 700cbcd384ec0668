-- ===== src/Preflight/Manifest.antt =====
-- `manifest_sections` of compose/plugin_preflight.py: the parser of a JAR's manifest.
use doris_ducklake.Prelude.{
  Bool, Dict, List, Result, Text, [], contains, err, false, has_char, has_no_items, if◌then◌else◌,
  insert, leb, map, not, ok, require, reverse, split, starts_with, true, value_error, ℕ, ◌&&◌, ◌++◌,
  ◌+◌, ◌==◌, ◌>>=◌, ◌>>◌, ◌∷◌,
}
use doris_ducklake.Prelude.Digits.{is_empty}
use doris_ducklake.Preflight.Utf8.{utf8_decode}

-- `data.replace(b"\r\n", b"\n")`: a carriage return goes if a line feed follows it.
unfoldable pub unify_line_ends : List ℕ → List ℕ
unfolding starts_with
unify_line_ends [] = []
unify_line_ends (x ∷ xs) =
    let rest = unify_line_ends xs in
    if (x == 13) && starts_with xs (10 ∷ []) then rest else x ∷ rest

-- `logical[-1] += raw[1:]`, on the lines so far, the last one first.
unfoldable pub continue_line : List Text → Text → Result (List Text)
continue_line [] raw = err (value_error "Manifest continuation without a header")
continue_line ([] ∷ done) raw = err (value_error "Manifest continuation without a header")
continue_line ((c ∷ cs) ∷ done) raw = ok (((c ∷ cs) ++ raw) ∷ done)

-- The first loop: a line that begins with a space continues the line before it.
unfoldable pub logical_lines : List Text → List Text → Result (List Text)
unfolding continue_line
logical_lines done [] = ok done
logical_lines done ([] ∷ raws) = logical_lines ([] ∷ done) raws
logical_lines done ((c ∷ cs) ∷ raws) =
    let rest = logical_lines ((c ∷ cs) ∷ done) raws in
    let continued = (do done' ← continue_line done cs; logical_lines done' raws) in
    if c == b' ' then continued else rest

-- `line.partition(": ")`
unfoldable pub partition_header : Text → Text × Bool × Text
partition_header [] = ([], false, [])
partition_header (x ∷ []) = (x ∷ [], false, [])
partition_header (x ∷ y ∷ rest) =
    let (name, found, value) = partition_header (y ∷ rest) in
    if (x == b':') && (y == b' ') then ([], true, rest) else (x ∷ name, found, value)

-- `name.lower()`, for the letters A to Z.
unfoldable pub lower : Text → Text
lower s = map (λ c. if leb b'A' c && leb c b'Z' then c + 32 else c) s

abbrev pub Section : Type 0
Section = Dict Text

-- `sections.append(section)`, if the section has a header. `sections` has the last one first.
abbrev pub close_section : List Section → Section → List Section
close_section sections [] = sections
close_section sections (h ∷ hs) = (h ∷ hs) ∷ sections

unfoldable pub add_header : Section → Text → Result Section
unfolding partition_header lower contains insert
add_header section line = do
  let parts = partition_header line
  let name = lower parts.0
  require (parts.1 && not (contains name section)) "Malformed/duplicate manifest header"
  ok (insert name parts.2 section)

-- The second loop.
unfoldable pub collect_sections : List Section → Section → List Text → Result (List Section)
unfolding has_char add_header
collect_sections sections section [] = ok (close_section sections section)
collect_sections sections section (raw ∷ raws) = do
  line ← utf8_decode raw
  require (not (has_char 13 line)) "Malformed manifest line ending"
  let rest = collect_sections (close_section sections section) [] raws
  let longer = (do section' ← add_header section line; collect_sections sections section' raws)
  if is_empty line then rest else longer

unfoldable pub manifest_sections : List ℕ → Result (List Section)
unfolding unify_line_ends logical_lines collect_sections split
manifest_sections bytes = do
  logical ← logical_lines [] (split 10 (unify_line_ends bytes))
  sections ← collect_sections [] [] (reverse logical)
  require (not (has_no_items sections)) "Provider manifest is empty"
  ok (reverse sections)
