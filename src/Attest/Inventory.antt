-- ===== src/Attest/Inventory.antt =====
-- What an accepted inventory says, column by column.
use doris_ducklake.Preflight.Path.Below.{join-split}
use doris_ducklake.Prelude.{
  >>=-eq-ok, Dict, List, String, Text, [], and_then, and_then-eq-true, ap, ap₂, arith, insert, join,
  length, lookup, ok, ok_injective, refl, require->>-eq-ok, require-eq-ok, split, splitlines, subst,
  sym, text, text_eq, text_eq_sound, true, ◌==◌, ◌∙◌, ◌∷◌, ◌≡◌,
}
use doris_ducklake.Attest.{
  column_is, connector_name, inventory_columns, inventory_rows, is_external_connector, parse_row,
  parse_rows, validate_inventory, validate_row, zip_onto,
}

-- The line of the one connector with the expected version.
abbrev pub connector_line : Text → Text
connector_line expected =
    join b'\t' (connector_name ∷ text "CONNECTOR" ∷ expected ∷ text "EXTERNAL" ∷ [])

-- The row of four columns.
abbrev row_of : Text → Text → Text → Text → Dict Text
row_of a b c d =
    (text "EXTENSION_NAME", a)
    ∷ (text "EXTENSION_TYPE", b)
    ∷ (text "EXTENSION_VERSION", c)
    ∷ (text "SOURCE", d)
    ∷ []

zip_four : (a b c d : Text) → zip_onto [] inventory_columns (a ∷ b ∷ c ∷ d ∷ []) ≡ row_of a b c d
unfolding zip_onto insert text text_eq
zip_four a b c d = refl

module _ (a b c d : Text) where
  column_name : (v : Text) → column_is (text "EXTENSION_NAME") v (row_of a b c d) ≡ ok true → a ≡ v
  unfolding column_is lookup text text_eq
  column_name v h = text_eq_sound a v (ok_injective h)

  column_type : (v : Text) → column_is (text "EXTENSION_TYPE") v (row_of a b c d) ≡ ok true → b ≡ v
  unfolding column_is lookup text text_eq
  column_type v h = text_eq_sound b v (ok_injective h)

  column_version :
      (v : Text) → column_is (text "EXTENSION_VERSION") v (row_of a b c d) ≡ ok true → c ≡ v
  unfolding column_is lookup text text_eq
  column_version v h = text_eq_sound c v (ok_injective h)

  column_source : (v : Text) → column_is (text "SOURCE") v (row_of a b c d) ≡ ok true → d ≡ v
  unfolding column_is lookup text text_eq
  column_source v h = text_eq_sound d v (ok_injective h)

  external-values :
      is_external_connector (row_of a b c d) ≡ ok true
      → (a ≡ connector_name) × (b ≡ text "CONNECTOR") × (d ≡ text "EXTERNAL")
  unfolding is_external_connector
  external-values h =
      let (name, is_name, h₁) =
        >>=-eq-ok (column_is (text "EXTENSION_NAME") connector_name (row_of a b c d)) _ h in
      let (kind, is_kind, h₂) =
        >>=-eq-ok
          (and_then name (column_is (text "EXTENSION_TYPE") (text "CONNECTOR") (row_of a b c d))) _
          h₁ in
      let (kind_holds, is_source) = and_then-eq-true kind _ h₂ in
      let (name_holds, is_type) = and_then-eq-true name _ (is_kind ∙ ap ok kind_holds) in
      (column_name _ (is_name ∙ ap ok name_holds), column_type _ is_type, column_source _ is_source)

  validate_row-values :
      (expected : Text)
      → validate_row (row_of a b c d) expected ≡ ok tt
      → (a ≡ connector_name) × (b ≡ text "CONNECTOR") × (c ≡ expected) × (d ≡ text "EXTERNAL")
  unfolding validate_row
  validate_row-values expected h =
      let (external, is_external, h₁) = >>=-eq-ok (is_external_connector (row_of a b c d)) _ h in
      let (external_holds, h₂) = require->>-eq-ok external _ _ h₁ in
      let (current, is_current, h₃) =
        >>=-eq-ok (column_is (text "EXTENSION_VERSION") expected (row_of a b c d)) _ h₂ in
      let (is_a, is_b, is_d) = external-values (is_external ∙ ap ok external_holds) in
      (is_a, is_b, column_version expected (is_current ∙ ap ok (require-eq-ok current _ h₃)), is_d)

-- Four values make the line that they were split from.
four_values :
    (expected : Text) (values : List Text)
    → (length values == 4) ≡ true
    → validate_row (zip_onto [] inventory_columns values) expected ≡ ok tt
    → join b'\t' values ≡ connector_line expected
four_values expected [] n h = cc
four_values expected (_ ∷ []) n h = cc
four_values expected (_ ∷ _ ∷ []) n h = cc
four_values expected (_ ∷ _ ∷ _ ∷ []) n h = cc
four_values expected (a ∷ b ∷ c ∷ d ∷ []) n h =
    let row = zip_four a b c d in
    let (is_a, is_b, is_c, is_d) =
      validate_row-values a b c d expected (subst (λ r. validate_row r expected ≡ ok tt) row h) in
    ap (join b'\t') (ap₂ ◌∷◌ is_a (ap₂ ◌∷◌ is_b (ap₂ ◌∷◌ is_c (ap (λ z. z ∷ []) is_d))))
four_values expected (_ ∷ _ ∷ _ ∷ _ ∷ _ ∷ vs) n h = ground arith

parse_row-eq-ok :
    (complaint : String) (columns : List Text) (line : Text) {row : Dict Text}
    → parse_row complaint columns line ≡ ok row
    → ((length (split b'\t' line) == length columns) ≡ true)
      × (row ≡ zip_onto [] columns (split b'\t' line))
unfolding parse_row
parse_row-eq-ok complaint columns line h =
    let (n, h₁) = require->>-eq-ok (length (split b'\t' line) == length columns) _ _ h in
    (n, sym (ok_injective h₁))

validate_inventory-single :
    (rows : List (Dict Text)) (expected : Text)
    → validate_inventory rows expected ≡ ok tt
    → (row : Dict Text) × (rows ≡ row ∷ []) × (validate_row row expected ≡ ok tt)
unfolding validate_inventory
validate_inventory-single [] expected h = cc
validate_inventory-single (row ∷ []) expected h = (row, refl, h)
validate_inventory-single (_ ∷ _ ∷ _) expected h = cc

parse_rows-single :
    (lines : List Text) (row : Dict Text)
    → parse_rows lines ≡ ok (row ∷ [])
    → (line : Text) × (lines ≡ line ∷ [])
      × (parse_row "Malformed extension inventory row" inventory_columns line ≡ ok row)
unfolding parse_rows
parse_rows-single [] row h = cc
parse_rows-single (line ∷ []) row h =
    let (r, is_r, h₁) =
      >>=-eq-ok (parse_row "Malformed extension inventory row" inventory_columns line) _ h in
    (line, refl, is_r ∙ ap ok (ap (λ rows. elim rows [ [] ↦ row | r' ∷ _ ↦ r' ]) (ok_injective h₁)))
parse_rows-single (line ∷ next ∷ lines) row h =
    let (r, is_r, h₁) =
      >>=-eq-ok (parse_row "Malformed extension inventory row" inventory_columns line) _ h in
    let (rest, is_rest, h₂) = >>=-eq-ok (parse_rows (next ∷ lines)) _ h₁ in
    let (r₂, is_r₂, h₃) =
      >>=-eq-ok (parse_row "Malformed extension inventory row" inventory_columns next) _ is_rest in
    let (rest₂, is_rest₂, h₄) = >>=-eq-ok (parse_rows lines) _ h₃ in
    let two : r ∷ r₂ ∷ rest₂ ≡ row ∷ [] = ap (λ t. r ∷ t) (ok_injective h₄) ∙ ok_injective h₂ in cc

-- If inventory_rows reads an output and validate_inventory accepts its rows for an expected
-- version, then the output has exactly one line, and that line is `ducklake`, `CONNECTOR`, the
-- expected version and `EXTERNAL`, with tabs between them.
pub inventory_is_exact :
    (output expected : Text) (rows : List (Dict Text))
    → inventory_rows output ≡ ok rows
    → validate_inventory rows expected ≡ ok tt
    → splitlines output ≡ connector_line expected ∷ []
unfolding inventory_rows
inventory_is_exact output expected rows h v =
    let (row, one, valid) = validate_inventory-single rows expected v in
    let (line, is_line, parsed) = parse_rows-single (splitlines output) row (h ∙ ap ok one) in
    let (n, is_row) =
      parse_row-eq-ok "Malformed extension inventory row" inventory_columns line parsed in
    let values = split b'\t' line in
    let same =
      four_values expected values n (subst (λ r. validate_row r expected ≡ ok tt) is_row valid) in
    is_line ∙ ap (λ t. t ∷ []) (sym (join-split b'\t' line) ∙ same)
