-- ===== src/Attest/Tests.antt =====
-- Outputs of the server, read and judged.
use doris_ducklake.Prelude.{
  Dict, List, Text, [], err, lookup, member, ok, refl, split, splitlines, text, text_eq,
  value_error, ◌∷◌, ◌≡◌,
}
use doris_ducklake.Attest.{
  add_live, add_version, alive_version, alive_versions, are_distinct, collect_versions, column_is,
  has_header, insert_text, inventory_rows, is_external_connector, parse_row, parse_rows, sort_texts,
  text_le, validate_inventory, validate_row, versions_of, zip_onto,
}
use doris_ducklake.Attest.Inventory.{connector_line, inventory_is_exact}
use doris_ducklake.Attest.Versions.{AreVersions, alive_versions-AreVersions}

abbrev an_inventory : Text
an_inventory = text "ducklake\tCONNECTOR\tabc\tEXTERNAL\n"

abbrev inventory_row : Dict Text
inventory_row =
    (text "EXTENSION_NAME", text "ducklake")
    ∷ (text "EXTENSION_TYPE", text "CONNECTOR")
    ∷ (text "EXTENSION_VERSION", text "abc")
    ∷ (text "SOURCE", text "EXTERNAL")
    ∷ []

inventory_read : inventory_rows an_inventory ≡ ok (inventory_row ∷ [])
unfolding inventory_rows parse_rows splitlines text parse_row split zip_onto text_eq
inventory_read = refl

inventory_valid : validate_inventory (inventory_row ∷ []) (text "abc") ≡ ok tt
unfolding validate_inventory validate_row is_external_connector column_is lookup text_eq text
inventory_valid = refl

inventory_is_exact_example : splitlines an_inventory ≡ connector_line (text "abc") ∷ []
inventory_is_exact_example =
    inventory_is_exact an_inventory (text "abc") (inventory_row ∷ []) inventory_read inventory_valid

abbrev some_servers : Text
some_servers = text "Id\tAlive\tVersion\n1\ttrue\tv2\n2\tfalse\tNULL\n3\ttrue\tv1\n4\ttrue\tv2"

abbrev two_versions : List Text
two_versions = text "v1" ∷ text "v2" ∷ []

servers_read : alive_versions some_servers ≡ ok two_versions
unfolding alive_versions versions_of splitlines text has_header are_distinct split text_eq
    collect_versions alive_version parse_row lookup zip_onto add_live sort_texts add_version
    insert_text text_le member
servers_read = refl

alive_versions-AreVersions_example : AreVersions some_servers two_versions
alive_versions-AreVersions_example =
    alive_versions-AreVersions some_servers two_versions servers_read

null_version :
    alive_versions (text "Alive\tVersion\ntrue\tNULL")
    ≡ err (value_error "Missing live runtime source version")
unfolding alive_versions versions_of splitlines text has_header are_distinct split text_eq
    collect_versions alive_version parse_row lookup zip_onto add_live sort_texts add_version
    insert_text text_le member
null_version = refl
