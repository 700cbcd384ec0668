-- ===== src/Attest/Versions.antt =====
-- Which versions `alive_versions` reports.
-- A line of a live server with this version.
use doris_ducklake.Prelude.{
  >>=-eq-ok, All, All-map, Dict, List, Text, [], ap, arith, false, inl, inr, lookup, member, not,
  ok, ok_injective, or_key_error, or_key_error-eq-ok, refl, require->>-eq-ok, some, split,
  splitlines, subst, sym, text, text_eq, text_eq_iff, true, ◌++◌, ◌||◌, ◌↔◌, ◌∙◌, ◌∷◌, ◌≡◌, ◌≢◌,
  ◌⊎◌,
}
use doris_ducklake.Attest.{
  add_live, add_version, alive_version, alive_versions, collect_versions, has_header, insert_text,
  liveness, no_versions, parse_row, sort_texts, versions_of,
}

pub record IsLive (columns : List Text) (line : Text) (version : Text) : Type 0 where
  pub row : Dict Text
  pub parsed : parse_row "Malformed runtime inventory row" columns line ≡ ok row
  pub alive : lookup (text "Alive") row ≡ some (text "true")
  pub has_version : lookup (text "Version") row ≡ some version

-- A line of a server that says that it is not alive.
pub record IsDown (columns : List Text) (line : Text) : Type 0 where
  pub row : Dict Text
  pub parsed : parse_row "Malformed runtime inventory row" columns line ≡ ok row
  pub down : lookup (text "Alive") row ≡ some (text "false")

-- Some line is that of a live server with this version.
pub data SomeLive (columns : List Text) (version : Text) : List Text → Type 0 where
  here :
      {line : Text}
      → {lines : List Text} → IsLive columns line version
      → SomeLive columns version (line ∷ lines)
  there :
      {line : Text}
      → {lines : List Text} → SomeLive columns version lines
      → SomeLive columns version (line ∷ lines)

-- A line counts: it is down, or its version is among those listed.
abbrev pub IsCounted : List Text → List Text → Text → Type 0
IsCounted columns versions line =
    IsDown columns line
    ⊎ ((version : Text) × IsLive columns line version × (member version versions ≡ true))

member-append :
    (v u : Text) (us : List Text) → member v (us ++ u ∷ []) ≡ (member v us || text_eq v u)
unfolding member
member-append v u [] = ground arith
member-append v u (t ∷ ts) = rw (member-append v u ts) (ground arith)

member-add_version :
    (v u : Text) (us : List Text)
    → (member v (add_version u us) ≡ true) ↔ ((v ≡ u) ⊎ (member v us ≡ true))
unfolding add_version
member-add_version v u us = ground (arith, member-append v u us, text_eq_iff v u)

member-insert_text :
    (v t : Text) (us : List Text) → member v (insert_text t us) ≡ (text_eq v t || member v us)
unfolding member insert_text
member-insert_text v t [] = refl
member-insert_text v t (u ∷ us) = ground (arith, member-insert_text v t us)

member-sort_texts : (v : Text) (us : List Text) → member v (sort_texts us) ≡ member v us
unfolding member sort_texts
member-sort_texts v [] = refl
member-sort_texts v (u ∷ us) =
    member-insert_text v u (sort_texts us) ∙ ap (λ b. text_eq v u || b) (member-sort_texts v us)

add_live-eq-ok :
    (row : Dict Text) (vs : List Text) {ws : List Text}
    → add_live true row vs ≡ ok ws
    → (v : Text) × (lookup (text "Version") row ≡ some v) × (ws ≡ add_version v vs)
unfolding add_live
add_live-eq-ok row vs h =
    let (v, is_v, h₁) = >>=-eq-ok (or_key_error (lookup (text "Version") row)) _ h in
    let (_, h₂) = require->>-eq-ok (not (member v no_versions)) _ _ h₁ in
    (v, or_key_error-eq-ok _ is_v, sym (ok_injective h₂))

is_live-or_down : (t : Text) → member t liveness ≡ true → (t ≡ text "true") ⊎ (t ≡ text "false")
unfolding member
is_live-or_down t h = ground (arith, text_eq_iff t (text "true"), text_eq_iff t (text "false"))

add_live-down : (row : Dict Text) (vs ws : List Text) → add_live false row vs ≡ ok ws → ws ≡ vs
unfolding add_live
add_live-down row vs ws h = sym (ok_injective h)

true_or_false : text_eq (text "false") (text "true") ≡ false
unfolding text text_eq
true_or_false = refl

module _ (columns : List Text) where
  alive_version-eq-ok :
      (vs : List Text) (line : Text) (ws : List Text)
      → alive_version columns vs line ≡ ok ws
      → (IsDown columns line × (ws ≡ vs))
        ⊎ ((v : Text) × IsLive columns line v × (ws ≡ add_version v vs))
  unfolding alive_version
  alive_version-eq-ok vs line ws h =
      let (row, parsed, h₁) =
        >>=-eq-ok (parse_row "Malformed runtime inventory row" columns line) _ h in
      let (alive, is_alive, h₂) = >>=-eq-ok (or_key_error (lookup (text "Alive") row)) _ h₁ in
      let (known, h₃) = require->>-eq-ok (member alive liveness) _ _ h₂ in
      let found = or_key_error-eq-ok (lookup (text "Alive") row) is_alive in
      elim (is_live-or_down alive known) [
        | inl is_true ↦
            let h₄ =
              subst (λ b. add_live b row vs ≡ ok ws) ((text_eq_iff alive (text "true")).1 is_true)
                h₃ in
            let (v, has, added) = add_live-eq-ok row vs h₄ in
            inr (
              v,
              record {
                row = row;
                parsed = parsed;
                alive = found ∙ ap some is_true;
                has_version = has;
              },
              added,
            )
        | inr is_false ↦
            let h₄ =
              subst (λ b. add_live b row vs ≡ ok ws)
                (ap (λ t. text_eq t (text "true")) is_false ∙ true_or_false) h₃ in
            inl (
              record { row = row; parsed = parsed; down = found ∙ ap some is_false },
              add_live-down row vs ws h₄,
            )
      ]

  -- What one pass over the lines collects.
  record Collected (vs : List Text) (lines : List Text) (ws : List Text) : Type 0 where
    keeps : (v : Text) → member v vs ≡ true → member v ws ≡ true
    counts : All (IsCounted columns ws) lines
    only : (v : Text) → member v ws ≡ true → (member v vs ≡ true) ⊎ SomeLive columns v lines

  collect_versions-Collected :
      (vs : List Text) (lines : List Text) (ws : List Text)
      → collect_versions columns vs lines ≡ ok ws
      → Collected vs lines ws
  unfolding collect_versions
  collect_versions-Collected vs [] ws h =
      let same = ok_injective h in
      record {
        keeps = λ v m. subst (λ t. member v t ≡ true) same m;
        counts = tt;
        only = λ v m. inl (subst (λ t. member v t ≡ true) (sym same) m);
      }
  collect_versions-Collected vs (line ∷ lines) ws h =
      let (us, first, rest) = >>=-eq-ok (alive_version columns vs line) _ h in
      let c = collect_versions-Collected us lines ws rest in
      elim (alive_version-eq-ok vs line us first) [
        | inl (down, same) ↦ record {
          keeps = λ v m. c.keeps v (subst (λ t. member v t ≡ true) (sym same) m);
          counts = (inl down, c.counts);
          only = λ v m. elim (c.only v m) [
            | inl before ↦ inl (subst (λ t. member v t ≡ true) same before)
            | inr later ↦ inr (there later)
          ];
        }
        | inr (u, live, added) ↦
            let is_new = λ (v : Text). member-add_version v u vs in
            record {
              keeps = λ v m.
                  c.keeps v (subst (λ t. member v t ≡ true) (sym added) ((is_new v).1 (inr m)));
              counts = (
                inr (
                  u,
                  live,
                  c.keeps u (subst (λ t. member u t ≡ true) (sym added) ((is_new u).1 (inl refl))),
                ),
                c.counts,
              );
              only = λ v m. elim (c.only v m) [
                | inl before ↦ elim ((is_new v).0 (subst (λ t. member v t ≡ true) added before)) [
                  | inl same ↦ inr (here (subst (IsLive columns line) (sym same) live))
                  | inr old ↦ inl old
                ]
                | inr later ↦ inr (there later)
              ];
            }
      ]

-- The table that an output holds, and the versions that it lists.
pub record AreVersions (output : Text) (versions : List Text) : Type 0 where
  pub header : Text
  pub lines : List Text
  pub read : splitlines output ≡ header ∷ lines
  pub counts : All (IsCounted (split b'\t' header) versions) lines
  pub only : (v : Text) → member v versions ≡ true → SomeLive (split b'\t' header) v lines

nothing_yet : (v : Text) → member v [] ≢ true
unfolding member
nothing_yet v h = cc

recount :
    (columns : List Text) (us ws : List Text) (line : Text)
    → ((v : Text) → member v us ≡ true → member v ws ≡ true)
    → IsCounted columns us line
    → IsCounted columns ws line
recount columns us ws line more (inl down) = inl down
recount columns us ws line more (inr (v, live, m)) = inr (v, live, more v m)

versions_of-AreVersions :
    (output : Text) (all : List Text) (versions : List Text)
    → splitlines output ≡ all
    → versions_of all ≡ ok versions
    → AreVersions output versions
unfolding versions_of
versions_of-AreVersions output [] versions e h = cc
versions_of-AreVersions output (header ∷ lines) versions e h =
    let columns = split b'\t' header in
    let (_, h₁) = require->>-eq-ok (has_header columns) _ _ h in
    let (ws, collected, h₂) = >>=-eq-ok (collect_versions columns [] lines) _ h₁ in
    let c = collect_versions-Collected columns [] lines ws collected in
    let sorted = λ (v : Text).
      subst (λ t. member v t ≡ member v ws) (ok_injective h₂) (member-sort_texts v ws) in
    record {
      header = header;
      lines = lines;
      read = e;
      counts = All-map lines (λ line. recount columns ws _ line (λ v m. sorted v ∙ m)) c.counts;
      only = λ v m. elim (c.only v (sym (sorted v) ∙ m)) [
        | inl before ↦ absurd (nothing_yet v before)
        | inr live ↦ live
      ];
    }

-- If alive_versions reads an output, then every line below its header is either that of a server
-- with `Alive` false or that of a live one whose version is among those reported, and every
-- version that is reported is that of some live line.
pub alive_versions-AreVersions :
    (output : Text) (versions : List Text)
    → alive_versions output ≡ ok versions
    → AreVersions output versions
unfolding alive_versions
alive_versions-AreVersions output versions h =
    versions_of-AreVersions output (splitlines output) versions refl h
