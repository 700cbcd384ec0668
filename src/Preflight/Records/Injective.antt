-- ===== src/Preflight/Records/Injective.antt =====
-- The canonical text of a payload determines the payload: every name and digest can be read back
-- from it, since a name holds no tab and a digest no line feed.
use doris_ducklake.Prelude.{
  >>=-eq-ok, All, Dict, List, Text, Unique, [], ap, append_assoc, ap₂, arith, lookup, ok, refl, sym,
  text, ℕ, ◌++◌, ◌∙◌, ◌∷◌, ◌≡◌, ◌≢◌,
}
use doris_ducklake.Json.{Value, str, to_text}
use doris_ducklake.Preflight.Records.{build_id, canonical, header, line, records, sort_entries}
use doris_ducklake.Preflight.Utf8.{utf8}
use doris_ducklake.Preflight.Records.Sorted.{lookup-sort_entries}
use doris_ducklake.Preflight.Records.Lines.{IsClean, lines, record_lines-eq-ok}

-- The first `c` ends the same prefix on both sides.
cut_unique :
    (c : ℕ) (a b s t : Text)
    → All (λ x. x ≢ c) a
    → All (λ x. x ≢ c) b
    → a ++ c ∷ s ≡ b ++ c ∷ t
    → (a ≡ b) × (s ≡ t)
cut_unique c [] [] s t p q e = (refl, cc)
cut_unique c [] (y ∷ b) s t p q e = absurd (q.0 (cc))
cut_unique c (x ∷ a) [] s t p q e = absurd (p.0 (cc))
cut_unique c (x ∷ a) (y ∷ b) s t p q e =
    let (same, rest) = cut_unique c a b s t p.1 q.1 (cc) in (cc (same), rest)

append_cancel : (a s t : Text) → a ++ s ≡ a ++ t → s ≡ t
append_cancel [] s t e = e
append_cancel (x ∷ a) s t e = append_cancel a s t (cc)

line-append :
    (kind name d s : Text)
    → line kind name (str d) ++ s ≡ kind ++ b'\t' ∷ (name ++ b'\t' ∷ (d ++ b'\n' ∷ s))
unfolding to_text
line-append kind name d s = simp append_assoc

-- One line, read off the front of a text.
line_unique :
    (kind : Text) (x y : Text × Value) (s t : Text)
    → IsClean x
    → IsClean y
    → line kind x.0 x.1 ++ s ≡ line kind y.0 y.1 ++ t
    → (x ≡ y) × (s ≡ t)
line_unique kind (name, digest) (name', digest') s t p q e =
    let d = p.digest in
    let d' = q.digest in
    let e₁ : line kind name (str d) ++ s ≡ line kind name' (str d') ++ t =
      cc (p.is_digest, q.is_digest, e) in
    let e₂ = sym (line-append kind name d s) ∙ e₁ ∙ line-append kind name' d' t in
    let e₃ = append_cancel kind _ _ e₂ in
    let (names, e₄) =
      cut_unique b'\t' name name' (d ++ b'\n' ∷ s) (d' ++ b'\n' ∷ t) p.name_no_tab q.name_no_tab
        (cc (e₃)) in
    let (digests, rest) = cut_unique b'\n' d d' s t p.digest_no_feed q.digest_no_feed e₄ in
    (cc (names, digests, p.is_digest, q.is_digest), rest)

lines_unique :
    (k : ℕ) (a b : Dict Value)
    → All IsClean a
    → All IsClean b
    → lines (k ∷ []) a ≡ lines (k ∷ []) b
    → a ≡ b
lines_unique k [] [] p q e = refl
lines_unique k [] (y ∷ b) p q e = cc
lines_unique k (x ∷ a) [] p q e = cc
lines_unique k (x ∷ a) (y ∷ b) p q e =
    let (same, rest) = line_unique (k ∷ []) x y _ _ p.0 q.0 e in
    ap₂ ◌∷◌ same (lines_unique k a b p.1 q.1 rest)

-- Lines of one kind, then lines of another: where the second kind begins is plain to see.
kinds_unique :
    (k k' : ℕ) (a b c d : Dict Value)
    → k ≢ k'
    → All IsClean a
    → All IsClean b
    → All IsClean c
    → All IsClean d
    → lines (k ∷ []) a ++ lines (k' ∷ []) c ≡ lines (k ∷ []) b ++ lines (k' ∷ []) d
    → (a ≡ b) × (c ≡ d)
kinds_unique k k' [] [] c d ne pa pb pc pd e = (refl, lines_unique k' c d pc pd e)
kinds_unique k k' [] (y ∷ b) [] d ne pa pb pc pd e = cc
kinds_unique k k' [] (y ∷ b) (z ∷ c) d ne pa pb pc pd e = absurd (ne (cc))
kinds_unique k k' (x ∷ a) [] c [] ne pa pb pc pd e = cc
kinds_unique k k' (x ∷ a) [] c (z ∷ d) ne pa pb pc pd e = absurd (ne (cc))
kinds_unique k k' (x ∷ a) (y ∷ b) c d ne pa pb pc pd e =
    let tail = λ (r : Dict Value) (s : Dict Value). lines (k ∷ []) r ++ lines (k' ∷ []) s in
    let regrouped =
      sym (append_assoc (line (k ∷ []) x.0 x.1) (lines (k ∷ []) a) (lines (k' ∷ []) c))
      ∙ e
      ∙ append_assoc (line (k ∷ []) y.0 y.1) (lines (k ∷ []) b) (lines (k' ∷ []) d) in
    let (same, rest) = line_unique (k ∷ []) x y (tail a c) (tail b d) pa.0 pb.0 regrouped in
    let (front, back) = kinds_unique k k' a b c d ne pa.1 pb.1 pc pd rest in
    (ap₂ ◌∷◌ same front, back)

canonical-eq-ok :
    (api : Text) (p r : Dict Value) {c : Text}
    → canonical api p r ≡ ok c
    → (c ≡ header api ++ (lines (text "P") (sort_entries p) ++ lines (text "D") (sort_entries r)))
      × All IsClean (sort_entries p)
      × All IsClean (sort_entries r)
unfolding canonical
canonical-eq-ok api p r h =
    let (payload, hp, k) = >>=-eq-ok (records (text "P") p) _ h in
    let (runtime, hr, done) = >>=-eq-ok (records (text "D") r) _ k in
    let (sp, cp) = record_lines-eq-ok (text "P") (sort_entries p) hp in
    let (sr, cr) = record_lines-eq-ok (text "D") (sort_entries r) hr in (cc (done, sp, sr), cp, cr)

canonical_unique :
    (api : Text) (p r p' r' : Dict Value) {c : Text}
    → canonical api p r ≡ ok c
    → canonical api p' r' ≡ ok c
    → (sort_entries p ≡ sort_entries p') × (sort_entries r ≡ sort_entries r')
unfolding text
canonical_unique api p r p' r' h h' =
    let (same, cp, cr) = canonical-eq-ok api p r h in
    let (same', cp', cr') = canonical-eq-ok api p' r' h' in
    kinds_unique b'P' b'D' (sort_entries p) (sort_entries p') (sort_entries r) (sort_entries r')
      (omega arith) cp cp' cr cr' (append_cancel (header api) _ _ (sym same ∙ same'))

module _ (sha256 : List ℕ → Text) where
  -- Two payloads with the same API and the same identity have the same files with the same
  -- digests, and so have their runtime libraries, unless the digest collides on the two
  -- canonical texts.
  pub build_id_determines :
      (api : Text) (p r p' r' : Dict Value) {x c c' : Text}
      → Unique p
      → Unique r
      → Unique p'
      → Unique r'
      → canonical api p r ≡ ok c
      → canonical api p' r' ≡ ok c'
      → (sha256 (utf8 c) ≡ sha256 (utf8 c') → c ≡ c')
      → build_id sha256 api p r ≡ ok x
      → build_id sha256 api p' r' ≡ ok x
      → (k : Text) → (lookup k p ≡ lookup k p') × (lookup k r ≡ lookup k r')
  unfolding build_id
  build_id_determines api p r p' r' {c = c} {c' = c'} up ur up' ur' e e' no_collision h h' k =
      let same : c ≡ c' =
        no_collision (append_cancel (text "doris-ducklake-v1-") _ _ (cc (e, e', h, h'))) in
      let (ps, rs) = canonical_unique api p r p' r' e (e' ∙ ap ok (sym same)) in
      (
        sym (lookup-sort_entries k p up) ∙ ap (lookup k) ps ∙ lookup-sort_entries k p' up',
        sym (lookup-sort_entries k r ur) ∙ ap (lookup k) rs ∙ lookup-sort_entries k r' ur',
      )
