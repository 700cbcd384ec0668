-- ===== src/Preflight/Path/Below.antt =====
-- A path that `canonical_path` accepts names a place strictly below any directory that it is
-- joined to.
use doris_ducklake.Prelude.{
  ==_iff, All, All-map, Bool, Bool-cases, List, Text, [], ap, ap₂, arith, false, has_char,
  if◌then◌else◌, inl, inr, join, ok, push_char, refl, require-eq-ok, some_of, split, sym, text,
  text_eq, true, ℕ, ◌==◌, ◌||◌, ◌↔◌, ◌∙◌, ◌∷◌, ◌≡◌, ◌≢◌,
}
use doris_ducklake.Prelude.Digits.{is_empty}
use doris_ducklake.Preflight.Path.{canonical_path, is_canonical, is_control, is_dot_part}

abbrev pub parent : List Text → List Text
parent [] = []
parent (_ ∷ dirs) = dirs

-- POSIX resolution of one part, in a directory that is its parts from the innermost out.
abbrev pub enter : List Text → Text → List Text
enter dir part =
    if is_empty part || text_eq part (text ".")
    then dir
    else if text_eq part (text "..")
    then parent dir
    else part ∷ dir

abbrev pub walk : List Text → List Text → List Text
walk dir [] = dir
walk dir (p ∷ ps) = walk (enter dir p) ps

-- Each part a directory below the last.
abbrev pub descend : List Text → List Text → List Text
descend dir [] = dir
descend dir (p ∷ ps) = descend (p ∷ dir) ps

-- What the checks say of a name, in other words: no control character, no backslash, and only
-- parts that name an entry.
pub record IsPlain (name : Text) : Type 0 where
  pub characters : All (λ c. (is_control c ≡ false) × (c ≢ b'\\')) name
  pub parts : All (λ p. is_dot_part p ≡ false) (split b'/' name)

enter-plain : (dir : List Text) (p : Text) → is_dot_part p ≡ false → enter dir p ≡ p ∷ dir
enter-plain dir p h = ground arith

walk-plain :
    (dir ps : List Text) → All (λ p. is_dot_part p ≡ false) ps → walk dir ps ≡ descend dir ps
walk-plain dir [] h = refl
walk-plain dir (p ∷ ps) h = rw (enter-plain dir p h.0) (walk-plain (p ∷ dir) ps h.1)

join-push : (c x : ℕ) (ws : List Text) → join c (push_char x ws) ≡ x ∷ join c ws
unfolding join
join-push c x [] = refl
join-push c x (w ∷ []) = refl
join-push c x (w ∷ v ∷ ws) = refl

split-ne-nil : (c : ℕ) (s : Text) → (w : Text) × (ws : List Text) × (split c s ≡ w ∷ ws)
unfolding split
split-ne-nil c [] = ([], [], refl)
split-ne-nil c (x ∷ xs) = elim (Bool-cases (x == c)) [
  | inl e ↦ ([], split c xs, rw e)
  | inr e ↦ let (w, ws, p) = split-ne-nil c xs in (x ∷ w, ws, rw (e, p))
]

join-first_empty : (c : ℕ) (s : Text) → join c ([] ∷ split c s) ≡ c ∷ join c (split c s)
unfolding join
join-first_empty c s = let (w, ws, p) = split-ne-nil c s in rw p

pub join-split : (c : ℕ) (s : Text) → join c (split c s) ≡ s
unfolding split
join-split c [] = unfold join in refl
join-split c (x ∷ xs) = elim (Bool-cases (x == c)) [
  | inl e ↦ rw e (join-first_empty c xs ∙ ap₂ ◌∷◌ (sym ((==_iff x c).0 e)) (join-split c xs))
  | inr e ↦ rw e (join-push c x (split c xs) ∙ ap (λ t. x ∷ t) (join-split c xs))
]

some_of-false {ℓ} :
    {A : Type ℓ} (p : A → Bool) (xs : List A) → (some_of p xs ≡ false) ↔ All (λ x. p x ≡ false) xs
some_of-false p [] = (λ _. tt, λ _. refl)
some_of-false p (x ∷ xs) = (
  λ h. (ground arith, (some_of-false p xs).0 (ground arith)),
  λ h. ground (arith, (some_of-false p xs).1 h.1),
)

has_char-false : (c : ℕ) (s : Text) → (has_char c s ≡ false) ↔ All (λ x. x ≢ c) s
unfolding has_char
has_char-false c [] = (λ _. tt, λ _. refl)
has_char-false c (x ∷ xs) = (
  λ h. (λ e. ground arith, (has_char-false c xs).0 (ground arith)),
  λ h. ground (arith, (has_char-false c xs).1 h.1, h.0),
)

All-zip {ℓ κ μ} :
    {A : Type ℓ} (P : A → Type κ) (Q : A → Type μ) (xs : List A)
    → All P xs
    → All Q xs
    → All (λ x. P x × Q x) xs
All-zip P Q [] p q = tt
All-zip P Q (x ∷ xs) p q = ((p.0, q.0), All-zip P Q xs p.1 q.1)

first_part-ne-empty :
    (x : ℕ) (xs : Text)
    → All (λ p. is_dot_part p ≡ false) (split b'/' (x ∷ xs))
    → (x == b'/') ≡ false
unfolding split
first_part-ne-empty x xs h = elim (Bool-cases (x == b'/')) [
  | inl e ↦ let parts = rw e at h in cc parts.0
  | inr e ↦ e
]

pub canonical-IsPlain : (name : Text) → is_canonical name ≡ true → IsPlain name
unfolding is_canonical
canonical-IsPlain name h = record {
  characters =
      All-zip (λ c. is_control c ≡ false) (λ c. c ≢ b'\\') name
        ((some_of-false is_control name).0 (ground arith))
        ((has_char-false b'\\' name).0 (ground arith));
  parts = (some_of-false is_dot_part (split b'/' name)).0 (ground arith);
}

IsPlain-canonical : (name : Text) → IsPlain name → is_canonical name ≡ true
unfolding is_canonical
IsPlain-canonical [] h = cc (h.parts.0)
IsPlain-canonical (x ∷ xs) h = ground (
  arith,
  first_part-ne-empty x xs h.parts,
  (some_of-false is_control (x ∷ xs)).1 (All-map (x ∷ xs) (λ c p. p.0) h.characters),
  (has_char-false b'\\' (x ∷ xs)).1 (All-map (x ∷ xs) (λ c p. p.1) h.characters),
  (some_of-false is_dot_part (split b'/' (x ∷ xs))).1 h.parts,
)

pub canonical_path_iff : (name : Text) → (canonical_path name ≡ ok tt) ↔ IsPlain name
unfolding canonical_path
canonical_path_iff name =
    (λ h. canonical-IsPlain name (require-eq-ok _ _ h), λ h. rw (IsPlain-canonical name h))

-- An accepted name, resolved part by part in any directory, lies at exactly its own parts below
-- that directory, and those parts spell the name.
pub canonical_path-stays_below :
    (dir : List Text) (name : Text)
    → canonical_path name ≡ ok tt
    → (walk dir (split b'/' name) ≡ descend dir (split b'/' name))
      × (join b'/' (split b'/' name) ≡ name)
canonical_path-stays_below dir name h =
    (walk-plain dir (split b'/' name) ((canonical_path_iff name).0 h).parts, join-split b'/' name)
