-- ===== src/Prelude/Texts.antt =====
-- Python's `str` and `bytes`: sequences of code points and of bytes, both lists of numbers.
use Prim.Native.Nat.{ℕ, zero, suc}
use Prim.Native.Char.{code}
use Prim.Native.String.{String}
use mathlib.Core.Path.{◌≡◌, refl}
use mathlib.Core.Logic.{◌↔◌, inl, inr, ◌≢◌}
use mathlib.Core.Bool.{Bool, true, false, ◌&&◌, ◌||◌}
use mathlib.Core.List.{List, [], ◌∷◌, ◌++◌}
use native.Mathlib.Omega.{arith}
use doris_ducklake.Prelude.Lists.{reverse}
use doris_ducklake.Prelude.Tests.{Bool-cases, if◌then◌else◌, leb, ◌==◌}

abbrev pub Text : Type 0
Text = List ℕ

-- A literal of the source, as its code points.
unfoldable pub text : String → Text
text String.[] = []
text (String.◌∷◌ c s) = code c ∷ text s

unfoldable pub text_eq : Text → Text → Bool
text_eq [] [] = true
text_eq [] (y ∷ ys) = false
text_eq (x ∷ xs) [] = false
text_eq (x ∷ xs) (y ∷ ys) = (x == y) && text_eq xs ys

pub text_eq_sound : (s t : Text) → text_eq s t ≡ true → s ≡ t
unfolding text_eq
text_eq_sound [] [] h = refl
text_eq_sound [] (y ∷ ys) h = cc
text_eq_sound (x ∷ xs) [] h = cc
text_eq_sound (x ∷ xs) (y ∷ ys) h = ground (arith, text_eq_sound xs ys)

pub text_eq_refl : (s : Text) → text_eq s s ≡ true
unfolding text_eq
text_eq_refl [] = refl
text_eq_refl (x ∷ xs) = ground (arith, text_eq_refl xs)

pub text_eq_iff : (s t : Text) → (text_eq s t ≡ true) ↔ (s ≡ t)
text_eq_iff s t = (text_eq_sound s t, λ e. rw e (text_eq_refl t))

pub text_eq-false : (s t : Text) → s ≢ t → text_eq s t ≡ false
text_eq-false s t ne = elim (Bool-cases (text_eq s t)) [
  | inl same ↦ absurd (ne (text_eq_sound s t same))
  | inr other ↦ other
]

-- `x in xs`, for a sequence of texts.
unfoldable pub member : Text → List Text → Bool
member k [] = false
member k (x ∷ xs) = text_eq k x || member k xs

-- `c in s`, for one character.
unfoldable pub has_char : ℕ → Text → Bool
has_char c [] = false
has_char c (x ∷ xs) = (x == c) || has_char c xs

-- `s.startswith(p)`.
unfoldable pub starts_with : Text → Text → Bool
starts_with s [] = true
starts_with [] (y ∷ ys) = false
starts_with (x ∷ xs) (y ∷ ys) = (x == y) && starts_with xs ys

abbrev pub push_char : ℕ → List Text → List Text
push_char c [] = (c ∷ []) ∷ []
push_char c (w ∷ ws) = (c ∷ w) ∷ ws

-- `s.split(c)`: never empty, and `""` has one empty part.
unfoldable pub split : ℕ → Text → List Text
split c [] = [] ∷ []
split c (x ∷ xs) = let rest = split c xs in if x == c then [] ∷ rest else push_char x rest

-- The inverse of `split`: `c.join(parts)`.
unfoldable pub join : ℕ → List Text → Text
join c [] = []
join c (w ∷ []) = w
join c (w ∷ v ∷ ws) = w ++ c ∷ join c (v ∷ ws)

-- `s.partition(c)` for one character: the head, whether it was found, and the tail.
unfoldable pub partition : ℕ → Text → Text × Bool × Text
partition c [] = ([], false, [])
partition c (x ∷ xs) =
    let (head, found, tail) = partition c xs in
    if x == c then ([], true, xs) else (x ∷ head, found, tail)

unfoldable pub is_digit : ℕ → Bool
is_digit c = leb b'0' c && leb c b'9'

-- The class `[0-9a-f]`.
unfoldable pub is_hex : ℕ → Bool
unfolding is_digit
is_hex c = is_digit c || (leb b'a' c && leb c b'f')

-- `str.isspace` and the line boundaries of `str.splitlines`, on one code point.
unfoldable pub is_space : ℕ → Bool
is_space c =
    (leb 9 c && leb c 13)
    || (leb 28 c && leb c 32)
    || (c == 0x85)
    || (c == 0xa0)
    || (c == 0x1680)
    || (leb 0x2000 c && leb c 0x200a)
    || (leb 0x2028 c && leb c 0x2029)
    || (c == 0x202f)
    || (c == 0x205f)
    || (c == 0x3000)

unfoldable pub is_line_end : ℕ → Bool
is_line_end c =
    (leb 10 c && leb c 13)
    || (leb 28 c && leb c 30)
    || (c == 0x85)
    || (leb 0x2028 c && leb c 0x2029)

-- `s.lstrip()` and `s.strip()`.
unfoldable pub lstrip : Text → Text
unfolding is_space
lstrip [] = []
lstrip (c ∷ cs) = let rest = lstrip cs in if is_space c then rest else c ∷ cs

unfoldable pub strip : Text → Text
unfolding lstrip
strip s = reverse (lstrip (reverse (lstrip s)))

-- `s.splitlines()`: no empty part after a last line end, and CR LF ends one line.
unfoldable pub splitlines : Text → List Text
unfolding is_line_end starts_with
splitlines [] = []
splitlines (c ∷ []) = if is_line_end c then [] ∷ [] else (c ∷ []) ∷ []
splitlines (c ∷ d ∷ cs) =
    let rest = splitlines (d ∷ cs) in
    let after_pair = [] ∷ splitlines cs in
    if (c == 13) && (d == 10)
    then after_pair
    else if is_line_end c
    then [] ∷ rest
    else push_char c rest

-- `s.endswith(p)`.
unfoldable pub ends_with : Text → Text → Bool
unfolding starts_with
ends_with s p = starts_with (reverse s) (reverse p)

-- `s[n:]`.
unfoldable pub drop : ℕ → Text → Text
drop zero s = s
drop (suc n) [] = []
drop (suc n) (c ∷ cs) = drop n cs

-- `s[:n]`.
unfoldable pub take : ℕ → Text → Text
take zero s = []
take (suc n) [] = []
take (suc n) (c ∷ cs) = c ∷ take n cs

-- `==` of two lists of texts.
unfoldable pub texts_equal : List Text → List Text → Bool
texts_equal [] [] = true
texts_equal [] (y ∷ ys) = false
texts_equal (x ∷ xs) [] = false
texts_equal (x ∷ xs) (y ∷ ys) = text_eq x y && texts_equal xs ys

pub texts_equal_refl : (xs : List Text) → texts_equal xs xs ≡ true
unfolding texts_equal
texts_equal_refl [] = refl
texts_equal_refl (x ∷ xs) = rw text_eq_refl (texts_equal_refl xs)

pub texts_equal_sound : (xs ys : List Text) → texts_equal xs ys ≡ true → xs ≡ ys
unfolding texts_equal
texts_equal_sound [] [] h = refl
texts_equal_sound [] (y ∷ ys) h = cc
texts_equal_sound (x ∷ xs) [] h = cc
texts_equal_sound (x ∷ xs) (y ∷ ys) h = ground (arith, text_eq_sound x y, texts_equal_sound xs ys)

-- `needle in s`
unfoldable pub has_text : Text → Text → Bool
unfolding starts_with
has_text needle [] = starts_with [] needle
has_text needle (c ∷ cs) = starts_with (c ∷ cs) needle || has_text needle cs
