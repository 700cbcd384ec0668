-- ===== src/Smoke/Lake/Quoting.antt =====
-- A quoted value is read back whole, whatever characters it has.
use doris_ducklake.Prelude.{
  ==_iff, Bool-cases, Option, Text, [], ap, append_assoc, arith, false, if◌then◌else◌, inl, inr,
  none, refl, some, starts_with, sym, true, ℕ, ◌++◌, ◌==◌, ◌||◌, ◌∙◌, ◌∷◌, ◌≡◌,
}
use doris_ducklake.Smoke.Lake.{
  backslash, doris_literal, double_quote, identifier, quote, replace, sql_literal, uri_option,
}

abbrev push_onto : ℕ → Option (Text × Text) → Option (Text × Text)
push_onto c none = none
push_onto c (some (value, rest)) = some (c ∷ value, rest)

-- The standard's reading of a quoted text after its opening quote: the quote doubled stands for
-- itself, and alone ends the text. The value and what follows it.
unfoldable pub read_quoted : ℕ → Text → Option (Text × Text)
read_quoted q [] = none
read_quoted q (c ∷ []) = if c == q then some ([], []) else none
read_quoted q (c ∷ d ∷ cs) =
    let doubled = push_onto q (read_quoted q cs) in
    let plain = push_onto c (read_quoted q (d ∷ cs)) in
    if c == q then (if d == q then doubled else some ([], d ∷ cs)) else plain

-- The same where a backslash before a backslash also stands for one.
unfoldable pub read_doris : Text → Option (Text × Text)
read_doris [] = none
read_doris (c ∷ []) = if c == quote then some ([], []) else none
read_doris (c ∷ d ∷ cs) =
    let pair = push_onto d (read_doris cs) in
    let plain = push_onto c (read_doris (d ∷ cs)) in
    if c == quote
    then (if d == quote then pair else some ([], d ∷ cs))
    else if c == backslash
    then (if d == backslash then pair else none)
    else plain

-- libpq's reading of a quoted value: a backslash stands before a quote or a backslash, and a bare
-- quote ends the value.
unfoldable pub read_libpq : Text → Option (Text × Text)
read_libpq [] = none
read_libpq (c ∷ []) = if c == quote then some ([], []) else none
read_libpq (c ∷ d ∷ cs) =
    let pair = push_onto d (read_libpq cs) in
    let plain = push_onto c (read_libpq (d ∷ cs)) in
    if c == quote
    then some ([], d ∷ cs)
    else if c == backslash
    then (if (d == backslash) || (d == quote) then pair else none)
    else plain

read_quoted-plain :
    (q c : ℕ) (t : Text) → (c == q) ≡ false → read_quoted q (c ∷ t) ≡ push_onto c (read_quoted q t)
unfolding read_quoted
read_quoted-plain q c [] h = rw h refl
read_quoted-plain q c (d ∷ cs) h = rw h refl

read_quoted-end :
    (q : ℕ) (rest : Text)
    → starts_with rest (q ∷ []) ≡ false
    → read_quoted q (q ∷ rest) ≡ some ([], rest)
unfolding read_quoted starts_with
read_quoted-end q [] h = ground arith
read_quoted-end q (d ∷ cs) h = ground arith

read_quoted-double : (q : ℕ) (t : Text) → read_quoted q (q ∷ q ∷ t) ≡ push_onto q (read_quoted q t)
unfolding read_quoted
read_quoted-double q t = ground arith

read_quoted-replace :
    (q : ℕ) (value rest : Text)
    → starts_with rest (q ∷ []) ≡ false
    → read_quoted q (replace q (q ∷ q ∷ []) value ++ q ∷ rest) ≡ some (value, rest)
unfolding replace
read_quoted-replace q [] rest h = read_quoted-end q rest h
read_quoted-replace q (c ∷ cs) rest h =
    let tail = replace q (q ∷ q ∷ []) cs ++ q ∷ rest in
    let back = ap (push_onto c) (read_quoted-replace q cs rest h) in
    elim (Bool-cases (c == q)) [
      | inl same ↦
          let is_q = (==_iff c q).0 same in
          rw same (
            read_quoted-double q tail
            ∙ ap (λ x. push_onto x (read_quoted q tail)) (sym is_q)
            ∙ back)
      | inr other ↦ rw other (read_quoted-plain q c tail other ∙ back)
    ]

read_doris-plain :
    (c : ℕ) (t : Text)
    → (c == quote) ≡ false
    → (c == backslash) ≡ false
    → read_doris (c ∷ t) ≡ push_onto c (read_doris t)
unfolding read_doris
read_doris-plain c [] h k = rw h refl
read_doris-plain c (d ∷ cs) h k = rw (h, k) refl

read_doris-end :
    (rest : Text)
    → starts_with rest (quote ∷ []) ≡ false
    → read_doris (quote ∷ rest) ≡ some ([], rest)
unfolding read_doris starts_with
read_doris-end [] h = refl
read_doris-end (d ∷ cs) h = ground arith

read_doris-pair :
    (c : ℕ) (t : Text)
    → ((c == quote) || (c == backslash)) ≡ true
    → read_doris (c ∷ c ∷ t) ≡ push_onto c (read_doris t)
unfolding read_doris
read_doris-pair c t h = ground arith

-- What each character becomes.
abbrev doris_body : Text → Text
doris_body value =
    replace quote (quote ∷ quote ∷ []) (replace backslash (backslash ∷ backslash ∷ []) value)

doris_body-cons :
    (c : ℕ) (cs : Text)
    → doris_body (c ∷ cs)
      ≡ (if (c == quote) || (c == backslash) then c ∷ c ∷ doris_body cs else c ∷ doris_body cs)
unfolding replace
doris_body-cons c cs = ground arith

read_doris-body :
    (value rest : Text)
    → starts_with rest (quote ∷ []) ≡ false
    → read_doris (doris_body value ++ quote ∷ rest) ≡ some (value, rest)
read_doris-body [] rest h = unfold replace in read_doris-end rest h
read_doris-body (c ∷ cs) rest h =
    let tail = doris_body cs ++ quote ∷ rest in
    let back = ap (push_onto c) (read_doris-body cs rest h) in
    elim (Bool-cases ((c == quote) || (c == backslash))) [
      | inl special ↦ rw (doris_body-cons c cs, special) (read_doris-pair c tail special ∙ back)
      | inr other ↦
          rw (doris_body-cons c cs, other)
            (read_doris-plain c tail (ground arith) (ground arith) ∙ back)
    ]

read_libpq-plain :
    (c : ℕ) (t : Text)
    → ((c == quote) || (c == backslash)) ≡ false
    → read_libpq (c ∷ t) ≡ push_onto c (read_libpq t)
unfolding read_libpq
read_libpq-plain c [] h = ground arith
read_libpq-plain c (d ∷ cs) h = ground arith

read_libpq-end : (rest : Text) → read_libpq (quote ∷ rest) ≡ some ([], rest)
unfolding read_libpq
read_libpq-end [] = refl
read_libpq-end (d ∷ cs) = refl

read_libpq-pair :
    (c : ℕ) (t : Text)
    → ((c == quote) || (c == backslash)) ≡ true
    → read_libpq (backslash ∷ c ∷ t) ≡ push_onto c (read_libpq t)
unfolding read_libpq
read_libpq-pair c t h = ground arith

abbrev libpq_body : Text → Text
libpq_body value =
    replace quote (backslash ∷ quote ∷ []) (replace backslash (backslash ∷ backslash ∷ []) value)

libpq_body-cons :
    (c : ℕ) (cs : Text)
    → libpq_body (c ∷ cs) ≡ (
        if (c == quote) || (c == backslash)
        then backslash ∷ c ∷ libpq_body cs
        else c ∷ libpq_body cs)
unfolding replace
libpq_body-cons c cs = ground arith

read_libpq-body :
    (value rest : Text) → read_libpq (libpq_body value ++ quote ∷ rest) ≡ some (value, rest)
read_libpq-body [] rest = unfold replace in read_libpq-end rest
read_libpq-body (c ∷ cs) rest =
    let tail = libpq_body cs ++ quote ∷ rest in
    let back = ap (push_onto c) (read_libpq-body cs rest) in
    elim (Bool-cases ((c == quote) || (c == backslash))) [
      | inl special ↦ rw (libpq_body-cons c cs, special) (read_libpq-pair c tail special ∙ back)
      | inr other ↦ rw (libpq_body-cons c cs, other) (read_libpq-plain c tail other ∙ back)
    ]

-- The reading of a text that begins with its opening quote.
abbrev pub opened : ℕ → (Text → Option (Text × Text)) → Text → Option (Text × Text)
opened q read [] = none
opened q read (c ∷ cs) = if c == q then read cs else none

-- A value that sql_literal, identifier or doris_literal quotes is read back whole from any text
-- that it begins, and what follows it is left, if that does not begin with the same quote.
pub literals_are_read :
    (value rest : Text)
    → starts_with rest (quote ∷ []) ≡ false
    → starts_with rest (double_quote ∷ []) ≡ false
    → (opened quote (read_quoted quote) (sql_literal value ++ rest) ≡ some (value, rest))
      × (opened double_quote (read_quoted double_quote) (identifier value ++ rest)
          ≡ some (value, rest))
      × (opened quote read_doris (doris_literal value ++ rest) ≡ some (value, rest))
unfolding sql_literal identifier doris_literal
literals_are_read value rest h k = (
  rw (append_assoc (replace quote (quote ∷ quote ∷ []) value) (quote ∷ []) rest)
      (read_quoted-replace quote value rest h),
  rw
      (append_assoc (replace double_quote (double_quote ∷ double_quote ∷ []) value)
        (double_quote ∷ []) rest)
      (read_quoted-replace double_quote value rest k),
  rw (append_assoc (doris_body value) (quote ∷ []) rest) (read_doris-body value rest h),
)

-- An option of the connection text is its key, an equals sign and a quoted value that is read
-- back whole, and what follows it is left.
pub uri_option-is_read :
    (key value rest : Text)
    → (quoted : Text) × (uri_option key value ++ rest ≡ key ++ b'=' ∷ quoted)
      × (opened quote read_libpq quoted ≡ some (value, rest))
unfolding uri_option
uri_option-is_read key value rest =
    (quote ∷ libpq_body value ++ quote ∷ rest, simp append_assoc, read_libpq-body value rest)
