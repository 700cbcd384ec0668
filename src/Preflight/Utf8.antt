-- ===== src/Preflight/Utf8.antt =====
-- `s.encode("utf-8")` and `data.decode("utf-8")`. Code points are Unicode scalar values.
use doris_ducklake.Prelude.{
  Bool, List, Result, Text, [], err, if◌then◌else◌, leb, ltb, not, ok, suc, value_error, zero, ℕ,
  ◌%◌, ◌&&◌, ◌*◌, ◌++◌, ◌+◌, ◌-◌, ◌/◌, ◌==◌, ◌>>=◌, ◌||◌, ◌∷◌,
}

abbrev utf8_char : ℕ → List ℕ
utf8_char c =
    if ltb c 0x80
    then c ∷ []
    else if ltb c 0x800
    then (0xc0 + c / 64) ∷ (0x80 + c % 64) ∷ []
    else if ltb c 0x1_0000
    then (0xe0 + c / 4096) ∷ (0x80 + c / 64 % 64) ∷ (0x80 + c % 64) ∷ []
    else (0xf0 + c / 262144) ∷ (0x80 + c / 4096 % 64) ∷ (0x80 + c / 64 % 64) ∷ (0x80 + c % 64) ∷ []

unfoldable pub utf8 : Text → List ℕ
utf8 [] = []
utf8 (c ∷ cs) = utf8_char c ++ utf8 cs

-- A shortest form in range, and no surrogate.
abbrev is_scalar : ℕ → ℕ → Bool
is_scalar low c = leb low c && (ltb c 0xd800 || (leb 0xe000 c && ltb c 0x11_0000))

-- The decoder's state is the number of bytes that the current character still needs, its bits so
-- far, and the least code point that its length may encode.
utf8_decode_from : ℕ → ℕ → ℕ → List ℕ → Result Text
utf8_decode_from zero bits low [] = ok []
utf8_decode_from (suc need) bits low [] = err (value_error "unexpected end of data")
utf8_decode_from zero bits low (b ∷ bs) =
    let plain : Result Text = utf8_decode_from 0 0 0 bs in
    let two = utf8_decode_from 1 (b - 0xc0) 0x80 bs in
    let three = utf8_decode_from 2 (b - 0xe0) 0x800 bs in
    let four = utf8_decode_from 3 (b - 0xf0) 0x1_0000 bs in
    if ltb b 0x80
    then (do cs ← plain; ok (b ∷ cs))
    else if leb 0xc0 b && ltb b 0xe0
    then two
    else if leb 0xe0 b && ltb b 0xf0
    then three
    else if leb 0xf0 b && ltb b 0xf8
    then four
    else err (value_error "invalid start byte")
utf8_decode_from (suc need) bits low (b ∷ bs) =
    let bits' = bits * 64 + (b - 0x80) in
    let last = utf8_decode_from 0 0 0 bs in
    let more = utf8_decode_from need bits' low bs in
    if not (leb 0x80 b && ltb b 0xc0)
    then err (value_error "invalid continuation byte")
    else if need == 0
    then (if is_scalar low bits'
        then (do cs ← last; ok (bits' ∷ cs))
        else err (value_error "invalid continuation byte"))
    else more

unfoldable pub utf8_decode : List ℕ → Result Text
unfolding utf8_decode_from
utf8_decode bytes = utf8_decode_from 0 0 0 bytes
