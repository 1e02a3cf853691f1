-- ===== src/Utf8.antt =====
-- unicode/utf8 and unicode.IsControl of Go's standard library, as gentxvalidate/invariants.go uses
-- them. Masks and shifts of bytes are written as remainders, products and sums.
use seedward_libs.Base.{
  ℕ, zero, suc, ◌+◌, ◌-◌, ◌*◌, ◌%◌, Bool, true, false, ◌&&◌, ◌||◌, List, [], ◌∷◌, Bytes, ltb, leb,
  ◌==◌, if◌then◌else◌,
}

-- A rune and the bytes it takes, or an error: then the rune is U+FFFD and one byte is skipped.
pub data Decoded : Type 0 where
  rune : ℕ → ℕ → Decoded
  invalid : Decoded

abbrev pub is_between : ℕ → ℕ → ℕ → Bool
is_between lo hi b = leb lo b && leb b hi

abbrev pub is_continuation : ℕ → Bool
is_continuation = is_between 0x80 0xBF

unfoldable pub decode_two : ℕ → Bytes → Decoded
decode_two b0 [] = invalid
decode_two b0 (b1 ∷ _) = if is_continuation b1 then rune (b0 % 32 * 64 + b1 % 64) 2 else invalid

unfoldable pub decode_three : ℕ → Bytes → Decoded
decode_three b0 [] = invalid
decode_three b0 (b1 ∷ []) = invalid
decode_three b0 (b1 ∷ b2 ∷ _) =
    let lo = if b0 == 0xE0 then 0xA0 else 0x80 in
    let hi = if b0 == 0xED then 0x9F else 0xBF in
    if is_between lo hi b1 && is_continuation b2
    then rune (b0 % 16 * 4096 + b1 % 64 * 64 + b2 % 64) 3
    else invalid

unfoldable pub decode_four : ℕ → Bytes → Decoded
decode_four b0 [] = invalid
decode_four b0 (b1 ∷ []) = invalid
decode_four b0 (b1 ∷ b2 ∷ []) = invalid
decode_four b0 (b1 ∷ b2 ∷ b3 ∷ _) =
    let lo = if b0 == 0xF0 then 0x90 else 0x80 in
    let hi = if b0 == 0xF4 then 0x8F else 0xBF in
    if is_between lo hi b1 && (is_continuation b2 && is_continuation b3)
    then rune (b0 % 8 * 262144 + b1 % 64 * 4096 + b2 % 64 * 64 + b3 % 64) 4
    else invalid

-- utf8.DecodeRuneInString at a first byte.
unfoldable pub decode_rune : ℕ → Bytes → Decoded
unfolding decode_two decode_three decode_four
decode_rune b0 rest =
    if ltb b0 0x80
    then rune b0 1
    else if ltb b0 0xC2
    then invalid
    else if ltb b0 0xE0
    then decode_two b0 rest
    else if ltb b0 0xF0
    then decode_three b0 rest
    else if ltb b0 0xF5
    then decode_four b0 rest
    else invalid

abbrev pub width : Decoded → ℕ
width (rune r n) = n
width invalid = 1

-- The steps of `for _, r := range s`; the first argument counts the bytes of a rune still to skip.
unfoldable pub steps : ℕ → Bytes → List Decoded
steps skip [] = []
steps (suc skip) (b ∷ s) = steps skip s
steps zero (b ∷ s) = let d = decode_rune b s in d ∷ steps (width d - 1) s

abbrev pub all_valid : List Decoded → Bool
all_valid [] = true
all_valid (rune r n ∷ ds) = all_valid ds
all_valid (invalid ∷ ds) = false

-- utf8.ValidString
unfoldable pub valid_string : Bytes → Bool
unfolding steps decode_rune
valid_string s = all_valid (steps 0 s)

-- unicode.IsControl
unfoldable pub is_control : ℕ → Bool
is_control r = ltb r 0x20 || is_between 0x7F 0x9F r
