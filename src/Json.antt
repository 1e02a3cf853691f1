-- ===== src/Json.antt =====
-- encoding/json's Marshal of Go's standard library, on the values that gentxvalidate/aminosigndoc.go
-- marshals: strings, slices and structs of them. The output is compact and HTML-escaped.
pub mod Strings
pub mod Values
use seedward_libs.Base.{
  ℕ, zero, suc, ◌+◌, ◌-◌, ◌/◌, ◌%◌, Bool, true, false, not, ◌&&◌, ◌||◌, [], ◌∷◌, ◌++◌, Bytes, codes,
  take, ltb, leb, ◌==◌, ◌≡◌, refl, if◌then◌else◌,
}
use seedward_libs.Utf8.{Decoded, rune, invalid, decode_rune, width}

abbrev pub hex_digit : ℕ → ℕ
hex_digit d = if ltb d 10 then b'0' + d else b'a' + (d - 10)

-- The bytes of htmlSafeSet: printable, and none of ", &, <, >, \.
abbrev pub is_html_safe : ℕ → Bool
is_html_safe b = leb 0x20 b && not (b == 0x22 || b == 0x26 || b == 0x3C || b == 0x3E || b == 0x5C)

unfoldable pub escape_ascii : ℕ → Bytes
escape_ascii b =
    if is_html_safe b
    then b ∷ []
    else if b == 0x5C || b == 0x22
    then 0x5C ∷ b ∷ []
    else if b == 0x08
    then 0x5C ∷ b'b' ∷ []
    else if b == 0x0C
    then 0x5C ∷ b'f' ∷ []
    else if b == 0x0A
    then 0x5C ∷ b'n' ∷ []
    else if b == 0x0D
    then 0x5C ∷ b'r' ∷ []
    else if b == 0x09
    then 0x5C ∷ b't' ∷ []
    else 0x5C ∷ b'u' ∷ b'0' ∷ b'0' ∷ hex_digit (b / 16) ∷ hex_digit (b % 16) ∷ []

-- An invalid byte is written as the escape of U+FFFD; U+2028 and U+2029 are escaped.
unfoldable pub escape_rune : Decoded → Bytes → Bytes
escape_rune invalid src = 0x5C ∷ b'u' ∷ b'f' ∷ b'f' ∷ b'f' ∷ b'd' ∷ []
escape_rune (rune r n) src =
    if r == 0x2028 || r == 0x2029
    then 0x5C ∷ b'u' ∷ b'2' ∷ b'0' ∷ b'2' ∷ hex_digit (r % 16) ∷ []
    else take n src

abbrev pub escape_at : ℕ → Bytes → Bytes
escape_at b s = if ltb b 0x80 then escape_ascii b else escape_rune (decode_rune b s) (b ∷ s)

-- The loop of appendString; the first argument counts the bytes of a rune still to skip.
unfoldable pub escape : ℕ → Bytes → Bytes
escape skip [] = []
escape (suc skip) (b ∷ s) = escape skip s
escape zero (b ∷ s) = escape_at b s ++ escape (width (decode_rune b s) - 1) s

-- A string in front of `rest`.
unfoldable pub quote : Bytes → Bytes → Bytes
unfolding escape
quote s rest = 0x22 ∷ (escape 0 s ++ 0x22 ∷ rest)

-- A value to marshal: a string, a slice, a struct with the fields that are not omitted.
mutual
  pub data Json : Type 0 where
    str : Bytes → Json
    arr : Items → Json
    obj : Fields → Json

  pub data Items : Type 0 where
    no_items : Items
    item : Json → Items → Items

  pub data Fields : Type 0 where
    no_fields : Fields
    field : Bytes → Json → Fields → Fields

-- `,` before all but the first
abbrev pub comma : Bool → Bytes → Bytes
comma true rest = rest
comma false rest = b',' ∷ rest

-- The output for a value, in front of `rest`.
unfoldable mutual
  unfolding quote

  pub print : Json → Bytes → Bytes
  print (str s) rest = quote s rest
  print (arr xs) rest = b'[' ∷ print_items true xs rest
  print (obj fs) rest = b'{' ∷ print_fields true fs rest

  pub print_items : Bool → Items → Bytes → Bytes
  print_items first no_items rest = b']' ∷ rest
  print_items first (item v xs) rest = comma first (print v (print_items false xs rest))

  pub print_fields : Bool → Fields → Bytes → Bytes
  print_fields first no_fields rest = b'}' ∷ rest
  print_fields first (field k v fs) rest =
      comma first (quote k (b':' ∷ print v (print_fields false fs rest)))

-- json.Marshal
unfoldable pub marshal : Json → Bytes
unfolding print
marshal v = print v []

quoted : quote (codes "a<b\"") [] ≡ codes "\"a\\u003cb\\\"\""
unfolding quote escape_ascii escape_rune decode_rune
quoted = refl

printed :
    marshal
      (obj (field (codes "k") (arr (item (str (codes "v")) (item (str []) no_items))) no_fields))
    ≡ codes "{\"k\":[\"v\",\"\"]}"
unfolding marshal escape_ascii escape_rune decode_rune
printed = refl
