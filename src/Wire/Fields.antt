-- ===== src/Wire/Fields.antt =====
-- A protobuf message as a list of fields: an independent description of what protowire.go writes,
-- and a reader of one field that inverts it.
use seedward_libs.Base.{
  ℕ, ◌+◌, ◌*◌, ◌/◌, ◌%◌, ◌^◌, ◌<◌, bit_or, arith, List, [], ◌∷◌, ◌++◌, ◌≡◌, refl, ◌∙◌, append_assoc,
  Bytes, length, length-append, take, drop, take-append, drop-append, leb, ◌==◌, if◌then◌else◌,
  Option, none, some,
}
use seedward_libs.Base.Bits.{bit_or-add, bit_or_comm}
use seedward_libs.Wire.{
  append_tag, append_varint_field, append_bytes_field, append_string_field, Read, value, short,
  overflow, uvarint, wire_varint, wire_bytes,
}
use seedward_libs.Wire.Uvarint.{encoding, append_uvarint-encoding, uvarint-encoding}

pub data Field : Type 0 where
  varint_field : ℕ → ℕ → Field
  bytes_field : ℕ → Bytes → Field

-- The field number fits its tag, and the value or the length fits a uint64.
abbrev pub IsField : Field → Type 0
IsField (varint_field n v) = (n < 2 ^ 61) × (v < 2 ^ 64)
IsField (bytes_field n s) = (n < 2 ^ 61) × (length s < 2 ^ 64)

-- What the writers append for one field.
unfoldable pub encode_field : Field → Bytes
encode_field (varint_field n v) = encoding (n * 8) ++ encoding v
encode_field (bytes_field n s) = encoding (n * 8 + 2) ++ (encoding (length s) ++ s)

unfoldable pub encode_fields : List Field → Bytes
encode_fields [] = []
encode_fields (f ∷ fs) = encode_field f ++ encode_fields fs

tag_value : (n w : ℕ) → n < 2 ^ 61 → w < 8 → bit_or (n * 2 ^ 3 % 2 ^ 64) w ≡ n * 8 + w
tag_value n w hn hw =
    let fits : n * 2 ^ 3 % 2 ^ 64 ≡ n * 2 ^ 3 = omega arith in
    rw (fits, bit_or_comm (n * 2 ^ 3) w) (omega (arith, bit_or-add 3 w n (omega arith)))

pub append_tag-encoding :
    (b : Bytes) (n w : ℕ) → n < 2 ^ 61 → w < 8 → append_tag b n w ≡ b ++ encoding (n * 8 + w)
unfolding append_tag
append_tag-encoding b n w hn hw = rw (tag_value n w hn hw) (append_uvarint-encoding b (n * 8 + w))

-- append_varint_field appends the encoding of a varint field.
pub append_varint_field-encode_field :
    (b : Bytes) (n v : ℕ)
    → n < 2 ^ 61
    → append_varint_field b n v ≡ b ++ encode_field (varint_field n v)
unfolding append_varint_field encode_field
append_varint_field-encode_field b n v h =
    let plain : n * 8 + 0 ≡ n * 8 = omega arith in
    rw (append_tag-encoding b n wire_varint h (omega arith), append_uvarint-encoding, plain)
      (append_assoc b _ _)

-- append_bytes_field appends the encoding of a length-delimited field.
pub append_bytes_field-encode_field :
    (b : Bytes) (n : ℕ) (s : Bytes)
    → IsField (bytes_field n s)
    → append_bytes_field b n s ≡ b ++ encode_field (bytes_field n s)
unfolding append_bytes_field encode_field
append_bytes_field-encode_field b n s (hn, hs) =
    let fits : length s % 2 ^ 64 ≡ length s = omega arith in
    rw (append_tag-encoding b n wire_bytes hn (omega arith), fits, append_uvarint-encoding)
      (append_assoc (b ++ _) _ s ∙ append_assoc b _ _)

-- append_string_field writes what append_bytes_field writes.
pub append_string_field-bytes :
    (b : Bytes) (n : ℕ) (s : Bytes) → append_string_field b n s ≡ append_bytes_field b n s
unfolding append_string_field append_bytes_field
append_string_field-bytes b n s = refl

-- Reads one field from the front of a message.
read_payload : ℕ → Bytes → Read → Option (Field × Bytes)
read_payload tag rest (value v m) =
    let after = drop m rest in
    if tag % 8 == 0
    then some (varint_field (tag / 8) v, after)
    else if tag % 8 == 2
    then (if leb v (length after)
        then some (bytes_field (tag / 8) (take v after), drop v after)
        else none)
    else none
read_payload tag rest short = none
read_payload tag rest overflow = none

read_tag : Bytes → Read → Option (Field × Bytes)
read_tag b (value tag n) = read_payload tag (drop n b) (uvarint (drop n b))
read_tag b short = none
read_tag b overflow = none

unfoldable pub read_field : Bytes → Option (Field × Bytes)
unfolding read_tag read_payload
read_field b = read_tag b (uvarint b)

read_tag-encoding :
    (tag : ℕ) (rest : Bytes)
    → tag < 2 ^ 64
    → read_field (encoding tag ++ rest) ≡ read_payload tag rest (uvarint rest)
unfolding read_field
read_tag-encoding tag rest h = rw (uvarint-encoding tag rest h, drop-append)

-- The reader gives back every field that was written, and leaves whatever follows it.
pub read_field-encode_field :
    (f : Field) (rest : Bytes) → IsField f → read_field (encode_field f ++ rest) ≡ some (f, rest)
unfolding encode_field read_payload
read_field-encode_field (varint_field n v) rest (hn, hv) =
    let number : n * 8 / 8 ≡ n = omega arith in
    rw (append_assoc, read_tag-encoding (n * 8) (encoding v ++ rest) (omega arith))
      (rw (uvarint-encoding v rest hv) (ground (arith, drop-append (encoding v) rest)))
read_field-encode_field (bytes_field n s) rest (hn, hs) =
    rw
      (
        append_assoc,
        append_assoc,
        read_tag-encoding (n * 8 + 2) (encoding (length s) ++ (s ++ rest)) (omega arith),
      )
      (rw (uvarint-encoding (length s) (s ++ rest) hs, drop-append)
        (ground (arith, take-append s rest, drop-append s rest, length-append s rest)))

-- The output is `b` and bytes from whose front, whatever follows them, the field is read.
abbrev pub Appends : Bytes → Bytes → Field → Type 0
Appends b out f =
    (e : Bytes) × (out ≡ b ++ e) × ((rest : Bytes) → read_field (e ++ rest) ≡ some (f, rest))

-- Each writer keeps what is there, and what it appends is read back as its field, if the field's number
-- is below 2 ^ 61 and the value or the length is a uint64.
pub writers-Appends :
    (b : Bytes) (n v : ℕ) (s : Bytes)
    → n < 2 ^ 61
    → v < 2 ^ 64
    → length s < 2 ^ 64
    → Appends b (append_varint_field b n v) (varint_field n v)
      × Appends b (append_bytes_field b n s) (bytes_field n s)
      × Appends b (append_string_field b n s) (bytes_field n s)
writers-Appends b n v s hn hv hs =
    let number = varint_field n v in
    let bytes = bytes_field n s in
    let back = λ (rest : Bytes). read_field-encode_field bytes rest (hn, hs) in
    let written = append_bytes_field-encode_field b n s (hn, hs) in
    (
      (
        encode_field number,
        append_varint_field-encode_field b n v hn,
        λ rest. read_field-encode_field number rest (hn, hv),
      ),
      (encode_field bytes, written, back),
      (encode_field bytes, append_string_field-bytes b n s ∙ written, back),
    )
