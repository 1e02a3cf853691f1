-- ===== src/Wire.antt =====
-- gentxvalidate/protowire.go: the protobuf writer; and binary.Uvarint of Go's standard library, by
-- which gentxvalidate/multisig.go reads. A uint64 is a number below 2 ^ 64; `byte(v)` is `v % 256`.
pub mod Uvarint
pub mod Groups
pub mod Fields
pub mod Inversion
pub mod Messages
use mathlib.Core.Logic.{dite}
use mathlib.Core.WellFounded.{Acc}
use seedward_libs.Base.{
  ℕ, zero, suc, ◌+◌, ◌*◌, ◌/◌, ◌%◌, ◌^◌, ◌<◌, ◌≤◌, bit_or, bit_and, arith, List, [], ◌∷◌, ◌++◌,
  Bytes, length, ltb, ◌==◌, ◌&&◌, if◌then◌else◌, dec_lt,
}
use seedward_libs.Base.Order.{lt_wf}

abbrev pub wire_varint : ℕ
wire_varint = 0

abbrev pub wire_bytes : ℕ
wire_bytes = 2

abbrev pub varint_msb : ℕ
varint_msb = 0x80

pub shift_shrinks : (v : ℕ) → ¬ (v < varint_msb) → v / 2 ^ 7 < v
shift_shrinks v h = omega arith

append_uvarint_loop : Bytes → (v : ℕ) → Acc ◌<◌ v → Bytes
append_uvarint_loop b v (Acc.intro _ smaller) =
    dite (dec_lt v varint_msb) (λ _. b ++ (v % 256) ∷ [])
      (λ more.
        append_uvarint_loop (b ++ bit_or (v % 256) varint_msb ∷ []) (v / 2 ^ 7)
          (smaller _ (shift_shrinks v more)))

unfoldable pub append_uvarint : Bytes → ℕ → Bytes
unfolding append_uvarint_loop lt_wf dec_lt
append_uvarint b v = append_uvarint_loop b v (lt_wf.apply v)

-- `field<<3|wire` in uint64
unfoldable pub append_tag : Bytes → ℕ → ℕ → Bytes
append_tag b field wire = append_uvarint b (bit_or (field * 2 ^ 3 % 2 ^ 64) wire)

unfoldable pub append_varint_field : Bytes → ℕ → ℕ → Bytes
append_varint_field b field v = append_uvarint (append_tag b field wire_varint) v

unfoldable pub append_bytes_field : Bytes → ℕ → Bytes → Bytes
append_bytes_field b field v =
    append_uvarint (append_tag b field wire_bytes) (length v % 2 ^ 64) ++ v

unfoldable pub append_string_field : Bytes → ℕ → Bytes → Bytes
append_string_field b field s =
    append_uvarint (append_tag b field wire_bytes) (length s % 2 ^ 64) ++ s

-- What binary.Uvarint returns: a value and the count n > 0 of bytes read, n = 0 on a short buffer,
-- and n < 0 when the value overflows 64 bits.
pub data Read : Type 0 where
  value : ℕ → ℕ → Read
  short : Read
  overflow : Read

abbrev pub max_varint_len64 : ℕ
max_varint_len64 = 10

unfoldable pub uvarint_loop : Bytes → ℕ → ℕ → ℕ → Read
uvarint_loop [] i x s = short
uvarint_loop (b ∷ bs) i x s =
    let more = uvarint_loop bs (i + 1) (bit_or x (bit_and b 0x7f * 2 ^ s % 2 ^ 64)) (s + 7) in
    if i == max_varint_len64
    then overflow
    else if ltb b 0x80
    then if i == 9 && ltb 1 b then overflow else value (bit_or x (b * 2 ^ s % 2 ^ 64)) (i + 1)
    else more

unfoldable pub uvarint : Bytes → Read
unfolding uvarint_loop
uvarint buf = uvarint_loop buf 0 0 0
