-- ===== src/Wire/Uvarint.antt =====
-- append_uvarint writes the groups of seven bits, lowest first, and uvarint reads them back.
use mathlib.Core.Logic.{ite, dite, if_pos, if_neg}
use mathlib.Core.WellFounded
use mathlib.Core.WellFounded.{Acc, Acc-prop}
use native.Mathlib.Nat.{pow-suc, div-add-mod}
use native.Mathlib.Numerals.{towards_suc}
use seedward_libs.Base.{
  ℕ, zero, suc, ◌+◌, ◌*◌, ◌/◌, ◌%◌, ◌^◌, ◌<◌, ◌≤◌, bit_or, arith, [], ◌∷◌, ◌++◌, ◌≡◌, refl, sym, ap,
  ◌∙◌, append_assoc, append-nil, Bytes, length, dec_lt, All, IsByte, ◌⊎◌, inl, inr,
}
use seedward_libs.Base.Bits.{bit_and-low_seven, bit_or-top_bit, bit_or-add}
use seedward_libs.Base.Order.{lt_wf, mul_le}
use seedward_libs.Wire.{
  varint_msb, shift_shrinks, append_uvarint_loop, append_uvarint, value, uvarint_loop, uvarint,
}

loop_step :
    (b : Bytes) (v : ℕ) (w : Acc ◌<◌ v) (w' : Acc ◌<◌ (v / 2 ^ 7))
    → append_uvarint_loop b v w
      ≡ ite
          (dec_lt v varint_msb)
          (b ++ (v % 256) ∷ [])
          (append_uvarint_loop (b ++ bit_or (v % 256) varint_msb ∷ []) (v / 2 ^ 7) w')
unfolding append_uvarint_loop
loop_step b v (Acc.intro _ smaller) w' = λ i.
    dite (dec_lt v varint_msb) (λ _. b ++ (v % 256) ∷ [])
      (λ more.
        append_uvarint_loop (b ++ bit_or (v % 256) varint_msb ∷ []) (v / 2 ^ 7)
          (Acc-prop (smaller _ (shift_shrinks v more)) w' i))

append_uvarint_step :
    (b : Bytes) (v : ℕ)
    → append_uvarint b v
      ≡ ite
          (dec_lt v varint_msb)
          (b ++ (v % 256) ∷ [])
          (append_uvarint (b ++ bit_or (v % 256) varint_msb ∷ []) (v / 2 ^ 7))
unfolding append_uvarint
append_uvarint_step b v = loop_step b v (lt_wf.apply v) (lt_wf.apply (v / 2 ^ 7))

append_small : (b : Bytes) (v : ℕ) → v < 128 → append_uvarint b v ≡ b ++ v ∷ []
append_small b v h =
    let low : v % 256 ≡ v = omega arith in
    rw (append_uvarint_step b v, if_pos (dec_lt v varint_msb) h, low)

append_large :
    (b : Bytes) (v : ℕ)
    → 128 ≤ v
    → append_uvarint b v ≡ append_uvarint (b ++ (v % 128 + 128) ∷ []) (v / 128)
append_large b v h =
    let top : bit_or (v % 256) varint_msb ≡ v % 128 + 128 =
      omega (arith, bit_or-top_bit (v % 256) (omega arith)) in
    let more : ¬ (v < varint_msb) = λ l. omega arith in
    rw (append_uvarint_step b v, if_neg (dec_lt v varint_msb) more, top)

-- What append_uvarint appends.
unfoldable pub encoding : ℕ → Bytes
encoding v = append_uvarint [] v

pub lt_cases : (v : ℕ) → (v < 128) ⊎ (128 ≤ v)
lt_cases v = ground arith

append_uvarint-append : (b c : Bytes) (v : ℕ) → append_uvarint (b ++ c) v ≡ b ++ append_uvarint c v
append_uvarint-append b c v =
    WellFounded.induction lt_wf
      {C = λ v. (c : Bytes) → append_uvarint (b ++ c) v ≡ b ++ append_uvarint c v} v
      (λ v ih c. elim (lt_cases v) [
        | inl h ↦ rw (append_small (b ++ c) v h, append_small c v h) (append_assoc b c (v ∷ []))
        | inr h ↦
            rw (append_large (b ++ c) v h, append_large c v h, append_assoc b c _)
              (ih (v / 128) (omega arith) (c ++ (v % 128 + 128) ∷ []))
      ])
      c

-- append_uvarint keeps what is there and appends the encoding.
pub append_uvarint-encoding : (b : Bytes) (v : ℕ) → append_uvarint b v ≡ b ++ encoding v
unfolding encoding
append_uvarint-encoding b v =
    ap (λ (c : Bytes). append_uvarint c v) (sym (append-nil b)) ∙ append_uvarint-append b [] v

pub encoding_small : (v : ℕ) → v < 128 → encoding v ≡ v ∷ []
unfolding encoding
encoding_small v h = append_small [] v h

encoding_first : (v : ℕ) → 128 ≤ v → encoding v ≡ append_uvarint ((v % 128 + 128) ∷ []) (v / 128)
unfolding encoding
encoding_first v h = append_large [] v h

pub encoding_large : (v : ℕ) → 128 ≤ v → encoding v ≡ (v % 128 + 128) ∷ encoding (v / 128)
encoding_large v h = encoding_first v h ∙ append_uvarint-encoding ((v % 128 + 128) ∷ []) (v / 128)

-- A number below 128 ^ (k + 1) is written as 1 to k + 1 bytes, each below 256.
pub length-encoding_bound :
    (k v : ℕ)
    → v < 128 ^ suc k
    → (1 ≤ length (encoding v)) × (length (encoding v) ≤ k + 1) × All IsByte (encoding v)
length-encoding_bound zero v h = rw (encoding_small v (omega arith)) (omega arith)
length-encoding_bound (suc k) v h = elim (lt_cases v) [
  | inl l ↦ rw (encoding_small v l) (omega arith)
  | inr l ↦
      let (a, b, c) = length-encoding_bound k (v / 128) (omega arith) in
      rw (encoding_large v l) (omega arith, omega arith, (omega arith, c))
]

last_byte :
    (k i s v x : ℕ) (rest : Bytes)
    → i + k ≡ 9
    → v < 128
    → v * 2 ^ s < 2 ^ 64
    → x < 2 ^ s
    → (k ≡ 0 → v < 2)
    → uvarint_loop (v ∷ rest) i x s ≡ value (x + v * 2 ^ s) (i + 1)
unfolding uvarint_loop
last_byte k i s v x rest hi hv fits hx top = ground (arith, bit_or-add s x v hx)

inner_byte :
    (i s g x : ℕ) (rest : Bytes)
    → i < 9
    → g < 128
    → g * 2 ^ s < 2 ^ 64
    → x < 2 ^ s
    → uvarint_loop ((g + 128) ∷ rest) i x s ≡ uvarint_loop rest (i + 1) (x + g * 2 ^ s) (s + 7)
unfolding uvarint_loop
inner_byte i s g x rest hi hg fits hx =
    ground (arith, bit_and-low_seven (g + 128) (omega arith), bit_or-add s x g hx)

shift_seven : (s : ℕ) → 2 ^ (s + 7) ≡ 128 * 2 ^ s
shift_seven s = simp towards_suc (omega arith)

-- Products are bounded by one factor.
mul_lt : (a b p q : ℕ) → a < b → b * p ≤ q → 0 < p → a * p < q
mul_lt a b p q h k pos = grind arith

factor_le : (q p : ℕ) → 0 < q → p ≤ q * p
factor_le q p h = grind arith

-- The lowest group of `v` and the rest, both shifted by `s`.
split_group : (v s : ℕ) → v * 2 ^ s ≡ v % 128 * 2 ^ s + v / 128 * 2 ^ (s + 7)
split_group v s = omega (
  arith,
  ap (λ (t : ℕ). t * 2 ^ s) (div-add-mod v 128),
  ap (λ (t : ℕ). v / 128 * t) (shift_seven s),
)

first_group_fits : (k v : ℕ) → v < 2 * 128 ^ k → k ≡ 0 → v < 2
first_group_fits zero v h e = omega arith
first_group_fits (suc k) v h e = absurd (omega arith)

-- `k` more rounds can follow, and `v` is what is still to be read from bit `s` on.
read_back_small :
    (k i s v x : ℕ) (rest : Bytes)
    → i + k ≡ 9
    → 128 ^ k * 2 ^ s * 2 ≡ 2 ^ 64
    → v < 2 * 128 ^ k
    → x < 2 ^ s
    → v < 128
    → uvarint_loop (encoding v ++ rest) i x s ≡ value (x + v * 2 ^ s) (i + length (encoding v))
read_back_small k i s v x rest hi hp hv hx small = rw (encoding_small v small) (
    last_byte k i s v x rest hi small
      (mul_lt v (2 * 128 ^ k) (2 ^ s) (2 ^ 64) hv (omega arith) (omega arith)) hx
      (first_group_fits k v hv))

read_back :
    (k i s v x : ℕ) (rest : Bytes)
    → i + k ≡ 9
    → 128 ^ k * 2 ^ s * 2 ≡ 2 ^ 64
    → v < 2 * 128 ^ k
    → x < 2 ^ s
    → uvarint_loop (encoding v ++ rest) i x s ≡ value (x + v * 2 ^ s) (i + length (encoding v))
read_back zero i s v x rest hi hp hv hx =
    read_back_small zero i s v x rest hi hp hv hx (omega arith)
read_back (suc k) i s v x rest hi hp hv hx = elim (lt_cases v) [
  | inl small ↦ read_back_small (suc k) i s v x rest hi hp hv hx small
  | inr large ↦
      let group = v % 128 in
      let lower : group * 2 ^ s + 2 ^ s ≤ 128 * 2 ^ s = mul_le group 128 (2 ^ s) (omega arith) in
      let pow : 128 ^ suc k ≡ 128 ^ k * 128 = pow-suc 128 k in
      let hp' : 128 ^ k * (128 * 2 ^ s) * 2 ≡ 2 ^ 64 =
        omega (arith, ap (λ (t : ℕ). t * 2 ^ s) pow) in
      let fits : group * 2 ^ s < 2 ^ 64 =
        omega (arith, factor_le (128 ^ k) (128 * 2 ^ s) (omega (arith, pow))) in
      rw (encoding_large v large) (
        inner_byte i s group x (encoding (v / 128) ++ rest) (omega arith) (omega arith) fits hx
        ∙ read_back k (i + 1) (s + 7) (v / 128) (x + group * 2 ^ s) rest (omega arith)
            (rw (shift_seven s) hp') (omega arith) (rw (shift_seven s) (omega arith))
        ∙ ground (arith, split_group v s))
]

-- uvarint reads back every uint64 that append_uvarint wrote, and does not look past it.
pub uvarint-encoding :
    (v : ℕ) (rest : Bytes)
    → v < 2 ^ 64
    → uvarint (encoding v ++ rest) ≡ value v (length (encoding v))
unfolding uvarint
uvarint-encoding v rest h =
    read_back 9 0 0 v 0 rest refl refl (omega arith) (omega arith) ∙ ground arith
