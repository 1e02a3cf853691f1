-- ===== src/Wire/Groups.antt =====
-- What appendUvarint of gentxvalidate/protowire.go writes: base 128, the lowest group first.
use mathlib.Core.WellFounded as WellFounded
use seedward_libs.Base.{
  ℕ, suc, ◌+◌, ◌*◌, ◌/◌, ◌%◌, ◌^◌, ◌<◌, ◌≤◌, arith, [], ◌∷◌, ◌++◌, ◌≡◌, inl, inr, Bytes, length,
}
use seedward_libs.Base.Order.{lt_wf}
use seedward_libs.Wire.{append_uvarint}
use seedward_libs.Wire.Uvarint.{
  encoding, lt_cases, append_uvarint-encoding, encoding_small, encoding_large,
  length-encoding_bound,
}

-- The number that the low seven bits of the bytes spell.
abbrev pub group_value : Bytes → ℕ
group_value [] = 0
group_value (c ∷ cs) = c % 128 + 128 * group_value cs

-- The top bit is set in every byte but the last.
abbrev pub IsContinued : Bytes → Type 0
IsContinued [] = ⊥
IsContinued (c ∷ []) = c < 128
IsContinued (c ∷ d ∷ cs) = (128 ≤ c) × (c < 256) × IsContinued (d ∷ cs)

-- A varint of `v`, with no more bytes than it takes.
pub record IsVarint (v : ℕ) (bs : Bytes) : Type 0 where
  pub spells : group_value bs ≡ v
  pub continued : IsContinued bs
  pub shortest : (n : ℕ) → v < 128 ^ suc n → length bs ≤ n + 1

IsContinued-cons : (c : ℕ) (cs : Bytes) → 128 ≤ c → c < 256 → IsContinued cs → IsContinued (c ∷ cs)
IsContinued-cons c [] h l k = absurd k
IsContinued-cons c (d ∷ cs) h l k = (h, l, k)

encoding-groups : (v : ℕ) → (group_value (encoding v) ≡ v) × IsContinued (encoding v)
encoding-groups v =
    WellFounded.induction lt_wf {C = λ v. (group_value (encoding v) ≡ v) × IsContinued (encoding v)}
      v
      (λ v ih. elim (lt_cases v) [
        | inl h ↦ rw (encoding_small v h) (omega arith, h)
        | inr h ↦
            let (spells, continued) = ih (v / 128) (omega arith) in
            rw (encoding_large v h) (
              omega (arith, spells),
              IsContinued-cons (v % 128 + 128) (encoding (v / 128)) (omega arith) (omega arith)
                  continued,
            )
      ])

-- appendUvarint keeps what is there and appends the shortest varint of the number: its groups of seven
-- bits, the lowest first, spell it, and the top bit is set in every byte but the last. So a uint64, which
-- is less than 128 ^ 10, takes 10 bytes at most.
pub append_uvarint-IsVarint :
    (b : Bytes) (v : ℕ) → (bs : Bytes) × (append_uvarint b v ≡ b ++ bs) × IsVarint v bs
append_uvarint-IsVarint b v =
    let (spells, continued) = encoding-groups v in
    (
      encoding v,
      append_uvarint-encoding b v,
      record {
        spells = spells;
        continued = continued;
        shortest = λ n h. (length-encoding_bound n v h).1;
      },
    )
