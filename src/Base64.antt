-- ===== src/Base64.antt =====
-- base64.StdEncoding.EncodeToString of Go's standard library, as gentxvalidate/aminosigndoc.go uses
-- it; shifts and masks of bytes are written as quotients and remainders.
use seedward_libs.Base.{
  ℕ, ◌+◌, ◌-◌, ◌*◌, ◌/◌, ◌%◌, ◌<◌, arith, [], ◌∷◌, ◌≡◌, refl, sym, ap, Bytes, IsByte, All, codes,
  ltb, ◌==◌, if◌then◌else◌,
}

-- The character of six bits.
unfoldable pub digit : ℕ → ℕ
digit d =
    if ltb d 26
    then b'A' + d
    else if ltb d 52
    then b'a' + (d - 26)
    else if ltb d 62
    then b'0' + (d - 52)
    else if d == 62
    then b'+'
    else b'/'

unfoldable pub encode : Bytes → Bytes
unfolding digit
encode [] = []
encode (a ∷ []) = digit (a / 4) ∷ digit (a % 4 * 16) ∷ b'=' ∷ b'=' ∷ []
encode (a ∷ b ∷ []) = digit (a / 4) ∷ digit (a % 4 * 16 + b / 16) ∷ digit (b % 16 * 4) ∷ b'=' ∷ []
encode (a ∷ b ∷ c ∷ rest) =
    digit (a / 4)
    ∷ digit (a % 4 * 16 + b / 16)
    ∷ digit (b % 16 * 4 + c / 64)
    ∷ digit (c % 64)
    ∷ encode rest

encoded : encode (codes "light w") ≡ codes "bGlnaHQgdw=="
unfolding encode
encoded = refl

-- The characters are ASCII, tell their six bits, and are not the padding.
digit_ascii : (d : ℕ) → digit d < 0x80
unfolding digit
digit_ascii d = ground arith

digit-injective : (d e : ℕ) → d < 64 → e < 64 → digit d ≡ digit e → d ≡ e
unfolding digit
digit-injective d e h k q = ground arith

digit-ne-pad : (d : ℕ) → ¬ (digit d ≡ b'=')
unfolding digit
digit-ne-pad d e = ground arith

-- Encodings are ASCII.
pub encode_ascii : (s : Bytes) → All (λ b. b < 0x80) (encode s)
unfolding encode
encode_ascii [] = tt
encode_ascii (a ∷ []) = omega (arith, digit_ascii (a / 4), digit_ascii (a % 4 * 16))
encode_ascii (a ∷ b ∷ []) =
    omega (arith, digit_ascii (a / 4), digit_ascii (a % 4 * 16 + b / 16), digit_ascii (b % 16 * 4))
encode_ascii (a ∷ b ∷ c ∷ rest) = (
  digit_ascii (a / 4),
  (
    digit_ascii (a % 4 * 16 + b / 16),
    (digit_ascii (b % 16 * 4 + c / 64), (digit_ascii (c % 64), encode_ascii rest)),
  ),
)

-- The parts of an equation between lists.
heads : {b c : ℕ} {s t : Bytes} → b ∷ s ≡ c ∷ t → b ≡ c
heads e = cc

tails : {b c : ℕ} {s t : Bytes} → b ∷ s ≡ c ∷ t → s ≡ t
tails e = cc

one-injective :
    (a a' : ℕ)
    → a < 256
    → a' < 256
    → digit (a / 4) ≡ digit (a' / 4)
    → digit (a % 4 * 16) ≡ digit (a' % 4 * 16)
    → a ≡ a'
one-injective a a' h k p q = omega (
  arith,
  digit-injective (a / 4) (a' / 4) (omega arith) (omega arith) p,
  digit-injective (a % 4 * 16) (a' % 4 * 16) (omega arith) (omega arith) q,
)

joined :
    {a a' b b' c c' : ℕ} {s t : Bytes}
    → a ≡ a'
    → b ≡ b'
    → c ≡ c'
    → s ≡ t
    → a ∷ b ∷ c ∷ s ≡ a' ∷ b' ∷ c' ∷ t
joined p q r e = cc

joined2 : {a a' b b' : ℕ} → a ≡ a' → b ≡ b' → ◌≡◌ {A = Bytes} (a ∷ b ∷ []) (a' ∷ b' ∷ [])
joined2 p q = cc

-- The encoding tells byte strings apart.
pub encode-injective : (s t : Bytes) → All IsByte s → All IsByte t → encode s ≡ encode t → s ≡ t
unfolding encode
encode-injective [] [] h k e = refl
encode-injective (a ∷ []) (a' ∷ []) h k e =
    ap {B = Bytes} (λ x. x ∷ []) (one-injective a a' h.0 k.0 (heads e) (heads (tails e)))
encode-injective (a ∷ b ∷ []) (a' ∷ b' ∷ []) h k e =
    let d1 = digit-injective (a / 4) (a' / 4) (omega arith) (omega arith) (heads e) in
    let d2 =
      digit-injective (a % 4 * 16 + b / 16) (a' % 4 * 16 + b' / 16) (omega arith) (omega arith)
        (heads (tails e)) in
    let d3 =
      digit-injective (b % 16 * 4) (b' % 16 * 4) (omega arith) (omega arith)
        (heads (tails (tails e))) in
    let ea : a ≡ a' = omega arith in let eb : b ≡ b' = omega arith in joined2 ea eb
encode-injective (a ∷ b ∷ c ∷ s) (a' ∷ b' ∷ c' ∷ t) h k e =
    let d1 = digit-injective (a / 4) (a' / 4) (omega arith) (omega arith) (heads e) in
    let d2 =
      digit-injective (a % 4 * 16 + b / 16) (a' % 4 * 16 + b' / 16) (omega arith) (omega arith)
        (heads (tails e)) in
    let d3 =
      digit-injective (b % 16 * 4 + c / 64) (b' % 16 * 4 + c' / 64) (omega arith) (omega arith)
        (heads (tails (tails e))) in
    let d4 =
      digit-injective (c % 64) (c' % 64) (omega arith) (omega arith)
        (heads (tails (tails (tails e)))) in
    let ea : a ≡ a' = omega arith in
    let eb : b ≡ b' = omega arith in
    let ec : c ≡ c' = omega arith in
    let es = encode-injective s t h.1.1.1 k.1.1.1 (tails (tails (tails (tails e)))) in
    joined ea eb ec es
encode-injective [] (a' ∷ []) h k e = cc
encode-injective [] (a' ∷ b' ∷ []) h k e = cc
encode-injective [] (a' ∷ b' ∷ c' ∷ t) h k e = cc
encode-injective (a ∷ []) [] h k e = cc
encode-injective (a ∷ []) (a' ∷ b' ∷ []) h k e =
    absurd (digit-ne-pad (b' % 16 * 4) (sym (heads (tails (tails e)))))
encode-injective (a ∷ []) (a' ∷ b' ∷ c' ∷ t) h k e =
    absurd (digit-ne-pad (b' % 16 * 4 + c' / 64) (sym (heads (tails (tails e)))))
encode-injective (a ∷ b ∷ []) [] h k e = cc
encode-injective (a ∷ b ∷ []) (a' ∷ []) h k e =
    absurd (digit-ne-pad (b % 16 * 4) (heads (tails (tails e))))
encode-injective (a ∷ b ∷ []) (a' ∷ b' ∷ c' ∷ t) h k e =
    absurd (digit-ne-pad (c' % 64) (sym (heads (tails (tails (tails e))))))
encode-injective (a ∷ b ∷ c ∷ s) [] h k e = cc
encode-injective (a ∷ b ∷ c ∷ s) (a' ∷ []) h k e =
    absurd (digit-ne-pad (b % 16 * 4 + c / 64) (heads (tails (tails e))))
encode-injective (a ∷ b ∷ c ∷ s) (a' ∷ b' ∷ []) h k e =
    absurd (digit-ne-pad (c % 64) (heads (tails (tails (tails e)))))
