-- ===== src/Json/Strings.antt =====
-- A JSON string that encoding/json has written can be read back, and the reader stops at its end.
use seedward_libs.Base.{
  ℕ, zero, suc, ◌+◌, ◌-◌, ◌*◌, ◌/◌, ◌%◌, ◌<◌, ◌≤◌, arith, true, false, ◌||◌, [], ◌∷◌, ◌++◌,
  append_assoc, ◌≡◌, refl, sym, ap, ◌∙◌, ◌⊎◌, inl, inr, Bool-cases, Option, none, some, Bytes,
  length, take, drop, take-append-drop, All, ltb, ◌==◌, if◌then◌else◌,
}
use seedward_libs.Json.{hex_digit, escape_ascii, escape_rune, escape, quote}
use seedward_libs.Utf8.{
  Decoded, rune, invalid, decode_two, decode_three, decode_four, decode_rune, steps, all_valid,
  valid_string,
}

data Mode : Type 0 where
  plain escaped : Mode
  hex : ℕ → ℕ → Mode

abbrev hex_value : ℕ → ℕ
hex_value c = if ltb c 0x3A then c - b'0' else c - b'a' + 10

-- The byte that a short escape stands for.
abbrev short_value : ℕ → ℕ
short_value c =
    if c == b'b'
    then 0x08
    else if c == b'f'
    then 0x0C
    else if c == b'n'
    then 0x0A
    else if c == b'r'
    then 0x0D
    else if c == b't'
    then 0x09
    else c

abbrev rune_bytes : ℕ → Bytes
rune_bytes r =
    if ltb r 0x80 then r ∷ [] else (0xE0 + r / 4096) ∷ (0x80 + r / 64 % 64) ∷ (0x80 + r % 64) ∷ []

abbrev push : Bytes → Option (Bytes × Bytes) → Option (Bytes × Bytes)
push front none = none
push front (some (s, rest)) = some (front ++ s, rest)

-- Reads to the closing quote: what the string stands for, and what follows it.
read : Mode → Bytes → Option (Bytes × Bytes)
read m [] = none
read plain (c ∷ s) =
    let escape_next = read escaped s in
    let next = push (c ∷ []) (read plain s) in
    if c == 0x22 then some ([], s) else if c == 0x5C then escape_next else next
read escaped (c ∷ s) =
    let digits_next = read (hex 4 0) s in
    let next = push (short_value c ∷ []) (read plain s) in if c == b'u' then digits_next else next
read (hex k v) (c ∷ s) =
    let more = read (hex (k - 1) (v * 16 + hex_value c)) s in
    let next = push (rune_bytes (v * 16 + hex_value c)) (read plain s) in
    if k == 1 then next else more

read-escape_ascii :
    (b : ℕ) (t : Bytes) → b < 0x80 → read plain (escape_ascii b ++ t) ≡ push (b ∷ []) (read plain t)
unfolding read escape_ascii
read-escape_ascii b t h = ground arith

-- A run of bytes of 0x80 and above is copied.
read-copied :
    (bs t : Bytes) → All (λ b. 0x80 ≤ b) bs → read plain (bs ++ t) ≡ push bs (read plain t)
unfolding read
read-copied [] t h = ground arith
read-copied (b ∷ bs) t (hb, h) = ground (arith, read-copied bs t h)

-- What a valid step reads: one byte, or two to four of which all are 0x80 or above.
abbrev IsStep : ℕ → Bytes → Decoded → Type 0
IsStep b s invalid = Unit {0}
IsStep b s (rune r n) =
    (n ≤ length (b ∷ s))
    × All (λ c. 0x80 ≤ c) (take n (b ∷ s))
    × ((r ≡ 0x2028) ⊎ (r ≡ 0x2029) → take n (b ∷ s) ≡ rune_bytes r)

decode_two-IsStep : (b : ℕ) (s : Bytes) → 0x80 ≤ b → b < 0xE0 → IsStep b s (decode_two b s)
unfolding decode_two
decode_two-IsStep b [] h k = tt
decode_two-IsStep b (c ∷ s) h k = ground arith

decode_three-IsStep : (b : ℕ) (s : Bytes) → 0xE0 ≤ b → b < 0xF0 → IsStep b s (decode_three b s)
unfolding decode_three
decode_three-IsStep b [] h k = tt
decode_three-IsStep b (c ∷ []) h k = tt
decode_three-IsStep b (c ∷ d ∷ s) h k = ground arith

decode_four-IsStep : (b : ℕ) (s : Bytes) → 0xF0 ≤ b → b < 0xF5 → IsStep b s (decode_four b s)
unfolding decode_four
decode_four-IsStep b [] h k = tt
decode_four-IsStep b (c ∷ []) h k = tt
decode_four-IsStep b (c ∷ d ∷ []) h k = tt
decode_four-IsStep b (c ∷ d ∷ e ∷ s) h k = ground arith

decode_rune-IsStep : (b : ℕ) (s : Bytes) → 0x80 ≤ b → IsStep b s (decode_rune b s)
unfolding decode_rune
decode_rune-IsStep b s h =
    let ascii : ltb b 0x80 ≡ false = ground arith in
    elim (Bool-cases (ltb b 0xC2)) [
      | inl t ↦ rw (ascii, t) tt
      | inr f ↦ elim (Bool-cases (ltb b 0xE0)) [
        | inl t ↦ rw (ascii, f, t) (decode_two-IsStep b s h (ground arith))
        | inr f2 ↦ elim (Bool-cases (ltb b 0xF0)) [
          | inl t ↦ rw (ascii, f, f2, t) (decode_three-IsStep b s (ground arith) (ground arith))
          | inr f3 ↦ elim (Bool-cases (ltb b 0xF5)) [
            | inl t ↦
                rw (ascii, f, f2, f3, t) (decode_four-IsStep b s (ground arith) (ground arith))
            | inr f4 ↦ rw (ascii, f, f2, f3, f4) tt
          ]
        ]
      ]
    ]

-- The width of a rune is one byte or more.
decode_rune-pos : (b : ℕ) (s : Bytes) (r n : ℕ) → decode_rune b s ≡ rune r n → 1 ≤ n
unfolding decode_rune decode_two decode_three decode_four
decode_rune-pos b [] r n e = ground arith
decode_rune-pos b (c ∷ []) r n e = ground arith
decode_rune-pos b (c ∷ d ∷ []) r n e = ground arith
decode_rune-pos b (c ∷ d ∷ f ∷ s) r n e = ground arith

-- U+2028 and U+2029 are read back from their escapes.
read-separator :
    (r : ℕ) (t : Bytes)
    → (r ≡ 0x2028) ⊎ (r ≡ 0x2029)
    → read plain ((0x5C ∷ b'u' ∷ b'2' ∷ b'0' ∷ b'2' ∷ hex_digit (r % 16) ∷ []) ++ t)
      ≡ push (rune_bytes r) (read plain t)
unfolding read
read-separator r t (inl e) = rw e refl
read-separator r t (inr e) = rw e refl

-- A step of a valid string is read back.
read-escape_rune :
    (b : ℕ) (s t : Bytes) (r n : ℕ)
    → 0x80 ≤ b
    → decode_rune b s ≡ rune r n
    → read plain (escape_rune (rune r n) (b ∷ s) ++ t) ≡ push (take n (b ∷ s)) (read plain t)
unfolding escape_rune
read-escape_rune b s t r n h e =
    let step : IsStep b s (rune r n) = rw e at (decode_rune-IsStep b s h) in
    elim (Bool-cases (r == 0x2028 || r == 0x2029)) [
      | inl sep ↦
          let which : (r ≡ 0x2028) ⊎ (r ≡ 0x2029) = ground arith in
          rw (sep, step.2 which) (read-separator r t which)
      | inr plain_rune ↦ rw plain_rune (read-copied (take n (b ∷ s)) t step.1)
    ]

push-push : (a b : Bytes) (o : Option (Bytes × Bytes)) → push a (push b o) ≡ push (a ++ b) o
push-push a b none = refl
push-push a b (some (s, rest)) = rw append_assoc

Decoded-cases : (d : Decoded) → ((r : ℕ) × (n : ℕ) × (d ≡ rune r n)) ⊎ (d ≡ invalid)
Decoded-cases (rune r n) = inl (r, n, refl)
Decoded-cases invalid = inr refl

join-take-drop : (n b : ℕ) (s : Bytes) → 1 ≤ n → take n (b ∷ s) ++ drop (n - 1) s ≡ b ∷ s
join-take-drop zero b s h = absurd (omega arith)
join-take-drop (suc n) b s h =
    let less : suc n - 1 ≡ n = omega arith in
    rw less (ap {B = Bytes} (λ r. b ∷ r) (take-append-drop n s))

decode_rune_ascii : (b : ℕ) (s : Bytes) → b < 0x80 → decode_rune b s ≡ rune b 1
unfolding decode_rune
decode_rune_ascii b s h = let t : ltb b 0x80 ≡ true = ground arith in rw t refl

read-escape :
    (skip : ℕ) (s t : Bytes)
    → all_valid (steps skip s) ≡ true
    → read plain (escape skip s ++ 0x22 ∷ t) ≡ some (drop skip s, t)
unfolding steps escape
read-escape zero [] t h = unfold read in refl
read-escape (suc skip) [] t h = unfold read in refl
read-escape (suc skip) (b ∷ s) t h = read-escape skip s t h
read-escape zero (b ∷ s) t h = elim (Bool-cases (ltb b 0x80)) [
  | inl ascii ↦
      let one = decode_rune_ascii b s (ground arith) in
      let rest = read-escape 0 s t (rw one at h) in
      rw
        (
          one,
          ascii,
          append_assoc,
          read-escape_ascii b (escape 0 s ++ 0x22 ∷ t) (ground arith),
          rest,
        )
        refl
  | inr high ↦ elim (Decoded-cases (decode_rune b s)) [
    | inr bad ↦ absurd (cc (rw bad at h))
    | inl (r, n, e) ↦
        let rest = read-escape (n - 1) s t (rw e at h) in
        rw
          (
            high,
            e,
            append_assoc,
            read-escape_rune b s (escape (n - 1) s ++ 0x22 ∷ t) r n (ground arith) e,
            rest,
            join-take-drop n b s (decode_rune-pos b s r n e),
          )
          refl
  ]
]

pub unquote : Bytes → Option (Bytes × Bytes)
unquote [] = none
unquote (c ∷ s) = read plain s

-- A written string of valid UTF-8 is read back, whatever follows it.
pub unquote-quote : (s t : Bytes) → valid_string s ≡ true → unquote (quote s t) ≡ some (s, t)
unfolding quote unquote valid_string
unquote-quote s t h = read-escape 0 s t h

some-pair :
    {s s' t t' : Bytes}
    → Path (Option (Bytes × Bytes)) (some (s, t)) (some (s', t'))
    → (s ≡ s') × (t ≡ t')
some-pair e = (cc, cc)

-- Written strings of valid UTF-8 tell the strings apart, and what follows them.
pub quote-injective :
    (s s' t t' : Bytes)
    → valid_string s ≡ true
    → valid_string s' ≡ true
    → quote s t ≡ quote s' t'
    → (s ≡ s') × (t ≡ t')
quote-injective s s' t t' h h' e =
    let pairs : Path (Option (Bytes × Bytes)) (some (s, t)) (some (s', t')) =
      sym (unquote-quote s t h) ∙ ap unquote e ∙ unquote-quote s' t' h' in
    some-pair pairs
