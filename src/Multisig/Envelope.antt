-- ===== src/Multisig/Envelope.antt =====
-- The MultiSignature envelope: it is read back as it was written, and reading always ends.
use seedward_libs.Base.{
  ℕ, zero, suc, ◌+◌, ◌-◌, ◌<◌, ◌≤◌, ◌^◌, bit_or, bit_and, ◌*◌, ◌%◌, arith, List, [], ◌∷◌, ◌++◌, ◌≡◌,
  ◌≢◌, refl, sym, ap, ◌∙◌, ◌⊎◌, inl, inr, append_assoc, append-nil, Bytes, length, take, drop,
  take-append, drop-append, length-append, length-drop, leb, ◌==◌, All, Bool-cases, true,
}
use seedward_libs.Errors.{Outcome, ok, err, panic, malformed_envelope, Outcome-cases}
use seedward_libs.Multisig.{
  after_uvarint, read_uvarint, read_sig_tag, sig_tag, slice_to, slice_from, parse_loop,
  parse_multi_signature,
}
use seedward_libs.Wire.{Read, value, short, overflow, uvarint_loop, uvarint, append_bytes_field}
use seedward_libs.Wire.Fields.{bytes_field, encode_field, append_bytes_field-encode_field}
use seedward_libs.Wire.Uvarint.{encoding, encoding_small, uvarint-encoding}

-- The envelope that holds the signatures, by the package's own writer.
unfoldable pub append_signatures : Bytes → List Bytes → Bytes
append_signatures b [] = b
append_signatures b (s ∷ ss) = append_signatures (append_bytes_field b 1 s) ss

abbrev pub IsSized : Bytes → Type 0
IsSized s = length s < 2 ^ 64

abbrev body : List Bytes → Bytes
body [] = []
body (s ∷ ss) = encode_field (bytes_field 1 s) ++ body ss

append_signatures-body :
    (b : Bytes) (ss : List Bytes) → All IsSized ss → append_signatures b ss ≡ b ++ body ss
unfolding append_signatures
append_signatures-body b [] h = sym (append-nil b)
append_signatures-body b (s ∷ ss) (hs, h) =
    append_signatures-body (append_bytes_field b 1 s) ss h
    ∙ rw (append_bytes_field-encode_field b 1 s (omega arith, hs))
        (append_assoc b (encode_field (bytes_field 1 s)) (body ss))

slice_to-fits : (b : Bytes) (n : ℕ) → n ≤ length b → slice_to b n ≡ ok (take n b)
slice_to-fits b n h = let fits : leb n (length b) ≡ true = ground arith in rw fits refl

slice_from-fits : (b : Bytes) (n : ℕ) → n ≤ length b → slice_from b n ≡ ok (drop n b)
slice_from-fits b n h = let fits : leb n (length b) ≡ true = ground arith in rw fits refl

read_uvarint-encoding :
    (v : ℕ) (rest : Bytes) → v < 2 ^ 64 → read_uvarint (encoding v ++ rest) ≡ ok (v, rest)
read_uvarint-encoding v rest h =
    let n = length (encoding v) in
    rw
      (
        uvarint-encoding v rest h,
        slice_from-fits (encoding v ++ rest) n (omega (arith, length-append (encoding v) rest)),
        drop-append,
      )
      refl

read_sig_tag-encoding : (rest : Bytes) → read_sig_tag (encoding 10 ++ rest) ≡ ok rest
read_sig_tag-encoding rest =
    let n = length (encoding 10) in
    rw
      (
        uvarint-encoding 10 rest (omega arith),
        slice_from-fits (encoding 10 ++ rest) n (omega (arith, length-append (encoding 10) rest)),
        drop-append,
      )
      refl

read_tag : (rest : Bytes) → read_sig_tag (10 ∷ rest) ≡ ok rest
read_tag rest =
    ap (λ (t : Bytes). read_sig_tag (t ++ rest)) (sym (encoding_small 10 (omega arith)))
    ∙ read_sig_tag-encoding rest

encode_field_one :
    (s rest : Bytes)
    → encode_field (bytes_field 1 s) ++ rest ≡ 10 ∷ (encoding (length s) ++ (s ++ rest))
unfolding encode_field
encode_field_one s rest =
    rw (encoding_small 10 (omega arith))
      (ap {B = Bytes} (λ t. 10 ∷ t) (append_assoc (encoding (length s)) s rest))

parse_round :
    (fuel : ℕ) (s rest : Bytes) (sigs : List Bytes)
    → IsSized s
    → parse_loop (suc fuel) (encode_field (bytes_field 1 s) ++ rest) sigs
      ≡ parse_loop fuel rest (sigs ++ s ∷ [])
unfolding parse_loop
parse_round fuel s rest sigs h =
    let long : length s ≤ length (s ++ rest) = omega (arith, length-append s rest) in
    let fits : leb (length s) (length (s ++ rest)) ≡ true = ground arith in
    rw (encode_field_one s rest, read_tag)
      (rw (read_uvarint-encoding (length s) (s ++ rest) h, fits, take-append, drop-append))

length-body : (ss : List Bytes) → length ss ≤ length (body ss)
length-body [] = omega arith
length-body (s ∷ ss) = rw encode_field_one (
    omega (
      arith,
      length-body ss,
      length-append (encoding (length s)) (s ++ body ss),
      length-append s (body ss),
    ))

parse_loop-body :
    (ss : List Bytes) (fuel : ℕ) (sigs : List Bytes)
    → All IsSized ss
    → length ss ≤ fuel
    → parse_loop fuel (body ss) sigs ≡ ok (sigs ++ ss)
parse_loop-body [] fuel sigs h l = rw append-nil (unfold parse_loop in refl)
parse_loop-body (s ∷ ss) zero sigs h l = absurd (omega arith)
parse_loop-body (s ∷ ss) (suc fuel) sigs (hs, h) l =
    parse_round fuel s (body ss) sigs hs
    ∙ parse_loop-body ss fuel (sigs ++ s ∷ []) h (omega arith)
    ∙ ap {B = Outcome (List Bytes)} ok (append_assoc sigs (s ∷ []) ss)

-- parseMultiSignature reads back one or more signatures that were written into an envelope, each
-- of fewer than 2 ^ 64 bytes.
pub parse_multi_signature-append_signatures :
    (s : Bytes) (ss : List Bytes)
    → All IsSized (s ∷ ss)
    → parse_multi_signature (append_signatures [] (s ∷ ss)) ≡ ok (s ∷ ss)
unfolding parse_multi_signature
parse_multi_signature-append_signatures s ss h = rw (
  append_signatures-body [] (s ∷ ss) h,
  parse_loop-body (s ∷ ss) (length (body (s ∷ ss))) [] h (length-body (s ∷ ss)),
)

-- A value that is read takes one byte or more, and no more than there are.
uvarint_loop-takes :
    (b : Bytes) (i x s v n : ℕ) → uvarint_loop b i x s ≡ value v n → (i < n) × (n ≤ i + length b)
unfolding uvarint_loop
uvarint_loop-takes [] i x s v n e = cc
uvarint_loop-takes (c ∷ cs) i x s v n e =
    ground (
      arith,
      uvarint_loop-takes cs (i + 1) (bit_or x (bit_and c 0x7f * 2 ^ s % 2 ^ 64)) (s + 7) v n,
    )

uvarint_takes : (b : Bytes) (v n : ℕ) → uvarint b ≡ value v n → (0 < n) × (n ≤ length b)
unfolding uvarint
uvarint_takes b v n e = let takes = uvarint_loop-takes b 0 0 0 v n e in omega arith

Read-cases :
    (r : Read) → ((v : ℕ) × (n : ℕ) × (r ≡ value v n)) ⊎ (after_uvarint r ≡ err malformed_envelope)
Read-cases (value v n) = inl (v, n, refl)
Read-cases short = inr refl
Read-cases overflow = inr refl

-- What a read of a varint leaves: an error, or a byte less at least.
read_uvarint_cases :
    (b : Bytes)
    → (read_uvarint b ≡ err malformed_envelope)
      ⊎ ((v : ℕ) × (rest : Bytes) × (read_uvarint b ≡ ok (v, rest)) × (length rest ≤ length b - 1))
read_uvarint_cases b = elim (Read-cases (uvarint b)) [
  | inr e ↦ inl (rw e refl)
  | inl (v, n, e) ↦
      let (some_byte, fits) = uvarint_takes b v n e in
      inr (v, drop n b, rw (e, slice_from-fits b n fits) refl, omega (arith, length-drop n b))
]

read_sig_tag_cases :
    (b : Bytes)
    → (read_sig_tag b ≡ err malformed_envelope)
      ⊎ ((rest : Bytes) × (read_sig_tag b ≡ ok rest) × (length rest ≤ length b - 1))
read_sig_tag_cases b = elim (Read-cases (uvarint b)) [
  | inr e ↦ inl (rw e refl)
  | inl (v, n, e) ↦ elim (Bool-cases (v == sig_tag)) [
    | inr wrong ↦ inl (rw (e, wrong) refl)
    | inl right ↦
        let (some_byte, fits) = uvarint_takes b v n e in
        inr (drop n b, rw (e, right) (slice_from-fits b n fits), omega (arith, length-drop n b))
  ]
]

parse_loop-ne-panic :
    (fuel : ℕ) (b : Bytes) (sigs : List Bytes) → length b ≤ fuel → parse_loop fuel b sigs ≢ panic
unfolding parse_loop
parse_loop-ne-panic fuel [] sigs h = λ p. cc
parse_loop-ne-panic zero (c ∷ cs) sigs h = absurd (omega arith)
parse_loop-ne-panic (suc fuel) (c ∷ cs) sigs h = elim (read_sig_tag_cases (c ∷ cs)) [
  | inl e ↦ rw e (λ p. cc)
  | inr (b1, e, l) ↦ rw e (elim (read_uvarint_cases b1) [
    | inl e' ↦ rw e' (λ p. cc)
    | inr (size, b2, e', l') ↦ rw e' (elim (Bool-cases (leb size (length b2))) [
      | inr long ↦ rw long (λ p. cc)
      | inl fits ↦ rw fits (
          parse_loop-ne-panic fuel (drop size b2) (sigs ++ take size b2 ∷ [])
            (omega (arith, length-drop size b2)))
    ])
  ])
]

-- parseMultiSignature ends on every input, with signatures or an error: no slice of the envelope is out
-- of range, and there are as many rounds as bytes at most.
pub parse_multi_signature-ne-panic : (b : Bytes) → parse_multi_signature b ≢ panic
unfolding parse_multi_signature
parse_multi_signature-ne-panic b = elim (Outcome-cases (parse_loop (length b) b [])) [
  | inr (inr e) ↦ absurd (parse_loop-ne-panic (length b) b [] (omega arith) e)
  | inr (inl (x, e)) ↦ rw e (λ p. cc)
  | inl ([], e) ↦ rw e (λ p. cc)
  | inl (s ∷ ss, e) ↦ rw e (λ p. cc)
]
