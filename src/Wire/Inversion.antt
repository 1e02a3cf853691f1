-- ===== src/Wire/Inversion.antt =====
-- What a written message determines: its fields, in their order.
use seedward_libs.Base.{
  ◌+◌, ◌*◌, ◌<◌, arith, List, [], ◌∷◌, ◌++◌, ◌≡◌, ◌≢◌, refl, sym, ap, ◌∙◌, Bytes, length,
  length-append, Option, some, All,
}
use mathlib.Core.Option.{some-injective}
use seedward_libs.Wire.Uvarint.{encoding, length-encoding_bound}
use seedward_libs.Wire.Fields.{
  Field, varint_field, bytes_field, IsField, encode_field, encode_fields, read_field,
  read_field-encode_field,
}

encode_field_inj :
    (f g : Field) (r s : Bytes)
    → IsField f
    → IsField g
    → encode_field f ++ r ≡ encode_field g ++ s
    → (f ≡ g) × (r ≡ s)
encode_field_inj f g r s hf hg e =
    let same : ◌≡◌ {A = Option (Field × Bytes)} (some (f, r)) (some (g, s)) =
      sym (read_field-encode_field f r hf) ∙ ap read_field e ∙ read_field-encode_field g s hg in
    (ap (λ p. p.0) (some-injective _ _ same), ap (λ p. p.1) (some-injective _ _ same))

encode_field_pos : (f : Field) → IsField f → 0 < length (encode_field f)
unfolding encode_field
encode_field_pos (varint_field n v) (hn, hv) =
    let (a, b, c) = length-encoding_bound 9 v (omega arith) in
    omega (arith, length-append (encoding (n * 8)) (encoding v))
encode_field_pos (bytes_field n s) (hn, hs) =
    let (a, b, c) = length-encoding_bound 9 (length s) (omega arith) in
    omega (
      arith,
      length-append (encoding (n * 8 + 2)) (encoding (length s) ++ s),
      length-append (encoding (length s)) s,
    )

nil-ne-encode : (f : Field) (r : Bytes) → IsField f → [] ≢ encode_field f ++ r
nil-ne-encode f r h e =
    absurd (omega (arith, ap length e, length-append (encode_field f) r, encode_field_pos f h))

-- Two messages with the same bytes have the same fields.
pub encode_fields_inj :
    (fs gs : List Field)
    → All IsField fs
    → All IsField gs
    → encode_fields fs ≡ encode_fields gs
    → fs ≡ gs
unfolding encode_fields
encode_fields_inj [] [] hf hg e = refl
encode_fields_inj [] (g ∷ gs) hf (hg, _) e = absurd (nil-ne-encode g (encode_fields gs) hg e)
encode_fields_inj (f ∷ fs) [] (hf, _) hg e = absurd (nil-ne-encode f (encode_fields fs) hf (sym e))
encode_fields_inj (f ∷ fs) (g ∷ gs) (hf, hfs) (hg, hgs) e =
    let (p, q) = encode_field_inj f g _ _ hf hg e in cc (p, encode_fields_inj fs gs hfs hgs q)
