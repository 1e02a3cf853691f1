-- ===== src/CanonicalJson/Stable.antt =====
-- The canonical encoding does not depend on the order in which a map is iterated.
use seedward_libs.Base.{
  ℕ, zero, suc, ◌<◌, ◌==◌, arith, Bool, true, false, List, [], ◌∷◌, ◌≡◌, refl, ◌∙◌, inl, inr,
  Bool-cases, Bytes, All, length,
}
use seedward_libs.Errors.{Reply, reply, refusal, Reply-cases}
use seedward_libs.CanonicalJson.{
  Codec, json_failed, Answer, checked, ◌>>=◌, trim_space, write_items, serialise_object,
  serialise_array, canonicalise_trimmed, canonicalise_raw, canonical_json,
}
use seedward_libs.CanonicalJson.Fuel.{Reads, All-map, entry-shrinks, length-trim_space}
use seedward_libs.CanonicalJson.Maps.{AreSame, serialise_object-same}

-- The same refusal, or maps with the same entries.
abbrev pub AreSameReplies : Reply (List (Bytes × Bytes)) → Reply (List (Bytes × Bytes)) → Type 0
AreSameReplies (reply m) (reply m') = AreSame m m'
AreSameReplies (refusal e) (refusal e') = e ≡ e'
AreSameReplies (reply m) (refusal e) = ⊥
AreSameReplies (refusal e) (reply m) = ⊥

-- Two readings of JSON that differ only in the order of the entries of maps.
pub record DifferInOrder {Value Scalar : Type 0} (c c' : Codec Value Scalar) : Type 0 where
  pub values : (v : Value) → c.marshal_value v ≡ c'.marshal_value v
  pub objects : (raw : Bytes) → AreSameReplies (c.unmarshal_object raw) (c'.unmarshal_object raw)
  pub arrays : (raw : Bytes) → c.unmarshal_array raw ≡ c'.unmarshal_array raw
  pub scalars : (raw : Bytes) → c.unmarshal_scalar raw ≡ c'.unmarshal_scalar raw
  pub written : (s : Scalar) → c.marshal_scalar s ≡ c'.marshal_scalar s

write_items-same :
    (deeper deeper' : Bytes → Answer Bytes) (first : Bool) (es : List Bytes)
    → All (λ e. deeper e ≡ deeper' e) es
    → write_items deeper first es ≡ write_items deeper' first es
unfolding write_items
write_items-same deeper deeper' first [] h = refl
write_items-same deeper deeper' first (e ∷ es) (he, h) =
    rw (he, write_items-same deeper deeper' false es h) refl

module _ {Value Scalar : Type 0} (c c' : Codec Value Scalar) (h : Reads c) (h' : Reads c')
    (d : DifferInOrder c c') where
  module _ (deeper deeper' : Bytes → Answer Bytes) (t : Bytes)
      (agree : (s : Bytes) → length s < length t → deeper s ≡ deeper' s) where
    object_agree :
        0 < length t
        → (checked json_failed (c.unmarshal_object t) >>= serialise_object deeper)
          ≡ (checked json_failed (c'.unmarshal_object t) >>= serialise_object deeper')
    object_agree pos =
        by_replies (c.unmarshal_object t) (c'.unmarshal_object t) refl refl (d.objects t)
      where
        by_replies :
            (r r' : Reply (List (Bytes × Bytes)))
            → c.unmarshal_object t ≡ r
            → c'.unmarshal_object t ≡ r'
            → AreSameReplies r r'
            → (checked json_failed r >>= serialise_object deeper)
              ≡ (checked json_failed r' >>= serialise_object deeper')
        by_replies (reply m) (reply m') e e' same =
            serialise_object-same deeper deeper' m m' same
              (λ k. agree _ (entry-shrinks c h t m k pos e)) (h.distinct t m e)
              (h'.distinct t m' e')
        by_replies (refusal f) (refusal f') e e' same = rw same refl
        by_replies (reply m) (refusal f) e e' same = absurd same
        by_replies (refusal f) (reply m) e e' same = absurd same

    array_agree :
        (checked json_failed (c.unmarshal_array t) >>= serialise_array deeper)
        ≡ (checked json_failed (c'.unmarshal_array t) >>= serialise_array deeper')
    unfolding serialise_array
    array_agree = elim (Reply-cases (c'.unmarshal_array t)) [
      | inr (e, p) ↦ rw (d.arrays t, p) refl
      | inl (es, p) ↦
          rw
            (
              d.arrays t,
              p,
              write_items-same deeper deeper' true es
                  (All-map agree es (h.array_shrinks t es (d.arrays t ∙ p))),
            )
            refl
    ]

  trimmed_agree :
      (deeper deeper' : Bytes → Answer Bytes) (t : Bytes)
      → ((s : Bytes) → length s < length t → deeper s ≡ deeper' s)
      → canonicalise_trimmed c deeper t ≡ canonicalise_trimmed c' deeper' t
  unfolding canonicalise_trimmed
  trimmed_agree deeper deeper' [] agree = refl
  trimmed_agree deeper deeper' (b ∷ s) agree = elim (Bool-cases (b == b'{')) [
    | inl brace ↦ rw brace (object_agree deeper deeper' (b ∷ s) agree (omega arith))
    | inr other ↦ elim (Bool-cases (b == b'[')) [
      | inl bracket ↦ rw (other, bracket) (array_agree deeper deeper' (b ∷ s) agree)
      | inr scalar ↦
          rw (other, scalar)
            (elim (Reply-cases (c'.unmarshal_scalar (b ∷ s))) [
              | inr (e, p) ↦ rw (d.scalars (b ∷ s), p) refl
              | inl (v, p) ↦ rw (d.scalars (b ∷ s), p, d.written v) refl
            ])
    ]
  ]

  -- Neither the order of maps nor the fuel, if there is enough, changes the encoding of a text.
  pub raw_agree :
      (fuel fuel' : ℕ) (raw : Bytes)
      → length raw < fuel
      → length raw < fuel'
      → canonicalise_raw c fuel raw ≡ canonicalise_raw c' fuel' raw
  unfolding canonicalise_raw
  raw_agree zero fuel' raw l l' = absurd (omega arith)
  raw_agree (suc fuel) zero raw l l' = absurd (omega arith)
  raw_agree (suc fuel) (suc fuel') raw l l' =
      trimmed_agree (canonicalise_raw c fuel) (canonicalise_raw c' fuel') (trim_space raw)
        λ s shorter.
          raw_agree fuel fuel' s (omega (arith, length-trim_space raw))
            (omega (arith, length-trim_space raw))

  -- Two readings of JSON that differ only in the order of the entries of maps give the same canonical
  -- JSON of every value, or the same error, if both have each key of a map once and read values that are
  -- shorter than the text.
  pub canonical_json-stable : (v : Value) → canonical_json c v ≡ canonical_json c' v
  unfolding canonical_json
  canonical_json-stable v = elim (Reply-cases (c'.marshal_value v)) [
    | inr (e, p) ↦ rw (d.values v, p) refl
    | inl (raw, p) ↦
        rw (d.values v, p)
          (raw_agree (suc (length raw)) (suc (length raw)) raw (omega arith) (omega arith))
  ]
