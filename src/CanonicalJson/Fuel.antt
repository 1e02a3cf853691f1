-- ===== src/CanonicalJson/Fuel.antt =====
-- The fuel of canonicaliseRaw: what is read out of a text is shorter than the text.
use seedward_libs.Base.{
  ℕ, zero, suc, ◌+◌, ◌-◌, ◌<◌, ◌≤◌, ◌==◌, arith, Bool, true, false, List, [], ◌∷◌, ◌≡◌, ◌≢◌, refl,
  inl, inr, Bool-cases, Option, none, some, Bytes, All, length, map, reverse, reverse_aux,
}
use seedward_libs.Errors.{Reply, reply, refusal, Reply-cases}
use seedward_libs.CanonicalJson.{
  Codec, Failure, json_failed, out_of_fuel, Answer, answer, failure, checked, ◌>>=◌, spaces,
  leading_space, trim_front, trim_space, keys_of, lookup, or_nil, sort_keys, write_fields,
  serialise_object, write_items, serialise_array, canonicalise_trimmed, canonicalise_raw,
  canonical_json,
}
use seedward_libs.CanonicalJson.Keys.{AreDistinct}

length-reverse_aux : (s t : Bytes) → length (reverse_aux s t) ≡ length s + length t
length-reverse_aux [] t = omega arith
length-reverse_aux (b ∷ s) t = omega (arith, length-reverse_aux s (b ∷ t))

length-reverse : (s : Bytes) → length (reverse s) ≡ length s
length-reverse s = omega (arith, length-reverse_aux s [])

length-trim_front :
    (ps : List Bytes) (skip : ℕ) (s : Bytes) → length (trim_front ps skip s) ≤ length s
unfolding trim_front
length-trim_front ps skip [] = omega arith
length-trim_front ps (suc skip) (b ∷ s) = omega (arith, length-trim_front ps skip s)
length-trim_front ps zero (b ∷ s) = elim (Bool-cases (leading_space ps (b ∷ s) == 0)) [
  | inl t ↦ rw t (omega arith)
  | inr f ↦ rw f (omega (arith, length-trim_front ps (leading_space ps (b ∷ s) - 1) s))
]

pub length-trim_space : (s : Bytes) → length (trim_space s) ≤ length s
unfolding trim_space
length-trim_space s =
    let front = trim_front spaces 0 s in
    omega (
      arith,
      length-trim_front spaces 0 s,
      length-reverse front,
      length-trim_front (map reverse spaces) 0 (reverse front),
      length-reverse (trim_front (map reverse spaces) 0 (reverse front)),
    )

-- What encoding/json does: a map has each key once, and the raw values of a map and of a slice are parts
-- of the text between its brackets.
pub record Reads {Value Scalar : Type 0} (c : Codec Value Scalar) : Type 0 where
  pub distinct :
      (raw : Bytes) (m : List (Bytes × Bytes))
      → c.unmarshal_object raw ≡ reply m
      → AreDistinct (keys_of m)
  pub object_shrinks :
      (raw : Bytes) (m : List (Bytes × Bytes)) (k v : Bytes)
      → c.unmarshal_object raw ≡ reply m
      → lookup m k ≡ some v
      → length v < length raw
  pub array_shrinks :
      (raw : Bytes) (es : List Bytes)
      → c.unmarshal_array raw ≡ reply es
      → All (λ e. length e < length raw) es

pub entry-shrinks :
    {Value Scalar : Type 0} (c : Codec Value Scalar) (h : Reads c) (raw : Bytes)
    (m : List (Bytes × Bytes)) (k : Bytes)
    → 0 < length raw
    → c.unmarshal_object raw ≡ reply m
    → length (or_nil (lookup m k)) < length raw
entry-shrinks c h raw m k pos e = by_entry (lookup m k) refl
  where
    by_entry : (o : Option Bytes) → lookup m k ≡ o → length (or_nil o) < length raw
    by_entry none u = pos
    by_entry (some v) u = h.object_shrinks raw m k v e u

-- The model's own failure does not arise.
abbrev IsFinished : {A : Type 0} → Answer A → Type 0
IsFinished (answer a) = Unit
IsFinished (failure f) = f ≢ out_of_fuel

IsFinished-bind :
    {A B : Type 0} (m : Answer A) (next : A → Answer B)
    → IsFinished m
    → ((a : A) → m ≡ answer a → IsFinished (next a))
    → IsFinished (m >>= next)
IsFinished-bind (answer a) next h k = k a refl
IsFinished-bind (failure f) next h k = h

json-IsFinished : {A : Type 0} (r : Reply A) → IsFinished (checked json_failed r)
json-IsFinished (reply a) = tt
json-IsFinished (refusal e) = λ h. cc

checked-eq :
    {A : Type 0} (f : Bytes → Failure) (r : Reply A) {a : A} → checked f r ≡ answer a → r ≡ reply a
checked-eq f (reply a) e = cc
checked-eq f (refusal t) e = cc

module _ (deeper : Bytes → Answer Bytes) where
  write_fields-IsFinished :
      (m : List (Bytes × Bytes))
      → ((k : Bytes) → IsFinished (deeper (or_nil (lookup m k))))
      → (first : Bool) (ks : List Bytes) → IsFinished (write_fields deeper m first ks)
  unfolding write_fields
  write_fields-IsFinished m h first [] = tt
  write_fields-IsFinished m h first (k ∷ ks) =
      IsFinished-bind (deeper (or_nil (lookup m k))) _ (h k) λ v e.
        IsFinished-bind (write_fields deeper m false ks) _ (write_fields-IsFinished m h false ks)
          λ rest e'. tt

  object-IsFinished :
      (m : List (Bytes × Bytes))
      → ((k : Bytes) → IsFinished (deeper (or_nil (lookup m k))))
      → IsFinished (serialise_object deeper m)
  unfolding serialise_object
  object-IsFinished m h =
      IsFinished-bind (write_fields deeper m true (sort_keys (keys_of m))) _
        (write_fields-IsFinished m h true (sort_keys (keys_of m))) λ fields e. tt

  items-IsFinished :
      (first : Bool) (es : List Bytes)
      → All (λ e. IsFinished (deeper e)) es
      → IsFinished (write_items deeper first es)
  unfolding write_items
  items-IsFinished first [] h = tt
  items-IsFinished first (e ∷ es) (he, h) = IsFinished-bind (deeper e) _ he λ v u.
      IsFinished-bind (write_items deeper false es) _ (items-IsFinished false es h) λ rest u'. tt

pub All-map :
    {P Q : Bytes → Type 0} → ((b : Bytes) → P b → Q b) → (bs : List Bytes) → All P bs → All Q bs
All-map f [] h = tt
All-map f (b ∷ bs) (hb, h) = (f b hb, All-map f bs h)

module _ {Value Scalar : Type 0} (c : Codec Value Scalar) (h : Reads c) where
  trimmed-IsFinished :
      (deeper : Bytes → Answer Bytes) (t : Bytes)
      → ((s : Bytes) → length s < length t → IsFinished (deeper s))
      → IsFinished (canonicalise_trimmed c deeper t)
  unfolding canonicalise_trimmed serialise_array
  trimmed-IsFinished deeper [] shorter = λ e. cc
  trimmed-IsFinished deeper (b ∷ s) shorter = elim (Bool-cases (b == b'{')) [
    | inl brace ↦ rw brace (
        IsFinished-bind _ _ (json-IsFinished (c.unmarshal_object (b ∷ s))) λ m e.
          object-IsFinished deeper m λ k.
            shorter _ (entry-shrinks c h (b ∷ s) m k (omega arith) (checked-eq json_failed _ e)))
    | inr other ↦ elim (Bool-cases (b == b'[')) [
      | inl bracket ↦
          rw (other, bracket)
            (IsFinished-bind _ _ (json-IsFinished (c.unmarshal_array (b ∷ s))) λ es e.
              IsFinished-bind _ _
                (items-IsFinished deeper true es
                  (All-map shorter es (h.array_shrinks (b ∷ s) es (checked-eq json_failed _ e))))
                λ written u. tt)
      | inr scalar ↦
          rw (other, scalar)
            (IsFinished-bind _ _ (json-IsFinished (c.unmarshal_scalar (b ∷ s)))
              λ v e. json-IsFinished (c.marshal_scalar v))
    ]
  ]

  raw-IsFinished :
      (fuel : ℕ) (raw : Bytes) → length raw < fuel → IsFinished (canonicalise_raw c fuel raw)
  unfolding canonicalise_raw
  raw-IsFinished zero raw l = absurd (omega arith)
  raw-IsFinished (suc fuel) raw l =
      trimmed-IsFinished (canonicalise_raw c fuel) (trim_space raw)
        λ s shorter. raw-IsFinished fuel s (omega (arith, length-trim_space raw))

  -- If the raw values of a map and of a slice are shorter than the text that they are read from, the
  -- recursion of Marshal, on whatever value, ends within the fuel of the model.
  pub canonical_json-finishes : (v : Value) → canonical_json c v ≢ failure out_of_fuel
  unfolding canonical_json
  canonical_json-finishes v = elim (Reply-cases (c.marshal_value v)) [
    | inr (e, p) ↦ rw p (λ u. cc)
    | inl (raw, p) ↦ rw p (finished _ (raw-IsFinished (suc (length raw)) raw (omega arith)))
  ]
    where
      finished : (a : Answer Bytes) → IsFinished a → a ≢ failure out_of_fuel
      finished (answer b) done = λ u. cc
      finished (failure f) done = λ u. done (reason f u)
        where
          reason :
              (f : Failure)
              → Path (Answer Bytes) (failure f) (failure out_of_fuel)
              → f ≡ out_of_fuel
          reason f u = cc
