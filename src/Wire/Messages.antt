-- ===== src/Wire/Messages.antt =====
-- A message as gentxvalidate writes it, one append after another, and its values by field number.
use seedward_libs.Base.{
  ℕ, zero, suc, ◌+◌, ◌^◌, ◌<◌, ◌≤◌, false, arith, List, [], ◌∷◌, ◌++◌, ◌≡◌, refl, sym, ap, ◌∙◌,
  append_assoc, append-nil, Bytes, length, length-append, is_empty, ◌==◌, if◌then◌else◌, All,
  All-append,
}
use seedward_libs.Wire.{
  append_tag, append_uvarint, append_varint_field, append_bytes_field, append_string_field,
}
use seedward_libs.Wire.Uvarint.{append_uvarint-encoding}
use seedward_libs.Wire.Fields.{
  Field, varint_field, bytes_field, IsField, encode_field, encode_fields,
  append_varint_field-encode_field, append_bytes_field-encode_field, append_string_field-bytes,
}

-- The bytes are those of the fields, if they are fewer than 2 ^ 64, as those of every slice are.
pub record Writes (b : Bytes) (fs : List Field) : Type 0 where
  pub bytes : b ≡ encode_fields fs
  pub fields : All IsField fs

abbrev pub WritesIf : Bytes → List Field → Type 0
WritesIf b fs = length b < 2 ^ 64 → Writes b fs

encode_fields-snoc :
    (fs : List Field) (f : Field)
    → encode_fields (fs ++ f ∷ []) ≡ encode_fields fs ++ encode_field f
unfolding encode_fields
encode_fields-snoc [] f = append-nil (encode_field f)
encode_fields-snoc (g ∷ fs) f =
    rw (encode_fields-snoc fs f)
      (sym (append_assoc (encode_field g) (encode_fields fs) (encode_field f)))

Writes-snoc :
    (b c : Bytes) (fs : List Field) (f : Field)
    → Writes b fs
    → IsField f
    → c ≡ b ++ encode_field f
    → Writes c (fs ++ f ∷ [])
Writes-snoc b c fs f w h e = record {
  bytes = e ∙ ap (λ (t : Bytes). t ++ encode_field f) w.bytes ∙ sym (encode_fields-snoc fs f);
  fields = All-append IsField fs (f ∷ []) w.fields (h, tt);
}

-- A writer never shortens the slice, and appends the whole payload.
length-append_uvarint : (b : Bytes) (v : ℕ) → length b ≤ length (append_uvarint b v)
length-append_uvarint b v = rw append_uvarint-encoding (omega (arith, length-append {0}))

length-append_bytes_field :
    (b : Bytes) (n : ℕ) (s : Bytes) → length b + length s ≤ length (append_bytes_field b n s)
unfolding append_bytes_field append_tag
length-append_bytes_field b n s = omega (arith, length-append {0}, length-append_uvarint)

length-append_varint_field : (b : Bytes) (n v : ℕ) → length b ≤ length (append_varint_field b n v)
unfolding append_varint_field append_tag
length-append_varint_field b n v = omega (arith, length-append_uvarint)

pub WritesIf-nil : WritesIf [] []
unfolding encode_fields
WritesIf-nil h = record { bytes = refl; fields = tt }

pub WritesIf-bytes :
    (b : Bytes) (fs : List Field) (n : ℕ) (s : Bytes)
    → n < 2 ^ 61
    → WritesIf b fs
    → WritesIf (append_bytes_field b n s) (fs ++ bytes_field n s ∷ [])
WritesIf-bytes b fs n s hn w h =
    let long = length-append_bytes_field b n s in
    let sized : IsField (bytes_field n s) = (hn, omega arith) in
    Writes-snoc b _ fs _ (w (omega arith)) sized (append_bytes_field-encode_field b n s sized)

pub WritesIf-varint :
    (b : Bytes) (fs : List Field) (n v : ℕ)
    → n < 2 ^ 61
    → v < 2 ^ 64
    → WritesIf b fs
    → WritesIf (append_varint_field b n v) (fs ++ varint_field n v ∷ [])
WritesIf-varint b fs n v hn hv w h =
    let long = length-append_varint_field b n v in
    Writes-snoc b _ fs _ (w (omega arith)) (hn, hv) (append_varint_field-encode_field b n v hn)

-- `if s != "" { b = appendStringField(b, n, s) }`
abbrev pub opt_bytes : ℕ → Bytes → List Field
opt_bytes n [] = []
opt_bytes n (c ∷ s) = bytes_field n (c ∷ s) ∷ []

-- `if v != 0 { b = appendVarintField(b, n, v) }`
abbrev pub opt_varint : ℕ → ℕ → List Field
opt_varint n zero = []
opt_varint n (suc v) = varint_field n (suc v) ∷ []

Writes-append_nil : (b : Bytes) (fs : List Field) → WritesIf b fs → WritesIf b (fs ++ [])
Writes-append_nil b fs w = rw (append-nil fs) w

pub WritesIf-opt_bytes :
    (b : Bytes) (fs : List Field) (n : ℕ) (s : Bytes)
    → n < 2 ^ 61
    → WritesIf b fs
    → WritesIf (if is_empty s then b else append_bytes_field b n s) (fs ++ opt_bytes n s)
WritesIf-opt_bytes b fs n [] hn w = Writes-append_nil b fs w
WritesIf-opt_bytes b fs n (c ∷ s) hn w = WritesIf-bytes b fs n (c ∷ s) hn w

pub WritesIf-opt_string :
    (b : Bytes) (fs : List Field) (n : ℕ) (s : Bytes)
    → n < 2 ^ 61
    → WritesIf b fs
    → WritesIf (if is_empty s then b else append_string_field b n s) (fs ++ opt_bytes n s)
WritesIf-opt_string b fs n s hn w = rw append_string_field-bytes (WritesIf-opt_bytes b fs n s hn w)

pub WritesIf-opt_varint :
    (b : Bytes) (fs : List Field) (n v : ℕ)
    → n < 2 ^ 61
    → v < 2 ^ 64
    → WritesIf b fs
    → WritesIf (if v == 0 then b else append_varint_field b n v) (fs ++ opt_varint n v)
WritesIf-opt_varint b fs n zero hn hv w = Writes-append_nil b fs w
WritesIf-opt_varint b fs n (suc v) hn hv w =
    let more : (suc v == 0) ≡ false = ground arith in
    rw more (WritesIf-varint b fs n (suc v) hn hv w)

-- The last value written under a number, over the value so far.
abbrev pub get_bytes : ℕ → Bytes → List Field → Bytes
get_bytes n d [] = d
get_bytes n d (varint_field m v ∷ fs) = get_bytes n d fs
get_bytes n d (bytes_field m s ∷ fs) = get_bytes n (if n == m then s else d) fs

abbrev pub get_varint : ℕ → ℕ → List Field → ℕ
get_varint n d [] = d
get_varint n d (varint_field m v ∷ fs) = get_varint n (if n == m then v else d) fs
get_varint n d (bytes_field m s ∷ fs) = get_varint n d fs

-- Every payload written under a number, in order.
abbrev pub get_all_bytes : ℕ → List Field → List Bytes
get_all_bytes n [] = []
get_all_bytes n (varint_field m v ∷ fs) = get_all_bytes n fs
get_all_bytes n (bytes_field m s ∷ fs) =
    let rest = get_all_bytes n fs in if n == m then s ∷ rest else rest

pub get_bytes-append :
    (n : ℕ) (d : Bytes) (fs gs : List Field)
    → get_bytes n d (fs ++ gs) ≡ get_bytes n (get_bytes n d fs) gs
get_bytes-append n d [] gs = refl
get_bytes-append n d (varint_field m v ∷ fs) gs = get_bytes-append n d fs gs
get_bytes-append n d (bytes_field m s ∷ fs) gs = get_bytes-append n (if n == m then s else d) fs gs

pub get_varint-append :
    (n d : ℕ) (fs gs : List Field) → get_varint n d (fs ++ gs) ≡ get_varint n (get_varint n d fs) gs
get_varint-append n d [] gs = refl
get_varint-append n d (varint_field m v ∷ fs) gs =
    get_varint-append n (if n == m then v else d) fs gs
get_varint-append n d (bytes_field m s ∷ fs) gs = get_varint-append n d fs gs

pub get_all_bytes-append :
    (n : ℕ) (fs gs : List Field)
    → get_all_bytes n (fs ++ gs) ≡ get_all_bytes n fs ++ get_all_bytes n gs
get_all_bytes-append n [] gs = refl
get_all_bytes-append n (varint_field m v ∷ fs) gs = get_all_bytes-append n fs gs
get_all_bytes-append n (bytes_field m s ∷ fs) gs = ground (arith, get_all_bytes-append n fs gs)

abbrev pub pick : Bytes → Bytes → Bytes
pick [] d = d
pick (c ∷ s) d = c ∷ s

pub pick-nil : (s : Bytes) → pick s [] ≡ s
pick-nil [] = refl
pick-nil (c ∷ s) = refl

pub get_bytes-opt_bytes :
    (n m : ℕ) (d s : Bytes) → get_bytes n d (opt_bytes m s) ≡ (if n == m then pick s d else d)
get_bytes-opt_bytes n m d [] = ground arith
get_bytes-opt_bytes n m d (c ∷ s) = refl

pub get_bytes-opt_varint : (n m v : ℕ) (d : Bytes) → get_bytes n d (opt_varint m v) ≡ d
get_bytes-opt_varint n m zero d = refl
get_bytes-opt_varint n m (suc v) d = refl

pub get_varint-opt_bytes : (n m d : ℕ) (s : Bytes) → get_varint n d (opt_bytes m s) ≡ d
get_varint-opt_bytes n m d [] = refl
get_varint-opt_bytes n m d (c ∷ s) = refl

pub get_varint-opt_varint :
    (n m v : ℕ) → get_varint n 0 (opt_varint m v) ≡ (if n == m then v else 0)
get_varint-opt_varint n m zero = ground arith
get_varint-opt_varint n m (suc v) = refl

pub get_all_bytes-opt_bytes :
    (n m : ℕ) (s : Bytes) → (n == m) ≡ false → get_all_bytes n (opt_bytes m s) ≡ []
get_all_bytes-opt_bytes n m [] h = refl
get_all_bytes-opt_bytes n m (c ∷ s) h = rw h

pub get_all_bytes-opt_varint : (n m v : ℕ) → get_all_bytes n (opt_varint m v) ≡ []
get_all_bytes-opt_varint n m zero = refl
get_all_bytes-opt_varint n m (suc v) = refl

pub get_bytes_sized :
    (n : ℕ) (d : Bytes) (fs : List Field)
    → All IsField fs
    → length d < 2 ^ 64
    → length (get_bytes n d fs) < 2 ^ 64
get_bytes_sized n d [] h hd = hd
get_bytes_sized n d (varint_field m v ∷ fs) h hd = get_bytes_sized n d fs h.1 hd
get_bytes_sized n d (bytes_field m s ∷ fs) h hd =
    get_bytes_sized n (if n == m then s else d) fs h.1 (ground (arith, h.0.1))

pub get_all_bytes_sized :
    (n : ℕ) (fs : List Field) → All IsField fs → All (λ s. length s < 2 ^ 64) (get_all_bytes n fs)
get_all_bytes_sized n [] h = tt
get_all_bytes_sized n (varint_field m v ∷ fs) h = get_all_bytes_sized n fs h.1
get_all_bytes_sized n (bytes_field m s ∷ fs) h = ground (arith, get_all_bytes_sized n fs h.1)

-- Reads any value off a message in the form that the writers leave.
pub ruleset reading = (
  get_bytes-append, get_varint-append, pick-nil, get_bytes-opt_bytes, get_bytes-opt_varint,
  get_varint-opt_bytes, get_varint-opt_varint,
)
