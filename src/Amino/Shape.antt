-- ===== src/Amino/Shape.antt =====
-- Reading the fields of a marshalled struct back, those with omitempty as empty if they are missing.
use seedward_libs.Base.{
  not, ◌&&◌, List, [], ◌∷◌, ◌≡◌, refl, inl, inr, Bool-cases, Bytes, is_empty, bytes_eq,
  if◌then◌else◌,
}
use seedward_libs.Amino.{optional_field}
use seedward_libs.Json.{Json, str, arr, obj, Fields, no_fields, field}

-- The value of the first field with a key, the empty string if there is none.
abbrev pub get : Bytes → Fields → Json
get k no_fields = str []
get k (field j v fs) = let rest = get k fs in if bytes_eq j k then v else rest

abbrev pub entry : Bytes → Json → Json
entry k (str s) = str []
entry k (arr xs) = str []
entry k (obj fs) = get k fs

abbrev pub text : Json → Bytes
text (str s) = s
text (arr xs) = []
text (obj fs) = []

-- What a struct's field is made of.
pub data Slot : Type 0 where
  must : Json → Slot
  omit_empty : Bytes → Slot

abbrev pub slots : List (Bytes × Slot) → Fields
slots [] = no_fields
slots ((k, must v) ∷ rest) = field k v (slots rest)
slots ((k, omit_empty s) ∷ rest) = optional_field k s (slots rest)

abbrev pub slot : Bytes → List (Bytes × Slot) → Json
slot k [] = str []
slot k ((j, must v) ∷ rest) = let later = slot k rest in if bytes_eq j k then v else later
slot k ((j, omit_empty s) ∷ rest) =
    let later = slot k rest in if bytes_eq j k && not (is_empty s) then str s else later

pub get-slots : (k : Bytes) (ps : List (Bytes × Slot)) → get k (slots ps) ≡ slot k ps
unfolding optional_field
get-slots k [] = refl
get-slots k ((j, must v) ∷ rest) = rw (get-slots k rest) refl
get-slots k ((j, omit_empty []) ∷ rest) = elim (Bool-cases (bytes_eq j k)) [
  | inl t ↦ rw t (get-slots k rest)
  | inr f ↦ rw f (get-slots k rest)
]
get-slots k ((j, omit_empty (b ∷ s)) ∷ rest) = elim (Bool-cases (bytes_eq j k)) [
  | inl t ↦ rw t refl
  | inr f ↦ rw f (get-slots k rest)
]

-- An omitted string is read as the empty one.
pub omitted : (s : Bytes) → (if not (is_empty s) then str s else str []) ≡ str s
omitted [] = refl
omitted (b ∷ s) = refl
