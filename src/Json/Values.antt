-- ===== src/Json/Values.antt =====
-- What json.Marshal has written tells the values apart, if all their strings are valid UTF-8.
use seedward_libs.Base.{ℕ, arith, ◌==◌, Bool, true, false, [], ◌∷◌, ◌≡◌, refl, sym, ap, Bytes}
use seedward_libs.Json.{
  Json, str, arr, obj, Items, no_items, item, Fields, no_fields, field, comma, quote, print,
  print_items, print_fields, marshal,
}
use seedward_libs.Json.Strings.{quote-injective}
use seedward_libs.Utf8.{valid_string}

abbrev mutual
  pub IsText : Json → Type 0
  IsText (str s) = valid_string s ≡ true
  IsText (arr xs) = AreTexts xs
  IsText (obj fs) = HasTexts fs

  pub AreTexts : Items → Type 0
  AreTexts no_items = Unit
  AreTexts (item v xs) = IsText v × AreTexts xs

  pub HasTexts : Fields → Type 0
  HasTexts no_fields = Unit
  HasTexts (field k v fs) = (valid_string k ≡ true) × IsText v × HasTexts fs

-- Equal bytes start alike.
tail-injective : {b c : ℕ} {s t : Bytes} → b ∷ s ≡ c ∷ t → s ≡ t
tail-injective e = cc

head-injective : {b c : ℕ} {s t : Bytes} → b ∷ s ≡ c ∷ t → b ≡ c
head-injective e = cc

heads-ne : (b c : ℕ) {s t : Bytes} → (b == c) ≡ false → ¬ (b ∷ s ≡ c ∷ t)
heads-ne b c h e = ground (arith, head-injective e)

comma-injective : (first : Bool) (s t : Bytes) → comma first s ≡ comma first t → s ≡ t
comma-injective true s t e = e
comma-injective false s t e = tail-injective e

-- What starts as a value or a key is no closing bracket.
item-ne-end : (first : Bool) (v : Json) (s t : Bytes) → ¬ (comma first (print v s) ≡ b']' ∷ t)
unfolding print quote
item-ne-end false v s t e = heads-ne b',' b']' refl e
item-ne-end true (str a) s t e = heads-ne 0x22 b']' refl e
item-ne-end true (arr xs) s t e = heads-ne b'[' b']' refl e
item-ne-end true (obj fs) s t e = heads-ne b'{' b']' refl e

key-ne-end : (first : Bool) (k s t : Bytes) → ¬ (comma first (quote k s) ≡ b'}' ∷ t)
unfolding quote
key-ne-end false k s t e = heads-ne b',' b'}' refl e
key-ne-end true k s t e = heads-ne 0x22 b'}' refl e

mutual
  unfolding print quote

  print-injective :
      (v w : Json) (s t : Bytes) → IsText v → IsText w → print v s ≡ print w t → (v ≡ w) × (s ≡ t)
  print-injective (str a) (str b) s t h k e =
      let (same, rest) = quote-injective a b s t h k e in (ap str same, rest)
  print-injective (arr xs) (arr ys) s t h k e =
      let (same, rest) = print_items-injective true xs ys s t h k (tail-injective e) in
      (ap arr same, rest)
  print-injective (obj fs) (obj gs) s t h k e =
      let (same, rest) = print_fields-injective true fs gs s t h k (tail-injective e) in
      (ap obj same, rest)
  print-injective (str a) (arr ys) s t h k e = absurd (heads-ne 0x22 b'[' refl e)
  print-injective (str a) (obj gs) s t h k e = absurd (heads-ne 0x22 b'{' refl e)
  print-injective (arr xs) (str b) s t h k e = absurd (heads-ne b'[' 0x22 refl e)
  print-injective (arr xs) (obj gs) s t h k e = absurd (heads-ne b'[' b'{' refl e)
  print-injective (obj fs) (str b) s t h k e = absurd (heads-ne b'{' 0x22 refl e)
  print-injective (obj fs) (arr ys) s t h k e = absurd (heads-ne b'{' b'[' refl e)

  print_items-injective :
      (first : Bool) (xs ys : Items) (s t : Bytes)
      → AreTexts xs
      → AreTexts ys
      → print_items first xs s ≡ print_items first ys t
      → (xs ≡ ys) × (s ≡ t)
  print_items-injective first no_items no_items s t h k e = (refl, tail-injective e)
  print_items-injective first no_items (item v ys) s t h k e =
      absurd (item-ne-end first v _ s (sym e))
  print_items-injective first (item v xs) no_items s t h k e = absurd (item-ne-end first v _ t e)
  print_items-injective first (item v xs) (item w ys) s t (hv, h) (kw, k) e =
      let (same, e') = print-injective v w _ _ hv kw (comma-injective first _ _ e) in
      let (sames, rest) = print_items-injective false xs ys s t h k e' in (cc, rest)

  print_fields-injective :
      (first : Bool) (fs gs : Fields) (s t : Bytes)
      → HasTexts fs
      → HasTexts gs
      → print_fields first fs s ≡ print_fields first gs t
      → (fs ≡ gs) × (s ≡ t)
  print_fields-injective first no_fields no_fields s t h k e = (refl, tail-injective e)
  print_fields-injective first no_fields (field j v gs) s t h k e =
      absurd (key-ne-end first j _ s (sym e))
  print_fields-injective first (field j v fs) no_fields s t h k e =
      absurd (key-ne-end first j _ t e)
  print_fields-injective first (field j v fs) (field i w gs) s t (hj, hv, h) (ki, kw, k) e =
      let (keys, e1) = quote-injective j i _ _ hj ki (comma-injective first _ _ e) in
      let (same, e2) = print-injective v w _ _ hv kw (tail-injective e1) in
      let (sames, rest) = print_fields-injective false fs gs s t h k e2 in (cc, rest)

-- Two values whose strings are all valid UTF-8 and that marshal to the same bytes are equal.
pub marshal-injective : (v w : Json) → IsText v → IsText w → marshal v ≡ marshal w → v ≡ w
unfolding marshal
marshal-injective v w h k e = (print-injective v w [] [] h k e).0
