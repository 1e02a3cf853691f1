-- ===== src/Invariants/Moniker.antt =====
-- CheckMoniker of gentxvalidate/invariants.go, by the runes that a moniker decodes to.
use seedward_libs.Base.{
  ℕ, ◌^◌, ◌<◌, ◌≤◌, arith, true, false, [], ◌∷◌, ◌≡◌, refl, ◌⊎◌, inl, inr, Bool-cases, List, Bytes,
  All, is_empty, none, some, length, ltb,
}
use seedward_libs.Errors.{ok}
use seedward_libs.Gentx.{ParsedGentx, Params, max_moniker_len}
use seedward_libs.Report.{Decides, inv_moniker, moniker_control, moniker_not_utf8}
use seedward_libs.Report.Decisions.{Decides-fail, Decides-yes}
use seedward_libs.Utf8.{Decoded, rune, invalid, steps, all_valid, valid_string, is_control}
use seedward_libs.Invariants.Light.{is_empty-true, is_empty-false}
use seedward_libs.Invariants.{check_moniker, first_control}

-- A decoded rune that is no control character.
abbrev pub IsPrinted : Decoded → Type 0
IsPrinted (rune r n) = is_control r ≡ false
IsPrinted invalid = ⊥

-- A length within the int MaxMonikerLen, given by its 64-bit pattern: a positive one is the limit itself,
-- and 0 and the negative ones stand for 70.
abbrev pub IsWithin : ℕ → ℕ → Type 0
IsWithin len setting =
    (0 < setting → setting < 2 ^ 63 → len ≤ setting)
    × ((setting ≡ 0) ⊎ (2 ^ 63 ≤ setting) → len ≤ 70)

-- The bytes are within the limit that is set and decode, rune by rune, to no control character.
pub record IsMoniker (m : Bytes) (setting : ℕ) : Type 0 where
  pub present : ¬ (m ≡ [])
  pub bounded : IsWithin (length m) setting
  pub runes : All IsPrinted (steps 0 m)

-- maxMonikerLen is that limit.
max_moniker_len-IsWithin :
    (p : Params) (len : ℕ)
    → ((len ≤ max_moniker_len p) × IsWithin len p.max_moniker_len)
      ⊎ ((max_moniker_len p < len) × (¬ IsWithin len p.max_moniker_len))
unfolding max_moniker_len
max_moniker_len-IsWithin p len = ground arith

all_valid-All : (ds : List Decoded) → All IsPrinted ds → all_valid ds ≡ true
all_valid-All [] h = refl
all_valid-All (rune r n ∷ ds) (h, hs) = all_valid-All ds hs
all_valid-All (invalid ∷ ds) (h, hs) = absurd h

first_control_cases :
    (ds : List Decoded)
    → all_valid ds ≡ true
    → (All IsPrinted ds × (first_control ds ≡ none))
      ⊎ ((¬ All IsPrinted ds) × (r : ℕ) × (first_control ds ≡ some r))
unfolding first_control
first_control_cases [] v = inl (tt, refl)
first_control_cases (invalid ∷ ds) v = cc
first_control_cases (rune r n ∷ ds) v = elim (Bool-cases (is_control r)) [
  | inl t ↦ inr ((λ h. cc (h.0)), r, rw t refl)
  | inr f ↦ elim (first_control_cases ds v) [
    | inl (h, e) ↦ inl ((f, h), rw (f, e) refl)
    | inr (h, c, e) ↦ inr ((λ d. h d.1), c, rw (f, e) refl)
  ]
]

-- The moniker check passes exactly when the moniker is not empty, has at most MaxMonikerLen bytes, or at
-- most 70 if that is 0 or negative, and decodes to runes none of which is a control character.
pub check_moniker-Decides :
    (g : ParsedGentx) (p : Params)
    → Decides inv_moniker
        (IsMoniker g.msg.description.moniker p.max_moniker_len)
        (ok (check_moniker g p))
unfolding check_moniker valid_string
check_moniker-Decides g p =
    let inv = inv_moniker in
    let m = g.msg.description.moniker in
    elim (Bool-cases (is_empty m)) [
      | inl t ↦ rw t (Decides-fail inv _ (λ h. h.present (is_empty-true m t)))
      | inr f ↦ elim (max_moniker_len-IsWithin p (length m)) [
        | inr (above, n) ↦
            let l : ltb (max_moniker_len p) (length m) ≡ true = ground arith in
            rw (f, l) (Decides-fail inv _ (λ h. n h.bounded))
        | inl (below, within) ↦
            let l : ltb (max_moniker_len p) (length m) ≡ false = ground arith in
            elim (Bool-cases (all_valid (steps 0 m))) [
              | inr v ↦
                  rw (f, l, v)
                    (Decides-fail inv moniker_not_utf8
                      (λ h. cc (all_valid-All (steps 0 m) h.runes)))
              | inl v ↦ elim (first_control_cases (steps 0 m) v) [
                | inr (n, r, e) ↦
                    rw (f, l, v, e) (Decides-fail inv (moniker_control r) (λ h. n h.runes))
                | inl (a, e) ↦
                    rw (f, l, v, e)
                      (Decides-yes inv
                        (record { present = is_empty-false m f; bounded = within; runes = a }))
              ]
            ]
      ]
    ]
