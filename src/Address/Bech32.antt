-- ===== src/Address/Bech32.antt =====
-- decodeBech32Address of gentxvalidate/address.go, by what the bech32 library answers.
use seedward_libs.Base.{
  ◌==◌, ◌≡◌, refl, inl, inr, Bool-cases, Bytes, length, ◌↔◌, false, bytes_eq, bytes_eq_refl,
  bytes_eq_iff, ap, sym, ◌∙◌, ==_iff,
}
use seedward_libs.Errors.{Outcome, ok, reply, Reply-cases}
use seedward_libs.External.{External}
use seedward_libs.Address.{decode_bech32_address}

ok-inj : {a b : Bytes} → Path (Outcome Bytes) (ok a) (ok b) → a ≡ b
ok-inj e = cc

module _ (x : External) where
  -- The text is bech32 under exactly the prefix, and its data part is the account's 20 bytes.
  abbrev pub IsAddress : Bytes → Bytes → Bytes → Type 0
  IsAddress text prefix account =
      (data5 : Bytes) × (x.bech32_decode text 1023 ≡ reply (prefix, data5))
      × (x.convert_bits data5 5 8 false ≡ reply account)
      × (length account ≡ 20)

  decode_bech32_address-IsAddress :
      (text prefix account : Bytes)
      → decode_bech32_address x text prefix ≡ ok account
      → IsAddress text prefix account
  unfolding decode_bech32_address
  decode_bech32_address-IsAddress text prefix account =
      elim (Reply-cases (x.bech32_decode text 1023)) [
        | inr (er, e) ↦ rw e (λ h. cc)
        | inl (d, e) ↦ elim (Bool-cases (bytes_eq d.0 prefix)) [
          | inr n ↦ rw (e, n) (λ h. cc)
          | inl t ↦ elim (Reply-cases (x.convert_bits d.1 5 8 false)) [
            | inr (er, e') ↦ rw (e, t, e') (λ h. cc)
            | inl (b, e') ↦ elim (Bool-cases (length b == 20)) [
              | inr n ↦ rw (e, t, e', n) (λ h. cc)
              | inl k ↦
                  let same : d.0 ≡ prefix = (bytes_eq_iff d.0 prefix).0 t in
                  rw (e, t, e', k)
                    (λ h.
                      let size : length b ≡ 20 = (==_iff (length b) 20).0 k in
                      let given : b ≡ account = ok-inj h in
                      (
                        d.1,
                        ap (λ q. reply (q, d.1)) same,
                        e' ∙ ap reply given,
                        ap length (sym given) ∙ size,
                      ))
            ]
          ]
        ]
      ]

  IsAddress-decode_bech32_address :
      (text prefix account : Bytes)
      → IsAddress text prefix account
      → decode_bech32_address x text prefix ≡ ok account
  unfolding decode_bech32_address
  IsAddress-decode_bech32_address text prefix account (d, e, e', k) =
      rw (e, bytes_eq_refl prefix, e', k) refl

  -- The decoder answers exactly with the account of an address under the prefix.
  pub decode_bech32_address_iff :
      (text prefix account : Bytes)
      → (decode_bech32_address x text prefix ≡ ok account) ↔ IsAddress text prefix account
  decode_bech32_address_iff text prefix account = (
    decode_bech32_address-IsAddress text prefix account,
    IsAddress-decode_bech32_address text prefix account,
  )
