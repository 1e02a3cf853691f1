-- ===== src/Invariants/Signer.antt =====
-- The checks of gentxvalidate/invariants.go on the signer: the signature and the derived addresses.
use seedward_libs.Base.{
  arith, true, false, [], ◌≡◌, refl, ◌⊎◌, inl, inr, Bool-cases, Bytes, is_empty, length, take, drop,
  ltb, ◌==◌, ==_iff, bytes_eq, bytes_eq_iff, bytes_eq-false,
}
use seedward_libs.Errors.{
  Error, ok, err, reply, Reply-cases, parse_account_pubkey, account_key_type, account_key_size,
  signature_size,
}
use seedward_libs.External.{External}
use seedward_libs.Gentx.{ParsedGentx, Params, secp256k1_pub_key_type_url}
use seedward_libs.Report.{Decides, error_text, inv_signature_direct}
use seedward_libs.Report.Decisions.{Decides-fail, Decides-yes}
use seedward_libs.SignDoc.Success.{IsSignable, doc_bytes, direct_sign_bytes_cases}
use seedward_libs.Verify.{check_single_secp_signer, verify_secp_compact, verify_direct}
use seedward_libs.Invariants.Light.{is_empty-true, is_empty-false}
use seedward_libs.Invariants.{check_signature_direct}

-- A single secp256k1 signer with a key and a signature of the right sizes.
pub record IsSingleSecp (g : ParsedGentx) : Type 0 where
  pub key_type : g.signer.pub_key_type_url ≡ secp256k1_pub_key_type_url
  pub key_size : length g.signer.pub_key ≡ 33
  pub sig_size : length g.signature ≡ 64

pub check_single_secp_signer_cases :
    (g : ParsedGentx)
    → (IsSingleSecp g × (check_single_secp_signer g ≡ ok tt))
      ⊎ ((¬ IsSingleSecp g) × (e : Error) × (check_single_secp_signer g ≡ err e))
unfolding check_single_secp_signer
check_single_secp_signer_cases g =
    let s = g.signer in
    elim (Bool-cases (bytes_eq s.pub_key_type_url secp256k1_pub_key_type_url)) [
      | inr n ↦
          inr ((λ h. bytes_eq-false n h.key_type), account_key_type s.pub_key_type_url, rw n refl)
      | inl t ↦ elim (Bool-cases (length s.pub_key == 33)) [
        | inr n ↦
            inr (
              (λ h. ground (arith, h.key_size)),
              account_key_size (length s.pub_key),
              rw (t, n) refl,
            )
        | inl k ↦ elim (Bool-cases (length g.signature == 64)) [
          | inr n ↦ inr (
            (λ h. ground (arith, h.sig_size)),
            signature_size (length g.signature),
            rw (t, k, n) refl,
          )
          | inl z ↦ inl (
            record {
              key_type = (bytes_eq_iff _ _).0 t;
              key_size = (==_iff _ _).0 k;
              sig_size = (==_iff _ _).0 z;
            },
            rw (t, k, z) refl,
          )
        ]
      ]
    ]

module _ (x : External) where
  -- The compact signature is one of the message's digest under the key that the bytes encode.
  pub record IsCompactSignature (pub_key sig msg : Bytes) : Type 0 where
    pub key : x.PubKey
    pub parsed : x.parse_pub_key pub_key ≡ reply key
    pub r_fits : (x.set_byte_slice (take 32 sig)).1 ≡ false
    pub s_fits : (x.set_byte_slice (drop 32 sig)).1 ≡ false
    pub verified :
        x.verify key
          (x.set_byte_slice (take 32 sig)).0
          (x.set_byte_slice (drop 32 sig)).0
          (x.sha256 msg)
        ≡ true

  -- The answers of verifySecpCompact on 64 bytes of signature.
  pub verify_secp_compact_cases :
      (pub_key sig msg : Bytes)
      → length sig ≡ 64
      → (IsCompactSignature pub_key sig msg × (verify_secp_compact x pub_key sig msg ≡ ok true))
        ⊎ ((¬ IsCompactSignature pub_key sig msg)
            × ((verify_secp_compact x pub_key sig msg ≡ ok false)
                ⊎ ((e : Error) × (verify_secp_compact x pub_key sig msg ≡ err e))))
  unfolding verify_secp_compact
  verify_secp_compact_cases pub_key sig msg l =
      let long : ltb (length sig) 32 ≡ false = ground (arith, l) in
      let r = x.set_byte_slice (take 32 sig) in
      let s = x.set_byte_slice (drop 32 sig) in
      elim (Reply-cases (x.parse_pub_key pub_key)) [
        | inr (e, p) ↦ inr ((λ h. cc (h.parsed)), inr (parse_account_pubkey e, rw p refl))
        | inl (k, p) ↦ elim (Bool-cases r.1) [
          | inl o ↦ inr ((λ h. cc (h.r_fits)), inl (rw (p, long, o) refl))
          | inr o ↦ elim (Bool-cases s.1) [
            | inl o' ↦ inr ((λ h. cc (h.s_fits)), inl (rw (p, long, o, o') refl))
            | inr o' ↦ elim (Bool-cases (x.verify k r.0 s.0 (x.sha256 msg))) [
              | inl v ↦ inl (
                record { key = k; parsed = p; r_fits = o; s_fits = o'; verified = v },
                rw (p, long, o, o', v) refl,
              )
              | inr v ↦ inr ((λ h. cc (h.parsed, h.verified)), inl (rw (p, long, o, o', v) refl))
            ]
          ]
        ]
      ]

  -- What the signature of a gentx has to be for a launch.
  pub record IsSignedFor (g : ParsedGentx) (chain_id : Bytes) : Type 0 where
    pub chain_set : ¬ (chain_id ≡ [])
    pub single : IsSingleSecp g
    pub signable : IsSignable g
    pub signed : IsCompactSignature g.signer.pub_key g.signature (doc_bytes g chain_id 0)

  verify_direct_cases :
      (g : ParsedGentx) (chain_id : Bytes)
      → let Valid =
          IsSingleSecp g
          × IsSignable g
          × IsCompactSignature g.signer.pub_key g.signature (doc_bytes g chain_id 0) in
        (Valid × (verify_direct x g chain_id 0 ≡ ok true))
        ⊎ ((¬ Valid)
            × ((verify_direct x g chain_id 0 ≡ ok false)
                ⊎ ((e : Error) × (verify_direct x g chain_id 0 ≡ err e))))
  unfolding verify_direct
  verify_direct_cases g chain_id = elim (check_single_secp_signer_cases g) [
    | inr (n, e, p) ↦ inr ((λ h. n h.0), inr (e, rw p refl))
    | inl (single, p) ↦ elim (direct_sign_bytes_cases g chain_id 0) [
      | inr (n, e, q) ↦ inr ((λ h. n h.1), inr (e, rw (p, q) refl))
      | inl (signable, q) ↦
          elim (verify_secp_compact_cases g.signer.pub_key g.signature (doc_bytes g chain_id 0)
            single.sig_size) [
              | inl (c, v) ↦ inl ((single, signable, c), rw (p, q) v)
              | inr (n, inl v) ↦ inr ((λ h. n h.2), inl (rw (p, q) v))
              | inr (n, inr (e, v)) ↦ inr ((λ h. n h.2), inr (e, rw (p, q) v))
            ]
    ]
  ]

  -- The signature check never panics, and passes exactly when the launch has a chain-id, the gentx
  -- has a single secp256k1 signer, DIRECT sign bytes exist and the signature is one of those bytes
  -- for the launch's chain-id and account number 0.
  pub check_signature_direct-Decides :
      (g : ParsedGentx) (p : Params)
      → Decides inv_signature_direct (IsSignedFor g p.chain_id) (check_signature_direct x g p)
  unfolding check_signature_direct
  check_signature_direct-Decides g p =
      let inv = inv_signature_direct in
      let chain = p.chain_id in
      elim (Bool-cases (is_empty chain)) [
        | inl t ↦ rw t (Decides-fail inv _ (λ h. h.chain_set (is_empty-true chain t)))
        | inr f ↦ elim (verify_direct_cases g chain) [
          | inl ((single, signable, c), v) ↦
              rw (f, v)
                (Decides-yes inv (record {
                  chain_set = is_empty-false chain f;
                  single = single;
                  signable = signable;
                  signed = c;
                }))
          | inr (n, inl v) ↦
              rw (f, v) (Decides-fail inv _ (λ h. n (h.single, h.signable, h.signed)))
          | inr (n, inr (e, v)) ↦
              rw (f, v) (Decides-fail inv (error_text e) (λ h. n (h.single, h.signable, h.signed)))
        ]
      ]
