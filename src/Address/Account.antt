-- ===== src/Address/Account.antt =====
-- signerAddressBytes of gentxvalidate/address.go and multisigAddressBytes of multisig.go, by the bytes
-- that are hashed.
use seedward_libs.Base.{
  ℕ, ◌+◌, ◌%◌, ◌^◌, ◌==◌, ◌≡◌, refl, ◌⊎◌, inl, inr, Bool-cases, Bytes, length, ◌↔◌, bytes_eq,
  bytes_eq_refl, bytes_eq_iff, bytes_eq-false, ap, append-nil, ◌∙◌, sym, ==_iff, List, [], ◌∷◌,
  ◌++◌, append_assoc, Option, none, some, take, arith,
}
use seedward_libs.Errors.{Outcome, ok, >>=-eq-ok, Option-cases}
use seedward_libs.External.{External}
use seedward_libs.Gentx.{
  SignerInfo, MultisigMember, MultisigSigner, secp256k1_pub_key_type_url, ed25519_pub_key_type_url,
}
use seedward_libs.Wire.{append_bytes_field, append_varint_field, append_uvarint}
use seedward_libs.Wire.Uvarint.{encoding, append_uvarint-encoding, encoding_small}
use seedward_libs.Wire.Fields.{append_tag-encoding}
use seedward_libs.Multisig.{member_amino_prefix, append_members, multisig_address_bytes}
use seedward_libs.Address.{signer_address_bytes, account_address_bytes}

-- The amino prefix of a key's type.
abbrev pub IsKeyPrefix : Bytes → Bytes → Type 0
IsKeyPrefix type_url prefix =
    ((type_url ≡ secp256k1_pub_key_type_url) × (prefix ≡ 0xEB ∷ 0x5A ∷ 0xE9 ∷ 0x87 ∷ []))
    ⊎ ((type_url ≡ ed25519_pub_key_type_url) × (prefix ≡ 0x16 ∷ 0x24 ∷ 0xDE ∷ 0x64 ∷ []))

-- The bytes after their length, a uint64, as a varint.
abbrev pub delimited : Bytes → Bytes
delimited b = encoding (length b % 2 ^ 64) ++ b

-- The amino form of the members: field 2 for each, of its prefix and its key.
abbrev pub IsMembers : List MultisigMember → Bytes → Type 0
IsMembers [] b = b ≡ []
IsMembers (m ∷ ms) b =
    (prefix : Bytes) × (rest : Bytes) × IsKeyPrefix m.pub_key_type_url prefix
    × IsMembers ms rest
    × (b ≡ 0x12 ∷ (delimited (prefix ++ delimited m.pub_key) ++ rest))

-- The amino form of the multisig key: its prefix, field 1 for the threshold, and the members.
abbrev pub IsMultisigKey : MultisigSigner → Bytes → Type 0
IsMultisigKey ms b =
    (members : Bytes) × IsMembers ms.members members
    × (b ≡ 0x22 ∷ 0xC1 ∷ 0xF7 ∷ 0xE2 ∷ 0x08 ∷ (encoding ms.threshold ++ members))

module _ (x : External) where
  -- The account of a single secp256k1 key, by the hashes of its 33 bytes, or of a multisig, by the first 20
  -- bytes of the hash of its amino form.
  abbrev pub IsAccountOf : SignerInfo → Option MultisigSigner → Bytes → Type 0
  IsAccountOf s none account =
      (s.pub_key_type_url ≡ secp256k1_pub_key_type_url)
      × (length s.pub_key ≡ 33)
      × (account ≡ x.ripemd160 (x.sha256 s.pub_key))
  IsAccountOf s (some ms) account =
      (key : Bytes) × IsMultisigKey ms key × (account ≡ take 20 (x.sha256 key))

secp256k1-ne-ed25519 : ¬ (secp256k1_pub_key_type_url ≡ ed25519_pub_key_type_url)
unfolding bytes_eq
secp256k1-ne-ed25519 = bytes_eq-false refl

some-inj : {a b : Bytes} → Path (Option Bytes) (some a) (some b) → b ≡ a
some-inj e = cc

member_amino_prefix_iff :
    (type_url prefix : Bytes)
    → (member_amino_prefix type_url ≡ some prefix) ↔ IsKeyPrefix type_url prefix
unfolding member_amino_prefix
member_amino_prefix_iff type_url prefix =
    let secp = secp256k1_pub_key_type_url in
    let ed = ed25519_pub_key_type_url in
    elim (Bool-cases (bytes_eq type_url secp)) [
      | inl t ↦
          let same = (bytes_eq_iff type_url secp).0 t in
          rw t (
            (λ h. inl (same, some-inj h)),
            λ h. elim h [
              | inl (u, p) ↦ rw p refl
              | inr (u, p) ↦ absurd (secp256k1-ne-ed25519 (sym same ∙ u))
            ],
          )
      | inr f ↦
          let other : ¬ (type_url ≡ secp) = bytes_eq-false f in
          elim (Bool-cases (bytes_eq type_url ed)) [
            | inl t ↦
                rw (f, t)
                  (
                    (λ h. inr ((bytes_eq_iff type_url ed).0 t, some-inj h)),
                    λ h. elim h [ inl (u, p) ↦ absurd (other u) | inr (u, p) ↦ rw p refl ],
                  )
            | inr n ↦
                rw (f, n)
                  (
                    (λ h. cc),
                    λ h. elim h [
                      | inl (u, p) ↦ absurd (other u)
                      | inr (u, p) ↦ absurd (bytes_eq-false n u)
                    ],
                  )
          ]
    ]

append_bytes_field-delimited :
    (b : Bytes) (v : Bytes) → append_bytes_field b 2 v ≡ b ++ 0x12 ∷ delimited v
unfolding append_bytes_field
append_bytes_field-delimited b v =
    rw
      (
        append_tag-encoding b 2 2 (omega arith) (omega arith),
        append_uvarint-encoding,
        encoding_small 18 (omega arith),
      )
      (append_assoc (b ++ _) _ v ∙ append_assoc b _ _)

append_varint_field-threshold :
    (b : Bytes) (v : ℕ) → append_varint_field b 1 v ≡ b ++ 0x08 ∷ encoding v
unfolding append_varint_field
append_varint_field-threshold b v =
    rw
      (
        append_tag-encoding b 1 0 (omega arith) (omega arith),
        append_uvarint-encoding,
        encoding_small 8 (omega arith),
      )
      (append_assoc b _ _)

append_members_step :
    (b prefix key : Bytes)
    → append_bytes_field b 2 (append_uvarint prefix (length key % 2 ^ 64) ++ key)
      ≡ b ++ 0x12 ∷ delimited (prefix ++ delimited key)
append_members_step b prefix key =
    rw (append_uvarint-encoding, append_assoc prefix)
      (append_bytes_field-delimited b (prefix ++ delimited key))

ok-inj : {a b : Bytes} → Path (Outcome Bytes) (ok a) (ok b) → a ≡ b
ok-inj e = cc

append_members-IsMembers :
    (ms : List MultisigMember) (b out : Bytes) (i : ℕ)
    → append_members b i ms ≡ ok out
    → (rest : Bytes) × IsMembers ms rest × (out ≡ b ++ rest)
unfolding append_members
append_members-IsMembers [] b out i = λ h. ([], refl, sym (ok-inj h) ∙ sym (append-nil b))
append_members-IsMembers (m ∷ ms) b out i =
    elim (Option-cases (member_amino_prefix m.pub_key_type_url)) [
      | inl e ↦ rw (e, append_members) (λ h. cc)
      | inr (prefix, e) ↦
          let kind = (member_amino_prefix_iff m.pub_key_type_url prefix).0 e in
          let field = 0x12 ∷ delimited (prefix ++ delimited m.pub_key) in
          rw (e, append_members, append_members_step)
            (λ h.
              let (rest, r, same) = append_members-IsMembers ms (b ++ field) out (i + 1) h in
              (field ++ rest, (prefix, rest, kind, r, refl), same ∙ append_assoc b field rest))
    ]

IsMembers-append_members :
    (ms : List MultisigMember) (b rest : Bytes) (i : ℕ)
    → IsMembers ms rest
    → append_members b i ms ≡ ok (b ++ rest)
unfolding append_members
IsMembers-append_members [] b rest i h = ap ok (sym (append-nil b) ∙ ap (λ t. b ++ t) (sym h))
IsMembers-append_members (m ∷ ms) b rest i (prefix, after, kind, r, same) =
    let e = (member_amino_prefix_iff m.pub_key_type_url prefix).1 kind in
    let field = 0x12 ∷ delimited (prefix ++ delimited m.pub_key) in
    rw (e, append_members, append_members_step, same)
      (IsMembers-append_members ms (b ++ field) after (i + 1) r
        ∙ ap ok (append_assoc b field after))

module _ (x : External) where
  -- multisigAddressBytes takes the hash of the multisig key's amino form.
  multisig_address_bytes_iff :
      (ms : MultisigSigner) (account : Bytes)
      → (multisig_address_bytes x ms ≡ ok account)
        ↔ ((key : Bytes) × IsMultisigKey ms key × (account ≡ take 20 (x.sha256 key)))
  unfolding multisig_address_bytes
  multisig_address_bytes_iff ms account =
      let front = 0x22 ∷ 0xC1 ∷ 0xF7 ∷ 0xE2 ∷ 0x08 ∷ encoding ms.threshold in
      rw append_varint_field-threshold (
        (λ h.
            let (b, e, last) = >>=-eq-ok (append_members front 0 ms.members) _ h in
            let (rest, r, same) = append_members-IsMembers ms.members front b 0 e in
            (b, (rest, r, same), sym (ok-inj last))),
        λ (key, (rest, r, same), given).
            rw (IsMembers-append_members ms.members front rest 0 r)
              (ap (λ b. ok (take 20 (x.sha256 b))) (sym same) ∙ ap ok (sym given)),
      )

  signer_address_bytes-IsAccountOf :
      (s : SignerInfo) (account : Bytes)
      → signer_address_bytes x s ≡ ok account
      → IsAccountOf x s s.multisig account
  unfolding signer_address_bytes account_address_bytes
  signer_address_bytes-IsAccountOf s account = elim (Option-cases s.multisig) [
    | inl single ↦ elim (Bool-cases (bytes_eq s.pub_key_type_url secp256k1_pub_key_type_url)) [
      | inr n ↦ rw (single, n) (λ h. cc)
      | inl t ↦ elim (Bool-cases (length s.pub_key == 33)) [
        | inr n ↦ rw (single, t, n) (λ h. cc)
        | inl k ↦
            rw (single, t, k)
              (λ h. (
                (bytes_eq_iff s.pub_key_type_url secp256k1_pub_key_type_url).0 t,
                (==_iff (length s.pub_key) 33).0 k,
                sym (ok-inj h),
              ))
      ]
    ]
    | inr (ms, e) ↦ rw e (multisig_address_bytes_iff ms account).0
  ]

  IsAccountOf-signer_address_bytes :
      (s : SignerInfo) (account : Bytes)
      → IsAccountOf x s s.multisig account
      → signer_address_bytes x s ≡ ok account
  unfolding signer_address_bytes account_address_bytes
  IsAccountOf-signer_address_bytes s account = elim (Option-cases s.multisig) [
    | inl single ↦
        rw single (λ (u, k, same). rw (u, bytes_eq_refl secp256k1_pub_key_type_url, k, same) refl)
    | inr (ms, e) ↦ rw e (multisig_address_bytes_iff ms account).1
  ]

  -- signerAddressBytes answers exactly with the signer's account.
  pub signer_address_bytes_iff :
      (s : SignerInfo) (account : Bytes)
      → (signer_address_bytes x s ≡ ok account) ↔ IsAccountOf x s s.multisig account
  signer_address_bytes_iff s account =
      (signer_address_bytes-IsAccountOf s account, IsAccountOf-signer_address_bytes s account)
