-- ===== src/Multisig/Accept.antt =====
-- What verifyAminoMultisig accepts, and when it panics.
use seedward_libs.Base.{
  ℕ, ◌+◌, ◌*◌, ◌≤◌, arith, All, List, [], ◌∷◌, ◌≡◌, ◌≢◌, inl, inr, Bytes, Bool, true, false,
  Bool-cases, some, length, get_elem?, ltb, ◌==◌, ◌&&◌, if◌then◌else◌, bytes_eq, bytes_eq_iff,
  ==_iff, take, drop,
}
use seedward_libs.Errors.{
  Outcome, ok, panic, ◌>>◌, require, Reply-cases, >>=-eq-ok, require-eq-ok, component_key_type,
  component_key_size, component_signature_size, bitarray_size, multisig_counts,
}
use seedward_libs.External.{External}
use seedward_libs.Gentx.{
  MultisigMember, MultisigSigner, secp256k1_pub_key_type_url, sign_mode_amino_json_name,
}
use seedward_libs.Multisig.{
  index, bit_count, signer_indices, check_modes, parse_multi_signature, verify_component,
  verify_components, verify_amino_multisig,
}
use seedward_libs.Multisig.Bitarray.{index_cases, IsSignerList, signer_indices_cases}
use seedward_libs.Verify.{verify_secp_compact, compact_sig_len, compressed_pub_key_len}

module _ (x : External) (members : List MultisigMember) (sigs : List Bytes)
    (sign_bytes : Bytes) where
  -- Signature `j` is a valid one of the secp256k1 key of member `idx` over the sign bytes.
  pub record Signed (j idx : ℕ) : Type 0 where
    pub member : MultisigMember
    pub is_member : get_elem? members idx ≡ some member
    pub key_type : member.pub_key_type_url ≡ secp256k1_pub_key_type_url
    pub key_size : length member.pub_key ≡ 33
    pub sig : Bytes
    pub is_sig : get_elem? sigs j ≡ some sig
    pub sig_size : length sig ≡ 64
    pub verifies : verify_secp_compact x member.pub_key sig sign_bytes ≡ ok true

  abbrev pub AllSigned : ℕ → List ℕ → Type 0
  AllSigned j [] = Unit
  AllSigned j (idx ∷ rest) = Signed j idx × AllSigned (j + 1) rest

pub verify_secp_compact-ne-panic :
    (x : External) (key sig sign_bytes : Bytes)
    → length sig ≡ 64
    → verify_secp_compact x key sig sign_bytes ≢ panic
unfolding verify_secp_compact
verify_secp_compact-ne-panic x key sig sb h = elim (Reply-cases (x.parse_pub_key key)) [
  | inr (e, p) ↦ rw p (λ q. cc)
  | inl (k, p) ↦ rw p (
      let long : ltb (length sig) 32 ≡ false = ground arith in
      rw long (elim (Bool-cases (x.set_byte_slice (take 32 sig)).1) [
        | inl over ↦ rw over (λ q. cc)
        | inr fits ↦ rw fits (elim (Bool-cases (x.set_byte_slice (drop 32 sig)).1) [
          | inl over ↦ rw over (λ q. cc)
          | inr fits' ↦ rw fits' (λ q. cc)
        ])
      ]))
]

index-eq-ok {ℓ} :
    {A : Type ℓ} (xs : List A) (i : ℕ) {a : A} → index xs i ≡ ok a → get_elem? xs i ≡ some a
index-eq-ok xs i h = elim (index_cases xs i) [ inl (l, b, e, e') ↦ cc | inr (l, e) ↦ cc ]

module _ (x : External) (members : List MultisigMember) (sigs : List Bytes)
    (sign_bytes : Bytes) where
  verify_component-Signed :
      (j idx : ℕ)
      → verify_component x members sigs sign_bytes j idx ≡ ok true
      → Signed x members sigs sign_bytes j idx
  unfolding verify_component
  verify_component-Signed j idx h =
      let (member, is_member, h1) = >>=-eq-ok (index members idx) _ h in
      let (u1, key_type, h2) =
        >>=-eq-ok
          (require (bytes_eq member.pub_key_type_url secp256k1_pub_key_type_url)
            (component_key_type idx member.pub_key_type_url))
          _ h1 in
      let (u2, key_size, h3) =
        >>=-eq-ok
          (require (length member.pub_key == compressed_pub_key_len)
            (component_key_size idx (length member.pub_key)))
          _ h2 in
      let (sig, is_sig, h4) = >>=-eq-ok (index sigs j) _ h3 in
      let (u3, sig_size, h5) =
        >>=-eq-ok
          (require (length sig == compact_sig_len) (component_signature_size idx (length sig))) _
          h4 in
      record {
        member = member;
        is_member = index-eq-ok members idx is_member;
        key_type =
            (bytes_eq_iff member.pub_key_type_url secp256k1_pub_key_type_url).0
              (require-eq-ok _ _ key_type);
        key_size =
            (==_iff (length member.pub_key) compressed_pub_key_len).0 (require-eq-ok _ _ key_size);
        sig = sig;
        sig_size = (==_iff (length sig) compact_sig_len).0 (require-eq-ok _ _ sig_size);
        is_sig = index-eq-ok sigs j is_sig;
        verifies = h5;
      }

  verify_components-AllSigned :
      (j : ℕ) (signers : List ℕ)
      → verify_components x members sigs sign_bytes j signers ≡ ok true
      → AllSigned x members sigs sign_bytes j signers
  unfolding verify_components
  verify_components-AllSigned j [] h = tt
  verify_components-AllSigned j (idx ∷ rest) h =
      let (good, e, k) = >>=-eq-ok (verify_component x members sigs sign_bytes j idx) _ h in
      elim (Bool-cases good) [
        | inl yes_good ↦ (
          verify_component-Signed j idx (rw yes_good at e),
          verify_components-AllSigned (j + 1) rest (rw yes_good at k),
        )
        | inr bad ↦ cc (rw bad at k)
      ]

abbrev pub AllAmino : List Bytes → Type 0
AllAmino = All (λ mode. mode ≡ sign_mode_amino_json_name)

pub check_modes-ok : (i : ℕ) (modes : List Bytes) → check_modes i modes ≡ ok tt → AllAmino modes
unfolding check_modes
check_modes-ok i [] h = tt
check_modes-ok i (mode ∷ modes) h = elim (Bool-cases (bytes_eq mode sign_mode_amino_json_name)) [
  | inl t ↦ ((bytes_eq_iff _ _).0 t, check_modes-ok (i + 1) modes (rw t at h))
  | inr f ↦ cc (rw f at h)
]

-- An accepted multisig: the bitarray has a bit for each member, the listed signers are exactly the
-- members whose bit is set, there are as many modes, all of them amino, and as many signatures as
-- signers, at least the threshold of them, and each signature is valid for its signer's key.
pub record Accepted (x : External) (ms : MultisigSigner) (signature sign_bytes : Bytes)
    : Type 0 where
  pub modes : AllAmino ms.modes
  pub signers : List ℕ
  pub sigs : List Bytes
  pub fits : length ms.members ≤ 8 * length ms.bitarray_elems
  pub listed : IsSignerList ms.bitarray_elems 0 (length ms.members) signers
  pub parsed : parse_multi_signature signature ≡ ok sigs
  pub bits : bit_count ms ≡ length ms.members
  pub counts : length sigs ≡ length signers
  pub mode_counts : length ms.modes ≡ length signers
  pub enough : ms.threshold ≤ length signers
  pub signed : AllSigned x ms.members sigs sign_bytes 0 signers

signer_indices-ok :
    (ms : MultisigSigner) (is : List ℕ)
    → signer_indices ms ≡ ok is
    → (length ms.members ≤ 8 * length ms.bitarray_elems)
      × IsSignerList ms.bitarray_elems 0 (length ms.members) is
signer_indices-ok ms is h = elim (signer_indices_cases ms) [
  | inr (l, e) ↦ cc
  | inl (l, is', e, s) ↦ let same : is' ≡ is = cc in (l, rw same at s)
]

-- The last steps, from the signers and the signatures on.
record Counted (x : External) (ms : MultisigSigner) (signers : List ℕ) (sigs : List Bytes)
    (sign_bytes : Bytes) : Type 0 where
  counts : length sigs ≡ length signers
  mode_counts : length ms.modes ≡ length signers
  enough : ms.threshold ≤ length signers
  signed : AllSigned x ms.members sigs sign_bytes 0 signers

unfoldable pub verify_counted :
    External → MultisigSigner → List ℕ → List Bytes → Bytes → Outcome Bool
verify_counted x ms signers sigs sb =
    require (length sigs == length signers && length ms.modes == length signers)
      (multisig_counts (length sigs) (length ms.modes) (length signers))
    >> (let rest = verify_components x ms.members sigs sb 0 signers in
        if ltb (length sigs) ms.threshold then ok false else rest)

verify_counted-Counted :
    (x : External) (ms : MultisigSigner) (signers : List ℕ) (sigs : List Bytes) (sb : Bytes)
    → verify_counted x ms signers sigs sb ≡ ok true
    → Counted x ms signers sigs sb
unfolding verify_counted
verify_counted-Counted x ms signers sigs sb h =
    elim (Bool-cases (length sigs == length signers && length ms.modes == length signers)) [
      | inr wrong ↦ cc (rw wrong at h)
      | inl right ↦ elim (Bool-cases (ltb (length sigs) ms.threshold)) [
        | inl few ↦ cc (rw (right, few) at h)
        | inr many ↦ record {
          counts = ground arith;
          mode_counts = ground arith;
          enough = ground arith;
          signed =
              verify_components-AllSigned x ms.members sigs sb 0 signers (rw (right, many) at h);
        }
      ]
    ]

-- verifyAminoMultisig answers true only if the members whose bit is set, in ascending order and so
-- each once, are at least `threshold`, and each has a valid signature in the envelope.
pub verify_amino_multisig-Accepted :
    (x : External) (ms : MultisigSigner) (signature sign_bytes : Bytes)
    → verify_amino_multisig x ms signature sign_bytes ≡ ok true
    → Accepted x ms signature sign_bytes
unfolding verify_amino_multisig verify_counted
verify_amino_multisig-Accepted x ms signature sb h =
    let (u1, modes, h1) = >>=-eq-ok (check_modes 0 ms.modes) _ h in
    let (u2, bits, h2) =
      >>=-eq-ok
        (require (bit_count ms == length ms.members)
          (bitarray_size (bit_count ms) (length ms.members)))
        _ h1 in
    let (signers, listed, h3) = >>=-eq-ok (signer_indices ms) _ h2 in
    let (sigs, parsed, h4) = >>=-eq-ok (parse_multi_signature signature) _ h3 in
    let last = verify_counted-Counted x ms signers sigs sb h4 in
    let (fits, exact) = signer_indices-ok ms signers listed in
    record {
      modes = check_modes-ok 0 ms.modes modes;
      signers = signers;
      sigs = sigs;
      fits = fits;
      listed = exact;
      parsed = parsed;
      bits = (==_iff (bit_count ms) (length ms.members)).0 (require-eq-ok _ _ bits);
      counts = last.counts;
      mode_counts = last.mode_counts;
      enough = last.enough;
      signed = last.signed;
    }
