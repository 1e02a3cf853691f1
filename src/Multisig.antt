-- ===== src/Multisig.antt =====
-- gentxvalidate/multisig.go: LegacyAminoPubKey signers. An index out of range is a panic.
pub mod Envelope
pub mod Bitarray
pub mod Accept
pub mod Panics
pub mod Complete
use seedward_libs.Base.{
  ℕ, zero, suc, ◌+◌, ◌-◌, ◌*◌, ◌/◌, ◌%◌, ◌^◌, bit_and, Bool, true, false, not, ◌&&◌, ◌||◌, List, [],
  ◌∷◌, ◌++◌, Option, none, some, Bytes, codes, length, take, drop, get_elem?, is_empty, ltb, leb,
  ◌==◌, bytes_eq, if◌then◌else◌,
}
use seedward_libs.Errors.{
  Outcome, ok, err, panic, ◌>>=◌, ◌>>◌, require, component_prefix, component_mode, bitarray_size,
  malformed_envelope, envelope_overrun, envelope_without_signatures, multisig_counts,
  component_key_type, component_key_size, component_signature_size,
}
use seedward_libs.External.{External}
use seedward_libs.Gentx.{
  MultisigMember, MultisigSigner, secp256k1_pub_key_type_url, ed25519_pub_key_type_url,
  sign_mode_amino_json_name,
}
use seedward_libs.Verify.{compressed_pub_key_len, compact_sig_len, verify_secp_compact}
use seedward_libs.Wire.{
  wire_bytes, append_uvarint, append_varint_field, append_bytes_field, Read, value, short, overflow,
  uvarint,
}

-- `xs[i]`
abbrev pub index {ℓ} : {A : Type ℓ} → List A → ℕ → Outcome A
index xs i = elim (get_elem? xs i) [ none ↦ panic | some a ↦ ok a ]

abbrev pub multisig_amino_prefix : Bytes
multisig_amino_prefix = 0x22 ∷ 0xC1 ∷ 0xF7 ∷ 0xE2 ∷ []

abbrev pub secp_amino_prefix : Bytes
secp_amino_prefix = 0xEB ∷ 0x5A ∷ 0xE9 ∷ 0x87 ∷ []

abbrev pub ed25519_amino_prefix : Bytes
ed25519_amino_prefix = 0x16 ∷ 0x24 ∷ 0xDE ∷ 0x64 ∷ []

-- The map memberAminoPrefixes.
unfoldable pub member_amino_prefix : Bytes → Option Bytes
member_amino_prefix type_url =
    if bytes_eq type_url secp256k1_pub_key_type_url
    then some secp_amino_prefix
    else if bytes_eq type_url ed25519_pub_key_type_url
    then some ed25519_amino_prefix
    else none

abbrev pub account_addr_len : ℕ
account_addr_len = 20

-- The loop over the members, with its index.
unfoldable pub append_members : Bytes → ℕ → List MultisigMember → Outcome Bytes
append_members b i [] = ok b
append_members b i (m ∷ ms) = elim (member_amino_prefix m.pub_key_type_url) [
  | none ↦ err (component_prefix i m.pub_key_type_url)
  | some prefix ↦
      let entry = append_uvarint prefix (length m.pub_key % 2 ^ 64) ++ m.pub_key in
      append_members (append_bytes_field b 2 entry) (i + 1) ms
]

module _ (x : External) where
  unfoldable pub multisig_address_bytes : MultisigSigner → Outcome Bytes
  unfolding append_members
  multisig_address_bytes ms = do
    b ← append_members (append_varint_field multisig_amino_prefix 1 ms.threshold) 0 ms.members
    ok (take account_addr_len (x.sha256 b))

-- The int sums are those of the 64-bit patterns.
unfoldable pub bit_count : MultisigSigner → ℕ
bit_count ms =
    if is_empty ms.bitarray_elems
    then 0
    else if ms.extra_bits_stored == 0
    then length ms.bitarray_elems * 8 % 2 ^ 64
    else ((length ms.bitarray_elems - 1) * 8 + ms.extra_bits_stored) % 2 ^ 64

-- `elems[i/8] & (1 << (7 - i%8)) != 0`
unfoldable pub bit_is_set : ℕ → ℕ → Bool
bit_is_set byte i = not (bit_and byte (2 ^ (7 - i % 8)) == 0)

unfoldable pub signer_indices_from : Bytes → ℕ → List MultisigMember → Outcome (List ℕ)
signer_indices_from elems i [] = ok []
signer_indices_from elems i (m ∷ ms) = do
  byte ← index elems (i / 8)
  rest ← signer_indices_from elems (i + 1) ms
  ok (if bit_is_set byte i then i ∷ rest else rest)

unfoldable pub signer_indices : MultisigSigner → Outcome (List ℕ)
unfolding signer_indices_from
signer_indices ms = signer_indices_from ms.bitarray_elems 0 ms.members

-- 1<<3 | wireBytes
abbrev pub sig_tag : ℕ
sig_tag = 10

-- `b[:n]` and `b[n:]`, which panic if `n` is more than the length.
abbrev pub slice_to : Bytes → ℕ → Outcome Bytes
slice_to b n = if leb n (length b) then ok (take n b) else panic

abbrev pub slice_from : Bytes → ℕ → Outcome Bytes
slice_from b n = if leb n (length b) then ok (drop n b) else panic

-- `n <= 0` is an error; otherwise the value and the count of bytes.
abbrev pub after_uvarint : Read → Outcome (ℕ × ℕ)
after_uvarint (value v n) = ok (v, n)
after_uvarint short = err malformed_envelope
after_uvarint overflow = err malformed_envelope

-- The varint at the front and `b[n:]` behind it.
abbrev pub read_uvarint : Bytes → Outcome (ℕ × Bytes)
read_uvarint b = do (v, n) ← after_uvarint (uvarint b); rest ← slice_from b n; ok (v, rest)

-- The tag at the front, which is that of field 1, and `b[n:]` behind it.
abbrev pub read_sig_tag : Bytes → Outcome Bytes
read_sig_tag b = do
  (tag, n) ← after_uvarint (uvarint b)
  require (tag == sig_tag) malformed_envelope
  slice_from b n

-- The loop with the number of rounds that may follow; running out of it is counted as a panic.
unfoldable pub parse_loop : ℕ → Bytes → List Bytes → Outcome (List Bytes)
parse_loop fuel [] sigs = ok sigs
parse_loop zero (c ∷ cs) sigs = panic
parse_loop (suc fuel) (c ∷ cs) sigs = do
  b1 ← read_sig_tag (c ∷ cs)
  (size, b2) ← read_uvarint b1
  require (leb size (length b2)) envelope_overrun
  sig ← slice_to b2 size
  b3 ← slice_from b2 size
  parse_loop fuel b3 (sigs ++ sig ∷ [])

-- Each round reads a byte at least.
unfoldable pub parse_multi_signature : Bytes → Outcome (List Bytes)
unfolding parse_loop
parse_multi_signature b = do
  sigs ← parse_loop (length b) b []
  require (not (is_empty sigs)) envelope_without_signatures
  ok sigs

unfoldable pub check_modes : ℕ → List Bytes → Outcome (Unit {0})
check_modes i [] = ok tt
check_modes i (mode ∷ modes) =
    let rest = check_modes (i + 1) modes in
    if bytes_eq mode sign_mode_amino_json_name then rest else err (component_mode i mode)

module _ (x : External) (members : List MultisigMember) (sigs : List Bytes)
    (sign_bytes : Bytes) where
  -- One round of the last loop: the component `idx` and the signature `j`.
  unfoldable pub verify_component : ℕ → ℕ → Outcome Bool
  verify_component j idx = do
    member ← index members idx
    require (bytes_eq member.pub_key_type_url secp256k1_pub_key_type_url)
        (component_key_type idx member.pub_key_type_url)
    require (length member.pub_key == compressed_pub_key_len)
        (component_key_size idx (length member.pub_key))
    sig ← index sigs j
    require (length sig == compact_sig_len) (component_signature_size idx (length sig))
    verify_secp_compact x member.pub_key sig sign_bytes

  -- `if err != nil || !ok { return ok, err }`
  unfoldable pub verify_components : ℕ → List ℕ → Outcome Bool
  verify_components j [] = ok true
  verify_components j (idx ∷ rest) = do
    good ← verify_component j idx
    let next = verify_components (j + 1) rest
    if good then next else ok false

module _ (x : External) where
  unfoldable pub verify_amino_multisig : MultisigSigner → Bytes → Bytes → Outcome Bool
  unfolding check_modes signer_indices
  verify_amino_multisig ms signature sign_bytes = do
    check_modes 0 ms.modes
    require (bit_count ms == length ms.members) (bitarray_size (bit_count ms) (length ms.members))
    signers ← signer_indices ms
    sigs ← parse_multi_signature signature
    require (length sigs == length signers && length ms.modes == length signers)
        (multisig_counts (length sigs) (length ms.modes) (length signers))
    let rest = verify_components x ms.members sigs sign_bytes 0 signers
    if ltb (length sigs) ms.threshold then ok false else rest
