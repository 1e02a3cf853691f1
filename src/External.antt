-- ===== src/External.antt =====
-- Code outside the repository that gentxvalidate calls: the hashes, secp256k1 (dcrec) and bech32
-- (btcutil). Its functions are parameters, and what is used of them are named conditions.
use seedward_libs.Base.{ℕ, Bool, Bytes, length, ◌≡◌}
use seedward_libs.Errors.{Reply}

pub record External : Type 1 where
  pub PubKey : Type 0
  pub Scalar : Type 0
  -- sha256.Sum256 and ripemd160's Sum
  pub sha256 : Bytes → Bytes
  pub ripemd160 : Bytes → Bytes
  -- secp256k1.ParsePubKey
  pub parse_pub_key : Bytes → Reply PubKey
  -- ModNScalar.SetByteSlice: the scalar, and whether the bytes overflow the group order
  pub set_byte_slice : Bytes → Scalar × Bool
  -- NewSignature(&r, &s).Verify(hash, pub)
  pub verify : PubKey → Scalar → Scalar → Bytes → Bool
  -- bech32.Decode(addr, limit), bech32.Encode(hrp, data), bech32.ConvertBits(data, from, to, pad)
  pub bech32_decode : Bytes → ℕ → Reply (Bytes × Bytes)
  pub bech32_encode : Bytes → Bytes → Reply Bytes
  pub convert_bits : Bytes → ℕ → ℕ → Bool → Reply Bytes

-- A SHA-256 digest is 32 bytes long and a RIPEMD-160 digest is 20 bytes long.
pub record HasDigestSizes (x : External) : Type 0 where
  pub sha256_size : (b : Bytes) → length (x.sha256 b) ≡ 32
  pub ripemd160_size : (b : Bytes) → length (x.ripemd160 b) ≡ 20
