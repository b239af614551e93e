-- ===== src/Shcrypto/Encryption.antt =====
-- Encryption for an epoch, and decryption with its key (shcrypto/encryption.go). Keccak256 of
-- go-ethereum's crypto package is a parameter.
pub mod Roundtrip
use shielder.Base.{
  ◌+◌, ◌*◌, ◌/◌, ◌%◌, ◌∷◌, ◌++◌, if◌then◌else◌, ℕ, zero, suc, List, [], ltb, length, replicate,
  Result, drop, take,
}
use shielder.Shmsg.{Bytes}
use shielder.Curve.{Curve}
use shielder.App.Messages.{set_bytes}
use shielder.Shcrypto.Padding.{block_size, Block, PaddingError, pad_message, unpad_message}

pub record EncryptedMessage (c : Curve) : Type 0 where
  pub c1 : c.G2
  pub c2 : Block
  pub c3 : List Block

-- `a ^ b`, of that many bits.
xor_bits : ℕ → ℕ → ℕ → ℕ
xor_bits zero a b = 0
xor_bits (suc n) a b = (a % 2 + b % 2) % 2 + 2 * xor_bits n (a / 2) (b / 2)

-- `XORBlocks`
xor_blocks : Block → Block → Block
unfolding xor_bits
xor_blocks [] b2 = []
xor_blocks (a ∷ b1) [] = []
xor_blocks (a ∷ b1) (b ∷ b2) = xor_bits 8 a b ∷ xor_blocks b1 b2

-- `copy(b[:], h)` into a block of zeros.
to_block : Bytes → Block
to_block h = take block_size (h ++ replicate block_size 0)

-- `binary.PutUvarint`, whose bytes are at most 10.
put_uvarint : ℕ → ℕ → Bytes
put_uvarint zero n = []
put_uvarint (suc fuel) n =
    let rest = put_uvarint fuel (n / 128) in if ltb n 128 then n ∷ [] else (n % 128 + 128) ∷ rest

-- `binary.PutVarint` of a number that is not negative; the bytes behind it stay in the buffer.
put_varint : Bytes → ℕ → Bytes
unfolding put_uvarint
put_varint buf i = let bs = put_uvarint 10 (2 * i) in bs ++ drop (length bs) buf

module _ (c : Curve) (keccak256 : Bytes → Bytes) where
  hash_bytes_to_block : Bytes → Block
  unfolding to_block
  hash_bytes_to_block d = to_block (keccak256 d)

  hash_block_to_int : Block → ℕ
  unfolding set_bytes
  hash_block_to_int d = set_bytes (keccak256 d) % c.order

  hash_gt_to_block : c.GT → Block
  unfolding hash_bytes_to_block
  hash_gt_to_block gt = hash_bytes_to_block (c.marshal_gt gt)

  -- The loop of `computeBlockKeys`, from `i` on, for `n` more keys.
  block_keys_from : Block → Bytes → ℕ → ℕ → List Block
  unfolding put_varint hash_bytes_to_block
  block_keys_from sigma buf i zero = []
  block_keys_from sigma buf i (suc n) =
      let buf' = put_varint buf i in
      hash_bytes_to_block (sigma ++ buf') ∷ block_keys_from sigma buf' (i + 1) n

  compute_block_keys : Block → ℕ → List Block
  unfolding block_keys_from
  compute_block_keys sigma n = block_keys_from sigma (replicate 10 0) 0 n

  -- The loops of `computeC3` and `decryptBlocks`.
  xor_with_keys : List Block → List Block → List Block
  unfolding xor_blocks
  xor_with_keys [] blocks = []
  xor_with_keys (k ∷ block_keys) [] = []
  xor_with_keys (k ∷ block_keys) (b ∷ blocks) = xor_blocks k b ∷ xor_with_keys block_keys blocks

  xor_by_keys : List Block → List Block → List Block
  unfolding xor_blocks
  xor_by_keys [] block_keys = []
  xor_by_keys (b ∷ blocks) [] = []
  xor_by_keys (b ∷ blocks) (k ∷ block_keys) = xor_blocks b k ∷ xor_by_keys blocks block_keys

  compute_c2 : Block → ℕ → c.G1 → c.G2 → Block
  unfolding hash_gt_to_block xor_blocks
  compute_c2 sigma r epoch_id eon_public_key =
      xor_blocks sigma (hash_gt_to_block (c.scalar_mult_gt (c.pair epoch_id eon_public_key) r))

  compute_c3 : List Block → Block → List Block
  unfolding compute_block_keys xor_with_keys
  compute_c3 blocks sigma = xor_with_keys (compute_block_keys sigma (length blocks)) blocks

  unfoldable pub encrypt : Bytes → c.G2 → c.G1 → Block → EncryptedMessage c
  unfolding hash_block_to_int compute_c2 compute_c3
  encrypt message eon_public_key epoch_id sigma =
      let r = hash_block_to_int sigma in
      record {
        c1 = c.scalar_base_mult r;
        c2 = compute_c2 sigma r epoch_id eon_public_key;
        c3 = compute_c3 (pad_message message) sigma;
      }

  -- `Sigma`
  sigma_of : EncryptedMessage c → c.G1 → Block
  unfolding hash_gt_to_block xor_blocks
  sigma_of m epoch_secret_key = xor_blocks m.c2 (hash_gt_to_block (c.pair epoch_secret_key m.c1))

  decrypt_blocks : List Block → Block → List Block
  unfolding compute_block_keys xor_by_keys
  decrypt_blocks blocks sigma = xor_by_keys blocks (compute_block_keys sigma (length blocks))

  unfoldable pub decrypt : EncryptedMessage c → c.G1 → Result PaddingError Bytes
  unfolding sigma_of decrypt_blocks
  decrypt m epoch_secret_key = unpad_message (decrypt_blocks m.c3 (sigma_of m epoch_secret_key))
