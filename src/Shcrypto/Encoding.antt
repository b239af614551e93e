-- ===== src/Shcrypto/Encoding.antt =====
-- Encrypted messages as bytes (shcrypto/encoding.go), and the shuffle of a batch (shcrypto/shuffle.go).
-- Reading a point, and Go's random shuffle, are parameters. A message with no point is not modelled.
pub mod Roundtrip
use shielder.Base.{
  ◌+◌, ◌*◌, ◌/◌, ◌%◌, ◌∷◌, ◌++◌, ◌==◌, if◌then◌else◌, ◌>>=◌, ℕ, zero, suc, not, Option, List, [],
  ltb, length, Result, ok, err, or_err, drop, take, nat_eq,
}
use shielder.Shmsg.{Bytes}
use shielder.Curve.{Curve}
use shielder.Shcrypto.Padding.{block_size, Block}
use shielder.Shcrypto.Encryption.{EncryptedMessage}

pub data EncodingError : Type 0 where
  bad_point bad_length short_block : EncodingError

-- The loop of `Marshal` over the blocks.
unfoldable pub write_blocks : List Block → Bytes
write_blocks [] = []
write_blocks (b ∷ rest) = b ++ write_blocks rest

-- The loop of `Unmarshal`, for that many blocks.
unfoldable pub read_blocks : ℕ → Bytes → List Block
read_blocks zero d = []
read_blocks (suc n) d = take block_size d ∷ read_blocks n (drop block_size d)

module _ (c : Curve) where
  unfoldable pub marshal : EncryptedMessage c → Bytes
  unfolding write_blocks
  marshal m = c.marshal_g2 m.c1 ++ (m.c2 ++ write_blocks m.c3)

  -- `read_g2` returns the point with the bytes left over.
  unfoldable pub unmarshal :
      (Bytes → Option (c.G2 × Bytes)) → Bytes → Result EncodingError (EncryptedMessage c)
  unfolding read_blocks
  unmarshal read_g2 bytes = or_err (read_g2 bytes) bad_point >>= λ p.
      let d = p.1 in
      let rest = drop block_size d in
      if not (length d % block_size == 0)
      then err bad_length
      else if ltb (length d) block_size
      then err short_block
      else ok (record {
        c1 = p.0;
        c2 = take block_size d;
        c3 = read_blocks (length rest / block_size) rest;
      })

-- `binary.LittleEndian.Uint64`
little_endian : Bytes → ℕ
little_endian [] = 0
little_endian (b ∷ rest) = b + 256 * little_endian rest

-- `computeSeed`, from the bytes of the key.
unfoldable pub compute_seed : (Bytes → Bytes) → Bytes → ℕ
unfolding little_endian
compute_seed keccak256 key_bytes = little_endian (take 8 (keccak256 key_bytes))
