-- ===== src/Shcrypto/Encryption/Roundtrip.antt =====
-- What was encrypted is decrypted.
use shielder.Base.{
  ◌+◌, ◌*◌, ◌/◌, ◌%◌, ◌<◌, ◌≡◌, ◌∙◌, ◌∷◌, ◌++◌, ℕ, zero, suc, refl, sym, ap, ap₂, List, [], arith,
  length, length-append, replicate, All, ok, length-replicate, length-take,
}
use shielder.Shmsg.{Bytes}
use shielder.Curve.{Curve, PairingLaw}
use shielder.Shcrypto.Padding.{block_size, Block, pad_message}
use shielder.Shcrypto.Padding.Roundtrip.{unpad_message-pad_message}
use shielder.Shcrypto.Padding.Blocks.{IsByte, IsBlock, pad_message-IsBlock}
use shielder.Shcrypto.Encryption.{
  xor_bits, xor_blocks, to_block, hash_bytes_to_block, hash_gt_to_block, hash_block_to_int,
  put_varint, block_keys_from, compute_block_keys, xor_with_keys, xor_by_keys, compute_c2,
  compute_c3, encrypt, sigma_of, decrypt_blocks, decrypt,
}

abbrev power_of_two : ℕ → ℕ
power_of_two zero = 1
power_of_two (suc n) = 2 * power_of_two n

xor_bits_left : (n a b : ℕ) → a < power_of_two n → xor_bits n (xor_bits n a b) b ≡ a
unfolding xor_bits
xor_bits_left zero a b h = omega (arith, h)
xor_bits_left (suc n) a b h =
    let rest = xor_bits n (a / 2) (b / 2) in
    let half : ((a % 2 + b % 2) % 2 + 2 * rest) / 2 ≡ rest = omega arith in
    rw half (omega (arith, xor_bits_left n (a / 2) (b / 2) (omega (arith, h))))

xor_bits_right : (n a b : ℕ) → b < power_of_two n → xor_bits n (xor_bits n a b) a ≡ b
unfolding xor_bits
xor_bits_right zero a b h = omega (arith, h)
xor_bits_right (suc n) a b h =
    let rest = xor_bits n (a / 2) (b / 2) in
    let half : ((a % 2 + b % 2) % 2 + 2 * rest) / 2 ≡ rest = omega arith in
    rw half (omega (arith, xor_bits_right n (a / 2) (b / 2) (omega (arith, h))))

xor_blocks_left :
    (a b : Block) → length a ≡ length b → All IsByte a → xor_blocks (xor_blocks a b) b ≡ a
unfolding xor_blocks
xor_blocks_left [] b len h = refl
xor_blocks_left (x ∷ a) [] len h = absurd (omega (arith, len))
xor_blocks_left (x ∷ a) (y ∷ b) len h =
    ap₂ ◌∷◌ (xor_bits_left 8 x y h.0) (xor_blocks_left a b (omega (arith, len)) h.1)

xor_blocks_right :
    (a b : Block) → length a ≡ length b → All IsByte b → xor_blocks (xor_blocks a b) a ≡ b
unfolding xor_blocks
xor_blocks_right [] [] len h = refl
xor_blocks_right [] (y ∷ b) len h = absurd (omega (arith, len))
xor_blocks_right (x ∷ a) [] len h = absurd (omega (arith, len))
xor_blocks_right (x ∷ a) (y ∷ b) len h =
    ap₂ ◌∷◌ (xor_bits_right 8 x y h.0) (xor_blocks_right a b (omega (arith, len)) h.1)

length-to_block : (h : Bytes) → length (to_block h) ≡ block_size
unfolding to_block
length-to_block h =
    length-take block_size (h ++ replicate block_size 0) (
      omega
        (arith, length-append h (replicate block_size 0), length-replicate {A = ℕ} block_size 0))

abbrev IsFull : Block → Type 0
IsFull b = length b ≡ block_size

module _ (c : Curve) (keccak256 : Bytes → Bytes) where
  block_keys_from-IsFull :
      (sigma : Block) (buf : Bytes) (i n : ℕ)
      → All IsFull (block_keys_from c keccak256 sigma buf i n)
        × (length (block_keys_from c keccak256 sigma buf i n) ≡ n)
  unfolding block_keys_from hash_bytes_to_block
  block_keys_from-IsFull sigma buf i zero = (tt, refl)
  block_keys_from-IsFull sigma buf i (suc n) =
      let buf' = put_varint buf i in
      let rest = block_keys_from-IsFull sigma buf' (i + 1) n in
      ((length-to_block (keccak256 (sigma ++ buf')), rest.0), ap suc rest.1)

  length-xor_with_keys :
      (block_keys blocks : List Block)
      → length block_keys ≡ length blocks
      → length (xor_with_keys c keccak256 block_keys blocks) ≡ length blocks
  unfolding xor_with_keys
  length-xor_with_keys [] blocks h = h
  length-xor_with_keys (k ∷ block_keys) [] h = refl
  length-xor_with_keys (k ∷ block_keys) (b ∷ blocks) h =
      ap suc (length-xor_with_keys block_keys blocks (omega (arith, h)))

  xor_by_keys-xor_with_keys :
      (block_keys blocks : List Block)
      → length block_keys ≡ length blocks
      → All IsFull block_keys
      → All IsBlock blocks
      → xor_by_keys c keccak256 (xor_with_keys c keccak256 block_keys blocks) block_keys ≡ blocks
  unfolding xor_with_keys xor_by_keys IsBlock
  xor_by_keys-xor_with_keys [] [] len hk hb = refl
  xor_by_keys-xor_with_keys [] (b ∷ blocks) len hk hb = absurd (omega (arith, len))
  xor_by_keys-xor_with_keys (k ∷ block_keys) [] len hk hb = absurd (omega (arith, len))
  xor_by_keys-xor_with_keys (k ∷ block_keys) (b ∷ blocks) len hk hb =
      ap₂ ◌∷◌ (xor_blocks_right k b (hk.0 ∙ sym hb.0.0) hb.0.1)
        (xor_by_keys-xor_with_keys block_keys blocks (omega (arith, len)) hk.1 hb.1)

  decrypt_blocks-compute_c3 :
      (blocks : List Block) (sigma : Block)
      → All IsBlock blocks
      → decrypt_blocks c keccak256 (compute_c3 c keccak256 blocks sigma) sigma ≡ blocks
  unfolding decrypt_blocks compute_c3 compute_block_keys
  decrypt_blocks-compute_c3 blocks sigma h =
      let ks = block_keys_from-IsFull sigma (replicate 10 0) 0 (length blocks) in
      let block_keys = block_keys_from c keccak256 sigma (replicate 10 0) 0 (length blocks) in
      rw (length-xor_with_keys block_keys blocks ks.1)
        (xor_by_keys-xor_with_keys block_keys blocks ks.1 ks.0 h)

  sigma_of-encrypt :
      (message : Bytes) (p : c.G1) (m : ℕ) (sigma : Block)
      → PairingLaw c
      → IsBlock sigma
      → sigma_of c keccak256
          (encrypt c keccak256 message (c.scalar_base_mult m) p sigma)
          (c.scalar_mult_g1 p m)
        ≡ sigma
  unfolding sigma_of encrypt compute_c2 hash_gt_to_block hash_bytes_to_block IsBlock
  sigma_of-encrypt message p m sigma law h =
      let r = hash_block_to_int c keccak256 sigma in
      let key =
        to_block
          (keccak256 (c.marshal_gt (c.scalar_mult_gt (c.pair p (c.scalar_base_mult m)) r))) in
      rw (law p m r) (
        xor_blocks_left sigma key
          (h.0
            ∙ sym (
                length-to_block (
                  keccak256 (c.marshal_gt (c.scalar_mult_gt (c.pair p (c.scalar_base_mult m)) r)))))
          h.1)

  -- For a curve that satisfies the pairing law, any hash function, a message of bytes and a sigma
  -- of 32 bytes, decrypting what was encrypted for an epoch under the generator times a secret
  -- gives the message without an error, with the epoch's id times the secret as the key.
  pub decrypt-encrypt :
      (message : Bytes) (p : c.G1) (m : ℕ) (sigma : Block)
      → PairingLaw c
      → All IsByte message
      → IsBlock sigma
      → decrypt c keccak256
          (encrypt c keccak256 message (c.scalar_base_mult m) p sigma)
          (c.scalar_mult_g1 p m)
        ≡ ok message
  unfolding decrypt encrypt
  decrypt-encrypt message p m sigma law bytes h = rw (sigma_of-encrypt message p m sigma law h) (
      rw (decrypt_blocks-compute_c3 (pad_message message) sigma (pad_message-IsBlock message bytes))
        (unpad_message-pad_message message))
