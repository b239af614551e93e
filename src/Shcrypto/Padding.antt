-- ===== src/Shcrypto/Padding.antt =====
-- The padding of a message to blocks, and back (shcrypto/encryption.go).
pub mod Roundtrip
pub mod Blocks
use shielder.Base.{
  ◌-◌, ◌/◌, ◌%◌, ◌∷◌, ◌++◌, ◌==◌, if◌then◌else◌, ◌>>=◌, ℕ, zero, suc, List, [], ltb, length,
  get_elem?, replicate, get_or_else, Result, ok, err, drop, take, nat_eq,
}
use shielder.Shmsg.{Bytes}

-- `BlockSize`
abbrev pub block_size : ℕ
block_size = 32

-- `[BlockSize]byte`
abbrev pub Block : Type 0
Block = Bytes

pub data PaddingError : Type 0 where
  zero_padding padding_too_long : PaddingError

-- The loop of `PadMessage`, over that many blocks.
blocks_of : ℕ → Bytes → List Block
blocks_of zero padded = []
blocks_of (suc n) padded = take block_size padded ∷ blocks_of n (drop block_size padded)

abbrev pub padding_length : Bytes → ℕ
padding_length m = block_size - length m % block_size

unfoldable pub pad_message : Bytes → List Block
unfolding blocks_of
pad_message m =
    let padded = m ++ replicate (padding_length m) (padding_length m) in
    blocks_of (length padded / block_size) padded

-- The last block, without its padding; its last byte is the length of the padding.
unpad_last : Block → Result PaddingError Bytes
unpad_last block =
    let n = get_or_else (get_elem? block (block_size - 1)) 0 in
    if n == 0
    then err zero_padding
    else if ltb block_size n
    then err padding_too_long
    else ok (take (block_size - n) block)

-- The blocks before the last are copied as they are.
unfoldable pub unpad_message : List Block → Result PaddingError Bytes
unfolding unpad_last
unpad_message [] = ok []
unpad_message (block ∷ []) = unpad_last block
unpad_message (block ∷ next ∷ rest) = unpad_message (next ∷ rest) >>= λ m. ok (block ++ m)
