-- ===== src/Shcrypto/Padding/Blocks.antt =====
-- The blocks to which a message of bytes is padded are values of the source's array type.
use shielder.Base.{
  ◌*◌, ◌/◌, ◌≤◌, ◌<◌, ◌≡◌, ◌∷◌, ◌++◌, ℕ, zero, suc, [], arith, length, replicate, All, All-append,
  drop, take, length-drop, length-take,
}
use shielder.Shmsg.{Bytes}
use shielder.Shcrypto.Padding.{block_size, Block, blocks_of, padding_length, pad_message}

abbrev pub IsByte : ℕ → Type 0
IsByte n = n < 256

-- A value of the source's array type.
unfoldable pub IsBlock : Block → Type 0
IsBlock b = (length b ≡ block_size) × All IsByte b

All-take : (n : ℕ) (xs : Bytes) → All IsByte xs → All IsByte (take n xs)
All-take zero xs h = tt
All-take (suc n) [] h = tt
All-take (suc n) (x ∷ xs) h = (h.0, All-take n xs h.1)

All-drop : (n : ℕ) (xs : Bytes) → All IsByte xs → All IsByte (drop n xs)
All-drop zero xs h = h
All-drop (suc n) [] h = tt
All-drop (suc n) (x ∷ xs) h = All-drop n xs h.1

pub All-replicate : (n a : ℕ) → a < 256 → All IsByte (replicate n a)
All-replicate zero a h = tt
All-replicate (suc n) a h = (h, All-replicate n a h)

blocks_of-IsBlock :
    (n : ℕ) (xs : Bytes) → n * 32 ≤ length xs → All IsByte xs → All IsBlock (blocks_of n xs)
unfolding blocks_of IsBlock
blocks_of-IsBlock zero xs h bytes = tt
blocks_of-IsBlock (suc n) xs h bytes =
    let long : block_size ≤ length xs = omega (arith, h) in
    (
      (length-take block_size xs long, All-take block_size xs bytes),
      blocks_of-IsBlock n (drop block_size xs) (omega (arith, h, length-drop block_size xs long))
          (All-drop block_size xs bytes),
    )

pub pad_message-IsBlock : (m : Bytes) → All IsByte m → All IsBlock (pad_message m)
unfolding pad_message
pad_message-IsBlock m bytes =
    let p = padding_length m in
    let padded = m ++ replicate p p in
    blocks_of-IsBlock (length padded / block_size) padded (omega arith)
      (All-append IsByte m (replicate p p) bytes (All-replicate p p (omega arith)))
