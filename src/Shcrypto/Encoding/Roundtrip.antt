-- ===== src/Shcrypto/Encoding/Roundtrip.antt =====
-- An encrypted message survives being written as bytes and read back (shcrypto/encoding.go).
use shielder.Base.{
  ◌+◌, ◌*◌, ◌/◌, ◌%◌, ◌≡◌, ◌∷◌, ◌++◌, ◌==◌, refl, true, false, Option, some, List, [], arith, ltb,
  length, length-append, All, ok, take_front, drop_front, nat_eq,
}
use shielder.Shmsg.{Bytes}
use shielder.Curve.{Curve}
use shielder.Shcrypto.Padding.{block_size, Block}
use shielder.Shcrypto.Encryption.{EncryptedMessage}
use shielder.Shcrypto.Encoding.{write_blocks, read_blocks, marshal, unmarshal}

abbrev pub IsWhole : Block → Type 0
IsWhole b = length b ≡ block_size

length-write_blocks :
    (bs : List Block) → All IsWhole bs → length (write_blocks bs) ≡ length bs * block_size
unfolding write_blocks
length-write_blocks [] h = refl
length-write_blocks (b ∷ rest) h =
    rw (length-append b (write_blocks rest), h.0, length-write_blocks rest h.1) (omega arith)

read-write_blocks :
    (bs : List Block) → All IsWhole bs → read_blocks (length bs) (write_blocks bs) ≡ bs
unfolding read_blocks write_blocks
read-write_blocks [] h = refl
read-write_blocks (b ∷ rest) h =
    rw
      (
        take_front block_size b (write_blocks rest) h.0,
        drop_front block_size b (write_blocks rest) h.0,
        read-write_blocks rest h.1,
      )
      refl

module _ (c : Curve) (read_g2 : Bytes → Option (c.G2 × Bytes))
    (reads : (p : c.G2) (rest : Bytes) → read_g2 (c.marshal_g2 p ++ rest) ≡ some (p, rest)) where
  -- For a curve of which a point that was marshalled is read back with the bytes behind it left
  -- over, and an encrypted message of whole blocks, unmarshalling what was marshalled returns the
  -- message, without an error.
  pub unmarshal-marshal :
      (m : EncryptedMessage c)
      → IsWhole m.c2
      → All IsWhole m.c3
      → unmarshal c read_g2 (marshal c m) ≡ ok m
  unfolding unmarshal marshal
  unmarshal-marshal m h hs =
      let d = m.c2 ++ write_blocks m.c3 in
      let size : length d ≡ length m.c3 * block_size + block_size =
        rw (length-append m.c2 (write_blocks m.c3), h, length-write_blocks m.c3 hs) (omega arith) in
      let whole : (length d % block_size == 0) ≡ true = ground (arith, size) in
      let count : length m.c3 * block_size / block_size ≡ length m.c3 = omega arith in
      let long : ltb (length d) block_size ≡ false = ground (arith, size) in
      rw
        (
          reads m.c1 d,
          whole,
          long,
          take_front block_size m.c2 (write_blocks m.c3) h,
          drop_front block_size m.c2 (write_blocks m.c3) h,
          length-write_blocks m.c3 hs,
          count,
          read-write_blocks m.c3 hs,
        )
        refl
