-- ===== src/Shcrypto/Padding/Roundtrip.antt =====
-- Unpadding gives back what was padded.
use shielder.Base.{
  ◌+◌, ◌-◌, ◌*◌, ◌/◌, ◌%◌, ◌≤◌, ◌<◌, ◌≡◌, ◌∙◌, ◌∷◌, ◌++◌, ◌>>=◌, ℕ, zero, suc, refl, ap, some, List,
  [], arith, length, get_elem?, length-append, replicate, ok, drop, take, take-append, drop-append,
  take-drop, length-drop, take_all, length-replicate,
}
use shielder.Shmsg.{Bytes}
use shielder.Shcrypto.Padding.{
  block_size, Block, blocks_of, padding_length, pad_message, unpad_last, unpad_message,
}

module _ {ℓ} {A : Type ℓ} where
  -- An index behind the first list falls into the repeated elements.
  get_elem?-append_replicate :
      (xs : List A) (n i : ℕ) (a : A)
      → length xs ≤ i
      → i < length xs + n
      → get_elem? (xs ++ replicate n a) i ≡ some a
  get_elem?-append_replicate [] zero i a h k = absurd (omega (arith, k))
  get_elem?-append_replicate [] (suc n) zero a h k = refl
  get_elem?-append_replicate [] (suc n) (suc i) a h k =
      get_elem?-append_replicate [] n i a (omega arith) (omega (arith, k))
  get_elem?-append_replicate (x ∷ xs) n zero a h k = absurd (omega (arith, h))
  get_elem?-append_replicate (x ∷ xs) n (suc i) a h k =
      get_elem?-append_replicate xs n i a (omega (arith, h)) (omega (arith, k))

unpad_last_lem :
    (m : Bytes) (r p : ℕ)
    → length m ≡ r
    → r < block_size
    → r + p ≡ block_size
    → unpad_last (take block_size (m ++ replicate p p)) ≡ ok m
unfolding unpad_last
unpad_last_lem m r p len small sum =
    let whole : take block_size (m ++ replicate p p) ≡ m ++ replicate p p =
      take_all block_size (m ++ replicate p p)
        (omega (arith, length-append m (replicate p p), length-replicate p p, len, sum)) in
    let at : get_elem? (m ++ replicate p p) 31 ≡ some p =
      get_elem?-append_replicate m p 31 p (omega (arith, len, small)) (omega (arith, len, sum)) in
    let front : take (block_size - p) (m ++ replicate p p) ≡ m =
      take-append (block_size - p) m (replicate p p) (omega (arith, len, sum))
      ∙ take_all (block_size - p) m (omega (arith, len, sum)) in
    rw whole (rw at (ground (arith, front, sum, small)))

unpad-cons :
    (b : Block) (q : ℕ) (y : Bytes)
    → unpad_message (b ∷ blocks_of (suc q) y)
      ≡ (unpad_message (blocks_of (suc q) y) >>= λ m. ok (b ++ m))
unfolding unpad_message blocks_of
unpad-cons b q y = refl

unpad-blocks_of :
    (q : ℕ) (m : Bytes) (r p : ℕ)
    → length m ≡ block_size * q + r
    → r < block_size
    → r + p ≡ block_size
    → unpad_message (blocks_of (suc q) (m ++ replicate p p)) ≡ ok m
unfolding unpad_message blocks_of
unpad-blocks_of zero m r p len small sum = unpad_last_lem m r p (omega (arith, len)) small sum
unpad-blocks_of (suc q) m r p len small sum =
    let long : block_size ≤ length m = omega (arith, len) in
    let first = take-append block_size m (replicate p p) long in
    let rest = drop-append block_size m (replicate p p) long in
    let ih =
      unpad-blocks_of q (drop block_size m) r p (omega (arith, len, length-drop block_size m long))
        small sum in
    let front = take block_size m in
    let padded = m ++ replicate p p in
    ap (λ b. unpad_message (b ∷ blocks_of (suc q) (drop block_size padded))) first
    ∙ ap (λ y. unpad_message (front ∷ blocks_of (suc q) y)) rest
    ∙ unpad-cons front q (drop block_size m ++ replicate p p)
    ∙ ap (λ t. t >>= λ n. ok (front ++ n)) ih
    ∙ ap ok (take-drop block_size m)

-- Unpadding the blocks to which any message is padded returns the message, without an error.
pub unpad_message-pad_message : (m : Bytes) → unpad_message (pad_message m) ≡ ok m
unfolding pad_message
unpad_message-pad_message m =
    let p = padding_length m in
    let q = length m / block_size in
    let blocks : length (m ++ replicate p p) / block_size ≡ suc q =
      omega (arith, length-append m (replicate p p), length-replicate p p) in
    rw blocks
      (unpad-blocks_of q m (length m % block_size) p (omega arith) (omega arith) (omega arith))
