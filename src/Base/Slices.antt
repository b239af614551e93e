-- ===== src/Base/Slices.antt =====
-- The laws of `take` and `drop`, by which Go's slices are modelled.
use Prim.Native.Nat.{ℕ, zero, suc, ◌+◌, ◌≤◌}
use mathlib.Core.Path.{◌≡◌, refl, ap}
use mathlib.Core.List.{List, [], ◌∷◌, ◌++◌}
use native.Mathlib.Omega.{arith}
use shielder.Base.Lists.{length, replicate, take, drop}

module _ {ℓ} {A : Type ℓ} where
  pub take-append : (n : ℕ) (xs ys : List A) → n ≤ length xs → take n (xs ++ ys) ≡ take n xs
  take-append zero xs ys h = refl
  take-append (suc n) [] ys h = absurd (omega (arith, h))
  take-append (suc n) (x ∷ xs) ys h = ap (◌∷◌ x) (take-append n xs ys (omega (arith, h)))

  pub drop-append : (n : ℕ) (xs ys : List A) → n ≤ length xs → drop n (xs ++ ys) ≡ drop n xs ++ ys
  drop-append zero xs ys h = refl
  drop-append (suc n) [] ys h = absurd (omega (arith, h))
  drop-append (suc n) (x ∷ xs) ys h = drop-append n xs ys (omega (arith, h))

  pub take-drop : (n : ℕ) (xs : List A) → take n xs ++ drop n xs ≡ xs
  take-drop zero xs = refl
  take-drop (suc n) [] = refl
  take-drop (suc n) (x ∷ xs) = ap (◌∷◌ x) (take-drop n xs)

  pub length-drop : (n : ℕ) (xs : List A) → n ≤ length xs → length (drop n xs) + n ≡ length xs
  length-drop zero xs h = omega arith
  length-drop (suc n) [] h = absurd (omega (arith, h))
  length-drop (suc n) (x ∷ xs) h = omega (arith, length-drop n xs (omega (arith, h)))

  pub take_all : (n : ℕ) (xs : List A) → length xs ≤ n → take n xs ≡ xs
  take_all zero [] h = refl
  take_all zero (x ∷ xs) h = absurd (omega (arith, h))
  take_all (suc n) [] h = refl
  take_all (suc n) (x ∷ xs) h = ap (◌∷◌ x) (take_all n xs (omega (arith, h)))

  pub length-replicate : (n : ℕ) (a : A) → length (replicate n a) ≡ n
  length-replicate zero a = refl
  length-replicate (suc n) a = omega (arith, length-replicate n a)

  pub length-take : (n : ℕ) (xs : List A) → n ≤ length xs → length (take n xs) ≡ n
  length-take zero xs h = refl
  length-take (suc n) [] h = absurd (omega (arith, h))
  length-take (suc n) (x ∷ xs) h = omega (arith, length-take n xs (omega (arith, h)))

  pub drop-drop : (m n k : ℕ) (xs : List A) → n + m ≡ k → drop m (drop n xs) ≡ drop k xs
  drop-drop m zero k xs h = ap (λ j. drop j xs) (omega (arith, h))
  drop-drop m (suc n) zero xs h = absurd (omega (arith, h))
  drop-drop zero (suc n) (suc k) [] h = refl
  drop-drop (suc m) (suc n) (suc k) [] h = refl
  drop-drop m (suc n) (suc k) (x ∷ xs) h = drop-drop m n k xs (omega (arith, h))

  -- A list behind a front of known length.
  pub take_front : (n : ℕ) (xs ys : List A) → length xs ≡ n → take n (xs ++ ys) ≡ xs
  take_front zero [] ys h = refl
  take_front zero (x ∷ xs) ys h = absurd (omega (arith, h))
  take_front (suc n) [] ys h = absurd (omega (arith, h))
  take_front (suc n) (x ∷ xs) ys h = ap (◌∷◌ x) (take_front n xs ys (omega (arith, h)))

  pub drop_front : (n : ℕ) (xs ys : List A) → length xs ≡ n → drop n (xs ++ ys) ≡ ys
  drop_front zero [] ys h = refl
  drop_front zero (x ∷ xs) ys h = absurd (omega (arith, h))
  drop_front (suc n) [] ys h = absurd (omega (arith, h))
  drop_front (suc n) (x ∷ xs) ys h = drop_front n xs ys (omega (arith, h))

  pub drop_all : (n : ℕ) (xs : List A) → length xs ≤ n → drop n xs ≡ []
  drop_all zero [] h = refl
  drop_all zero (x ∷ xs) h = absurd (omega (arith, h))
  drop_all (suc n) [] h = refl
  drop_all (suc n) (x ∷ xs) h = drop_all n xs (omega (arith, h))
