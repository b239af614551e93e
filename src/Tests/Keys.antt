-- ===== src/Tests/Keys.antt =====
-- Keys over a group of seven elements.
use shielder.Base.{
  ◌*◌, ◌%◌, ◌≤◌, ◌≡◌, ◌∙◌, ◌↔◌, ◌∷◌, ℕ, zero, suc, refl, sym, ap, true, false, none, some, List, [],
  arith, list_beq, replicate, All, get, sub64, ok, nat_eq,
}
use native.Mathlib.Nat.{mul-zero, mul-suc, mul_comm}
use shielder.Tests.Fixtures.{seven}
use shielder.Curve.{CurveLaw, PairingLaw}
use shielder.Shcrypto.{
  Polynomial, Gammas, degree, keyper_x, eval, eval_for_keyper, gammas, pi, verify_poly_eval,
  compute_eon_secret_key_share, compute_eon_public_key_share, compute_eon_public_key,
}
use shielder.Shcrypto.Feldman.{verify_poly_eval_honest, verify_poly_eval_iff}
use shielder.Shcrypto.Keys.{
  dealt_gammas, dealt_evals, public_key_share-secret_key_share, public_key-secret_key,
}
use shielder.PureDkg.{
  PureDkg, dealing, finalized, PolyEvalMsg, new_pure_dkg, index, handle_poly_eval_msg, DkgResult,
}
use shielder.Shmsg.{Bytes}
use shielder.Shcrypto.Padding.{Block}
use shielder.Shcrypto.Padding.Blocks.{IsByte, IsBlock, All-replicate}
use shielder.Shcrypto.Encryption.{encrypt, decrypt}
use shielder.Shcrypto.Encryption.Roundtrip.{decrypt-encrypt}
use shielder.PureDkg.Phases.{is_corrupt, keypers}
use shielder.PureDkg.Laws.{IsApology, IsAnswered, is_corrupt_iff}
use shielder.PureDkg.Steps.{Step, Steps, Steps-Kept}
use shielder.PureDkg.Kept.{Kept}
use shielder.PureDkg.Outcome.{IsSound, count_honest, compute_result, compute_result_lem}

mul_mod_seven : (m n : ℕ) → m % 7 * n % 7 ≡ m * n % 7
mul_mod_seven m zero = omega (arith, mul-zero m, mul-zero (m % 7))
mul_mod_seven m (suc n) = omega (arith, mul-suc (m % 7) n, mul-suc m n, mul_mod_seven m n)

mul_mod_seven_right : (m n : ℕ) → m * (n % 7) % 7 ≡ m * n % 7
mul_mod_seven_right m n =
    ap (λ t. t % 7) (mul_comm m (n % 7)) ∙ mul_mod_seven n m ∙ ap (λ t. t % 7) (mul_comm n m)

seven_law : CurveLaw seven
seven_law = record {
  base-add = λ m n. omega arith;
  mult-base = mul_mod_seven;
  base-mod = λ n. omega arith;
  marshal_injective = λ p q h. ground (arith, h);
}

-- 3 + 2x
abbrev line : Polynomial
line = 3 ∷ 2 ∷ []

line_at_two : eval_for_keyper seven line 1 ≡ ok 0
unfolding eval_for_keyper
line_at_two = refl

verify_poly_eval_honest_example : verify_poly_eval seven 1 0 (gammas seven line) 2 ≡ true
verify_poly_eval_honest_example =
    verify_poly_eval_honest seven seven_law line 1 2 0 refl line_at_two

abbrev line_gammas : Gammas seven
line_gammas = gammas seven line

verify_poly_eval_iff_example : (verify_poly_eval seven 1 0 line_gammas 2 ≡ true) ↔ (
    (degree line_gammas ≡ sub64 2 1)
    × (pi seven line_gammas (keyper_x 1) ≡ seven.scalar_base_mult 0))
verify_poly_eval_iff_example = verify_poly_eval_iff seven seven_law line_gammas 1 2 0

-- Two dealers, with their evaluations for keyper 1.
abbrev two_dealers : List (Polynomial × ℕ)
two_dealers = (line, 0) ∷ (1 ∷ 1 ∷ [], 3) ∷ []

other_at_two : eval seven (1 ∷ 1 ∷ []) (keyper_x 1) ≡ ok 3
unfolding eval
other_at_two = refl

first_at_two : eval seven line (keyper_x 1) ≡ ok 0
unfolding eval
first_at_two = refl

public_key_share-secret_key_share_example :
    compute_eon_public_key_share seven 1 (dealt_gammas seven two_dealers)
    ≡ seven.scalar_base_mult (compute_eon_secret_key_share seven (dealt_evals two_dealers))
public_key_share-secret_key_share_example =
    public_key_share-secret_key_share seven seven_law 1 two_dealers
      (first_at_two, (other_at_two, tt))

-- The same dealers, with their secrets.
abbrev two_secrets : List (Polynomial × ℕ)
two_secrets = (line, 3) ∷ (1 ∷ 1 ∷ [], 1) ∷ []

first_secret : eval seven line 0 ≡ ok 3
unfolding eval
first_secret = refl

other_secret : eval seven (1 ∷ 1 ∷ []) 0 ≡ ok 1
unfolding eval
other_secret = refl

public_key-secret_key_example :
    compute_eon_public_key seven (dealt_gammas seven two_secrets)
    ≡ seven.scalar_base_mult (compute_eon_secret_key_share seven (dealt_evals two_secrets))
public_key-secret_key_example =
    public_key-secret_key seven seven_law two_secrets (first_secret, (other_secret, tt))

-- Keyper 0 of two, with the line from itself and from keyper 1, of whom both are needed.
abbrev done_dkg : PureDkg seven
done_dkg = record {
  phase = finalized;
  eon = 1;
  num_keypers = 2;
  threshold = 2;
  keyper = 0;
  polynomial = some line;
  commitments = some line_gammas ∷ some line_gammas ∷ [];
  evals = some 5 ∷ none ∷ [];
  accusations = (0, 1) ∷ [];
  apologies = ((0, 1), 5) ∷ [];
}

is_corrupt_iff_example : (is_corrupt done_dkg 1 ≡ ok false) ↔ (
    (gs : Gammas seven) × (index (done_dkg.commitments) 1 ≡ ok (some gs))
    × All (IsApology done_dkg gs 1) (done_dkg.apologies)
    × All (IsAnswered done_dkg 1) (done_dkg.accusations))
is_corrupt_iff_example = is_corrupt_iff done_dkg 1

abbrev pub done_result : DkgResult seven
done_result = record {
  eon = 1;
  num_keypers = 2;
  threshold = 2;
  keyper = 0;
  secret_key_share = 3;
  public_key = 6;
  public_key_shares = 3 ∷ 0 ∷ [];
}

done_dkg_has_result : compute_result done_dkg ≡ ok (ok done_result)
unfolding compute_result is_corrupt shielder.PureDkg.Phases.poly_eval get verify_poly_eval gammas
    shielder.Base.Tests.list_beq shielder.PureDkg.Phases.is_bad compute_eon_secret_key_share
    compute_eon_public_key compute_eon_public_key_share
done_dkg_has_result = refl

compute_result_lem_example :
    (done_dkg.phase ≡ finalized)
    × All (IsSound done_dkg) (keypers done_dkg)
    × (2 ≤ count_honest done_dkg (keypers done_dkg))
compute_result_lem_example = compute_result_lem done_dkg done_result done_dkg_has_result

abbrev dealing_dkg : PureDkg seven
dealing_dkg = record (new_pure_dkg 1 2 2 0) { phase = dealing }

abbrev evaluated_dkg : PureDkg seven
evaluated_dkg = record dealing_dkg { evals = none ∷ some 5 ∷ [] }

abbrev test_eval : PolyEvalMsg
test_eval = record { eon = 1; sender = 1; receiver = 0; eval = 5 }

eval_is_accepted : handle_poly_eval_msg dealing_dkg test_eval ≡ ok (evaluated_dkg, none)
unfolding handle_poly_eval_msg new_pure_dkg shielder.Shcrypto.valid_eval
eval_is_accepted = refl

Steps-Kept_example : Kept dealing_dkg evaluated_dkg
Steps-Kept_example =
    Steps-Kept (Steps.next Steps.here (Step.evaluated test_eval none eval_is_accepted))

abbrev long_message : Bytes
long_message = replicate 40 9

abbrev keccak : Bytes → Bytes
keccak bs = bs

seven_pairing_law : PairingLaw seven
seven_pairing_law p m n =
    let left : p * m % 7 * (n % 7) % 7 ≡ p * m * n % 7 =
      mul_mod_seven (p * m) (n % 7) ∙ mul_mod_seven_right (p * m) n in
    let right : p * (m % 7) % 7 * n % 7 ≡ p * m * n % 7 =
      ap (λ t. t * n % 7) (mul_mod_seven_right p m) ∙ mul_mod_seven (p * m) n in
    left ∙ sym right

long_message_is_bytes : All IsByte long_message
long_message_is_bytes = All-replicate 40 9 (omega arith)

abbrev test_sigma : Block
test_sigma = replicate 32 200

test_sigma-IsBlock : IsBlock test_sigma
unfolding IsBlock
test_sigma-IsBlock = (refl, All-replicate 32 200 (omega arith))

decrypt-encrypt_example :
    decrypt seven keccak
      (encrypt seven keccak long_message (seven.scalar_base_mult 3) 2 test_sigma)
      (seven.scalar_mult_g1 2 3)
    ≡ ok long_message
decrypt-encrypt_example =
    decrypt-encrypt seven keccak long_message 2 3 test_sigma seven_pairing_law long_message_is_bytes
      test_sigma-IsBlock
