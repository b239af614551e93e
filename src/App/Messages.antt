-- ===== src/App/Messages.antt =====
-- From the messages of the protocol buffers to the application's own (app/messages.go).
use shielder.Base.{
  ◌+◌, ◌*◌, ◌∷◌, ◌==◌, if◌then◌else◌, ◌>>=◌, ◌>>◌, ℕ, none, some, List, [], map, length, is_some,
  Result, ok, err, or_err, nat_eq,
}
use shielder.Shmsg.{
  Bytes, Address, PolyEvalMsg, PolyCommitmentMsg, AccusationMsg, ApologyMsg, EpochSecretKeyShareMsg,
}
use shielder.External.{External}
use shielder.Config.{address_length}
use shielder.Medley.{ensure_unique_addresses}
use shielder.Events.{PolyEval, PolyCommitment, Accusation, Apology, EpochSecretKeyShare}

pub data ParseError : Type 0 where
  length_mismatch address_length_error duplicate malformed_point : ParseError

-- `SetBytes` of `big.Int`: the number that the bytes spell, the most significant first.
unfoldable pub set_bytes_from : ℕ → Bytes → ℕ
set_bytes_from n [] = n
set_bytes_from n (b ∷ rest) = set_bytes_from (256 * n + b) rest

unfoldable pub set_bytes : Bytes → ℕ
unfolding set_bytes_from
set_bytes bs = set_bytes_from 0 bs

module _ (x : External) where
  unfoldable pub validate_address : Bytes → Result ParseError Address
  validate_address address =
      if length address == address_length
      then ok (x.bytes_to_address address)
      else err address_length_error

  -- The loops that validate each address.
  validate_addresses : List Bytes → Result ParseError (List Address)
  unfolding validate_address
  validate_addresses [] = ok []
  validate_addresses (b ∷ rest) =
      let others = validate_addresses rest in
      validate_address b >>= λ a. others >>= λ as'. ok (a ∷ as')

  -- The addresses of a message, each once.
  unfoldable pub unique_addresses : List Bytes → Result ParseError (List Address)
  unfolding validate_addresses
  unique_addresses bs = do
    addresses ← validate_addresses bs
    (if is_some (ensure_unique_addresses addresses) then some duplicate else none)
    ok addresses

  unfoldable pub parse_poly_eval_msg : PolyEvalMsg → Address → Result ParseError PolyEval
  unfolding unique_addresses
  parse_poly_eval_msg msg sender = do
    (if length msg.receivers == length msg.encrypted_evals then none else some length_mismatch)
    receivers ← unique_addresses msg.receivers
    ok (record {
      height = 0;
      sender = sender;
      eon = msg.eon;
      receivers = receivers;
      encrypted_evals = msg.encrypted_evals;
    })

  -- The loop over the gammas.
  parse_gammas : List Bytes → Result ParseError (List x.curve.G2)
  parse_gammas [] = ok []
  parse_gammas (g ∷ rest) =
      let others = parse_gammas rest in
      or_err (x.unmarshal_g2 g) malformed_point >>= λ p. others >>= λ ps. ok (p ∷ ps)

  unfoldable pub parse_poly_commitment_msg :
      PolyCommitmentMsg → Address → Result ParseError (PolyCommitment x)
  unfolding parse_gammas
  parse_poly_commitment_msg msg sender = do
    gammas ← parse_gammas msg.gammas
    ok (record { height = 0; eon = msg.eon; sender = sender; gammas = gammas })

  unfoldable pub parse_accusation_msg : AccusationMsg → Address → Result ParseError Accusation
  unfolding unique_addresses
  parse_accusation_msg msg sender = do
    accused ← unique_addresses msg.accused
    ok (record { height = 0; eon = msg.eon; sender = sender; accused = accused })

  unfoldable pub parse_apology_msg : ApologyMsg → Address → Result ParseError Apology
  unfolding unique_addresses set_bytes
  parse_apology_msg msg sender = do
    (if length msg.accusers == length msg.poly_evals then none else some length_mismatch)
    accusers ← unique_addresses msg.accusers
    ok (record {
      height = 0;
      eon = msg.eon;
      sender = sender;
      accusers = accusers;
      poly_eval = map set_bytes msg.poly_evals;
    })

  unfoldable pub parse_epoch_secret_key_share_msg :
      EpochSecretKeyShareMsg → Address → Result ParseError (EpochSecretKeyShare x)
  parse_epoch_secret_key_share_msg msg sender = do
    share ← or_err (x.unmarshal_g1 msg.share) malformed_point
    ok (record { height = 0; sender = sender; eon = msg.eon; epoch = msg.epoch; share = share })
