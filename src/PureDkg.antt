-- ===== src/PureDkg.antt =====
-- The key generation of one keyper, driven from the outside (keyper/puredkg/puredkg.go). A keyper's
-- index is below 2^63, as the callers take it from a slice.
pub mod Phases
pub mod Outcome
pub mod Laws
pub mod Kept
pub mod Steps
use shielder.Base.{
  ◌+◌, ◌==◌, if◌then◌else◌, ◌>>=◌, ℕ, not, Option, none, some, List, [], ltb, get_elem?, set,
  replicate, contains, Map, is_some, has, put, Result, ok, err, or_err, insert, nat_eq, pair_eq,
}
use shielder.Panic.{Panic, index_out_of_range, wrong_phase}
use shielder.Curve.{Curve}
use shielder.Shcrypto.{
  Polynomial, Gammas, degree, degree_from_threshold, eval_for_keyper, valid_eval, gammas,
  zero_gammas, verify_poly_eval, compute_eon_secret_key_share, compute_eon_public_key_share,
  compute_eon_public_key,
}

pub data Phase : Type 0 where
  off dealing accusing apologizing finalized : Phase

-- The number that `iota` gives.
abbrev pub phase_number : Phase → ℕ
phase_number off = 0
phase_number dealing = 1
phase_number accusing = 2
phase_number apologizing = 3
phase_number finalized = 4

module _ (c : Curve) where
  pub record DkgResult : Type 0 where
    pub eon : ℕ
    pub num_keypers : ℕ
    pub threshold : ℕ
    pub keyper : ℕ
    pub secret_key_share : ℕ
    pub public_key : c.G2
    pub public_key_shares : List c.G2

  pub record PolyCommitmentMsg : Type 0 where
    pub eon : ℕ
    pub sender : ℕ
    pub gammas : Gammas c

pub record PolyEvalMsg : Type 0 where
  pub eon : ℕ
  pub sender : ℕ
  pub receiver : ℕ
  pub eval : ℕ

pub record AccusationMsg : Type 0 where
  pub eon : ℕ
  pub accuser : ℕ
  pub accused : ℕ

pub record ApologyMsg : Type 0 where
  pub eon : ℕ
  pub accuser : ℕ
  pub accused : ℕ
  pub eval : ℕ

-- The accuser, and the accused.
abbrev pub AccusationKey : Type 0
AccusationKey = ℕ × ℕ

-- A nil pointer is `none`.
pub record PureDkg (c : Curve) : Type 0 where
  pub phase : Phase
  pub eon : ℕ
  pub num_keypers : ℕ
  pub threshold : ℕ
  pub keyper : ℕ
  pub polynomial : Option Polynomial
  pub commitments : List (Option (Gammas c))
  pub evals : List (Option ℕ)
  pub accusations : List AccusationKey
  pub apologies : Map AccusationKey ℕ

-- Why a message is refused.
pub data MsgError : Type 0 where
  wrong_eon late_phase duplicate unexpected_degree other_receiver invalid_eval : MsgError

-- `slice[i]`, which panics out of range.
abbrev pub index {ℓ} : {A : Type ℓ} → List A → ℕ → Result Panic A
index xs i = or_err (get_elem? xs i) index_out_of_range

-- A handler's outcome: a panic, or the new state and, perhaps, an error.
abbrev pub HandledMsg : Curve → Type 0
HandledMsg c = Result Panic (PureDkg c × Option MsgError)

module _ {c : Curve} where
  unfoldable pub new_pure_dkg : ℕ → ℕ → ℕ → ℕ → PureDkg c
  new_pure_dkg eon num_keypers threshold keyper = record {
    phase = off;
    eon = eon;
    num_keypers = num_keypers;
    threshold = threshold;
    keyper = keyper;
    polynomial = none;
    commitments = replicate num_keypers none;
    evals = replicate num_keypers none;
    accusations = [];
    apologies = [];
  }

  unfoldable pub set_phase : PureDkg c → Phase → Result Panic (PureDkg c)
  set_phase pure p =
      if phase_number p == phase_number (pure.phase) + 1
      then ok (record pure { phase = p })
      else err wrong_phase

  unfoldable pub check_eon_and_phase : PureDkg c → ℕ → Phase → Option MsgError
  check_eon_and_phase pure eon max_phase =
      if not (pure.eon == eon)
      then some wrong_eon
      else if ltb (phase_number max_phase) (phase_number (pure.phase))
      then some late_phase
      else none

  unfoldable pub handle_poly_commitment_msg : PureDkg c → PolyCommitmentMsg c → HandledMsg c
  unfolding check_eon_and_phase
  handle_poly_commitment_msg pure msg = elim (check_eon_and_phase pure msg.eon dealing) [
    | some e ↦ ok (pure, some e)
    | none ↦ index (pure.commitments) msg.sender >>= λ old.
        if is_some old
        then ok (pure, some duplicate)
        else if not (degree msg.gammas == degree_from_threshold (pure.threshold))
        then ok (pure, some unexpected_degree)
        else ok (
          record pure { commitments = set (pure.commitments) msg.sender (some msg.gammas) },
          none,
        )
  ]

  unfoldable pub handle_poly_eval_msg : PureDkg c → PolyEvalMsg → HandledMsg c
  unfolding check_eon_and_phase
  handle_poly_eval_msg pure msg = elim (check_eon_and_phase pure msg.eon dealing) [
    | some e ↦ ok (pure, some e)
    | none ↦
        if not (msg.receiver == pure.keyper)
        then ok (pure, some other_receiver)
        else (index (pure.evals) msg.sender >>= λ old.
            if is_some old
            then ok (pure, some duplicate)
            else if not (valid_eval c msg.eval)
            then ok (pure, some invalid_eval)
            else ok (record pure { evals = set (pure.evals) msg.sender (some msg.eval) }, none))
  ]

  unfoldable pub handle_accusation_msg : PureDkg c → AccusationMsg → PureDkg c × Option MsgError
  unfolding check_eon_and_phase
  handle_accusation_msg pure msg = elim (check_eon_and_phase pure msg.eon accusing) [
    | some e ↦ (pure, some e)
    | none ↦
        let key : AccusationKey = (msg.accuser, msg.accused) in
        if contains (pure.accusations) key
        then (pure, some duplicate)
        else (record pure { accusations = insert key (pure.accusations) }, none)
  ]

  unfoldable pub handle_apology_msg : PureDkg c → ApologyMsg → PureDkg c × Option MsgError
  unfolding check_eon_and_phase
  handle_apology_msg pure msg = elim (check_eon_and_phase pure msg.eon apologizing) [
    | some e ↦ (pure, some e)
    | none ↦
        let key : AccusationKey = (msg.accuser, msg.accused) in
        if has key (pure.apologies)
        then (pure, some duplicate)
        else if not (valid_eval c msg.eval)
        then (pure, some invalid_eval)
        else (record pure { apologies = put key msg.eval (pure.apologies) }, none)
  ]
