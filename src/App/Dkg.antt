-- ===== src/App/Dkg.antt =====
-- What the chain accepts of one distributed key generation (app/dkg.go).
pub mod Laws
pub mod Steps
use shielder.Base.{
  ◌∷◌, ◌==◌, if◌then◌else◌, ◌>>=◌, ◌>>◌, ℕ, Bool, true, false, not, Option, none, some, List, [],
  contains, Result, ok, insert, nat_eq, pair_eq,
}
use shielder.Shmsg.{Address}
use shielder.External.{External}
use shielder.Config.{BatchConfig, is_keyper}
use shielder.Events.{PolyEval, PolyCommitment, Accusation, Apology}

pub record DkgInstance : Type 0 where
  pub config : BatchConfig
  pub eon : ℕ
  pub poly_evals_seen : List (Address × Address)
  pub poly_commitments_seen : List Address
  pub accusations_seen : List Address
  pub apologies_seen : List Address
  pub submissions_closed : Bool
  pub accusations_closed : Bool
  pub apologies_closed : Bool

pub data DkgError : Type 0 where
  wrong_eon closed sender_not_keyper peer_not_keyper peer_is_sender already_present : DkgError

unfoldable pub new_dkg_instance : BatchConfig → ℕ → DkgInstance
new_dkg_instance config eon = record {
  config = config;
  eon = eon;
  poly_evals_seen = [];
  poly_commitments_seen = [];
  accusations_seen = [];
  apologies_seen = [];
  submissions_closed = false;
  accusations_closed = false;
  apologies_closed = false;
}

-- The checks that every `Register...` function begins with.
unfoldable pub check_message : DkgInstance → ℕ → Bool → Address → Option DkgError
check_message dkg eon is_closed sender =
    if not (eon == dkg.eon)
    then some wrong_eon
    else if is_closed
    then some closed
    else if not (is_keyper dkg.config sender)
    then some sender_not_keyper
    else none

-- The first loop of `RegisterPolyEvalMsg`.
check_receivers : DkgInstance → Address → List Address → Option DkgError
check_receivers dkg sender [] = none
check_receivers dkg sender (receiver ∷ rest) =
    if not (is_keyper dkg.config receiver)
    then some peer_not_keyper
    else if receiver == sender
    then some peer_is_sender
    else if contains dkg.poly_evals_seen (sender, receiver)
    then some already_present
    else check_receivers dkg sender rest

-- The second loop.
mark_receivers : Address → List Address → List (Address × Address) → List (Address × Address)
mark_receivers sender [] seen = seen
mark_receivers sender (receiver ∷ rest) seen =
    mark_receivers sender rest (insert (sender, receiver) seen)

unfoldable pub register_poly_eval_msg : DkgInstance → PolyEval → Result DkgError DkgInstance
unfolding check_message check_receivers mark_receivers
register_poly_eval_msg dkg msg = do
  check_message dkg msg.eon dkg.submissions_closed msg.sender
  check_receivers dkg msg.sender msg.receivers
  ok (record dkg { poly_evals_seen = mark_receivers msg.sender msg.receivers dkg.poly_evals_seen })

unfoldable pub register_poly_commitment_msg :
    {x : External} → DkgInstance → PolyCommitment x → Result DkgError DkgInstance
unfolding check_message
register_poly_commitment_msg dkg msg = do
  check_message dkg msg.eon dkg.submissions_closed msg.sender
  (if contains dkg.poly_commitments_seen msg.sender then some already_present else none)
  ok (record dkg { poly_commitments_seen = insert msg.sender dkg.poly_commitments_seen })

-- The loops over the accused of an accusation, and over the accusers of an apology.
check_peers : DkgInstance → Address → List Address → Option DkgError
check_peers dkg sender [] = none
check_peers dkg sender (peer ∷ rest) =
    if not (is_keyper dkg.config peer)
    then some peer_not_keyper
    else if sender == peer
    then some peer_is_sender
    else check_peers dkg sender rest

unfoldable pub register_accusation_msg : DkgInstance → Accusation → Result DkgError DkgInstance
unfolding check_message check_peers
register_accusation_msg dkg msg = do
  check_message dkg msg.eon dkg.accusations_closed msg.sender
  check_peers dkg msg.sender msg.accused
  (if contains dkg.accusations_seen msg.sender then some already_present else none)
  ok (record dkg { accusations_seen = insert msg.sender dkg.accusations_seen })

unfoldable pub register_apology_msg : DkgInstance → Apology → Result DkgError DkgInstance
unfolding check_message check_peers
register_apology_msg dkg msg = do
  check_message dkg msg.eon dkg.apologies_closed msg.sender
  check_peers dkg msg.sender msg.accusers
  (if contains dkg.apologies_seen msg.sender then some already_present else none)
  ok (record dkg { apologies_seen = insert msg.sender dkg.apologies_seen })

unfoldable pub close_submissions : DkgInstance → DkgInstance
close_submissions dkg = record dkg { submissions_closed = true }

unfoldable pub close_accusations : DkgInstance → DkgInstance
close_accusations dkg = record dkg { accusations_closed = true }

pub close_apologies : DkgInstance → DkgInstance
close_apologies dkg = record dkg { apologies_closed = true }
