-- ===== src/App/Dkg/Laws.antt =====
-- Which registrations are accepted, and that nothing is accepted twice or after it is closed.
use shielder.Base.{
  ◌≡◌, ◌&&◌, ◌||◌, ◌∷◌, ◌==◌, refl, Bool, true, false, not, List, [], arith, all, contains, is_some,
  Result, ok, err, insert, contains-insert, nat_eq, pair_eq,
}
use shielder.Shmsg.{Address}
use shielder.Config.{is_keyper}
use shielder.Events.{PolyEval}
use shielder.App.Dkg.{DkgInstance, check_receivers, mark_receivers, register_poly_eval_msg}

-- A receiver that a sender may still send an evaluation to.
abbrev pub is_open_to : DkgInstance → Address → Address → Bool
is_open_to dkg sender receiver =
    is_keyper dkg.config receiver
    && not (receiver == sender)
    && not (contains dkg.poly_evals_seen (sender, receiver))

check_receivers_lem :
    (dkg : DkgInstance) (sender : Address) (rs : List Address)
    → is_some (check_receivers dkg sender rs) ≡ not (all (is_open_to dkg sender) rs)
unfolding check_receivers
check_receivers_lem dkg sender [] = refl
check_receivers_lem dkg sender (r ∷ rs) = ground (arith, check_receivers_lem dkg sender rs)

mark_receivers_lem :
    (sender : Address) (rs : List Address) (seen : List (Address × Address)) (s r : Address)
    → contains (mark_receivers sender rs seen) (s, r)
      ≡ (contains seen (s, r) || (sender == s && contains rs r))
unfolding mark_receivers
mark_receivers_lem sender [] seen s r = ground arith
mark_receivers_lem sender (q ∷ rs) seen s r = ground (
  arith,
  mark_receivers_lem sender rs (insert (sender, q) seen) s r,
  contains-insert (sender, q) (s, r) seen,
)

abbrev pub is_ok {ℓ κ} : {E : Type ℓ} {A : Type κ} → Result E A → Bool
is_ok (ok a) = true
is_ok (err e) = false

-- An evaluation message is accepted exactly if it is of this eon, submissions are open, its sender
-- is a keyper, and every receiver is another keyper that the sender has sent nothing yet.
pub register_poly_eval_msg_iff :
    (dkg : DkgInstance) (msg : PolyEval)
    → is_ok (register_poly_eval_msg dkg msg) ≡ (
        msg.eon == dkg.eon
        && not dkg.submissions_closed
        && is_keyper dkg.config msg.sender
        && all (is_open_to dkg msg.sender) msg.receivers)
unfolding register_poly_eval_msg
register_poly_eval_msg_iff dkg msg =
    ground (arith, check_receivers_lem dkg msg.sender msg.receivers)

-- After an accepted evaluation message, the pairs of a sender and a receiver that are seen are
-- those seen before, and those of its sender and its receivers.
pub register_poly_eval_msg_lem :
    (dkg dkg' : DkgInstance) (msg : PolyEval)
    → register_poly_eval_msg dkg msg ≡ ok dkg'
    → (s r : Address)
    → contains dkg'.poly_evals_seen (s, r)
      ≡ (contains dkg.poly_evals_seen (s, r) || (msg.sender == s && contains msg.receivers r))
unfolding register_poly_eval_msg
register_poly_eval_msg_lem dkg dkg' msg h s r =
    ground (arith, mark_receivers_lem msg.sender msg.receivers dkg.poly_evals_seen s r)
