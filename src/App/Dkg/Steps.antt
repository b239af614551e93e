-- ===== src/App/Dkg/Steps.antt =====
-- Over any steps of an instance: what is seen stays seen, and what is closed stays closed.
use shielder.Base.{
  ◌≡◌, ◌∙◌, ◌∷◌, refl, ap, Bool, true, false, List, [], arith, =ℕ_iff, all, contains, ok,
  contains-insert, nat_eq, pair_eq,
}
use shielder.Shmsg.{Address}
use shielder.External.{External}
use shielder.Events.{PolyEval, PolyCommitment, Accusation, Apology}
use shielder.App.Dkg.{
  DkgInstance, register_poly_eval_msg, register_poly_commitment_msg, register_accusation_msg,
  register_apology_msg, close_submissions, close_accusations, close_apologies,
}
use shielder.App.Dkg.Laws.{
  is_ok, is_open_to, register_poly_eval_msg_lem, register_poly_eval_msg_iff,
}

-- What the chain may do to an instance.
pub data Step (dkg dkg' : DkgInstance) : Type 1 where
  poly_eval : (m : PolyEval) → register_poly_eval_msg dkg m ≡ ok dkg' → Step dkg dkg'
  poly_commitment :
      (x : External) (m : PolyCommitment x)
      → register_poly_commitment_msg dkg m ≡ ok dkg'
      → Step dkg dkg'
  accusation : (m : Accusation) → register_accusation_msg dkg m ≡ ok dkg' → Step dkg dkg'
  apology : (m : Apology) → register_apology_msg dkg m ≡ ok dkg' → Step dkg dkg'
  submissions_end : close_submissions dkg ≡ dkg' → Step dkg dkg'
  accusations_end : close_accusations dkg ≡ dkg' → Step dkg dkg'
  apologies_end : close_apologies dkg ≡ dkg' → Step dkg dkg'

pub data Steps (dkg : DkgInstance) : DkgInstance → Type 1 where
  here : Steps dkg dkg
  next : {d e : DkgInstance} → Steps dkg d → Step d e → Steps dkg e

-- What later steps keep.
pub record Extends (dkg dkg' : DkgInstance) : Type 0 where
  pub same_config : dkg'.config ≡ dkg.config
  pub same_eon : dkg'.eon ≡ dkg.eon
  pub evals :
      (p : Address × Address)
      → contains dkg.poly_evals_seen p ≡ true
      → contains dkg'.poly_evals_seen p ≡ true
  pub commitments :
      (a : Address)
      → contains dkg.poly_commitments_seen a ≡ true
      → contains dkg'.poly_commitments_seen a ≡ true
  pub accusations :
      (a : Address)
      → contains dkg.accusations_seen a ≡ true
      → contains dkg'.accusations_seen a ≡ true
  pub apologies :
      (a : Address) → contains dkg.apologies_seen a ≡ true → contains dkg'.apologies_seen a ≡ true
  pub submissions : dkg.submissions_closed ≡ true → dkg'.submissions_closed ≡ true
  pub accusing : dkg.accusations_closed ≡ true → dkg'.accusations_closed ≡ true
  pub apologizing : dkg.apologies_closed ≡ true → dkg'.apologies_closed ≡ true

-- A step that keeps the seen messages and the flags.
Extends-same :
    {d e : DkgInstance}
    → (e.config ≡ d.config)
      × (e.eon ≡ d.eon)
      × (e.poly_evals_seen ≡ d.poly_evals_seen)
      × (e.poly_commitments_seen ≡ d.poly_commitments_seen)
      × (e.accusations_seen ≡ d.accusations_seen)
      × (e.apologies_seen ≡ d.apologies_seen)
      × (d.submissions_closed ≡ true → e.submissions_closed ≡ true)
      × (d.accusations_closed ≡ true → e.accusations_closed ≡ true)
      × (d.apologies_closed ≡ true → e.apologies_closed ≡ true)
    → Extends d e
Extends-same h = record {
  same_config = h.0;
  same_eon = h.1;
  evals = λ p k. rw (h.2) k;
  commitments = λ a k. rw (h.3) k;
  accusations = λ a k. rw (h.4) k;
  apologies = λ a k. rw (h.5) k;
  submissions = h.6;
  accusing = h.7;
  apologizing = h.8;
}

Extends-refl : {d : DkgInstance} → Extends d d
Extends-refl = Extends-same (refl, refl, refl, refl, refl, refl, λ k. k, λ k. k, λ k. k)

Extends-trans : {d e f : DkgInstance} → Extends d e → Extends e f → Extends d f
Extends-trans h k = record {
  same_config = k.same_config ∙ h.same_config;
  same_eon = k.same_eon ∙ h.same_eon;
  evals = λ p s. k.evals p (h.evals p s);
  commitments = λ a s. k.commitments a (h.commitments a s);
  accusations = λ a s. k.accusations a (h.accusations a s);
  apologies = λ a s. k.apologies a (h.apologies a s);
  submissions = λ s. k.submissions (h.submissions s);
  accusing = λ s. k.accusing (h.accusing s);
  apologizing = λ s. k.apologizing (h.apologizing s);
}

pub Step-Extends : {d e : DkgInstance} → Step d e → Extends d e
unfolding register_poly_eval_msg register_poly_commitment_msg register_accusation_msg
    register_apology_msg close_submissions close_accusations close_apologies
Step-Extends {d} {e} (poly_eval m h) = record {
  same_config = ground arith;
  same_eon = ground arith;
  evals = λ p k. ground (arith, register_poly_eval_msg_lem d e m h p.0 p.1);
  commitments = λ a k. ground arith;
  accusations = λ a k. ground arith;
  apologies = λ a k. ground arith;
  submissions = λ k. ground arith;
  accusing = λ k. ground arith;
  apologizing = λ k. ground arith;
}
Step-Extends {d} {e} (poly_commitment x m h) = record {
  same_config = ground arith;
  same_eon = ground arith;
  evals = λ p k. ground arith;
  commitments = λ a k. ground (arith, contains-insert m.sender a d.poly_commitments_seen);
  accusations = λ a k. ground arith;
  apologies = λ a k. ground arith;
  submissions = λ k. ground arith;
  accusing = λ k. ground arith;
  apologizing = λ k. ground arith;
}
Step-Extends {d} {e} (accusation m h) = record {
  same_config = ground arith;
  same_eon = ground arith;
  evals = λ p k. ground arith;
  commitments = λ a k. ground arith;
  accusations = λ a k. ground (arith, contains-insert m.sender a d.accusations_seen);
  apologies = λ a k. ground arith;
  submissions = λ k. ground arith;
  accusing = λ k. ground arith;
  apologizing = λ k. ground arith;
}
Step-Extends {d} {e} (apology m h) = record {
  same_config = ground arith;
  same_eon = ground arith;
  evals = λ p k. ground arith;
  commitments = λ a k. ground arith;
  accusations = λ a k. ground arith;
  apologies = λ a k. ground (arith, contains-insert m.sender a d.apologies_seen);
  submissions = λ k. ground arith;
  accusing = λ k. ground arith;
  apologizing = λ k. ground arith;
}
Step-Extends (submissions_end h) = Extends-same (ground arith)
Step-Extends (accusations_end h) = Extends-same (ground arith)
Step-Extends (apologies_end h) = Extends-same (ground arith)

Steps-Extends : {d e : DkgInstance} → Steps d e → Extends d e
Steps-Extends here = Extends-refl
Steps-Extends (next s t) = Extends-trans (Steps-Extends s) (Step-Extends t)

all-contains :
    (p : Address → Bool) (xs : List Address) (r : Address)
    → all p xs ≡ true
    → p r ≡ false
    → contains xs r ≡ false
all-contains p [] r h k = refl
all-contains p (x ∷ xs) r h k =
    ground (arith, all-contains p xs r, =ℕ_iff x r, λ (q : x ≡ r). ap p q)

-- Once an instance has accepted a message with an evaluation for a receiver, then after any steps
-- of the instance, a message of the same sender that it accepts has no evaluation for that
-- receiver.
pub poly_eval_once :
    (d e f g : DkgInstance) (m n : PolyEval) (r : Address)
    → register_poly_eval_msg d m ≡ ok e
    → Steps e f
    → register_poly_eval_msg f n ≡ ok g
    → n.sender ≡ m.sender
    → contains m.receivers r ≡ true
    → contains n.receivers r ≡ false
poly_eval_once d e f g m n r first between second same h =
    all-contains (is_open_to f n.sender) n.receivers r
      (ground (arith, register_poly_eval_msg_iff f n, second)) (ground (arith, seen_later, same))
  where
    seen : contains e.poly_evals_seen (m.sender, r) ≡ true
    seen = ground (arith, register_poly_eval_msg_lem d e m first m.sender r, h)

    seen_later : contains f.poly_evals_seen (m.sender, r) ≡ true
    seen_later = (Steps-Extends between).evals (m.sender, r) seen

-- Once submissions are closed, after any steps of the instance, every evaluation message and every
-- commitment is refused.
pub submissions_stay_closed :
    (d e : DkgInstance)
    → Steps (close_submissions d) e
    → ((m : PolyEval) → is_ok (register_poly_eval_msg e m) ≡ false)
      × ((x : External) (m : PolyCommitment x) → is_ok (register_poly_commitment_msg e m) ≡ false)
unfolding close_submissions register_poly_eval_msg register_poly_commitment_msg
submissions_stay_closed d e s =
    let closed = (Steps-Extends s).submissions refl in (λ m. ground arith, λ x m. ground arith)

-- After any steps that follow the acceptance of a sender's commitment, accusation or apology, a
-- second message of that kind by that sender is refused.
pub broadcasts_once :
    (d e f : DkgInstance)
    → Steps e f
    → ((x : External) (m n : PolyCommitment x)
        → register_poly_commitment_msg d m ≡ ok e
        → n.sender ≡ m.sender
        → is_ok (register_poly_commitment_msg f n) ≡ false)
      × ((m n : Accusation)
          → register_accusation_msg d m ≡ ok e
          → n.sender ≡ m.sender
          → is_ok (register_accusation_msg f n) ≡ false)
      × ((m n : Apology)
          → register_apology_msg d m ≡ ok e
          → n.sender ≡ m.sender
          → is_ok (register_apology_msg f n) ≡ false)
unfolding register_poly_commitment_msg register_accusation_msg register_apology_msg
broadcasts_once d e f s =
    let later = Steps-Extends s in
    (
      λ x m n h same. ground (
        arith,
        later.commitments m.sender,
        contains-insert m.sender m.sender d.poly_commitments_seen,
      ),
      λ m n h same.
          ground (
            arith,
            later.accusations m.sender,
            contains-insert m.sender m.sender d.accusations_seen,
          ),
      λ m n h same.
          ground
            (arith, later.apologies m.sender, contains-insert m.sender m.sender d.apologies_seen),
    )
