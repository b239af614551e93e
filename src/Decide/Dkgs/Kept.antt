-- ===== src/Decide/Dkgs/Kept.antt =====
-- What the decider feeds to a key generation are messages and beginnings of phases, in any order of the
-- chain's events: so all that holds over these holds over a step of the decider.
use shielder.Base.{
  ◌+◌, ◌≡◌, ◌∷◌, ◌==◌, if◌then◌else◌, ◌>>=◌, ℕ, refl, inl, inr, Option, none, some, List, [],
  Bool-cases, Option-cases, Result, ok, Returns, Returns-self, Returns-bind, Returns-if, nat_eq,
}
use shielder.Shmsg.{Bytes, Address}
use shielder.External.{External}
use shielder.Medley.{find_address_index}
use shielder.Events
use shielder.App.Messages.{set_bytes}
use shielder.PureDkg.{
  dealing, accusing, apologizing, PureDkg, index, handle_poly_commitment_msg, handle_poly_eval_msg,
}
use shielder.PureDkg.Steps.{Step, Steps}
use shielder.PureDkg.Steps.Step.{committed, evaluated, accused, apologized}
use shielder.PureDkg.Steps.Steps.{here, next}
use shielder.Observe.Shielder.{
  Eon, get_poly_commitments, get_poly_evals, get_accusations, get_apologies,
}
use shielder.Decide.{fold, Libraries, Dkg, has_phase}
use shielder.Decide.Dkgs.{
  phase_of, sync_commitment, sync_commitments, is_own, take_eval, sync_receivers, sync_poly_eval,
  sync_poly_evals, take_accusation, sync_accused, sync_accusation, sync_accusations, take_apology,
  sync_accusers, sync_apology, sync_apologies,
}

fold-Returns {ℓ κ μ ν} :
    {S : Type ℓ} {A : Type κ} {E : Type μ} (P : S → Type ν) (f : S → A → Result E S)
    → ((s : S) (a : A) → P s → Returns P (f s a))
    → (s : S) (xs : List A) → P s
    → Returns P (fold f s xs)
fold-Returns P f h s [] p = p
fold-Returns P f h s (a ∷ xs) p =
    Returns-bind P P (f s a) (λ t. fold f t xs) (h s a p) (λ t q. fold-Returns P f h t xs q)

module _ {x : External} where
  -- The key generation went on by such steps, and is of the same eon and keypers.
  pub record Follows (old new : Dkg x) : Type 0 where
    pub steps : Steps (old.pure) (new.pure)
    pub same_eon : new.eon ≡ old.eon
    pub same_keypers : new.keypers ≡ old.keypers

  pub Follows-refl : {a : Dkg x} → Follows a a
  Follows-refl = record { steps = here; same_eon = refl; same_keypers = refl }

  pub goes_on :
      {a b : Dkg x} {p : PureDkg x.curve}
      → Follows a b
      → Step (b.pure) p
      → Follows a (record b { pure = p })
  goes_on f s = record {
    steps = next f.steps s;
    same_eon = f.same_eon;
    same_keypers = f.same_keypers;
  }

module _ {x : External} (lib : Libraries x) (eon : Eon x) (old : Dkg x) where
  commitment-Follows :
      (dkg : Dkg x) (comm : Events.PolyCommitment x)
      → Follows old dkg
      → Returns (Follows old) (sync_commitment lib eon dkg comm)
  unfolding sync_commitment
  commitment-Follows dkg comm f =
      elim (Bool-cases (has_phase (phase_of lib dkg eon comm.height) dealing)) [
        | inr late ↦ rw late f
        | inl on_time ↦
            rw on_time (elim (Option-cases (find_address_index (dkg.keypers) comm.sender)) [
              | inl missing ↦ rw missing f
              | inr (sender, there) ↦
                  let m =
                    handle_poly_commitment_msg (dkg.pure)
                      (record { eon = comm.eon; sender = sender; gammas = comm.gammas }) in
                  rw there (
                    Returns-bind (λ r. m ≡ ok r) (Follows old) m _ (Returns-self m)
                      (λ r e. goes_on f (committed _ r.1 e)))
            ])
      ]

  take_eval-Follows :
      (dkg : Dkg x) (ev : Events.PolyEval) (sender : ℕ) (bytes : Option Bytes)
      → Follows old dkg
      → Returns (Follows old) (take_eval lib dkg ev sender bytes)
  unfolding take_eval
  take_eval-Follows dkg ev sender none f = f
  take_eval-Follows dkg ev sender (some bytes) f =
      let m = handle_poly_eval_msg (dkg.pure) (record {
        eon = ev.eon;
        sender = sender;
        receiver = dkg.pure.keyper;
        eval = set_bytes bytes;
      }) in
      Returns-bind (λ r. m ≡ ok r) (Follows old) m _ (Returns-self m)
        (λ r e. goes_on f (evaluated _ r.1 e))

  receivers-Follows :
      (dkg : Dkg x) (ev : Events.PolyEval) (sender j : ℕ) (rs : List Address)
      → Follows old dkg
      → Returns (Follows old) (sync_receivers lib dkg ev sender j rs)
  unfolding sync_receivers
  receivers-Follows dkg ev sender j [] f = f
  receivers-Follows dkg ev sender j (receiver ∷ rest) f =
      let evals = index ev.encrypted_evals j in
      let mine = evals >>= λ encrypted. take_eval lib dkg ev sender (lib.decrypt encrypted) in
      let receives = is_own lib (find_address_index (dkg.keypers) receiver) (dkg.pure.keyper) in
      Returns-bind (Follows old) (Follows old) (if receives then mine else ok dkg) _
        (Returns-if (Follows old) receives mine (ok dkg)
          (Returns-bind (λ b. evals ≡ ok b) (Follows old) evals _ (Returns-self evals)
            (λ encrypted _. take_eval-Follows dkg ev sender (lib.decrypt encrypted) f))
          f)
        (λ dkg' g. receivers-Follows dkg' ev sender (j + 1) rest g)

  poly_eval-Follows :
      (dkg : Dkg x) (ev : Events.PolyEval)
      → Follows old dkg
      → Returns (Follows old) (sync_poly_eval lib eon dkg ev)
  unfolding sync_poly_eval
  poly_eval-Follows dkg ev f =
      elim (Bool-cases (has_phase (phase_of lib dkg eon ev.height) dealing)) [
        | inr late ↦ rw late f
        | inl on_time ↦
            rw on_time (elim (Option-cases (find_address_index (dkg.keypers) ev.sender)) [
              | inl missing ↦ rw missing f
              | inr (sender, there) ↦ rw there (
                  Returns-if (Follows old) (sender == dkg.pure.keyper) (ok dkg)
                    (sync_receivers lib dkg ev sender 0 ev.receivers) f
                    (receivers-Follows dkg ev sender 0 ev.receivers f))
            ])
      ]

  take_accusation-Follows :
      (dkg : Dkg x) (sender : ℕ) (i : Option ℕ)
      → Follows old dkg
      → Follows old (take_accusation lib dkg sender i)
  unfolding take_accusation
  take_accusation-Follows dkg sender none f = f
  take_accusation-Follows dkg sender (some i) f = goes_on f (accused _ _ refl)

  accused-Follows :
      (dkg : Dkg x) (sender : ℕ) (accused : List Address)
      → Follows old dkg
      → Follows old (sync_accused lib dkg sender accused)
  unfolding sync_accused
  accused-Follows dkg sender [] f = f
  accused-Follows dkg sender (a ∷ rest) f =
      let i = find_address_index (dkg.keypers) a in
      accused-Follows (take_accusation lib dkg sender i) sender rest
        (take_accusation-Follows dkg sender i f)

  accusation-Follows :
      (dkg : Dkg x) (a : Events.Accusation)
      → Follows old dkg
      → Returns (Follows old) (sync_accusation lib eon dkg a)
  unfolding sync_accusation
  accusation-Follows dkg a f =
      elim (Bool-cases (has_phase (phase_of lib dkg eon a.height) accusing)) [
        | inr late ↦ rw late f
        | inl on_time ↦
            rw on_time (elim (Option-cases (find_address_index (dkg.keypers) a.sender)) [
              | inl missing ↦ rw missing f
              | inr (sender, there) ↦ rw there (accused-Follows dkg sender a.accused f)
            ])
      ]

  take_apology-Follows :
      (dkg : Dkg x) (ev : Events.Apology) (sender j : ℕ) (i : Option ℕ)
      → Follows old dkg
      → Returns (Follows old) (take_apology lib dkg ev sender j i)
  unfolding take_apology
  take_apology-Follows dkg ev sender j none f = f
  take_apology-Follows dkg ev sender j (some i) f =
      let e = index ev.poly_eval j in
      Returns-bind (λ n. e ≡ ok n) (Follows old) e _ (Returns-self e)
        (λ n _. goes_on f (apologized _ _ refl))

  accusers-Follows :
      (dkg : Dkg x) (ev : Events.Apology) (sender j : ℕ) (accusers : List Address)
      → Follows old dkg
      → Returns (Follows old) (sync_accusers lib dkg ev sender j accusers)
  unfolding sync_accusers
  accusers-Follows dkg ev sender j [] f = f
  accusers-Follows dkg ev sender j (a ∷ rest) f =
      let i = find_address_index (dkg.keypers) a in
      Returns-bind (Follows old) (Follows old) (take_apology lib dkg ev sender j i) _
        (take_apology-Follows dkg ev sender j i f)
        (λ dkg' g. accusers-Follows dkg' ev sender (j + 1) rest g)

  apology-Follows :
      (dkg : Dkg x) (a : Events.Apology)
      → Follows old dkg
      → Returns (Follows old) (sync_apology lib eon dkg a)
  unfolding sync_apology
  apology-Follows dkg a f =
      elim (Bool-cases (has_phase (phase_of lib dkg eon a.height) apologizing)) [
        | inr late ↦ rw late f
        | inl on_time ↦
            rw on_time (elim (Option-cases (find_address_index (dkg.keypers) a.sender)) [
              | inl missing ↦ rw missing f
              | inr (sender, there) ↦ rw there (accusers-Follows dkg a sender 0 a.accusers f)
            ])
      ]

  module _ (dkg : Dkg x) (h : ℕ) (f : Follows old dkg) where
    pub commitments-Follow : Returns (Follows old) (sync_commitments lib h eon dkg)
    unfolding sync_commitments
    commitments-Follow =
        fold-Returns (Follows old) (sync_commitment lib eon) commitment-Follows dkg
          (get_poly_commitments eon h) f

    pub poly_evals-Follow : Returns (Follows old) (sync_poly_evals lib h eon dkg)
    unfolding sync_poly_evals
    poly_evals-Follow =
        fold-Returns (Follows old) (sync_poly_eval lib eon) poly_eval-Follows dkg
          (get_poly_evals eon h) f

    pub accusations-Follow : Returns (Follows old) (sync_accusations lib h eon dkg)
    unfolding sync_accusations
    accusations-Follow =
        fold-Returns (Follows old) (sync_accusation lib eon) accusation-Follows dkg
          (get_accusations eon h) f

    pub apologies-Follow : Returns (Follows old) (sync_apologies lib h eon dkg)
    unfolding sync_apologies
    apologies-Follow =
        fold-Returns (Follows old) (sync_apology lib eon) apology-Follows dkg (get_apologies eon h)
          f
