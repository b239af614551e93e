-- ===== src/App/Transactions/Generations.antt =====
-- Every message of a key generation is answered, and keeps the invariant.
use shielder.Base.{
  ◌≡◌, ◌∙◌, ℕ, refl, inl, inr, some, Option-cases, get, put, All-get, All-put, Result-cases, nat_eq,
}
use shielder.Shmsg.{
  Address, PolyEvalMsg, PolyCommitmentMsg, AccusationMsg, ApologyMsg, EpochSecretKeyShareMsg,
}
use shielder.External.{External}
use shielder.App.Dkg.{
  DkgInstance, register_poly_eval_msg, register_poly_commitment_msg, register_accusation_msg,
  register_apology_msg,
}
use shielder.App.Dkg.Steps.{Step, Step-Extends}
use shielder.App.Dkg.Steps.Step.{poly_eval, poly_commitment, accusation, apology}
use shielder.App.Messages.{
  parse_poly_eval_msg, parse_poly_commitment_msg, parse_accusation_msg, parse_apology_msg,
  parse_epoch_secret_key_share_msg,
}
use shielder.App.State.{App}
use shielder.App.State.Inv.{IsValid, IsFiled}
use shielder.App.Deliver.Post.{Delivered, Post, Delivered-valid, Delivered-refl}
use shielder.App.Transactions.{
  handle_poly_eval_msg, handle_poly_commitment_msg, handle_accusation_msg, handle_apology_msg,
  handle_epoch_secret_key_share_msg,
}

-- A step of the key generation that stands under an eon is stored under that eon.
stepped-Delivered :
    (app : App) (eon : ℕ) (dkg dkg' : DkgInstance)
    → IsValid app
    → get eon app.dkg_map ≡ some dkg
    → Step dkg dkg'
    → Delivered app (record app { dkg_map = put eon dkg' app.dkg_map })
stepped-Delivered app eon dkg dkg' v found step =
    let filed : dkg.eon ≡ eon = All-get IsFiled app.dkg_map eon dkg v.filed found in
    Delivered-valid
      (record {
        guard = v.guard;
        ordered = v.ordered;
        voting = v.voting;
        eon_votings = v.eon_votings;
        filed = All-put IsFiled eon dkg' app.dkg_map v.filed ((Step-Extends step).same_eon ∙ filed);
      })
      (refl, refl, refl)

module _ (x : External) where
  pub handle_poly_eval_msg-Delivered :
      (app : App) (msg : PolyEvalMsg) (sender : Address)
      → IsValid app
      → Post (Delivered app) (handle_poly_eval_msg x app msg sender)
  unfolding handle_poly_eval_msg
  handle_poly_eval_msg-Delivered app msg sender v =
      elim (Result-cases (parse_poly_eval_msg x msg sender)) [
        | inr (e, p) ↦ rw (p, handle_poly_eval_msg) (Delivered-refl v)
        | inl (m, p) ↦
            rw (p, handle_poly_eval_msg)
              (elim (Option-cases (get m.eon app.dkg_map)) [
                | inl q ↦ rw q (Delivered-refl v)
                | inr (dkg, q) ↦ rw q (elim (Result-cases (register_poly_eval_msg dkg m)) [
                  | inr (e, r) ↦ rw r (Delivered-refl v)
                  | inl (dkg', r) ↦ rw r (stepped-Delivered app m.eon dkg dkg' v q (poly_eval m r))
                ])
              ])
      ]

  pub handle_poly_commitment_msg-Delivered :
      (app : App) (msg : PolyCommitmentMsg) (sender : Address)
      → IsValid app
      → Post (Delivered app) (handle_poly_commitment_msg x app msg sender)
  unfolding handle_poly_commitment_msg
  handle_poly_commitment_msg-Delivered app msg sender v =
      elim (Result-cases (parse_poly_commitment_msg x msg sender)) [
        | inr (e, p) ↦ rw (p, handle_poly_commitment_msg) (Delivered-refl v)
        | inl (m, p) ↦
            rw (p, handle_poly_commitment_msg)
              (elim (Option-cases (get m.eon app.dkg_map)) [
                | inl q ↦ rw q (Delivered-refl v)
                | inr (dkg, q) ↦ rw q (elim (Result-cases (register_poly_commitment_msg dkg m)) [
                  | inr (e, r) ↦ rw r (Delivered-refl v)
                  | inl (dkg', r) ↦
                      rw r (stepped-Delivered app m.eon dkg dkg' v q (poly_commitment x m r))
                ])
              ])
      ]

  pub handle_accusation_msg-Delivered :
      (app : App) (msg : AccusationMsg) (sender : Address)
      → IsValid app
      → Post (Delivered app) (handle_accusation_msg x app msg sender)
  unfolding handle_accusation_msg
  handle_accusation_msg-Delivered app msg sender v =
      elim (Result-cases (parse_accusation_msg x msg sender)) [
        | inr (e, p) ↦ rw (p, handle_accusation_msg) (Delivered-refl v)
        | inl (m, p) ↦
            rw (p, handle_accusation_msg)
              (elim (Option-cases (get m.eon app.dkg_map)) [
                | inl q ↦ rw q (Delivered-refl v)
                | inr (dkg, q) ↦ rw q (elim (Result-cases (register_accusation_msg dkg m)) [
                  | inr (e, r) ↦ rw r (Delivered-refl v)
                  | inl (dkg', r) ↦ rw r (stepped-Delivered app m.eon dkg dkg' v q (accusation m r))
                ])
              ])
      ]

  pub handle_apology_msg-Delivered :
      (app : App) (msg : ApologyMsg) (sender : Address)
      → IsValid app
      → Post (Delivered app) (handle_apology_msg x app msg sender)
  unfolding handle_apology_msg
  handle_apology_msg-Delivered app msg sender v =
      elim (Result-cases (parse_apology_msg x msg sender)) [
        | inr (e, p) ↦ rw (p, handle_apology_msg) (Delivered-refl v)
        | inl (m, p) ↦
            rw (p, handle_apology_msg)
              (elim (Option-cases (get m.eon app.dkg_map)) [
                | inl q ↦ rw q (Delivered-refl v)
                | inr (dkg, q) ↦ rw q (elim (Result-cases (register_apology_msg dkg m)) [
                  | inr (e, r) ↦ rw r (Delivered-refl v)
                  | inl (dkg', r) ↦ rw r (stepped-Delivered app m.eon dkg dkg' v q (apology m r))
                ])
              ])
      ]

  pub handle_epoch_secret_key_share_msg-Delivered :
      (app : App) (msg : EpochSecretKeyShareMsg) (sender : Address)
      → IsValid app
      → Post (Delivered app) (handle_epoch_secret_key_share_msg x app msg sender)
  unfolding handle_epoch_secret_key_share_msg
  handle_epoch_secret_key_share_msg-Delivered app msg sender v =
      elim (Result-cases (parse_epoch_secret_key_share_msg x msg sender)) [
        | inr (e, p) ↦ rw (p, handle_epoch_secret_key_share_msg) (Delivered-refl v)
        | inl (m, p) ↦ rw (p, handle_epoch_secret_key_share_msg) (Delivered-refl v)
      ]
