-- ===== src/App/Deliver/Others.antt =====
-- Check-ins, the votes that start a config or an eon, and decryption signatures return, and keep the
-- invariant.
use shielder.Base.{
  ◌≡◌, ◌∷◌, ◌==◌, ℕ, refl, ap, inl, inr, Option, none, some, [], arith, Bool-cases, Option-cases,
  =ℕ_iff, get_or_else, get-put, get, put, delete, Result, ok, err, All-get, All-put, All-delete,
  nat_eq,
}
use shielder.Shmsg.{Bytes, Address, CheckInMsg}
use shielder.External.{External}
use shielder.Events.{decryption_signature_event}
use shielder.Config.{BatchConfig, is_keyper, config_eq}
use shielder.App.Voting.{EonStartVoting, new_eon_start_voting, eon_start_outcome}
use shielder.App.Voting.Tally.{IterationLaw}
use shielder.App.Voting.Winner.{
  IsEonStartVotingValid, new_eon_start_voting-Valid, add_eon_start_vote-Valid,
  eon_start_outcome_total,
}
use shielder.App.Dkg.{DkgInstance}
use shielder.App.Powermap.{ValidatorPubkey, new_validator_pubkey}
use shielder.App.State.{
  SignatureError, BatchState, App, config_before_last, add_decryption_signature, is_keyper_of_any,
  start_dkg,
}
use shielder.App.State.Inv.{get_batch_state_total, IsValid, last_config_total, get_config_total}
use shielder.App.Deliver.{
  success, bad_signature, Handled, refuse, deliver_check_in, deliver_batch_config_started,
  count_eon_start_vote, maybe_start_eon, deliver_eon_start_vote_msg, deliver_decryption_signature,
}
use shielder.App.Deliver.Post.{
  Delivered, Post, Delivered-trans, IsValid-same, Delivered-valid, Delivered-refl,
  started-Delivered,
}

module _ (x : External) where
  pub deliver_check_in-Delivered :
      (app : App) (msg : CheckInMsg) (sender : Address)
      → IsValid app
      → Post (Delivered app) (deliver_check_in x app msg sender)
  unfolding deliver_check_in
  deliver_check_in-Delivered app msg sender v = elim (Option-cases (get sender app.identities)) [
    | inr (pk, p) ↦ rw (p, deliver_check_in) (Delivered-refl v)
    | inl p ↦
        rw (p, deliver_check_in)
          (elim (Bool-cases (is_keyper_of_any app.configs sender)) [
            | inr no_keyper ↦ rw no_keyper (Delivered-refl v)
            | inl keyper ↦
                rw keyper (elim (Option-cases (new_validator_pubkey msg.validator_public_key)) [
                  | inl q ↦ rw q (Delivered-refl v)
                  | inr (pk, q) ↦
                      rw q (elim (Option-cases (x.decompress_pubkey msg.encryption_public_key)) [
                        | inl r ↦ rw r (Delivered-refl v)
                        | inr (key, r) ↦ rw r (checked_in pk p)
                      ])
                ])
          ])
  ]
    where
      checked_in :
          (pk : ValidatorPubkey)
          → get sender app.identities ≡ none
          → Delivered app (record app { identities = put sender pk app.identities })
      checked_in pk new = record {
        valid = IsValid-same v (refl, refl, refl, refl);
        same_nonces = refl;
        same_chain = refl;
        identities = λ a qk h. ground (
          arith,
          get-put sender a pk app.identities,
          =ℕ_iff sender a,
          new,
          h,
          λ (e : sender ≡ a). ap (λ (b : Address). get b app.identities) e,
        );
      }

  pub deliver_batch_config_started-Delivered :
      (app : App) (config_index : ℕ) (sender : Address)
      → IsValid app
      → Post (Delivered app) (deliver_batch_config_started x app config_index sender)
  unfolding deliver_batch_config_started
  deliver_batch_config_started-Delivered app config_index sender v =
      let (last, q) = last_config_total app.configs v.guard in
      rw (q, deliver_batch_config_started)
        (elim (Bool-cases (config_index == last.config_index)) [
          | inr other ↦ rw other (Delivered-refl v)
          | inl same ↦ rw same (elim (Option-cases (config_before_last app.configs)) [
            | inl p ↦ rw p (Delivered-refl v)
            | inr (before, p) ↦ rw p (elim (Bool-cases (is_keyper before sender)) [
              | inr no_keyper ↦ rw no_keyper (Delivered-refl v)
              | inl keyper ↦ rw keyper (elim (Bool-cases last.started) [
                | inl started ↦ rw started (Delivered-refl v)
                | inr waits ↦
                    rw waits
                      (Delivered-valid (IsValid-same v (refl, refl, refl, refl)) (refl, refl, refl))
              ])
            ])
          ])
        ])

  pub deliver_decryption_signature-Delivered :
      (app : App) (batch_index : ℕ) (signature : Bytes) (sender : Address)
      → IsValid app
      → Post (Delivered app) (deliver_decryption_signature x app batch_index signature sender)
  unfolding deliver_decryption_signature
  deliver_decryption_signature-Delivered app batch_index signature sender v =
      let (bs, p) = get_batch_state_total app batch_index v.guard in
      rw (p, deliver_decryption_signature) (added (add_decryption_signature bs sender signature))
    where
      added :
          (r : Result SignatureError BatchState)
          → Post (Delivered app) (elim r as (λ _. Handled x) [
            | err e ↦ refuse x app (bad_signature e)
            | ok signed ↦ ok (
              record app { batch_states = put batch_index signed app.batch_states },
              success (
                  decryption_signature_event (record {
                    height = 0;
                    batch_index = batch_index;
                    sender = sender;
                    signature = signature;
                  })
                  ∷ []),
            )
          ])
      added (err e) = Delivered-refl v
      added (ok signed) =
          Delivered-valid (IsValid-same v (refl, refl, refl, refl)) (refl, refl, refl)

  counted-Delivered :
      (app : App) (sender : Address) (config : BatchConfig) (b : ℕ)
      → IsValid app
      → Delivered app (count_eon_start_vote x app sender config b)
  unfolding count_eon_start_vote
  counted-Delivered app sender config b v =
      let P : ℕ × EonStartVoting → Type 0 = λ p. IsEonStartVotingValid p.1 in
      let old =
        elim (Option-cases (get config.config_index app.eon_start_votings))
          as (λ _.
            IsEonStartVotingValid
              (get_or_else (get config.config_index app.eon_start_votings) new_eon_start_voting)) [
                | inl e ↦ rw e new_eon_start_voting-Valid
                | inr (w, e) ↦
                    rw e (All-get P app.eon_start_votings config.config_index w v.eon_votings e)
              ] in
      Delivered-valid
        (record {
          guard = v.guard;
          ordered = v.ordered;
          voting = v.voting;
          eon_votings =
              All-put P config.config_index _ app.eon_start_votings v.eon_votings
                (add_eon_start_vote-Valid _ sender b old);
          filed = v.filed;
        })
        (refl, refl, refl)

  maybe_start_eon_total :
      (law : IterationLaw x) (app : App) (config : BatchConfig)
      → IsValid app
      → (r : App × Option (DkgInstance × ℕ)) × (maybe_start_eon x app config ≡ ok r)
        × Delivered app r.0
  unfolding maybe_start_eon
  maybe_start_eon_total law app config v =
      elim (Option-cases (get config.config_index app.eon_start_votings)) [
        | inl e ↦ ((app, none), rw (e, maybe_start_eon) refl, Delivered-refl v)
        | inr (w, e) ↦
            let (o, q) = eon_start_outcome_total x law w config.threshold (
              All-get (λ p. IsEonStartVotingValid p.1) app.eon_start_votings config.config_index w
                v.eon_votings e) in
            decided w o e q
      ]
    where
      P : ℕ × EonStartVoting → Type 0
      P p = IsEonStartVotingValid p.1

      deleted : App
      deleted = record app { eon_start_votings = delete config.config_index app.eon_start_votings }

      deleted-IsValid : IsValid deleted
      deleted-IsValid = record {
        guard = v.guard;
        ordered = v.ordered;
        voting = v.voting;
        eon_votings = All-delete P config.config_index app.eon_start_votings v.eon_votings;
        filed = v.filed;
      }

      decided :
          (w : EonStartVoting) (o : Option ℕ)
          → get config.config_index app.eon_start_votings ≡ some w
          → eon_start_outcome x w config.threshold ≡ ok o
          → (r : App × Option (DkgInstance × ℕ)) × (maybe_start_eon x app config ≡ ok r)
            × Delivered app r.0
      decided w none e q = ((app, none), rw (e, maybe_start_eon) (rw q refl), Delivered-refl v)
      decided w (some b) e q = (
        ((start_dkg deleted config).0, some ((start_dkg deleted config).1, b)),
        rw (e, maybe_start_eon) (rw q refl),
        started-Delivered app deleted config (Delivered-valid deleted-IsValid (refl, refl, refl)),
      )

  pub deliver_eon_start_vote_msg-Delivered :
      (law : IterationLaw x) (app : App) (start_batch_index : ℕ) (sender : Address)
      → IsValid app
      → Post (Delivered app) (deliver_eon_start_vote_msg x app start_batch_index sender)
  unfolding deliver_eon_start_vote_msg
  deliver_eon_start_vote_msg-Delivered law app start_batch_index sender v =
      let (config, p) = get_config_total app.configs start_batch_index v.guard in
      rw (p, deliver_eon_start_vote_msg)
        (elim (Bool-cases (is_keyper config sender)) [
          | inr no_keyper ↦ rw no_keyper (Delivered-refl v)
          | inl keyper ↦
              let d = counted-Delivered app sender config start_batch_index v in
              let (r, q, e) =
                maybe_start_eon_total law
                  (count_eon_start_vote x app sender config start_batch_index) config d.valid in
              rw keyper (rw q (Delivered-trans d e))
        ])
