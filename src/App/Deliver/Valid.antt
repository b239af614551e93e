-- ===== src/App/Deliver/Valid.antt =====
-- Every vote on a batch config returns, and keeps the invariant.
use shielder.Base.{
  ◌≡◌, ◌==◌, if◌then◌else◌, inl, inr, Option, none, some, [], Bool-cases, Option-cases, Result, ok,
  err, Result-cases, nat_eq,
}
use shielder.Shmsg.{Address, BatchConfigMsg}
use shielder.External.{External}
use shielder.Config.{BatchConfig, batch_config_from_message, config_eq}
use shielder.App.Voting.{ConfigVoting, new_config_voting, add_config_vote}
use shielder.App.Voting.Tally.{IterationLaw}
use shielder.App.Voting.Winner.{
  IsConfigVotingValid, new_config_voting-Valid, add_config_vote-Valid, config_outcome_total,
}
use shielder.App.State.{
  App, check_config, add_config, allowed_to_vote_on_config_changes, should_start_dkg, start_dkg,
}
use shielder.App.State.Inv.{IsValid, last_config_total}
use shielder.App.State.Extend.{add_config_total, add_config-Added, start_dkg-IsValid}
use shielder.App.Deliver.{
  success, bad_config, not_allowed_to_vote, refuse, accept_config, vote_on_config,
  deliver_batch_config,
}
use shielder.App.Deliver.Post.{
  Delivered, Post, Post-map, Delivered-trans, Delivered-valid, Delivered-refl, with_voting,
  started-Delivered,
}

module _ (x : External) where
  accept_config-Delivered :
      (app : App) (bc : BatchConfig) → IsValid app → Post (Delivered app) (accept_config x app bc)
  unfolding accept_config
  accept_config-Delivered app bc v =
      go (add_config_total fresh bc v.guard).0 (add_config_total fresh bc v.guard).1
    where
      fresh : App
      fresh = record app { config_voting = new_config_voting }

      d_fresh : Delivered app fresh
      d_fresh = with_voting app new_config_voting v new_config_voting-Valid

      go :
          (r : Result _ App)
          → add_config fresh bc ≡ ok r
          → Post (Delivered app) (accept_config x app bc)
      go (err e) p = rw (p, accept_config) d_fresh
      go (ok added) p =
          let a = add_config-Added fresh added bc d_fresh.valid p in
          let d : Delivered app added =
            Delivered-valid a.valid (a.same_nonces, a.same_chain, a.same_identities) in
          let (last, q) =
            last_config_total (start_dkg added bc).0.configs
              (start_dkg-IsValid added bc a.valid).guard in
          rw (p, accept_config)
            (elim (Bool-cases (should_start_dkg added bc)) [
              | inl starts ↦ rw starts (rw q (started-Delivered app added bc d))
              | inr stays ↦ rw stays d
            ])

  vote_on_config-Delivered :
      (law : IterationLaw x) (app : App) (last bc : BatchConfig) (sender : Address)
      → IsValid app
      → Post (Delivered app) (vote_on_config x app last bc sender)
  unfolding vote_on_config
  vote_on_config-Delivered law app last bc sender v =
      elim (Result-cases (add_config_vote app.config_voting sender bc)) [
        | inr (e, p) ↦ rw (p, vote_on_config) (Delivered-refl v)
        | inl (voting, p) ↦
            let valid = add_config_vote-Valid app.config_voting voting sender bc p v.voting in
            let (o, q) = config_outcome_total x law voting last.threshold valid in
            rw (p, vote_on_config) (rw q (decided voting valid o))
      ]
    where
      decided :
          (voting : ConfigVoting)
          → IsConfigVotingValid voting
          → (o : Option BatchConfig)
          → Post (Delivered app) (elim o [
            | none ↦ ok (record app { config_voting = voting }, success [])
            | some _ ↦ accept_config x (record app { config_voting = voting }) bc
          ])
      decided voting valid none = with_voting app voting v valid
      decided voting valid (some c) =
          let d = with_voting app voting v valid in
          Post-map (Delivered (record app { config_voting = voting })) (Delivered app)
            (λ b e. Delivered-trans d e)
            (accept_config x (record app { config_voting = voting }) bc)
            (accept_config-Delivered (record app { config_voting = voting }) bc d.valid)

  pub deliver_batch_config-Delivered :
      (law : IterationLaw x) (app : App) (msg : BatchConfigMsg) (sender : Address)
      → IsValid app
      → Post (Delivered app) (deliver_batch_config x app msg sender)
  unfolding deliver_batch_config
  deliver_batch_config-Delivered law app msg sender v =
      elim (Result-cases (batch_config_from_message x msg)) [
        | inr (e, p) ↦ rw (p, deliver_batch_config) (Delivered-refl v)
        | inl (bc, p) ↦
            let (last, q) = last_config_total app.configs v.guard in
            rw (p, deliver_batch_config)
              (rw q (elim (Bool-cases (last == bc)) [
                | inl same ↦ rw same (Delivered-refl v)
                | inr other ↦ rw other (checked last bc)
              ]))
      ]
    where
      checked :
          (last bc : BatchConfig)
          → Post (Delivered app) (elim (check_config last bc) [
            | some e ↦ refuse x app (bad_config e)
            | none ↦
                if allowed_to_vote_on_config_changes last sender
                then vote_on_config x app last bc sender
                else refuse x app not_allowed_to_vote
          ])
      checked last bc = elim (Option-cases (check_config last bc)) [
        | inr (e, r) ↦ rw r (Delivered-refl v)
        | inl r ↦ rw r (elim (Bool-cases (allowed_to_vote_on_config_changes last sender)) [
          | inl may ↦ rw may (vote_on_config-Delivered law app last bc sender v)
          | inr may_not ↦ rw may_not (Delivered-refl v)
        ])
      ]
