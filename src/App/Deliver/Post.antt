-- ===== src/App/Deliver/Post.antt =====
-- What holds of every delivery: it returns, and what its new state keeps.
use shielder.Base.{◌≡◌, ◌∙◌, refl, some, get, ok, err, nat_eq}
use shielder.Shmsg.{Address}
use shielder.External.{External}
use shielder.Config.{BatchConfig, config_eq}
use shielder.App.Voting.{ConfigVoting}
use shielder.App.Voting.Winner.{IsConfigVotingValid}
use shielder.App.Powermap.{ValidatorPubkey}
use shielder.App.State.{App, start_dkg}
use shielder.App.State.Inv.{IsValid}
use shielder.App.State.Extend.{start_dkg_same, start_dkg-IsValid}
use shielder.App.Deliver.{Handled}

-- What a delivery keeps: the invariant, the nonces, the chain's name, and every check-in.
pub record Delivered (app app' : App) : Type 0 where
  pub valid : IsValid app'
  pub same_nonces : app'.nonce_tracker ≡ app.nonce_tracker
  pub same_chain : app'.chain_id ≡ app.chain_id
  pub identities :
      (a : Address) (pk : ValidatorPubkey)
      → get a app.identities ≡ some pk
      → get a app'.identities ≡ some pk

-- The handler returns, with a state of which `Q` holds.
abbrev pub Post : {x : External} → (App → Type 0) → Handled x → Type 0
Post Q (ok (app, r)) = Q app
Post Q (err e) = ⊥

pub Post-map :
    {x : External} (Q R : App → Type 0)
    → ((app : App) → Q app → R app)
    → (h : Handled x) → Post Q h
    → Post R h
Post-map Q R f (ok (app, r)) q = f app q
Post-map Q R f (err e) q = q

pub Delivered-trans : {a b c : App} → Delivered a b → Delivered b c → Delivered a c
Delivered-trans d e = record {
  valid = e.valid;
  same_nonces = e.same_nonces ∙ d.same_nonces;
  same_chain = e.same_chain ∙ d.same_chain;
  identities = λ a pk h. e.identities a pk (d.identities a pk h);
}

-- The invariant speaks of four fields.
pub IsValid-same :
    {app app' : App}
    → IsValid app
    → (app'.configs ≡ app.configs)
      × (app'.config_voting ≡ app.config_voting)
      × (app'.eon_start_votings ≡ app.eon_start_votings)
      × (app'.dkg_map ≡ app.dkg_map)
    → IsValid app'
IsValid-same v h = record {
  guard = rw (h.0) (v.guard);
  ordered = rw (h.0) (v.ordered);
  voting = rw (h.1) (v.voting);
  eon_votings = rw (h.2) (v.eon_votings);
  filed = rw (h.3) (v.filed);
}

-- A new state with the nonces, the chain's name and the check-ins of the old.
pub Delivered-valid :
    {app app' : App}
    → IsValid app'
    → (app'.nonce_tracker ≡ app.nonce_tracker)
      × (app'.chain_id ≡ app.chain_id)
      × (app'.identities ≡ app.identities)
    → Delivered app app'
Delivered-valid v h = record {
  valid = v;
  same_nonces = h.0;
  same_chain = h.1;
  identities = λ a pk k. rw (h.2) k;
}

pub Delivered-refl : {app : App} → IsValid app → Delivered app app
Delivered-refl v = Delivered-valid v (refl, refl, refl)

pub with_voting :
    (app : App) (voting : ConfigVoting)
    → IsValid app
    → IsConfigVotingValid voting
    → Delivered app (record app { config_voting = voting })
with_voting app voting v w =
    Delivered-valid
      (record {
        guard = v.guard;
        ordered = v.ordered;
        voting = w;
        eon_votings = v.eon_votings;
        filed = v.filed;
      })
      (refl, refl, refl)

pub started-Delivered :
    (app added : App) (bc : BatchConfig)
    → Delivered app added
    → Delivered app (start_dkg added bc).0
started-Delivered app added bc d =
    let (_, nonces, chain, ids) = start_dkg_same added bc in
    Delivered-trans d (Delivered-valid (start_dkg-IsValid added bc d.valid) (nonces, chain, ids))
