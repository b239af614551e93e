-- ===== src/App/Voting.antt =====
-- Votes for numbered candidates (app/voting.go), for batch configs (app/configvoting.go), and for the
-- batch index at which an eon starts (app/eonvoting.go).
pub mod Tally
pub mod Winner
use shielder.Base.{
  ◌+◌, ◌∷◌, ◌++◌, ◌==◌, if◌then◌else◌, ℕ, Option, none, some, List, [], Eq, length, get_elem?, Map,
  get_or_else, has, get, put, add64, signed_le, Result, ok, err, nat_eq,
}
use shielder.Shmsg.{Address}
use shielder.External.{External}
use shielder.Panic.{Panic, index_out_of_range}
use shielder.Config.{BatchConfig, config_eq}

pub record Voting : Type 0 where
  pub votes : Map Address ℕ

pub record ConfigVoting : Type 0 where
  pub voting : Voting
  pub candidates : List BatchConfig

pub record EonStartVoting : Type 0 where
  pub voting : Voting
  pub candidates : List ℕ

unfoldable pub new_voting : Voting
new_voting = record { votes = [] }

unfoldable pub new_config_voting : ConfigVoting
unfolding new_voting
new_config_voting = record { voting = new_voting; candidates = [] }

unfoldable pub new_eon_start_voting : EonStartVoting
unfolding new_voting
new_eon_start_voting = record { voting = new_voting; candidates = [] }

unfoldable pub add_vote_for_index : Voting → Address → ℕ → Voting
add_vote_for_index v sender index = record v { votes = put sender index v.votes }

-- The first loop of `OutcomeIndex`: how many votes each index has, as `int`s.
unfoldable pub num_votes_from : Map ℕ ℕ → Map Address ℕ → Map ℕ ℕ
num_votes_from num_votes [] = num_votes
num_votes_from num_votes ((_, vote) ∷ rest) =
    num_votes_from (put vote (add64 (get_or_else (get vote num_votes) 0) 1) num_votes) rest

-- The second loop, over the pairs in the order in which `range` finds them.
unfoldable pub first_winner : ℕ → Map ℕ ℕ → Option ℕ
first_winner required [] = none
first_winner required ((index, votes) ∷ rest) =
    if signed_le required votes then some index else first_winner required rest

-- The loops of both `AddVote` functions: the index of a candidate, counted from `i`.
unfoldable pub candidate_index {ℓ} : {A : Type ℓ} ⦃e : Eq A⦄ → ℕ → List A → A → Option ℕ
candidate_index i [] c = none
candidate_index i (b ∷ rest) c = if b == c then some i else candidate_index (i + 1) rest c

-- The error of a sender who votes twice.
pub data VoteError : Type 0 where
  already_voted : VoteError

unfoldable pub add_config_vote :
    ConfigVoting → Address → BatchConfig → Result VoteError ConfigVoting
unfolding candidate_index add_vote_for_index
add_config_vote v sender bc =
    if has sender v.voting.votes
    then err already_voted
    else ok (elim (candidate_index 0 v.candidates bc) [
      | some i ↦ record v { voting = add_vote_for_index v.voting sender i }
      | none ↦ record {
        voting = add_vote_for_index v.voting sender (length v.candidates);
        candidates = v.candidates ++ bc ∷ [];
      }
    ])

unfoldable pub add_eon_start_vote : EonStartVoting → Address → ℕ → EonStartVoting
unfolding candidate_index add_vote_for_index
add_eon_start_vote v sender batch_index = elim (candidate_index 0 v.candidates batch_index) [
  | some i ↦ record v { voting = add_vote_for_index v.voting sender i }
  | none ↦ record {
    voting = add_vote_for_index v.voting sender (length v.candidates);
    candidates = v.candidates ++ batch_index ∷ [];
  }
]

-- `candidates[i]`, which panics out of range.
abbrev pub candidate_at {ℓ} : {A : Type ℓ} → List A → Option ℕ → Result Panic (Option A)
candidate_at cs none = ok none
candidate_at cs (some i) = elim (get_elem? cs i) [
  | some c ↦ ok (some c)
  | none ↦ err index_out_of_range
]

module _ (x : External) where
  unfoldable pub outcome_index : Voting → ℕ → Option ℕ
  unfolding num_votes_from first_winner
  outcome_index v required = first_winner required (x.iteration (num_votes_from [] v.votes))

  unfoldable pub config_outcome : ConfigVoting → ℕ → Result Panic (Option BatchConfig)
  unfolding outcome_index
  config_outcome v required = candidate_at v.candidates (outcome_index v.voting required)

  unfoldable pub eon_start_outcome : EonStartVoting → ℕ → Result Panic (Option ℕ)
  unfolding outcome_index
  eon_start_outcome v required = candidate_at v.candidates (outcome_index v.voting required)
