-- ===== src/App/Voting/Winner.antt =====
-- Votes stay within the candidates, so that no outcome panics; and a vote can only decide for the
-- config that it is cast for.
use mathlib.Core.Option.{some-injective}
use shielder.Base.{
  ◌+◌, ◌≤◌, ◌<◌, ◌≡◌, ◌∙◌, ◌∷◌, ◌++◌, ◌==◌, if◌then◌else◌, ℕ, zero, suc, refl, ap, inl, inr, Option,
  none, some, List, [], arith, Bool-cases, Option-cases, Eq, length, get_elem?, length-append, All,
  Map, get_or_else, get, put, sign_bit, add64, ok, All-map, All-perm, All-put, put_new, nat_eq,
}
use shielder.Shmsg.{Address}
use shielder.External.{External}
use shielder.Config.{BatchConfig, config_eq}
use shielder.App.Voting.{
  Voting, ConfigVoting, EonStartVoting, num_votes_from, candidate_index, candidate_at,
  add_vote_for_index, new_config_voting, new_eon_start_voting, add_config_vote, add_eon_start_vote,
  outcome_index, config_outcome, eon_start_outcome,
}
use shielder.App.Voting.Tally.{count_votes, IterationLaw, first_winner-some, outcome_index_lem}

-- Every vote is for one of the first `n` indices.
abbrev pub VotesBelow : ℕ → Voting → Type 0
VotesBelow n v = All (λ (p : Address × ℕ). p.1 < n) v.votes

VotesBelow-mono : (m n : ℕ) (v : Voting) → m ≤ n → VotesBelow m v → VotesBelow n v
VotesBelow-mono m n v h = All-map (λ p q. omega arith) v.votes

module _ {ℓ} {A : Type ℓ} ⦃e : Eq A⦄ where
  -- The index found is one of the list's, and the candidate there is the one asked for.
  candidate_index_lem :
      (i j : ℕ) (cs : List A) (c : A)
      → candidate_index i cs c ≡ some j
      → (n : ℕ) × (j ≡ i + n) × (n < length cs) × (get_elem? cs n ≡ some c)
  unfolding candidate_index
  candidate_index_lem i j [] c h = cc
  candidate_index_lem i j (b ∷ cs) c h = elim (Bool-cases (b == c)) [
    | inl same ↦ (
      0,
      omega (arith, some-injective i j (rw same at h)),
      omega arith,
      ap some ((e.beq_iff b c).0 same),
    )
    | inr other ↦
        let (n, p, q, r) = candidate_index_lem (i + 1) j cs c (rw other at h) in
        (suc n, omega arith, omega arith, r)
  ]

  pub candidate_index_zero :
      (j : ℕ) (cs : List A) (c : A)
      → candidate_index 0 cs c ≡ some j
      → (j < length cs) × (get_elem? cs j ≡ some c)
  candidate_index_zero j cs c h =
      let (n, p, q, r) = candidate_index_lem 0 j cs c h in
      let same : j ≡ n = omega arith in rw same (q, r)

module _ {ℓ} {A : Type ℓ} where
  get_elem?-append : (cs : List A) (c : A) → get_elem? (cs ++ c ∷ []) (length cs) ≡ some c
  get_elem?-append [] c = refl
  get_elem?-append (b ∷ cs) c = get_elem?-append cs c

  get_elem?-lt : (cs : List A) (i : ℕ) → i < length cs → (c : A) × (get_elem? cs i ≡ some c)
  get_elem?-lt [] i h = elim h [ ]
  get_elem?-lt (c ∷ cs) zero h = (c, refl)
  get_elem?-lt (c ∷ cs) (suc i) h = get_elem?-lt cs i (omega arith)

-- The votes of a voting are for its candidates.
abbrev pub IsConfigVotingValid : ConfigVoting → Type 0
IsConfigVotingValid v = VotesBelow (length v.candidates) v.voting

abbrev pub IsEonStartVotingValid : EonStartVoting → Type 0
IsEonStartVotingValid v = VotesBelow (length v.candidates) v.voting

pub new_config_voting-Valid : IsConfigVotingValid new_config_voting
unfolding new_config_voting
new_config_voting-Valid = tt

pub new_eon_start_voting-Valid : IsEonStartVotingValid new_eon_start_voting
unfolding new_eon_start_voting
new_eon_start_voting-Valid = tt

-- The two ways in which a vote is added: for a candidate that stands already, or for a new one.
add_config_vote_cases :
    (v v' : ConfigVoting) (sender : Address) (bc : BatchConfig)
    → add_config_vote v sender bc ≡ ok v'
    → (get sender v.voting.votes ≡ none)
      × (i : ℕ) × (v'.voting ≡ add_vote_for_index v.voting sender i)
      × (i < length v'.candidates)
      × (get_elem? v'.candidates i ≡ some bc)
      × (length v.candidates ≤ length v'.candidates)
unfolding add_config_vote
add_config_vote_cases v v' sender bc h = elim (Option-cases (candidate_index 0 v.candidates bc)) [
  | inl e ↦ (
    ground (arith, e),
    length v.candidates,
    ground (arith, e),
    ground (arith, e, length-append v.candidates (bc ∷ [])),
    ground (arith, e, get_elem?-append v.candidates bc),
    ground (arith, e, length-append v.candidates (bc ∷ [])),
  )
  | inr (i, e) ↦
      let found = candidate_index_zero i v.candidates bc e in
      (
        ground (arith, e),
        i,
        ground (arith, e),
        ground (arith, e, found),
        ground (arith, e, found),
        ground (arith, e),
      )
]

pub add_config_vote-Valid :
    (v v' : ConfigVoting) (sender : Address) (bc : BatchConfig)
    → add_config_vote v sender bc ≡ ok v'
    → IsConfigVotingValid v
    → IsConfigVotingValid v'
unfolding add_vote_for_index
add_config_vote-Valid v v' sender bc h valid =
    let (_, i, same, below, _, more) = add_config_vote_cases v v' sender bc h in
    rw same (
      All-put (λ (p : Address × ℕ). p.1 < length v'.candidates) sender i v.voting.votes
        (VotesBelow-mono (length v.candidates) (length v'.candidates) v.voting more valid) below)

pub add_eon_start_vote-Valid :
    (v : EonStartVoting) (sender : Address) (batch_index : ℕ)
    → IsEonStartVotingValid v
    → IsEonStartVotingValid (add_eon_start_vote v sender batch_index)
unfolding add_eon_start_vote
add_eon_start_vote-Valid v sender b valid = elim (Option-cases (candidate_index 0 v.candidates b)) [
  | inl e ↦
      rw (e, add_eon_start_vote)
        (rw (length-append v.candidates (b ∷ [])) (
          All-put _ sender (length v.candidates) v.voting.votes
            (VotesBelow-mono _ _ v.voting (omega arith) valid) (omega arith)))
  | inr (i, e) ↦
      rw (e, add_eon_start_vote)
        (All-put _ sender i v.voting.votes valid (candidate_index_zero i v.candidates b e).0)
]

module _ (x : External) (law : IterationLaw x) where
  -- The keys of the tally are the indices voted for.
  num_votes_from-below :
      (n : ℕ) (m : Map ℕ ℕ) (votes : Map Address ℕ)
      → All (λ (p : ℕ × ℕ). p.0 < n) m
      → All (λ (p : Address × ℕ). p.1 < n) votes
      → All (λ (p : ℕ × ℕ). p.0 < n) (num_votes_from m votes)
  unfolding num_votes_from
  num_votes_from-below n m [] h k = h
  num_votes_from-below n m ((a, vote) ∷ rest) h k =
      num_votes_from-below n (put vote (add64 (get_or_else (get vote m) 0) 1) m) rest
        (All-put (λ (p : ℕ × ℕ). p.0 < n) vote (add64 (get_or_else (get vote m) 0) 1) m h k.0) k.1

  outcome_index-below :
      (n required i : ℕ) (v : Voting) → VotesBelow n v → outcome_index x v required ≡ some i → i < n
  unfolding outcome_index
  outcome_index-below n required i v h e =
      (first_winner-some (λ (p : ℕ × ℕ). p.0 < n) required i
        (x.iteration (num_votes_from [] v.votes))
        ((All-perm (λ (p : ℕ × ℕ). p.0 < n) (law (num_votes_from [] v.votes))).1
          (num_votes_from-below n [] v.votes tt h))
        e).1

  candidate_at_total {ℓ} :
      {A : Type ℓ} (cs : List A) (v : Voting) (required : ℕ)
      → VotesBelow (length cs) v
      → (o : Option A) × (candidate_at cs (outcome_index x v required) ≡ ok o)
  candidate_at_total cs v required h = elim (Option-cases (outcome_index x v required)) [
    | inl e ↦ (none, rw e)
    | inr (i, e) ↦
        let (c, p) = get_elem?-lt cs i (outcome_index-below (length cs) required i v h e) in
        (some c, ground (arith, e, p))
  ]

  -- Whatever the number of votes required, an outcome does not panic.
  pub config_outcome_total :
      (v : ConfigVoting) (required : ℕ)
      → IsConfigVotingValid v
      → (o : Option BatchConfig) × (config_outcome x v required ≡ ok o)
  unfolding config_outcome
  config_outcome_total v required h = candidate_at_total v.candidates v.voting required h

  pub eon_start_outcome_total :
      (v : EonStartVoting) (required : ℕ)
      → IsEonStartVotingValid v
      → (o : Option ℕ) × (eon_start_outcome x v required ≡ ok o)
  unfolding eon_start_outcome
  eon_start_outcome_total v required h = candidate_at_total v.candidates v.voting required h

count_votes-append :
    (j i : ℕ) (a : Address) (votes : Map Address ℕ)
    → count_votes j (votes ++ (a, i) ∷ []) ≡ count_votes j votes + (if i == j then 1 else 0)
count_votes-append j i a [] = ground arith
count_votes-append j i a ((b, k) ∷ votes) = ground (arith, count_votes-append j i a votes)

module _ (x : External) (law : IterationLaw x) where
  -- For votes that an `int` can count and a positive number of required votes below 2^63, while no
  -- candidate has that many, the next vote, when it decides, decides for the config it is cast
  -- for, whatever the order in which Go iterates.
  pub config_outcome_winner :
      (v v' : ConfigVoting) (sender : Address) (bc c : BatchConfig) (required : ℕ)
      → length v.voting.votes + 1 < sign_bit
      → 0 < required
      → required < sign_bit
      → ((i : ℕ) → count_votes i v.voting.votes < required)
      → add_config_vote v sender bc ≡ ok v'
      → config_outcome x v' required ≡ ok (some c)
      → c ≡ bc
  unfolding config_outcome add_vote_for_index
  config_outcome_winner v v' sender bc c required bound pos small none_yet h e =
      let (new, i, same, below, at, _) = add_config_vote_cases v v' sender bc h in
      elim (Option-cases (outcome_index x v'.voting required)) [
        | inl e' ↦ absurd (ground (arith, e, e'))
        | inr (j, e') ↦
            let votes : v'.voting.votes ≡ v.voting.votes ++ (sender, i) ∷ [] =
              ap (λ (w : Voting). w.votes) same ∙ put_new sender i v.voting.votes new in
            let enough : required ≤ count_votes j v'.voting.votes =
              (outcome_index_lem x law v'.voting required
                  (omega (arith, ap length votes, length-append v.voting.votes ((sender, i) ∷ [])))
                  pos small).0
                j e' in
            let here : i ≡ j = ground (
              arith,
              none_yet j,
              ap (count_votes j) votes,
              count_votes-append j i sender v.voting.votes,
            ) in
            ground (arith, e, e', at, here)
      ]
