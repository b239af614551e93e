-- ===== src/App/Voting/Tally.antt =====
-- The count of votes, against a plain count.
use shielder.Base.{
  ◌+◌, ◌≤◌, ◌<◌, ◌≡◌, ◌∷◌, ◌==◌, if◌then◌else◌, ℕ, refl, ap, inl, inr, true, false, none, some, [],
  arith, Bool-cases, Option-cases, =ℕ_iff, length, All, Map, get_or_else, HasKeysOnce, get-put,
  put-HasKeysOnce, get, put, word_mod, sign_bit, add64, signed_le, All-map, All-perm, All-get,
  HasKeysOnce-IsFound, nat_eq,
}
use mathlib.Core.List.{Permᴰ}
use mathlib.Core.Path.{subst}
use mathlib.Core.Option.{some-injective}
use shielder.Shmsg.{Address}
use shielder.External.{External}
use shielder.App.Voting.{Voting, num_votes_from, first_winner, outcome_index}

-- How many voters chose the index.
abbrev pub count_votes : ℕ → Map Address ℕ → ℕ
count_votes i [] = 0
count_votes i ((_, vote) ∷ rest) =
    let others = count_votes i rest in if vote == i then others + 1 else others

pub count_votes-le-length : (i : ℕ) (votes : Map Address ℕ) → count_votes i votes ≤ length votes
count_votes-le-length i [] = omega arith
count_votes-le-length i ((a, vote) ∷ rest) = ground (arith, count_votes-le-length i rest)

abbrev read : ℕ → Map ℕ ℕ → ℕ
read i m = get_or_else (get i m) 0

-- Each index reads as what it had and the votes for it.
num_votes_from_lem :
    (i : ℕ) (m : Map ℕ ℕ) (votes : Map Address ℕ)
    → read i m + length votes < word_mod
    → read i (num_votes_from m votes) ≡ read i m + count_votes i votes
unfolding num_votes_from
num_votes_from_lem i m [] h = omega arith
num_votes_from_lem i m ((a, vote) ∷ rest) h =
    let m' = put vote (add64 (read vote m) 1) m in
    ground (
      arith,
      get-put vote i (add64 (read vote m) 1) m,
      =ℕ_iff vote i,
      λ (p : vote ≡ i). ap (λ v. read v m) p,
      num_votes_from_lem i m' rest,
    )

num_votes_from-HasKeysOnce :
    (m : Map ℕ ℕ) (votes : Map Address ℕ) → HasKeysOnce m → HasKeysOnce (num_votes_from m votes)
unfolding num_votes_from
num_votes_from-HasKeysOnce m [] h = h
num_votes_from-HasKeysOnce m ((a, vote) ∷ rest) h =
    num_votes_from-HasKeysOnce (put vote (add64 (read vote m) 1) m) rest
      (put-HasKeysOnce vote (add64 (read vote m) 1) m h)

read_nil : (i : ℕ) → read i [] ≡ 0
unfolding get
read_nil i = refl

-- Every pair of the tally has the number of votes for its index.
abbrev IsCount : Map Address ℕ → ℕ × ℕ → Type 0
IsCount votes (i, n) = n ≡ count_votes i votes

num_votes_from-IsCount :
    (votes : Map Address ℕ)
    → length votes < word_mod
    → All (IsCount votes) (num_votes_from [] votes)
num_votes_from-IsCount votes h =
    All-map
      (λ (p : ℕ × ℕ) (f : get p.0 (num_votes_from [] votes) ≡ some p.1).
        ground (arith, f, read_nil p.0, num_votes_from_lem p.0 [] votes))
      (num_votes_from [] votes)
      (HasKeysOnce-IsFound (num_votes_from [] votes) (num_votes_from-HasKeysOnce [] votes refl))

pub first_winner-some :
    (P : ℕ × ℕ → Type 0) (required i : ℕ) (m : Map ℕ ℕ)
    → All P m
    → first_winner required m ≡ some i
    → (n : ℕ) × P (i, n) × (signed_le required n ≡ true)
unfolding first_winner
first_winner-some P required i [] h e = cc
first_winner-some P required i ((j, n) ∷ m) h e = elim (Bool-cases (signed_le required n)) [
  | inl wins ↦ (n, subst (λ k. P (k, n)) (some-injective j i (rw wins at e)) h.0, wins)
  | inr loses ↦ first_winner-some P required i m h.1 (rw loses at e)
]

first_winner-none :
    (required : ℕ) (m : Map ℕ ℕ)
    → first_winner required m ≡ none
    → All (λ (p : ℕ × ℕ). signed_le required p.1 ≡ false) m
unfolding first_winner
first_winner-none required [] e = tt
first_winner-none required ((j, n) ∷ m) e = elim (Bool-cases (signed_le required n)) [
  | inl wins ↦ absurd (ground arith)
  | inr loses ↦ (loses, first_winner-none required m (rw loses at e))
]

-- `range` finds each pair of a map once, in some order.
abbrev pub IterationLaw : External → Type 0
IterationLaw x = (m : Map ℕ ℕ) → Permᴰ (x.iteration m) m

module _ (x : External) (law : IterationLaw x) where
  -- For fewer than 2^63 votes, a positive number of required votes below 2^63, and any order in
  -- which Go iterates, an index that is returned has at least the votes required, and none is
  -- returned only if every index has fewer.
  pub outcome_index_lem :
      (v : Voting) (required : ℕ)
      → length v.votes < sign_bit
      → 0 < required
      → required < sign_bit
      → ((i : ℕ) → outcome_index x v required ≡ some i → required ≤ count_votes i v.votes)
        × (outcome_index x v required ≡ none → (i : ℕ) → count_votes i v.votes < required)
  unfolding outcome_index
  outcome_index_lem v required h pos r = (λ i e. found i e, λ e i. missing e i)
    where
      tally : Map ℕ ℕ
      tally = num_votes_from [] v.votes

      counted : All (IsCount v.votes) tally
      counted = num_votes_from-IsCount v.votes (omega arith)

      found :
          (i : ℕ)
          → first_winner required (x.iteration tally) ≡ some i
          → required ≤ count_votes i v.votes
      found i e =
          let (n, c, s) =
            first_winner-some (IsCount v.votes) required i (x.iteration tally)
              ((All-perm (IsCount v.votes) (law tally)).1 counted) e in
          ground (arith, c, s, count_votes-le-length i v.votes)

      missing :
          first_winner required (x.iteration tally) ≡ none
          → (i : ℕ) → count_votes i v.votes < required
      missing e i = elim (Option-cases (get i tally)) [
        | inl absent ↦ ground (arith, read_nil i, num_votes_from_lem i [] v.votes)
        | inr (n, p) ↦ ground (
          arith,
          All-get (λ (q : ℕ × ℕ). signed_le required q.1 ≡ false) tally i n
              ((All-perm (λ (q : ℕ × ℕ). signed_le required q.1 ≡ false) (law tally)).0
                (first_winner-none required (x.iteration tally) e))
              p,
          All-get (IsCount v.votes) tally i n counted p,
          count_votes-le-length i v.votes,
        )
      ]
