-- ===== src/Dmt/Election/Tests.antt =====
-- Runs of an election, and the theorems at concrete inputs.
use datura.Prelude.{
  ℕ, ◌≤◌, ◌≡◌, refl, true, false, ◌&&◌, some, List, [], ◌∷◌, arith, ltb, leb, inl, inr,
}
use datura.Dmt.Election.{
  follower, leader, is_candidate, is_leader, Election, new_election, start_election, vote_granted,
  handle_vote_request,
}
use datura.Dmt.Election.Reach.{Vote, Reach, started, timed_out, granted, voted, Regular}
use datura.Dmt.Election.Wins.{votes_granted, Elects, start_election-Elects}
use datura.Dmt.Election.Terms.{one_vote_per_term, leader_has_votes}

-- A node with the hash 7 among three, which need two votes.
abbrev fresh : Election
fresh = new_election 2 7 (some [])

abbrev standing : Election
standing = start_election fresh 2

abbrev won : Election
won = record standing { votes_received = 2; role = leader; leader_metric = true }

won-Reach : Reach won (record { term = 1; candidate_hash = 7 } ∷ [])
unfolding new_election start_election vote_granted
won-Reach = granted standing won _ 5 (timed_out fresh [] 2 (started 2 7 (some []))) refl

abbrev later : Election
later = record won { role = follower; term = 3; voted_for = 9; leader_metric = false }

later-Reach :
    Reach later
      (record { term = 3; candidate_hash = 9 } ∷ record { term = 1; candidate_hash = 7 } ∷ [])
unfolding new_election start_election handle_vote_request
later-Reach = voted won later _ 3 9 4 2 won-Reach refl

-- A vote that was asked for in term 1 counts in term 2.
late_vote_run : vote_granted (start_election standing 2) 5 ≡ some (record won { term = 2 })
unfolding new_election start_election vote_granted
late_vote_run = refl

-- The candidate of term 3 asks once more and gets the vote again.
abbrev votes : List Vote
votes =
    record { term = 3; candidate_hash = 9 }
    ∷ record { term = 3; candidate_hash = 9 }
    ∷ record { term = 1; candidate_hash = 7 }
    ∷ []

again-Reach : Reach later votes
unfolding new_election start_election handle_vote_request
again-Reach = voted later later _ 3 9 5 2 later-Reach refl

again-Regular : Regular later votes again-Reach
unfolding Regular again-Reach later-Reach won-Reach new_election start_election
again-Regular = ((λ h. omega arith), ((λ h. omega arith), (omega arith, (λ h. omega arith))))

one_vote_per_term_example : (◌≡◌ {A = ℕ} 9 9) × (3 ≤ later.term)
one_vote_per_term_example =
    one_vote_per_term later votes (record { term = 3; candidate_hash = 9 })
      (record { term = 3; candidate_hash = 9 }) again-Reach again-Regular (inl refl)
      (inr (inl refl)) refl

leader_has_votes_example :
    ((is_leader won.role && ltb won.votes_received won.votes_needed) ≡ false)
    × ((is_candidate won.role && leb won.votes_needed won.votes_received) ≡ false)
    × (won.leader_metric ≡ is_leader won.role)
leader_has_votes_example = leader_has_votes won _ won-Reach

start_election-Elects_example :
    (e : Election) × (votes_granted (5 ∷ 6 ∷ []) (start_election fresh 4) ≡ some e)
    × Elects 1 7 3 3 e
unfolding new_election
start_election-Elects_example =
    start_election-Elects fresh 4 (5 ∷ 6 ∷ []) refl refl (omega arith)
      ((λ e. absurd (omega arith)), ((λ e. absurd (omega arith)), tt))
