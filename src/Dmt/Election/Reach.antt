-- ===== src/Dmt/Election/Reach.antt =====
-- The states of a node that its operations lead to, with the votes it cast on the way.
use datura.Prelude.{ℕ, ◌+◌, ◌%◌, ◌^◌, ◌<◌, ◌≡◌, ◌≢◌, true, false, Option, some, List, [], ◌∷◌}
use datura.Prelude.Bytes.{Bytes}
use datura.Dmt.Election.{
  Election, new_election, start_election, vote_granted, heartbeat_answered, handle_vote_request,
  handle_heartbeat, update_log_state, close,
}

-- A vote: the term and the hash of the candidate.
pub record Vote : Type 0 where
  pub term : ℕ
  pub candidate_hash : ℕ

-- `Reach e votes`: from a new election, with `votes` cast, the last one first, its own votes for
-- itself included.
pub data Reach : Election → List Vote → Type 0 where
  started :
      (quorum_size self_hash : ℕ) (ring : Option (List ℕ))
      → Reach (new_election quorum_size self_hash ring) []
  timed_out :
      (e : Election) (votes : List Vote) (peers : ℕ)
      → Reach e votes
      → Reach
          (start_election e peers)
          (record { term = (e.term + 1) % 2 ^ 64; candidate_hash = e.self_hash } ∷ votes)
  granted :
      (e e' : Election) (votes : List Vote) (voter : ℕ)
      → Reach e votes
      → vote_granted e voter ≡ some e'
      → Reach e' votes
  answered :
      (e : Election) (votes : List Vote) (term : ℕ)
      → Reach e votes
      → Reach (heartbeat_answered e term) votes
  voted :
      (e e' : Election) (votes : List Vote) (term candidate_hash index log_term : ℕ)
      → Reach e votes
      → handle_vote_request e term candidate_hash index log_term ≡ (true, e')
      → Reach e' (record { term = term; candidate_hash = candidate_hash } ∷ votes)
  refused :
      (e e' : Election) (votes : List Vote) (term candidate_hash index log_term : ℕ)
      → Reach e votes
      → handle_vote_request e term candidate_hash index log_term ≡ (false, e')
      → Reach e' votes
  beaten :
      (e : Election) (votes : List Vote) (term : ℕ) (leader_id : Bytes)
      → Reach e votes
      → Reach (handle_heartbeat e term leader_id).1 votes
  logged :
      (e : Election) (votes : List Vote) (index term : ℕ)
      → Reach e votes
      → Reach (update_log_state e index term) votes
  ended : (e : Election) (votes : List Vote) → Reach e votes → Reach (close e) votes

-- On the way no timeout comes at the last term, so that no term wraps to 0, and neither the node nor
-- a candidate that it votes for has the hash 0, which stands for no vote.
unfoldable pub Regular : (e : Election) (votes : List Vote) → Reach e votes → Type 0
Regular _ _ (started quorum_size self_hash ring) = self_hash ≢ 0
Regular _ _ (timed_out e votes peers r) = (e.term + 1 < 2 ^ 64) × Regular e votes r
Regular _ _ (granted e e' votes voter r h) = Regular e votes r
Regular _ _ (answered e votes t r) = Regular e votes r
Regular _ _ (voted e e' votes t c i l r h) = (c ≢ 0) × Regular e votes r
Regular _ _ (refused e e' votes t c i l r h) = Regular e votes r
Regular _ _ (beaten e votes t leader_id r) = Regular e votes r
Regular _ _ (logged e votes index t r) = Regular e votes r
Regular _ _ (ended e votes r) = Regular e votes r
