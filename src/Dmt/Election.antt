-- ===== src/Dmt/Election.antt =====
-- dmt/election.go: the election state of one node, one operation at a time. The answers of the
-- peers' RPCs arrive as operations of their own. Left out: the timers, and the metrics but the
-- leader flag.
pub mod Reach
pub mod Laws
pub mod Votes
pub mod Once
pub mod Terms
pub mod Wins
mod Tests
use datura.Prelude.{
  ℕ, suc, ◌+◌, ◌/◌, ◌%◌, ◌^◌, max, Bool, true, false, ◌&&◌, ◌||◌, not, Option, none, some, List, [],
  ◌∷◌, ◌++◌, length, ltb, leb, ◌==◌, if◌then◌else◌,
}
use datura.Prelude.Bytes.{Bytes}

pub data NodeState : Type 0 where
  follower candidate leader : NodeState

abbrev pub is_candidate : NodeState → Bool
is_candidate follower = false
is_candidate candidate = true
is_candidate leader = false

abbrev pub is_leader : NodeState → Bool
is_leader follower = false
is_leader candidate = false
is_leader leader = true

-- `Election` with its node's quorum size and identifier, the latter hashed. The vote ring stands as
-- the queue of its values; `none` is the nil ring of a failed allocation.
pub record Election : Type 0 where
  pub quorum_size : ℕ
  pub self_hash : ℕ
  pub role : NodeState
  pub term : ℕ
  pub voted_for : ℕ
  pub last_log_term : ℕ
  pub last_log_index : ℕ
  pub votes_received : ℕ
  pub votes_needed : ℕ
  pub vote_ring : Option (List ℕ)
  pub closed : Bool
  pub leader_metric : Bool

unfoldable pub new_election : ℕ → ℕ → Option (List ℕ) → Election
new_election quorum_size self_hash ring = record {
  quorum_size = quorum_size;
  self_hash = self_hash;
  role = follower;
  term = 0;
  voted_for = 0;
  last_log_term = 0;
  last_log_index = 0;
  votes_received = 0;
  votes_needed = 0;
  vote_ring = ring;
  closed = false;
  leader_metric = false;
}

abbrev pub become_leader : Election → Election
become_leader e = record e { role = leader; leader_metric = true }

unfoldable pub try_promote_to_leader : Election → Election
try_promote_to_leader e =
    if ltb e.votes_received e.votes_needed
    then e
    else (if is_candidate e.role then become_leader e else e)

-- `startElection`, up to its requests to the `peers` peers.
unfoldable pub start_election : Election → ℕ → Election
unfolding try_promote_to_leader
start_election e peers = try_promote_to_leader (record e {
  role = candidate;
  term = (e.term + 1) % 2 ^ 64;
  voted_for = e.self_hash;
  leader_metric = false;
  votes_needed = max e.quorum_size (peers / 2 + 1) % 2 ^ 32;
  votes_received = 1;
})

unfoldable pub step_down : Election → ℕ → Election
step_down e new_term = record e {
  role = follower;
  term = new_term;
  voted_for = 0;
  leader_metric = false;
}

-- The loop of `publishVote` on the ring; `none` where it waits for room.
unfoldable pub publish_into : Election → ℕ → List ℕ → Option Election
publish_into e voter votes =
    if voter == 0 || e.closed
    then some e
    else (if ltb (length votes) 128
        then some (record e { vote_ring = some (votes ++ (voter ∷ [])) })
        else none)

unfoldable pub publish_vote : Election → ℕ → Option Election
unfolding publish_into
publish_vote e voter = elim e.vote_ring [ none ↦ some e | some votes ↦ publish_into e voter votes ]

-- The loop of `drainVotes` over the values of the ring.
unfoldable pub drain_queue : List ℕ → Election → Election
unfolding try_promote_to_leader
drain_queue [] e = record e { vote_ring = some [] }
drain_queue (voter ∷ votes) e =
    let popped = record e { vote_ring = some votes } in
    let counted = record popped { votes_received = (e.votes_received + 1) % 2 ^ 32 } in
    let rest = drain_queue votes counted in
    if voter == 0
    then popped
    else (if not (is_candidate e.role)
        then popped
        else (if leb counted.votes_needed counted.votes_received
            then try_promote_to_leader counted
            else rest))

unfoldable pub drain_votes : Election → Election
unfolding drain_queue
drain_votes e = elim e.vote_ring [ none ↦ e | some votes ↦ drain_queue votes e ]

-- A vote that a peer grants: `publishVote` and `drainVotes` of the goroutine that asked for it.
unfoldable pub vote_granted : Election → ℕ → Option Election
unfolding publish_vote drain_votes
vote_granted e voter = elim (publish_vote e voter) [ none ↦ none | some e' ↦ some (drain_votes e') ]

-- The answer of a peer to a heartbeat.
unfoldable pub heartbeat_answered : Election → ℕ → Election
unfolding step_down
heartbeat_answered e term = if ltb e.term term then step_down e term else e

-- The candidate's log is at least as long as the node's.
abbrev pub log_ok : Election → ℕ → ℕ → Bool
log_ok e last_log_index last_log_term =
    ltb e.last_log_term last_log_term
    || (last_log_term == e.last_log_term && leb e.last_log_index last_log_index)

-- `handleVoteRequest` once the node is in the later of the two terms.
unfoldable pub grant_vote : Election → ℕ → ℕ → ℕ → ℕ → Bool × Election
grant_vote e term candidate_hash last_log_index last_log_term =
    if ltb term e.term || (not (e.voted_for == 0) && not (e.voted_for == candidate_hash))
    then (false, e)
    else (if not (log_ok e last_log_index last_log_term)
        then (false, e)
        else (true, record e { voted_for = candidate_hash }))

unfoldable pub handle_vote_request : Election → ℕ → ℕ → ℕ → ℕ → Bool × Election
unfolding grant_vote step_down
handle_vote_request e term candidate_hash last_log_index last_log_term =
    grant_vote (if ltb e.term term then step_down e term else e) term candidate_hash last_log_index
      last_log_term

unfoldable pub handle_heartbeat : Election → ℕ → Bytes → Bool × Election
unfolding step_down
handle_heartbeat e term leader_id =
    if ltb e.term term
    then (true, step_down e term)
    else (if ltb term e.term
        then (false, e)
        else (not (is_leader e.role) && not (length leader_id == 0), e))

unfoldable pub update_log_state : Election → ℕ → ℕ → Election
update_log_state e index term =
    if leb index e.last_log_index
    then e
    else record e { last_log_index = index; last_log_term = term }

unfoldable pub close : Election → Election
close e = record e { closed = true }
