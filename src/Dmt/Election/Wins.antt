-- ===== src/Dmt/Election/Wins.antt =====
-- The granted votes of a term make a candidate a leader.
use datura.Prelude.{
  ℕ, ◌+◌, ◌/◌, ◌%◌, ◌^◌, ◌≤◌, ◌<◌, max, ◌≡◌, refl, ap, ◌∙◌, true, false, Option, none, some, List,
  [], ◌∷◌, length, arith, leb, All, if◌then◌else◌, Bool-cases, inl, inr, ◌≢◌,
}
use mathlib.Core.Path.{subst}
use datura.Dmt.Election.{
  candidate, leader, Election, try_promote_to_leader, start_election, publish_into, publish_vote,
  drain_queue, drain_votes, vote_granted,
}

-- The answers of peers that grant their votes, one after another.
unfoldable pub votes_granted : List ℕ → Election → Option Election
votes_granted [] e = some e
votes_granted (voter ∷ voters) e = elim (vote_granted e voter) [
  | none ↦ none
  | some e' ↦ votes_granted voters e'
]

-- A candidate of a term that has some of the votes that it needs, or its leader.
abbrev pub standing : Election → ℕ → ℕ → Election
standing e needed votes = record e {
  role = candidate;
  votes_received = votes;
  votes_needed = needed;
  vote_ring = some [];
  closed = false;
  leader_metric = false;
}

abbrev pub leading : Election → ℕ → ℕ → Election
leading e needed votes = record e {
  role = leader;
  votes_received = votes;
  votes_needed = needed;
  vote_ring = some [];
  closed = false;
  leader_metric = true;
}

vote_standing :
    (e : Election) (needed votes voter : ℕ)
    → voter ≢ 0
    → votes < needed
    → needed < 2 ^ 32
    → vote_granted (standing e needed votes) voter
      ≡ some (
          if leb needed (votes + 1)
          then leading e needed (votes + 1)
          else standing e needed (votes + 1))
unfolding vote_granted publish_vote publish_into drain_votes drain_queue try_promote_to_leader
vote_standing e needed votes voter v h b = ground arith

vote_leading :
    (e : Election) (needed votes voter : ℕ)
    → vote_granted (leading e needed votes) voter ≡ some (leading e needed votes)
unfolding vote_granted publish_vote publish_into drain_votes drain_queue try_promote_to_leader
vote_leading e needed votes voter = ground arith

-- What a count of votes makes of the node.
pub record Elects (term self needed votes : ℕ) (e : Election) : Type 0 where
  pub its_term : e.term ≡ term
  pub its_vote : e.voted_for ≡ self
  pub wins : needed ≤ votes → (e.role ≡ leader) × (e.leader_metric ≡ true)
  pub waits : votes < needed → (e.role ≡ candidate) × (e.votes_received ≡ votes)

leading_lem :
    (e : Election) (needed votes : ℕ) (voters : List ℕ)
    → votes_granted voters (leading e needed votes) ≡ some (leading e needed votes)
unfolding votes_granted
leading_lem e needed votes [] = refl
leading_lem e needed votes (voter ∷ voters) =
    rw (votes_granted, vote_leading e needed votes voter) (leading_lem e needed votes voters)

standing_lem :
    (e : Election) (needed votes : ℕ) (voters : List ℕ)
    → All (λ voter. voter ≢ 0) voters
    → votes < needed
    → needed < 2 ^ 32
    → (e' : Election) × (votes_granted voters (standing e needed votes) ≡ some e')
      × Elects e.term e.voted_for needed (votes + length voters) e'
unfolding votes_granted
standing_lem e needed votes [] a h b = (
  standing e needed votes,
  refl,
  record {
    its_term = refl;
    its_vote = refl;
    wins = λ w. absurd (omega arith);
    waits = λ w. (refl, omega arith);
  },
)
standing_lem e needed votes (voter ∷ voters) (v, a) h b =
    elim (Bool-cases (leb needed (votes + 1))) [
      | inl enough ↦ (
        leading e needed (votes + 1),
        rw (votes_granted, vote_standing e needed votes voter v h b, enough)
            (leading_lem e needed (votes + 1) voters),
        record {
          its_term = refl;
          its_vote = refl;
          wins = λ w. (refl, refl);
          waits = λ w. absurd (ground arith);
        },
      )
      | inr more ↦
          let (e', done, elects) = standing_lem e needed (votes + 1) voters a (ground arith) b in
          (
            e',
            rw (votes_granted, vote_standing e needed votes voter v h b, more) done,
            subst (λ (n : ℕ). Elects e.term e.voted_for needed n e')
                {x = (votes + 1) + length voters} (omega arith) elects,
          )
    ]

promoted :
    (e : Election) (needed : ℕ)
    → try_promote_to_leader (standing e needed 1)
      ≡ (if leb needed 1 then leading e needed 1 else standing e needed 1)
unfolding try_promote_to_leader
promoted e needed = ground arith

start_lem :
    (e : Election) (peers : ℕ)
    → e.vote_ring ≡ some []
    → e.closed ≡ false
    → max e.quorum_size (peers / 2 + 1) < 2 ^ 32
    → let needed = max e.quorum_size (peers / 2 + 1) in
      let e' = record e { term = (e.term + 1) % 2 ^ 64; voted_for = e.self_hash } in
      start_election e peers ≡ (if leb needed 1 then leading e' needed 1 else standing e' needed 1)
unfolding start_election
start_lem e peers ring running bound =
    let needed : ℕ = max e.quorum_size (peers / 2 + 1) in
    let fits : needed % 2 ^ 32 ≡ needed = omega arith in
    ap try_promote_to_leader (λ i. record e {
      role = candidate;
      term = (e.term + 1) % 2 ^ 64;
      voted_for = e.self_hash;
      votes_received = 1;
      votes_needed = fits i;
      vote_ring = ring i;
      closed = running i;
      leader_metric = false;
    })
    ∙ promoted (record e { term = (e.term + 1) % 2 ^ 64; voted_for = e.self_hash }) needed

-- A node that starts an election with an empty vote ring, and gets granted votes before anything
-- else happens, ends as the leader of the new term, with its own vote, if they and its own are as
-- many as the quorum and a majority of the peers and itself ask for; with fewer it is still a
-- candidate that has counted each of them. The number needed fits 32 bits, the election is not
-- closed, and no voter's hash is 0.
pub start_election-Elects :
    (e : Election) (peers : ℕ) (voters : List ℕ)
    → e.vote_ring ≡ some []
    → e.closed ≡ false
    → max e.quorum_size (peers / 2 + 1) < 2 ^ 32
    → All (λ voter. voter ≢ 0) voters
    → (e' : Election) × (votes_granted voters (start_election e peers) ≡ some e')
      × Elects
          ((e.term + 1) % 2 ^ 64)
          e.self_hash
          (max e.quorum_size (peers / 2 + 1))
          (1 + length voters)
          e'
start_election-Elects e peers voters ring running bound a =
    let needed : ℕ = max e.quorum_size (peers / 2 + 1) in
    let e0 : Election = record e { term = (e.term + 1) % 2 ^ 64; voted_for = e.self_hash } in
    elim (Bool-cases (leb needed 1)) [
      | inl enough ↦ (
        leading e0 needed 1,
        rw (start_lem e peers ring running bound, enough) (leading_lem e0 needed 1 voters),
        record {
          its_term = refl;
          its_vote = refl;
          wins = λ w. (refl, refl);
          waits = λ w. absurd (ground arith);
        },
      )
      | inr more ↦
          let (e', done, elects) = standing_lem e0 needed 1 voters a (ground arith) bound in
          (e', rw (start_lem e peers ring running bound, more) done, elects)
    ]
