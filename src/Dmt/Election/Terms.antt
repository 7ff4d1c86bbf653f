-- ===== src/Dmt/Election/Terms.antt =====
-- What holds in every state that a node reaches: one vote in each term, and no leader without the
-- votes that it needs.
use datura.Prelude.{
  ℕ, max, ◌%◌, if◌then◌else◌, ◌+◌, ◌^◌, ◌≤◌, ◌<◌, ◌≡◌, ◌≢◌, refl, ◌∙◌, sym, Bool, true, false, ◌&&◌,
  ◌||◌, not, List, ◌∷◌, arith, All, ltb, leb, ◌==◌,
}
use datura.Dmt.Election.{
  follower, step_down, is_candidate, is_leader, Election, new_election, start_election, log_ok,
  grant_vote, handle_vote_request,
}
use datura.Dmt.Election.Reach.{
  Vote, Reach, started, timed_out, granted, answered, voted, refused, beaten, logged, ended,
  Regular,
}
use datura.Dmt.Election.Laws.{Follows, Elected, Knows, Knows-Follows}
use datura.Dmt.Election.Once.{OnePerTerm, All-map, cast_vote, Cast, All-Cast, same_candidate}
use datura.Dmt.Election.Votes.{
  Next, caught_up, caught_up-Next, heartbeat_answered-Next, handle_heartbeat-Next,
  update_log_state-Next, close-Next, vote_granted_lem, start_election_lem, grant_true, grant_false,
  caught_up-term, handle_vote_request-grant,
}

-- What the node knows of its votes in a state that it reaches.
pub record Sound (e : Election) (votes : List Vote) : Type 0 where
  pub known : All (Knows e) votes
  pub once : OnePerTerm votes
  pub named : e.self_hash ≢ 0

follow : (e e' : Election) (votes : List Vote) → Follows e e' → Sound e votes → Sound e' votes
follow e e' votes f s = record {
  known = All-map votes (λ w. Knows-Follows e e' w f) s.known;
  once = s.once;
  named = rw f.self s.named;
}

next : (e e' : Election) (votes : List Vote) → Next e e' → Sound e votes → Sound e' votes
next e e' votes n s = follow e e' votes n.follows s

free_of_guard :
    (t c : ℕ) (m : Election)
    → (ltb t m.term || (not (m.voted_for == 0) && not (m.voted_for == c)) ≡ false)
    → (m.term ≤ t) × (m.voted_for ≢ 0 → m.voted_for ≡ c)
free_of_guard t c m g = (ground arith, λ z. ground arith)

-- A vote leaves what makes a leader.
given-Elected : (m : Election) (c : ℕ) → Elected m → Elected (record m { voted_for = c })
given-Elected m c v = record { counted = v.counted; won = v.won; shown = v.shown; bound = v.bound }

-- A vote for a candidate that asks for it.
vote_given :
    (m e' : Election) (votes : List Vote) (t c i l : ℕ)
    → t ≤ m.term
    → c ≢ 0
    → grant_vote m t c i l ≡ (true, e')
    → Sound m votes
    → Sound e' (record { term = t; candidate_hash = c } ∷ votes)
vote_given m e' votes t c i l late nz g s =
    let (guard, changed) = grant_true m e' t c i l g in
    let (past, free) = free_of_guard t c m guard in
    let v : Vote = record { term = t; candidate_hash = c } in
    let m' : Election = record m { voted_for = c } in
    let (known, agree) = cast_vote m m' v votes past (λ p. free) (omega arith) refl nz s.known in
    rw changed (record { known = known; once = (agree, s.once); named = s.named })

-- A new election.
stood :
    (e : Election) (votes : List Vote) (peers : ℕ)
    → e.term + 1 < 2 ^ 64
    → Sound e votes
    → Sound
        (start_election e peers)
        (record { term = (e.term + 1) % 2 ^ 64; candidate_hash = e.self_hash } ∷ votes)
stood e votes peers w s =
    let (t, f, self, elected) = start_election_lem e peers in
    let v : Vote = record { term = (e.term + 1) % 2 ^ 64; candidate_hash = e.self_hash } in
    let (known, agree) =
      cast_vote e (start_election e peers) v votes (omega arith) (λ p. absurd (omega arith)) t f
        s.named s.known in
    record { known = known; once = (agree, s.once); named = rw self s.named }

reached-Elected : (e : Election) (votes : List Vote) → Reach e votes → Elected e
reached-Elected _ _ (started q self ring) =
    unfold new_election in
    record {
      counted = λ p. absurd (ground arith);
      won = λ p. absurd (ground arith);
      shown = refl;
      bound = omega arith;
    }
reached-Elected _ _ (timed_out e votes peers r) = (start_election_lem e peers).3
reached-Elected _ _ (granted e e' votes voter r h) =
    (vote_granted_lem e e' voter h (reached-Elected e votes r)).1
reached-Elected _ _ (answered e votes t r) =
    (heartbeat_answered-Next e t).elected (reached-Elected e votes r)
reached-Elected _ _ (voted e e' votes t c i l r h) =
    let (guard, changed) =
      grant_true (caught_up e t) e' t c i l (sym (handle_vote_request-grant e t c i l) ∙ h) in
    rw changed
      (given-Elected (caught_up e t) c ((caught_up-Next e t).elected (reached-Elected e votes r)))
reached-Elected _ _ (refused e e' votes t c i l r h) =
    rw (grant_false (caught_up e t) e' t c i l (sym (handle_vote_request-grant e t c i l) ∙ h))
      ((caught_up-Next e t).elected (reached-Elected e votes r))
reached-Elected _ _ (beaten e votes t leader_id r) =
    (handle_heartbeat-Next e t leader_id).elected (reached-Elected e votes r)
reached-Elected _ _ (logged e votes index t r) =
    (update_log_state-Next e index t).elected (reached-Elected e votes r)
reached-Elected _ _ (ended e votes r) = (close-Next e).elected (reached-Elected e votes r)

pub reached-Sound :
    (e : Election) (votes : List Vote) (r : Reach e votes) → Regular e votes r → Sound e votes
unfolding Regular
reached-Sound _ _ (started q self ring) nz = record {
  known = tt;
  once = tt;
  named = unfold new_election in nz;
}
reached-Sound _ _ (timed_out e votes peers r) (w, g) =
    stood e votes peers w (reached-Sound e votes r g)
reached-Sound _ _ (granted e e' votes voter r h) g =
    follow e e' votes (vote_granted_lem e e' voter h (reached-Elected e votes r)).0
      (reached-Sound e votes r g)
reached-Sound _ _ (answered e votes t r) g =
    next e _ votes (heartbeat_answered-Next e t) (reached-Sound e votes r g)
reached-Sound _ _ (voted e e' votes t c i l r h) (nz, g) =
    vote_given (caught_up e t) e' votes t c i l (caught_up-term e t) nz
      (sym (handle_vote_request-grant e t c i l) ∙ h)
      (next e _ votes (caught_up-Next e t) (reached-Sound e votes r g))
reached-Sound _ _ (refused e e' votes t c i l r h) g =
    rw (grant_false (caught_up e t) e' t c i l (sym (handle_vote_request-grant e t c i l) ∙ h))
      (next e _ votes (caught_up-Next e t) (reached-Sound e votes r g))
reached-Sound _ _ (beaten e votes t leader_id r) g =
    next e _ votes (handle_heartbeat-Next e t leader_id) (reached-Sound e votes r g)
reached-Sound _ _ (logged e votes index t r) g =
    next e _ votes (update_log_state-Next e index t) (reached-Sound e votes r g)
reached-Sound _ _ (ended e votes r) g = next e _ votes (close-Next e) (reached-Sound e votes r g)

-- In a state that a node reaches without a timeout in the last term, which would wrap, and without
-- the hash 0, of its own or of a candidate that it votes for: any two votes that it cast in the same
-- term, its own for itself included, are for the same candidate, as far as the hashes of the
-- identifiers tell them apart, and the node's term is at least theirs.
pub one_vote_per_term :
    (e : Election) (votes : List Vote) (v w : Vote) (r : Reach e votes)
    → Regular e votes r
    → Cast v votes
    → Cast w votes
    → v.term ≡ w.term
    → (v.candidate_hash ≡ w.candidate_hash) × (v.term ≤ e.term)
one_vote_per_term e votes v w r g c d p =
    let s = reached-Sound e votes r g in
    (same_candidate votes v w s.once c d p, (All-Cast (Knows e) v votes c s.known).past)

-- In every state that a node reaches, no leader has fewer votes than it needs, no candidate has as
-- many, and the metric shows a leader exactly where the role is one.
pub leader_has_votes :
    (e : Election) (votes : List Vote)
    → Reach e votes
    → ((is_leader e.role && ltb e.votes_received e.votes_needed) ≡ false)
      × ((is_candidate e.role && leb e.votes_needed e.votes_received) ≡ false)
      × (e.leader_metric ≡ is_leader e.role)
leader_has_votes e votes r =
    let v = reached-Elected e votes r in
    (
      both_false (is_leader e.role) (ltb e.votes_received e.votes_needed)
          (λ p. ground (arith, v.won p)),
      both_false (is_candidate e.role) (leb e.votes_needed e.votes_received)
          (λ p. ground (arith, v.counted p)),
      v.shown,
    )
  where
    both_false : (a b : Bool) → (a ≡ true → b ≡ false) → (a && b) ≡ false
    both_false true b h = h refl
    both_false false b h = refl

-- `handleVoteRequest` grants the vote exactly where the request's term is later, or the same with no
-- vote for another candidate, and the candidate's log is at least as long; the node ends in the
-- later of the two terms, as a follower where that is the request's, with its vote for the
-- candidate where it granted it, and with none where it refused in a new term.
pub handle_vote_request_lem :
    (e : Election) (t c i l : ℕ)
    → let out = handle_vote_request e t c i l in
      (out.0
        ≡ (ltb e.term t || (t == e.term && (e.voted_for == 0 || e.voted_for == c))) && log_ok e i l)
      × (out.1.term ≡ max e.term t)
      × (out.1.role ≡ (if ltb e.term t then follower else e.role))
      × (out.1.voted_for ≡ (if out.0 then c else (if ltb e.term t then 0 else e.voted_for)))
handle_vote_request_lem e t c i l =
    rw (handle_vote_request-grant e t c i l) (unfold grant_vote step_down in ground arith)
