-- ===== src/Dmt/Election/Votes.antt =====
-- What each operation of the election does to the term, the vote and the role.
use datura.Prelude.{
  ℕ, suc, ◌+◌, ◌/◌, ◌%◌, ◌^◌, max, ◌≤◌, ◌<◌, ◌≡◌, ◌≢◌, refl, ap, ◌∙◌, sym, Bool, true, false, ◌&&◌,
  ◌||◌, not, Option, none, some, List, [], ◌∷◌, ◌++◌, length, arith, All, ltb, leb, ◌==◌,
  if◌then◌else◌, Bool-cases, Option-cases, inl, inr,
}
use datura.Dmt.Election.{
  candidate, Election, try_promote_to_leader, start_election, step_down, publish_into, publish_vote,
  drain_queue, drain_votes, vote_granted, heartbeat_answered, log_ok, grant_vote,
  handle_vote_request, handle_heartbeat, update_log_state, close,
}
use datura.Dmt.Election.Laws.{
  Follows, Elected, Follows-refl, Follows-trans, step_down-Follows, promote_lem, drain_queue_lem,
}

-- The next state follows on the state, and is settled if the state is.
pub record Next (e e' : Election) : Type 0 where
  pub follows : Follows e e'
  pub elected : Elected e → Elected e'

pub Next-refl : (e : Election) → Next e e
Next-refl e = record { follows = Follows-refl e; elected = λ v. v }

step_down-Elected : (e : Election) (term : ℕ) → Elected e → Elected (step_down e term)
unfolding step_down
step_down-Elected e term v = record {
  counted = λ p. absurd (ground arith);
  won = λ p. absurd (ground arith);
  shown = refl;
  bound = v.bound;
}

step_down-Next : (e : Election) (term : ℕ) → e.term < term → Next e (step_down e term)
step_down-Next e term h = record {
  follows = step_down-Follows e term h;
  elected = step_down-Elected e term;
}

-- The state in the later of two terms.
abbrev pub caught_up : Election → ℕ → Election
caught_up e term = if ltb e.term term then step_down e term else e

pub caught_up-Next : (e : Election) (term : ℕ) → Next e (caught_up e term)
caught_up-Next e term = elim (Bool-cases (ltb e.term term)) [
  | inl h ↦ rw h (step_down-Next e term (ground arith))
  | inr h ↦ rw h (Next-refl e)
]

pub heartbeat_answered-Next : (e : Election) (term : ℕ) → Next e (heartbeat_answered e term)
unfolding heartbeat_answered
heartbeat_answered-Next e term = caught_up-Next e term

pub handle_heartbeat-Next :
    (e : Election) (term : ℕ) (leader_id : datura.Prelude.Bytes.Bytes)
    → Next e (handle_heartbeat e term leader_id).1
unfolding handle_heartbeat
handle_heartbeat-Next e term leader_id = elim (Bool-cases (ltb e.term term)) [
  | inl h ↦ rw (h, handle_heartbeat) (step_down-Next e term (ground arith))
  | inr h ↦ elim (Bool-cases (ltb term e.term)) [
    | inl h' ↦ rw (h, handle_heartbeat) (rw h' (Next-refl e))
    | inr h' ↦ rw (h, handle_heartbeat) (rw h' (Next-refl e))
  ]
]

-- A change of what neither the term nor the votes rest on.
pub aside-Next :
    (e e' : Election)
    → e'.term ≡ e.term
    → e'.voted_for ≡ e.voted_for
    → e'.self_hash ≡ e.self_hash
    → e'.role ≡ e.role
    → e'.votes_received ≡ e.votes_received
    → e'.votes_needed ≡ e.votes_needed
    → e'.leader_metric ≡ e.leader_metric
    → Next e e'
aside-Next e e' t f i r c n m = record {
  follows = record { grew = omega arith; same = λ p. f; self = i };
  elected = λ v. record {
    counted = rw (r, c, n) v.counted;
    won = rw (r, c, n) v.won;
    shown = rw (r, m) v.shown;
    bound = rw n v.bound;
  };
}

pub update_log_state-Next : (e : Election) (index term : ℕ) → Next e (update_log_state e index term)
unfolding update_log_state
update_log_state-Next e index term = elim (Bool-cases (leb index e.last_log_index)) [
  | inl h ↦ rw (h, update_log_state) (Next-refl e)
  | inr h ↦ rw (h, update_log_state) (aside-Next e _ refl refl refl refl refl refl refl)
]

pub close-Next : (e : Election) → Next e (close e)
unfolding close
close-Next e = aside-Next e _ refl refl refl refl refl refl refl

-- A vote that arrives.
publish_into-Next :
    (e e' : Election) (voter : ℕ) (votes : List ℕ)
    → publish_into e voter votes ≡ some e'
    → Next e e'
unfolding publish_into
publish_into-Next e e' voter votes h = elim (Bool-cases (voter == 0 || e.closed)) [
  | inl c ↦ rw (same e (rw (c, publish_into) refl)) (Next-refl e)
  | inr c ↦ elim (Bool-cases (ltb (length votes) 128)) [
    | inl room ↦
        rw
          (same (record e { vote_ring = some (votes ++ (voter ∷ [])) })
            (rw (c, publish_into) (rw room refl)))
          (aside-Next e _ refl refl refl refl refl refl refl)
    | inr full ↦
        let waits : publish_into e voter votes ≡ none = rw (c, publish_into) (rw full refl) in
        absurd cc
  ]
]
  where
    same : (m : Election) → publish_into e voter votes ≡ some m → e' ≡ m
    same m p = cc

published :
    (e : Election) (voter : ℕ) (ring : Option (List ℕ))
    → e.vote_ring ≡ ring
    → publish_vote e voter ≡ elim ring as (λ x. Option Election) [
      | none ↦ some e
      | some votes ↦ publish_into e voter votes
    ]
unfolding publish_vote
published e voter ring h =
    ap
      (λ (o : Option (List ℕ)). elim o as (λ x. Option Election) [
        | none ↦ some e
        | some votes ↦ publish_into e voter votes
      ])
      h

publish_vote-Next : (e e' : Election) (voter : ℕ) → publish_vote e voter ≡ some e' → Next e e'
publish_vote-Next e e' voter h = elim (Option-cases e.vote_ring) [
  | inl r ↦ let same : e' ≡ e = let p = published e voter none r in cc in rw same (Next-refl e)
  | inr (votes, r) ↦ publish_into-Next e e' voter votes (sym (published e voter (some votes) r) ∙ h)
]

drain_none : (e : Election) → e.vote_ring ≡ none → drain_votes e ≡ e
unfolding drain_votes
drain_none e h =
    ap
      (λ (o : Option (List ℕ)). elim o as (λ x. Election) [ none ↦ e | some vs ↦ drain_queue vs e ])
      h

drain_some :
    (e : Election) (votes : List ℕ) → e.vote_ring ≡ some votes → drain_votes e ≡ drain_queue votes e
unfolding drain_votes
drain_some e votes h =
    ap
      (λ (o : Option (List ℕ)). elim o as (λ x. Election) [ none ↦ e | some vs ↦ drain_queue vs e ])
      h

drain_votes_lem : (e : Election) → Elected e → Follows e (drain_votes e) × Elected (drain_votes e)
drain_votes_lem e v = elim (Option-cases e.vote_ring) [
  | inl h ↦ rw (drain_none e h) (Follows-refl e, v)
  | inr (votes, h) ↦ rw (drain_some e votes h) (drain_queue_lem votes e v)
]

pub vote_granted_lem :
    (e e' : Election) (voter : ℕ)
    → vote_granted e voter ≡ some e'
    → Elected e
    → Follows e e' × Elected e'
unfolding vote_granted
vote_granted_lem e e' voter h v = elim (Option-cases (publish_vote e voter)) [
  | inl p ↦ let waits : vote_granted e voter ≡ none = rw (p, vote_granted) refl in cc
  | inr (m, p) ↦
      let n = publish_vote-Next e m voter p in
      let (f, k) = drain_votes_lem m (n.elected v) in
      let done : vote_granted e voter ≡ some (drain_votes m) = rw (p, vote_granted) refl in
      let last : e' ≡ drain_votes m = cc in rw last (Follows-trans e m _ n.follows f, k)
]

promote_keeps :
    (e : Election)
    → ((try_promote_to_leader e).term ≡ e.term)
      × ((try_promote_to_leader e).voted_for ≡ e.voted_for)
      × ((try_promote_to_leader e).self_hash ≡ e.self_hash)
unfolding try_promote_to_leader
promote_keeps e = ground arith

-- A new election: the node is in the next term, with its vote for itself.
pub start_election_lem :
    (e : Election) (peers : ℕ)
    → ((start_election e peers).term ≡ (e.term + 1) % 2 ^ 64)
      × ((start_election e peers).voted_for ≡ e.self_hash)
      × ((start_election e peers).self_hash ≡ e.self_hash)
      × Elected (start_election e peers)
unfolding start_election
start_election_lem e peers =
    let standing : Election = record e {
      role = candidate;
      term = (e.term + 1) % 2 ^ 64;
      voted_for = e.self_hash;
      leader_metric = false;
      votes_needed = max e.quorum_size (peers / 2 + 1) % 2 ^ 32;
      votes_received = 1;
    } in
    let (t, f, s) = promote_keeps standing in
    (t, f, s, (promote_lem standing (λ p. absurd (ground arith)) refl (omega arith)).1)

-- A request for a vote.
grant_refused :
    (e : Election) (t c i l : ℕ)
    → ltb t e.term || (not (e.voted_for == 0) && not (e.voted_for == c)) ≡ true
    → grant_vote e t c i l ≡ (false, e)
unfolding grant_vote
grant_refused e t c i l h = rw (h, grant_vote) refl

grant_stale :
    (e : Election) (t c i l : ℕ)
    → ltb t e.term || (not (e.voted_for == 0) && not (e.voted_for == c)) ≡ false
    → log_ok e i l ≡ false
    → grant_vote e t c i l ≡ (false, e)
unfolding grant_vote
grant_stale e t c i l h k = rw (h, grant_vote) (rw k refl)

grant_given :
    (e : Election) (t c i l : ℕ)
    → ltb t e.term || (not (e.voted_for == 0) && not (e.voted_for == c)) ≡ false
    → log_ok e i l ≡ true
    → grant_vote e t c i l ≡ (true, record e { voted_for = c })
unfolding grant_vote
grant_given e t c i l h k = rw (h, grant_vote) (rw k refl)

apart : false ≡ true → ⊥
apart h = ground arith

-- What an answer says.
pub grant_true :
    (m e' : Election) (t c i l : ℕ)
    → grant_vote m t c i l ≡ (true, e')
    → (ltb t m.term || (not (m.voted_for == 0) && not (m.voted_for == c)) ≡ false)
      × (e' ≡ record m { voted_for = c })
grant_true m e' t c i l h =
    elim (Bool-cases (ltb t m.term || (not (m.voted_for == 0) && not (m.voted_for == c)))) [
      | inl g ↦ let p = grant_refused m t c i l g in absurd (apart (ap (λ r. r.0) (sym p ∙ h)))
      | inr g ↦ elim (Bool-cases (log_ok m i l)) [
        | inl k ↦ let p = grant_given m t c i l g k in (g, ap (λ r. r.1) (sym h ∙ p))
        | inr k ↦ let p = grant_stale m t c i l g k in absurd (apart (ap (λ r. r.0) (sym p ∙ h)))
      ]
    ]

pub grant_false : (m e' : Election) (t c i l : ℕ) → grant_vote m t c i l ≡ (false, e') → e' ≡ m
grant_false m e' t c i l h =
    elim (Bool-cases (ltb t m.term || (not (m.voted_for == 0) && not (m.voted_for == c)))) [
      | inl g ↦ ap (λ r. r.1) (sym h ∙ grant_refused m t c i l g)
      | inr g ↦ elim (Bool-cases (log_ok m i l)) [
        | inl k ↦ let p = grant_given m t c i l g k in absurd (apart (ap (λ r. r.0) (sym h ∙ p)))
        | inr k ↦ ap (λ r. r.1) (sym h ∙ grant_stale m t c i l g k)
      ]
    ]

pub caught_up-term : (e : Election) (t : ℕ) → t ≤ (caught_up e t).term
unfolding step_down
caught_up-term e t = ground arith

pub handle_vote_request-grant :
    (e : Election) (t c i l : ℕ)
    → handle_vote_request e t c i l ≡ grant_vote (caught_up e t) t c i l
unfolding handle_vote_request step_down
handle_vote_request-grant e t c i l = refl
