-- ===== src/Dmt/Election/Laws.antt =====
-- One vote in each term, and a leader only with the votes it needs.
use datura.Prelude.{
  ℕ, ◌+◌, ◌%◌, ◌^◌, ◌≤◌, ◌<◌, ◌≡◌, ◌≢◌, refl, ◌∙◌, true, false, Option, some, List, [], ◌∷◌, arith,
  ltb, leb, ◌==◌, Bool-cases, ◌⊎◌, inl, inr,
}
use datura.Dmt.Election.{
  NodeState, follower, candidate, leader, is_candidate, is_leader, Election, become_leader,
  try_promote_to_leader, step_down, drain_queue,
}
use datura.Dmt.Election.Reach.{Vote}

-- Later than another state: in a later term, or in the same one with the same vote.
pub record Follows (e e' : Election) : Type 0 where
  pub grew : e.term ≤ e'.term
  pub same : e.term ≡ e'.term → e'.voted_for ≡ e.voted_for
  pub self : e'.self_hash ≡ e.self_hash

-- What a state knows of a vote that the node cast.
pub record Knows (e : Election) (v : Vote) : Type 0 where
  pub past : v.term ≤ e.term
  pub current : v.term ≡ e.term → e.voted_for ≡ v.candidate_hash
  pub cast : v.candidate_hash ≢ 0

pub Follows-refl : (e : Election) → Follows e e
Follows-refl e = record { grew = omega arith; same = λ h. refl; self = refl }

pub Knows-Follows : (e e' : Election) (v : Vote) → Follows e e' → Knows e v → Knows e' v
Knows-Follows e e' v f k = record {
  past = omega (arith, f.grew, k.past);
  current = λ h. f.same (omega (arith, f.grew, k.past)) ∙ k.current (omega (arith, f.grew, k.past));
  cast = k.cast;
}

pub step_down-Follows : (e : Election) (term : ℕ) → e.term < term → Follows e (step_down e term)
unfolding step_down
step_down-Follows e term h = record {
  grew = omega arith;
  same = λ p. absurd (omega arith);
  self = refl;
}

promote_low :
    (e : Election) → ltb e.votes_received e.votes_needed ≡ true → try_promote_to_leader e ≡ e
unfolding try_promote_to_leader
promote_low e h = rw (h, try_promote_to_leader) refl

promote_won :
    (e : Election)
    → ltb e.votes_received e.votes_needed ≡ false
    → is_candidate e.role ≡ true
    → try_promote_to_leader e ≡ become_leader e
unfolding try_promote_to_leader
promote_won e h c = rw (h, try_promote_to_leader) (rw c refl)

promote_other :
    (e : Election)
    → ltb e.votes_received e.votes_needed ≡ false
    → is_candidate e.role ≡ false
    → try_promote_to_leader e ≡ e
unfolding try_promote_to_leader
promote_other e h c = rw (h, try_promote_to_leader) (rw c refl)

-- A candidate lacks votes, a leader has enough, and the metric shows which it is.
pub record Elected (e : Election) : Type 0 where
  pub counted : is_candidate e.role ≡ true → e.votes_received < e.votes_needed
  pub won : is_leader e.role ≡ true → e.votes_needed ≤ e.votes_received
  pub shown : e.leader_metric ≡ is_leader e.role
  pub bound : e.votes_needed < 2 ^ 32

-- Promotion moves neither the term nor the vote, and settles a candidate that has enough votes.
pub promote_lem :
    (e : Election)
    → (is_leader e.role ≡ true → e.votes_needed ≤ e.votes_received)
    → e.leader_metric ≡ is_leader e.role
    → e.votes_needed < 2 ^ 32
    → Follows e (try_promote_to_leader e) × Elected (try_promote_to_leader e)
promote_lem e w s b = elim (Bool-cases (ltb e.votes_received e.votes_needed)) [
  | inl h ↦
      rw (promote_low e h)
        (Follows-refl e, record { counted = λ c. ground arith; won = w; shown = s; bound = b })
  | inr h ↦ elim (Bool-cases (is_candidate e.role)) [
    | inl c ↦ rw (promote_won e h c) (
      record { grew = omega arith; same = λ p. refl; self = refl },
      record {
        counted = λ f. absurd (ground arith);
        won = λ l. ground arith;
        shown = refl;
        bound = b;
      },
    )
    | inr c ↦ rw (promote_other e h c) (
      Follows-refl e,
      record { counted = λ f. absurd (ground arith); won = w; shown = s; bound = b },
    )
  ]
]

not_both : (s : NodeState) → is_candidate s ≡ true → is_leader s ≡ true → ⊥
not_both follower c l = ground arith
not_both candidate c l = ground arith
not_both leader c l = ground arith

-- What an operation on the votes does.
abbrev pub Counts : Election → Election → Type 0
Counts e e' = Follows e e' × (Elected e → Elected e')

pub Elected-ring :
    (e : Election) (ring : Option (List ℕ)) → Counts e (record e { vote_ring = ring })
Elected-ring e ring = (
  record { grew = omega arith; same = λ p. refl; self = refl },
  λ v. record { counted = v.counted; won = v.won; shown = v.shown; bound = v.bound },
)

-- One more vote for a candidate.
abbrev pub one_more : Election → List ℕ → Election
one_more e votes = record e {
  vote_ring = some votes;
  votes_received = (e.votes_received + 1) % 2 ^ 32;
}

one_more-Follows : (e : Election) (votes : List ℕ) → Follows e (one_more e votes)
one_more-Follows e votes = record { grew = omega arith; same = λ p. refl; self = refl }

pub Follows-trans : (e e' e'' : Election) → Follows e e' → Follows e' e'' → Follows e e''
Follows-trans e e' e'' f g = record {
  grew = omega (arith, f.grew, g.grew);
  same = λ p. g.same (omega (arith, f.grew, g.grew)) ∙ f.same (omega (arith, f.grew, g.grew));
  self = g.self ∙ f.self;
}

-- The branches of the loop.
drain_unnamed :
    (votes : List ℕ) (voter : ℕ) (e : Election)
    → (voter == 0 ≡ true) ⊎ (is_candidate e.role ≡ false)
    → drain_queue (voter ∷ votes) e ≡ record e { vote_ring = some votes }
unfolding drain_queue
drain_unnamed votes voter e (inl h) = rw (h, drain_queue) refl
drain_unnamed votes voter e (inr c) = elim (Bool-cases (voter == 0)) [
  | inl h ↦ rw (h, drain_queue) refl
  | inr h ↦ rw (h, drain_queue) (rw c refl)
]

drain_last :
    (votes : List ℕ) (voter : ℕ) (e : Election)
    → voter == 0 ≡ false
    → is_candidate e.role ≡ true
    → leb e.votes_needed ((e.votes_received + 1) % 2 ^ 32) ≡ true
    → drain_queue (voter ∷ votes) e ≡ try_promote_to_leader (one_more e votes)
unfolding drain_queue
drain_last votes voter e h c l = rw (h, drain_queue) (rw (c, l) refl)

drain_next :
    (votes : List ℕ) (voter : ℕ) (e : Election)
    → voter == 0 ≡ false
    → is_candidate e.role ≡ true
    → leb e.votes_needed ((e.votes_received + 1) % 2 ^ 32) ≡ false
    → drain_queue (voter ∷ votes) e ≡ drain_queue votes (one_more e votes)
unfolding drain_queue
drain_next votes voter e h c l = rw (h, drain_queue) (rw (c, l) refl)

pub drain_queue_lem :
    (votes : List ℕ) (e : Election)
    → Elected e
    → Follows e (drain_queue votes e) × Elected (drain_queue votes e)
drain_queue_lem [] e v =
    unfold drain_queue in ((Elected-ring e (some [])).0, (Elected-ring e (some [])).1 v)
drain_queue_lem (voter ∷ votes) e v =
    let (f, k) = Elected-ring e (some votes) in
    elim (Bool-cases (voter == 0)) [
      | inl h ↦ rw (drain_unnamed votes voter e (inl h)) (f, k v)
      | inr h ↦ elim (Bool-cases (is_candidate e.role)) [
        | inr c ↦ rw (drain_unnamed votes voter e (inr c)) (f, k v)
        | inl c ↦
            let more = one_more e votes in
            let f' = one_more-Follows e votes in
            let count : more.votes_received ≡ e.votes_received + 1 =
              omega (arith, v.counted c, v.bound) in
            elim (Bool-cases (leb more.votes_needed more.votes_received)) [
              | inl l ↦
                  let (f'', k') =
                    promote_lem more (λ p. absurd (not_both e.role c p)) v.shown v.bound in
                  rw (drain_last votes voter e h c l) (Follows-trans e more _ f' f'', k')
              | inr l ↦
                  let few : Elected more = record {
                    counted = λ p. ground arith;
                    won = λ p. absurd (not_both e.role c p);
                    shown = v.shown;
                    bound = v.bound;
                  } in
                  let (f'', k') = drain_queue_lem votes more few in
                  rw (drain_next votes voter e h c l) (Follows-trans e more _ f' f'', k')
            ]
      ]
    ]
