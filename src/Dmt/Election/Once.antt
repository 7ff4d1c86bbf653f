-- ===== src/Dmt/Election/Once.antt =====
-- The votes that a node cast, and when all of one term are for the same candidate.
use datura.Prelude.{◌≤◌, ◌≡◌, ◌≢◌, refl, ◌∙◌, sym, List, [], ◌∷◌, arith, All, ◌⊎◌, inl, inr}
use datura.Dmt.Election.{Election}
use datura.Dmt.Election.Reach.{Vote}
use datura.Dmt.Election.Laws.{Knows}

-- The same candidate, if the term is the same.
abbrev pub Agrees : Vote → Vote → Type 0
Agrees v w = w.term ≡ v.term → w.candidate_hash ≡ v.candidate_hash

-- Any two votes of the same term are for the same candidate.
abbrev pub OnePerTerm : List Vote → Type 0
OnePerTerm [] = Unit
OnePerTerm (v ∷ votes) = All (Agrees v) votes × OnePerTerm votes

pub All-map :
    {P Q : Vote → Type 0} (votes : List Vote) → ((v : Vote) → P v → Q v) → All P votes → All Q votes
All-map [] f a = tt
All-map (v ∷ votes) f a = (f v a.0, All-map votes f a.1)

-- A vote cast in a term in which none was cast for another candidate.
pub cast_vote :
    (e e' : Election) (v : Vote) (votes : List Vote)
    → e.term ≤ v.term
    → (v.term ≡ e.term → e.voted_for ≢ 0 → e.voted_for ≡ v.candidate_hash)
    → e'.term ≡ v.term
    → e'.voted_for ≡ v.candidate_hash
    → v.candidate_hash ≢ 0
    → All (Knows e) votes
    → All (Knows e') (v ∷ votes) × All (Agrees v) votes
cast_vote e e' v votes late free t f nz known = (
  (
    record { past = omega arith; current = λ p. f; cast = nz },
    All-map votes
        (λ w k. record {
          past = omega (arith, k.past);
          current = λ p. f ∙ sym (agrees w k (p ∙ t));
          cast = k.cast;
        })
        known,
  ),
  All-map votes agrees known,
)
  where
    agrees : (w : Vote) → Knows e w → Agrees v w
    agrees w k p =
        let now : v.term ≡ e.term = omega (arith, k.past) in
        let mine = k.current (p ∙ now) in sym mine ∙ free now (λ z. k.cast (sym mine ∙ z))

-- A cast vote.
abbrev pub Cast : Vote → List Vote → Type 0
Cast v [] = ⊥
Cast v (w ∷ votes) = (v ≡ w) ⊎ Cast v votes

pub All-Cast : (P : Vote → Type 0) (v : Vote) (votes : List Vote) → Cast v votes → All P votes → P v
All-Cast P v [] c a = absurd c
All-Cast P v (w ∷ votes) (inl e) a = rw e a.0
All-Cast P v (w ∷ votes) (inr c) a = All-Cast P v votes c a.1

pub same_candidate :
    (votes : List Vote) (v w : Vote)
    → OnePerTerm votes
    → Cast v votes
    → Cast w votes
    → v.term ≡ w.term
    → v.candidate_hash ≡ w.candidate_hash
same_candidate [] v w o c d p = absurd c
same_candidate (u ∷ votes) v w o (inl e) (inl f) p = rw (e, f) refl
same_candidate (u ∷ votes) v w o (inl e) (inr d) p =
    rw e (sym (All-Cast (Agrees u) w votes d o.0 (sym p ∙ rw e refl)))
same_candidate (u ∷ votes) v w o (inr c) (inl f) p =
    rw f (All-Cast (Agrees u) v votes c o.0 (p ∙ rw f refl))
same_candidate (u ∷ votes) v w o (inr c) (inr d) p = same_candidate votes v w o.1 c d p
