-- ===== src/Structure/Clock/Newest.antt =====
-- The slot of a track that a frame shows.
use datura.Prelude.{
  ℕ, ◌≤◌, ◌<◌, ◌≡◌, refl, ap, ◌∙◌, sym, ◌⊎◌, inl, inr, Bool, true, false, not, ◌||◌, ◌&&◌, Option,
  none, some, List, [], ◌∷◌, ◌++◌, append_assoc, append-nil, All, ltb, leb, ◌==◌, arith, Bool-cases,
}
use mathlib.Core.Path.{subst}
use datura.Structure.Clock.{RingOps, ClockSlot, ClockTrack}
use datura.Structure.Clock.Cuts.{ClockCut, newer, newest, track_at}

module _ {K T : Type 0} (same_key : K → K → Bool) (ring : RingOps (ClockSlot K T)) where
  -- The slot is not before the track's first, within the cut, and not after its time.
  abbrev pub eligible : ℕ → ClockCut → ClockSlot K T → Bool
  eligible first cut slot =
      leb first slot.ingest_sequence
      && (leb slot.ingest_sequence cut.through && leb slot.wall cut.at)

  -- An earlier time, or the same and not a later arrival.
  abbrev pub NotNewer : ClockSlot K T → ClockSlot K T → Type 0
  NotNewer x s = (x.wall < s.wall) ⊎ ((x.wall ≡ s.wall) × (x.ingest_sequence ≤ s.ingest_sequence))

  NotNewer-trans : (x y z : ClockSlot K T) → NotNewer x y → NotNewer y z → NotNewer x z
  NotNewer-trans x y z (inl a) (inl b) = inl (omega (arith, a, b))
  NotNewer-trans x y z (inl a) (inr (b, c)) = inl (omega (arith, a, b))
  NotNewer-trans x y z (inr (a, c)) (inl b) = inl (omega (arith, a, b))
  NotNewer-trans x y z (inr (a, c)) (inr (b, d)) = inr (a ∙ b, omega (arith, c, d))

  -- The newest of these slots that are eligible.
  pub data Best (first : ℕ) (cut : ClockCut) (slots : List (ClockSlot K T))
      : Option (ClockSlot K T) → Type 0 where
    nothing : All (λ x. eligible first cut x ≡ false) slots → Best first cut slots none
    best :
        (s : ClockSlot K T) (before behind : List (ClockSlot K T))
        → slots ≡ before ++ (s ∷ behind)
        → eligible first cut s ≡ true
        → All (λ x. (eligible first cut x ≡ false) ⊎ NotNewer x s) slots
        → Best first cut slots (some s)

  module _ (first : ℕ) (cut : ClockCut) where
    All-one :
        (P : ClockSlot K T → Type 0) (slots : List (ClockSlot K T)) (x : ClockSlot K T)
        → All P slots
        → P x
        → All P (slots ++ (x ∷ []))
    All-one P [] x a h = (h, tt)
    All-one P (y ∷ slots) x (g, a) h = (g, All-one P slots x a h)

    All-map :
        (P Q : ClockSlot K T → Type 0) (slots : List (ClockSlot K T))
        → ((x : ClockSlot K T) → P x → Q x)
        → All P slots
        → All Q slots
    All-map P Q [] f a = tt
    All-map P Q (x ∷ slots) f (g, a) = (f x g, All-map P Q slots f a)

    -- The tests of a visit.
    abbrev skips : ClockSlot K T → Bool
    skips x =
        ltb x.ingest_sequence first || (ltb cut.through x.ingest_sequence || ltb cut.at x.wall)

    abbrev older : ClockSlot K T → ClockSlot K T → Bool
    older x s = ltb x.wall s.wall || (x.wall == s.wall && ltb x.ingest_sequence s.ingest_sequence)

    skips-not : (x : ClockSlot K T) → skips x ≡ not (eligible first cut x)
    skips-not x = ground arith

    older-NotNewer : (x s : ClockSlot K T) → older x s ≡ true → NotNewer x s
    older-NotNewer x s o = elim (Bool-cases (ltb x.wall s.wall)) [
      | inl e ↦ inl (ground (arith, e))
      | inr e ↦ inr (ground (arith, e, o), ground (arith, e, o))
    ]

    younger-NotNewer : (x s : ClockSlot K T) → older x s ≡ false → NotNewer s x
    younger-NotNewer x s o = elim (Bool-cases (ltb s.wall x.wall)) [
      | inl e ↦ inl (ground (arith, e))
      | inr e ↦ inr (ground (arith, e, o), ground (arith, e, o))
    ]

    abbrev Beaten : ClockSlot K T → ClockSlot K T → Type 0
    Beaten s x = (eligible first cut x ≡ false) ⊎ NotNewer x s

    Beaten-by : (s x y : ClockSlot K T) → NotNewer s x → Beaten s y → Beaten x y
    Beaten-by s x y h (inl e) = inl e
    Beaten-by s x y h (inr g) = inr (NotNewer-trans y s x g h)

    newer-Best :
        (seen : List (ClockSlot K T)) (selected : Option (ClockSlot K T)) (x : ClockSlot K T)
        → Best first cut seen selected
        → Best first cut (seen ++ (x ∷ [])) (newer K T same_key ring first cut selected x)
    unfolding newer
    newer-Best seen _ x (nothing a) = elim (Bool-cases (eligible first cut x)) [
      | inl e ↦
          rw (skips-not x ∙ ap not e, newer)
            (best x seen [] refl e (
              All-one (Beaten x) seen x (All-map _ (Beaten x) seen (λ y h. inl h) a)
                (inr (inr (refl, omega arith)))))
      | inr e ↦
          rw (skips-not x ∙ ap not e, newer)
            (nothing (All-one (λ y. eligible first cut y ≡ false) seen x a e))
    ]
    newer-Best seen _ x (best s before behind at_s es a) =
        elim (Bool-cases (eligible first cut x)) [
          | inr e ↦ rw (skips-not x ∙ ap not e, newer) (still (inl e))
          | inl e ↦ elim (Bool-cases (older x s)) [
            | inl o ↦ rw (skips-not x ∙ ap not e, o, newer) (still (inr (older-NotNewer x s o)))
            | inr o ↦
                rw (skips-not x ∙ ap not e, o, newer)
                  (best x seen [] refl e (
                    All-one (Beaten x) seen x
                      (All-map (Beaten s) (Beaten x) seen
                        (λ y h. Beaten-by s x y (younger-NotNewer x s o) h) a)
                      (inr (inr (refl, omega arith)))))
          ]
        ]
      where
        still : Beaten s x → Best first cut (seen ++ (x ∷ [])) (some s)
        still h =
            best s before (behind ++ (x ∷ []))
              (ap (λ xs. xs ++ (x ∷ [])) at_s ∙ append_assoc before (s ∷ behind) (x ∷ [])) es
              (All-one (Beaten s) seen x a h)

    newest-Best :
        (seen : List (ClockSlot K T)) (selected : Option (ClockSlot K T))
        (slots : List (ClockSlot K T))
        → Best first cut seen selected
        → Best first cut (seen ++ slots) (newest K T same_key ring first cut selected slots)
    unfolding newest
    newest-Best seen selected [] b =
        subst (λ xs. Best first cut xs selected) (sym (append-nil seen)) b
    newest-Best seen selected (x ∷ slots) b =
        subst
          (λ xs. Best first cut xs (
            newest K T same_key ring first cut (newer K T same_key ring first cut selected x)
              slots))
          (append_assoc seen (x ∷ []) slots)
          (newest-Best (seen ++ (x ∷ [])) (newer K T same_key ring first cut selected x) slots
            (newer-Best seen selected x b))

  -- A track answers a cut with one of the slots that its ring shows which is eligible: not before
  -- the first slot of the track, not beyond the cut, not after the cut's time. No eligible slot of
  -- the ring has a later time, or the same time and a later arrival. Without an eligible slot the
  -- answer is none.
  pub track_at-Best :
      (cut : ClockCut) (track : ClockTrack K T same_key ring)
      → Best track.first cut (ring.walk track.values) (track_at K T same_key ring cut track)
  unfolding track_at
  track_at-Best cut track =
      newest-Best track.first cut [] none (ring.walk track.values) (nothing tt)
