-- ===== src/Structure/Clock/Push.antt =====
-- What a push does to the timeline of a clock.
use datura.Prelude.{
  ◌+◌, ◌%◌, ◌^◌, ◌≡◌, refl, ap, ap₂, ◌∙◌, sym, Bool, true, false, inl, inr, Option, none, some, ltb,
  ◌==◌, if◌then◌else◌, Bool-cases, Option-cases,
}
use mathlib.Core.Path.{subst}
use datura.Structure.Clock.{
  RingOps, ClockSlot, Clock, ClockTrack, track_in, register_track, sequenced, push_slot, push,
}

module _ (K T : Type 0) (same_key : K → K → Bool) (ring : RingOps (ClockSlot K T)) where
  -- The clock behind a push of `slot` into its timeline.
  pub record Grown (slot : ClockSlot K T) (clock clock' : Clock K T same_key ring) : Type 0 where
    pub was_pushed : (ring.push slot clock.timeline).0 ≡ true
    pub timeline_eq : clock'.timeline ≡ (ring.push slot clock.timeline).1
    pub sequence_eq : clock'.sequence ≡ (clock.sequence + 1) % 2 ^ 64
    pub err_eq : clock'.err ≡ clock.err
    pub rewritten_eq : clock'.rewritten ≡ clock.rewritten
    pub timeline_size_eq : clock'.timeline_size ≡ (
        if ltb (ring.len (ring.push slot clock.timeline).1) (clock.timeline_size + 1)
        then ring.len (ring.push slot clock.timeline).1
        else clock.timeline_size + 1)

  push_slot-Grown :
      (slot : ClockSlot K T) (t : ClockTrack K T same_key ring) (clock : Clock K T same_key ring)
      → (push_slot K T same_key ring slot t clock).0 ≡ true
      → Grown
          (sequenced K T same_key ring slot t ((clock.sequence + 1) % 2 ^ 64)).0
          clock
          (push_slot K T same_key ring slot t clock).1
  unfolding push_slot
  push_slot-Grown slot t clock h =
      let ingest = (clock.sequence + 1) % 2 ^ 64 in
      let (slot', track') = sequenced K T same_key ring slot t ingest in
      elim (Bool-cases (ring.push slot' clock.timeline).0) [
        | inr e ↦
            let no : (push_slot K T same_key ring slot t clock).0 ≡ false =
              rw (e, push_slot) refl in
            absurd cc
        | inl e ↦ elim (Bool-cases (ring.push slot' track'.values).0) [
          | inr e' ↦
              let no : (push_slot K T same_key ring slot t clock).0 ≡ false =
                rw (e, e', push_slot) refl in
              absurd cc
          | inl e' ↦
              rw (e, e', push_slot)
                (record {
                  was_pushed = e;
                  timeline_eq = refl;
                  sequence_eq = refl;
                  err_eq = refl;
                  rewritten_eq = refl;
                  timeline_size_eq = refl;
                })
        ]
      ]

  -- The clock has the same timeline.
  abbrev SameTimeline : Clock K T same_key ring → Clock K T same_key ring → Type 0
  SameTimeline clock clock' =
      (clock'.timeline ≡ clock.timeline)
      × (clock'.sequence ≡ clock.sequence)
      × (clock'.err ≡ clock.err)
      × (clock'.rewritten ≡ clock.rewritten)
      × (clock'.timeline_size ≡ clock.timeline_size)

  register_track-quiet :
      (fresh : Option ring.State) (key : K) (clock : Clock K T same_key ring)
      → SameTimeline clock (register_track K T same_key ring fresh key clock).2
  unfolding register_track
  register_track-quiet none key clock =
      elim (Option-cases (track_in K T same_key ring key clock.tracks)) [
        | inr (t, e) ↦ rw (e, register_track) (refl, refl, refl, refl, refl)
        | inl e ↦ rw (e, register_track) (refl, refl, refl, refl, refl)
      ]
  register_track-quiet (some values) key clock =
      elim (Option-cases (track_in K T same_key ring key clock.tracks)) [
        | inr (t, e) ↦ rw (e, register_track) (refl, refl, refl, refl, refl)
        | inl e ↦ rw (e, register_track) (refl, refl, refl, refl, refl)
      ]

  Grown-behind :
      (slot : ClockSlot K T) (clock clock1 clock' : Clock K T same_key ring)
      → SameTimeline clock clock1
      → Grown slot clock1 clock'
      → Grown slot clock clock'
  Grown-behind slot clock clock1 clock' (t, s, e, r, z) g = record {
    was_pushed = subst (λ x. (ring.push slot x).0 ≡ true) t g.was_pushed;
    timeline_eq = g.timeline_eq ∙ ap (λ x. (ring.push slot x).1) t;
    sequence_eq = g.sequence_eq ∙ ap (λ x. (x + 1) % 2 ^ 64) s;
    err_eq = g.err_eq ∙ e;
    rewritten_eq = g.rewritten_eq ∙ r;
    timeline_size_eq =
        g.timeline_size_eq
        ∙ ap₂
            (λ x n.
              if ltb (ring.len (ring.push slot x).1) (n + 1)
              then ring.len (ring.push slot x).1
              else n + 1)
            t z;
  }

  -- The slot that a push puts into the timeline.
  unfoldable pub taken_slot :
      Option ring.State → ClockSlot K T → Clock K T same_key ring → ClockSlot K T
  unfolding register_track sequenced
  taken_slot fresh slot clock = elim (register_track K T same_key ring fresh slot.track clock).0 [
    | none ↦ slot
    | some t ↦ (sequenced K T same_key ring slot t ((clock.sequence + 1) % 2 ^ 64)).0
  ]

  -- A push that succeeds: the slot that it puts into the timeline, with the next ingest sequence,
  -- and the clock behind it.
  pub push-Grown :
      (fresh : Option ring.State) (slot : ClockSlot K T) (clock : Clock K T same_key ring)
      → clock.err ≡ none
      → (push K T same_key ring fresh slot clock).0 ≡ true
      → ((taken_slot fresh slot clock).ingest_sequence ≡ (clock.sequence + 1) % 2 ^ 64)
        × Grown (taken_slot fresh slot clock) clock (push K T same_key ring fresh slot clock).1
  unfolding push taken_slot
  push-Grown fresh slot clock no_error =
      subst
        (λ c.
          (push K T same_key ring fresh slot c).0 ≡ true
          → ((taken_slot fresh slot c).ingest_sequence ≡ (c.sequence + 1) % 2 ^ 64)
            × Grown (taken_slot fresh slot c) c (push K T same_key ring fresh slot c).1)
        (λ i. record clock { err = sym no_error i }) (without_error (record clock { err = none }))
    where
      without_error :
          (c : Clock K T same_key ring)
          → let c0 = record c { err = none } in
            (push K T same_key ring fresh slot c0).0 ≡ true
            → ((taken_slot fresh slot c0).ingest_sequence ≡ (c0.sequence + 1) % 2 ^ 64)
              × Grown (taken_slot fresh slot c0) c0 (push K T same_key ring fresh slot c0).1
      without_error c h =
          let c0 = record c { err = none } in
          let (track, e, c1) = register_track K T same_key ring fresh slot.track c0 in
          elim (Bool-cases (slot.wall == 0)) [
            | inl z ↦
                let no : (push K T same_key ring fresh slot c0).0 ≡ false = rw (z, push) refl in
                absurd cc
            | inr z ↦ elim (Option-cases track) [
              | inl n ↦
                  let no : (push K T same_key ring fresh slot c0).0 ≡ false =
                    rw (z, n, push) refl in
                  absurd cc
              | inr (t, n) ↦
                  let same : push K T same_key ring fresh slot c0
                      ≡ push_slot K T same_key ring slot t c1 =
                    rw (z, n, push) refl in
                  let quiet = register_track-quiet fresh slot.track c0 in
                  let g = push_slot-Grown slot t c1 (sym (ap (λ r. r.0) same) ∙ h) in
                  let slot' = (sequenced K T same_key ring slot t ((c1.sequence + 1) % 2 ^ 64)).0 in
                  let done = (push_slot K T same_key ring slot t c1).1 in
                  let taken : taken_slot fresh slot c0 ≡ slot' =
                    rw (n, taken_slot)
                      (ap (λ x. (sequenced K T same_key ring slot t ((x + 1) % 2 ^ 64)).0)
                        (sym quiet.1)) in
                  (
                    ap (λ x. x.ingest_sequence) taken ∙ ap (λ x. (x + 1) % 2 ^ 64) quiet.1,
                    subst (λ x. Grown x c0 (push K T same_key ring fresh slot c0).1) (sym taken)
                        (subst (λ r. Grown slot' c0 r.1) (sym same)
                          (Grown-behind slot' c0 c1 done quiet g)),
                  )
            ]
          ]
