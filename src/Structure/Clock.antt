-- ===== src/Structure/Clock.antt =====
-- structure/clock.go, structure/clock_track.go, structure/clock_cursor.go: a timeline of observations
-- with a bounded history for each key. The rings under it are a parameter. A time is a number of
-- nanoseconds, of which 0 is the zero time. Left out: Merge, Slice, Close and the nil clock.
pub mod Rings
pub mod Push
pub mod Numbers
pub mod Cuts
pub mod Events
pub mod Newest
mod Tests
use datura.Prelude.{
  ◌*◌, ℕ, ◌+◌, ◌-◌, ◌%◌, ◌^◌, suc, zero, Bool, true, false, ◌&&◌, ◌||◌, not, Option, none, some,
  List, [], ◌∷◌, ◌++◌, ltb, leb, ◌==◌, if◌then◌else◌,
}

pub data ClockError : Type 0 where
  clock_time clock_track clock_empty push_failed : ClockError
  cut_exceeds : (through sequence : ℕ) → ClockError

-- `Ring`, as a clock uses it: `peek step` is `Select(-step).Pop` and `walk` what `Select(0).Do` visits.
pub record RingOps (A : Type 0) : Type 1 where
  pub State : Type 0
  pub push : A → State → Bool × State
  pub peek : ℕ → State → Option A
  pub walk : State → List A
  pub len : State → ℕ

pub record ClockSlot (K T : Type 0) : Type 0 where
  pub track : K
  pub wall : ℕ
  pub ingest_sequence : ℕ
  pub sequence : ℕ
  pub payload : T

-- The Unix epoch, in nanoseconds from the zero time.
abbrev pub epoch : ℕ
epoch = 62135596800 * 10 ^ 9

module _ (K T : Type 0) (same_key : K → K → Bool) (ring : RingOps (ClockSlot K T)) where
  pub record ClockTrack : Type 0 where
    pub values : ring.State
    pub count : ℕ
    pub sequence : ℕ
    pub first : ℕ
    pub latest : ℕ

  pub record Clock : Type 0 where
    pub timeline : ring.State
    pub tracks : List (K × ClockTrack)
    pub err : Option ClockError
    pub sequence : ℕ
    pub timeline_size : ℕ
    pub rewritten : Bool

  unfoldable pub new_clock : ring.State → Clock
  new_clock timeline = record {
    timeline = timeline;
    tracks = [];
    err = none;
    sequence = 0;
    timeline_size = 0;
    rewritten = false;
  }

  unfoldable pub track_in : K → List (K × ClockTrack) → Option ClockTrack
  track_in key [] = none
  track_in key ((k, track) ∷ tracks) =
      let rest = track_in key tracks in if same_key key k then some track else rest

  -- The tracks with this one under the key.
  unfoldable pub store_track : K → ClockTrack → List (K × ClockTrack) → List (K × ClockTrack)
  store_track key track [] = (key, track) ∷ []
  store_track key track ((k, t) ∷ tracks) =
      let rest = store_track key track tracks in
      if same_key key k then (k, track) ∷ tracks else (k, t) ∷ rest

  unfoldable pub new_clock_track : ring.State → ClockTrack
  new_clock_track values = record {
    values = values;
    count = 0;
    sequence = 0;
    first = 0;
    latest = 0;
  }

  -- The track of a key, and whether the key is new; `fresh` is what the factory would give.
  unfoldable pub register_track :
      Option ring.State → K → Clock → Option ClockTrack × Option ClockError × Clock
  unfolding track_in store_track new_clock_track
  register_track fresh key clock = elim (track_in key clock.tracks) [
    | some track ↦ (some track, none, clock)
    | none ↦ elim fresh [
      | none ↦ (none, some clock_track, clock)
      | some values ↦ (
        some (new_clock_track values),
        none,
        record clock { tracks = store_track key (new_clock_track values) clock.tracks },
      )
    ]
  ]

  -- `Register`
  unfoldable pub register : Option ring.State → K → Clock → Option ClockError × Clock
  unfolding register_track
  register fresh key clock = let (track, e, clock') = register_track fresh key clock in (e, clock')

  -- The slot and the track with their sequence numbers.
  unfoldable pub sequenced : ClockSlot K T → ClockTrack → ℕ → ClockSlot K T × ClockTrack
  sequenced slot track ingest =
      let next = (track.sequence + 1) % 2 ^ 64 in
      let numbered = if slot.sequence == 0 then record slot { sequence = next } else slot in
      let counted = if slot.sequence == 0 then record track { sequence = next } else track in
      (
        record numbered { ingest_sequence = ingest },
        if counted.first == 0 then record counted { first = ingest } else counted,
      )

  -- A time that `storeLatest` keeps, as `latestWall` reads it: the Unix epoch, whose two numbers are
  -- 0, is the zero time.
  abbrev pub read_back : ℕ → ℕ
  read_back wall = if wall == epoch then 0 else wall

  -- The track behind a push into its ring.
  unfoldable pub observed : ClockSlot K T → ClockTrack → ClockTrack
  observed slot track = record track {
    sequence = if ltb track.sequence slot.sequence then slot.sequence else track.sequence;
    latest = if ltb track.latest slot.wall then read_back slot.wall else track.latest;
    count =
        if ltb (ring.len track.values) (track.count + 1)
        then ring.len track.values
        else track.count + 1;
  }

  -- The part of `push` that has a track.
  unfoldable pub push_slot : ClockSlot K T → ClockTrack → Clock → Bool × Clock
  unfolding sequenced observed store_track
  push_slot slot track clock =
      let ingest = (clock.sequence + 1) % 2 ^ 64 in
      let (slot', track') = sequenced slot track ingest in
      let (pushed, timeline) = ring.push slot' clock.timeline in
      let (pushed', values) = ring.push slot' track'.values in
      let failing = record clock {
        err = some push_failed;
        sequence = ingest;
        timeline = timeline;
      } in
      if not pushed
      then (false, record failing { tracks = store_track slot.track track' clock.tracks })
      else (if not pushed'
          then (
            false,
            record failing {
              tracks = store_track slot.track (record track' { values = values }) clock.tracks;
            },
          )
          else (
            true,
            record clock {
              sequence = ingest;
              timeline = timeline;
              tracks =
                  store_track slot.track (observed slot' (record track' { values = values }))
                    clock.tracks;
              timeline_size =
                  if ltb (ring.len timeline) (clock.timeline_size + 1)
                  then ring.len timeline
                  else clock.timeline_size + 1;
            },
          ))

  unfoldable pub push : Option ring.State → ClockSlot K T → Clock → Bool × Clock
  unfolding register_track push_slot
  push fresh slot clock = elim clock.err [
    | some _ ↦ (false, clock)
    | none ↦
        if slot.wall == 0
        then (false, record clock { err = some clock_time })
        else (let (track, e, clock') = register_track fresh slot.track clock in
            elim track [
              | none ↦ (false, record clock' { err = e })
              | some t ↦ push_slot slot t clock'
            ])
  ]

  -- `Observe`. The error of the timeline's ring is always nil.
  unfoldable pub observe : Option ring.State → K → ℕ → T → Clock → Option ClockError × Clock
  unfolding push
  observe fresh key wall payload clock =
      if wall == 0
      then (some clock_time, clock)
      else (let (pushed, clock') =
            push fresh
              (record {
                track = key;
                wall = wall;
                ingest_sequence = 0;
                sequence = 0;
                payload = payload;
              })
              clock in
          (if pushed then none else clock'.err, clock'))

  -- `Pop`, which leaves the clock as it is.
  abbrev pub pop : Clock → Option (ClockSlot K T)
  pop clock = ring.peek 1 clock.timeline
