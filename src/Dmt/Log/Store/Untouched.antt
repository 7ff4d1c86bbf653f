-- ===== src/Dmt/Log/Store/Untouched.antt =====
-- What the appending of a record leaves as it was.
use datura.Prelude.{◌≡◌, refl, ◌∙◌, Bool, true, false, Option, none, some, [], ◌∷◌}
use datura.Prelude.Bytes.{Bytes}
use datura.Dmt.Log.Replay.{LogError}
use datura.Dmt.Log.Store.{
  Store, Target, current, replaced, shut, WriteAnswer, stored, torn, Answer, guarded, write, flush,
  sync, hand_over, append_record, reset_state,
}

-- The last term, the last index, the number of scheduled snapshots, and whether there is a writer.
abbrev pub SamePositions : Store → Store → Type 0
SamePositions s s' =
    (s'.last_term ≡ s.last_term)
    × (s'.last_index ≡ s.last_index)
    × (s'.scheduled ≡ s.scheduled)
    × (s'.has_writer ≡ s.has_writer)

guarded-positions :
    (step : Store → Option LogError × Store) (s : Store)
    → ((x : Store) → SamePositions x (step x).1)
    → SamePositions s (guarded step s)
unfolding guarded
guarded-positions step s h = by_error s.batch.err
  where
    by_error :
        (e : Option LogError)
        → SamePositions s (guarded step (record s { batch = record { err = e } }))
    by_error none = h (record s { batch = record { err = none } })
    by_error (some e) = (refl, refl, refl, refl)

write-positions : (bytes : Bytes) (s : Store) → SamePositions s (write bytes s).1
unfolding write
write-positions bytes s = by_stuck s.stuck
  where
    by_stuck : (c : Bool) → SamePositions s (write bytes (record s { stuck = c })).1
    by_stuck true = (refl, refl, refl, refl)
    by_stuck false = (refl, refl, refl, refl)

hand_over-positions :
    (answer : WriteAnswer) (t : Target) (s : Store) → SamePositions s (hand_over answer t s).1
unfolding hand_over
hand_over-positions stored current s = (refl, refl, refl, refl)
hand_over-positions (torn n) current s = (refl, refl, refl, refl)
hand_over-positions stored replaced s = (refl, refl, refl, refl)
hand_over-positions (torn n) replaced s = (refl, refl, refl, refl)
hand_over-positions stored shut s = (refl, refl, refl, refl)
hand_over-positions (torn n) shut s = (refl, refl, refl, refl)

flush-positions : (answer : WriteAnswer) (s : Store) → SamePositions s (flush answer s).1
unfolding flush
flush-positions answer s = by_state s.stuck s.pending
  where
    by_state :
        (c : Bool) (bytes : Bytes)
        → SamePositions s (flush answer (record s { stuck = c; pending = bytes })).1
    by_state true bytes = (refl, refl, refl, refl)
    by_state false [] = (refl, refl, refl, refl)
    by_state false (b ∷ bs) =
        hand_over-positions answer s.target (record s { stuck = false; pending = b ∷ bs })

sync-positions : (synced : Bool) (s : Store) → SamePositions s (sync synced s).1
unfolding sync
sync-positions synced s = by_file s.has_file s.target
  where
    by_file :
        (c : Bool) (t : Target)
        → SamePositions s (sync synced (record s { has_file = c; target = t })).1
    by_file false t = (refl, refl, refl, refl)
    by_file true current = (refl, refl, refl, refl)
    by_file true replaced = (refl, refl, refl, refl)
    by_file true shut = (refl, refl, refl, refl)

pub append_record-positions :
    (answer : Answer) (bytes : Bytes) (s : Store) → SamePositions s (append_record answer bytes s)
unfolding append_record reset_state
append_record-positions answer bytes s =
    let s1 = guarded (write bytes) (reset_state s) in
    let s2 = guarded (flush answer.write) s1 in
    let (a, b, c, d) = guarded-positions (write bytes) (reset_state s) (write-positions bytes) in
    let (a', b', c', d') =
      guarded-positions (flush answer.write) s1 (flush-positions answer.write) in
    let (a'', b'', c'', d'') =
      guarded-positions (sync answer.synced) s2 (sync-positions answer.synced) in
    (a'' ∙ a' ∙ a, b'' ∙ b' ∙ b, c'' ∙ c' ∙ c, d'' ∙ d' ∙ d)
