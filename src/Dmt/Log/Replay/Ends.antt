-- ===== src/Dmt/Log/Replay/Ends.antt =====
-- The loop of `Replay` ends on every log: each round takes at least a byte.
use datura.Prelude.{
  ℕ, zero, suc, ◌≤◌, ◌<◌, ◌≡◌, refl, Option, none, some, [], ◌∷◌, arith, ◌⊎◌, length, length-drop,
  leb, ◌==◌, Bool-cases, inl, inr,
}
use datura.Prelude.Bytes.{Bytes}
use datura.Dmt.Guard.{failed, guard_value}
use datura.Dmt.Log.Frame.{op_insert, op_delete, op_snapshot, op_term_update, le_value, slice_of}
use datura.Dmt.Log.Replay.{
  LogError, invalid_operation, Reading, read_full, read_guarded, replay_insert, replay_delete,
  replay_term, replay_snapshot, replay_case, replay_loop,
}

read_full-shorter : (n : ℕ) (input : Bytes) → length (read_full n input).2 ≤ length input
unfolding read_full
read_full-shorter n input = elim (Bool-cases (leb n (length input))) [
  | inl e ↦ rw (e) (omega (arith, length-drop n input))
  | inr e ↦ rw (e) (omega arith)
]

read_guarded-shorter : (n : ℕ) (r : Reading) → length (read_guarded n r).1.input ≤ length r.input
unfolding read_guarded guard_value
read_guarded-shorter n r = by_error r.batch.err
  where
    by_error :
        (e : Option LogError)
        → length (read_guarded n (record r { batch = record { err = e } })).1.input ≤ length r.input
    by_error none = read_full-shorter n r.input
    by_error (some x) = omega arith

replay_insert-shorter : (r : Reading) → length (replay_insert r).input ≤ length r.input
unfolding replay_insert
replay_insert-shorter r =
    let (header, r') = read_guarded 24 r in
    let (key, r'') = read_guarded (le_value (slice_of header 16 20)) r' in
    let h = read_guarded-shorter 24 r in
    let h' = read_guarded-shorter (le_value (slice_of header 16 20)) r' in
    let h'' = read_guarded-shorter (le_value (slice_of header 20 24)) r'' in
    elim (Bool-cases (failed r'.batch)) [
      | inl e ↦ rw (e) h
      | inr e ↦ rw (e) (omega (arith, h, h', h''))
    ]

replay_delete-shorter : (r : Reading) → length (replay_delete r).input ≤ length r.input
unfolding replay_delete
replay_delete-shorter r =
    let (header, r') = read_guarded 20 r in
    let h = read_guarded-shorter 20 r in
    let h' = read_guarded-shorter (le_value (slice_of header 16 20)) r' in
    elim (Bool-cases (failed r'.batch)) [ inl e ↦ rw (e) h | inr e ↦ rw (e) (omega (arith, h, h')) ]

replay_term-shorter : (r : Reading) → length (replay_term r).input ≤ length r.input
unfolding replay_term
replay_term-shorter r = elim (Bool-cases (failed (read_guarded 8 r).1.batch)) [
  | inl e ↦ rw (e) (read_guarded-shorter 8 r)
  | inr e ↦ rw (e) (read_guarded-shorter 8 r)
]

replay_snapshot-shorter : (r : Reading) → length (replay_snapshot r).input ≤ length r.input
unfolding replay_snapshot
replay_snapshot-shorter r = elim (Bool-cases (failed (read_guarded 16 r).1.batch)) [
  | inl e ↦ rw (e) (read_guarded-shorter 16 r)
  | inr e ↦ rw (e) (read_guarded-shorter 16 r)
]

-- What a round does with its byte: one of the four operations takes no more than there is.
replay_case-result :
    (op : ℕ) (r : Reading)
    → ((r' : Reading) × (replay_case op r ≡ some r') × (length r'.input ≤ length r.input))
      ⊎ ((replay_case op r ≡ none) × (op_term_update < op))
unfolding replay_case
replay_case-result op r = elim (Bool-cases (op == op_insert)) [
  | inl e ↦ rw (e) (inl (replay_insert r, refl, replay_insert-shorter r))
  | inr e ↦ elim (Bool-cases (op == op_delete)) [
    | inl e' ↦ rw (e, e') (inl (replay_delete r, refl, replay_delete-shorter r))
    | inr e' ↦ elim (Bool-cases (op == op_term_update)) [
      | inl e'' ↦ rw (e, e', e'') (inl (replay_term r, refl, replay_term-shorter r))
      | inr e'' ↦ elim (Bool-cases (op == op_snapshot)) [
        | inl e3 ↦ rw (e, e', e'', e3) (inl (replay_snapshot r, refl, replay_snapshot-shorter r))
        | inr e3 ↦ rw (e, e', e'', e3) (inr (refl, ground arith))
      ]
    ]
  ]
]

-- Where the loop ends: at the end of the log without an error, or at a byte that is no operation.
pub data Ended (result : Option LogError × Reading) : Type 0 where
  at_end : result.0 ≡ none → result.1.input ≡ [] → Ended result
  at_operation :
      (op : ℕ) → op_term_update < op → result.0 ≡ some (invalid_operation op) → Ended result

loop-Ended :
    (k l : ℕ) (r : Reading) (input : Bytes)
    → length input ≤ k
    → k ≤ l
    → Ended (replay_loop k (record r { input = input }))
      × (replay_loop l (record r { input = input }) ≡ replay_loop k (record r { input = input }))
unfolding replay_loop
loop-Ended zero zero r [] g g' = (at_end refl refl, refl)
loop-Ended zero (suc l) r [] g g' = (at_end refl refl, refl)
loop-Ended (suc k) zero r [] g g' = absurd (omega (arith, g'))
loop-Ended (suc k) (suc l) r [] g g' = (at_end refl refl, refl)
loop-Ended zero l r (op ∷ rest) g g' = absurd (omega (arith, g))
loop-Ended (suc k) zero r (op ∷ rest) g g' = absurd (omega (arith, g'))
loop-Ended (suc k) (suc l) r (op ∷ rest) g g' =
    elim (replay_case-result op (record r { input = rest })) [
      | inl (r', e, shorter) ↦
          rw (e, replay_loop)
            (loop-Ended k l r' r'.input (omega (arith, g, shorter)) (omega (arith, g')))
      | inr (e, above) ↦ rw (e, replay_loop) (at_operation op above refl, refl)
    ]

-- With at least as many rounds as the reader has bytes, the loop ends at the end of the log without
-- an error or at a byte that is none of the four operations, and more rounds change nothing.
pub replay_loop-Ended :
    (n m : ℕ) (r : Reading)
    → length r.input ≤ n
    → n ≤ m
    → Ended (replay_loop n r) × (replay_loop m r ≡ replay_loop n r)
replay_loop-Ended n m r h h' = loop-Ended n m r r.input h h'
