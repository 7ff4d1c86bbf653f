-- ===== src/Dmt/Log/Replay/Grows.antt =====
-- The loop of `Replay` only adds entries behind those that it has.
use datura.Prelude.{
  ℕ, zero, suc, ◌≡◌, refl, ap, ◌∙◌, sym, none, some, List, [], ◌∷◌, ◌++◌, append_assoc, append-nil,
  ◌⊎◌, Bool-cases, inl, inr, ◌==◌,
}
use datura.Prelude.Bytes.{Bytes}
use datura.Dmt.Guard.{failed}
use datura.Dmt.Log.Frame.{op_insert, op_delete, op_snapshot, op_term_update, WalEntry}
use datura.Dmt.Log.Replay.{
  Reading, read_guarded, replay_insert, replay_delete, replay_term, replay_snapshot, replay_case,
  replay_loop,
}

-- The entries of the second are those of the first and more.
abbrev Grows : List WalEntry → List WalEntry → Type 0
Grows es es' = (more : List WalEntry) × (es' ≡ es ++ more)

unchanged : (es : List WalEntry) → Grows es es
unchanged es = ([], sym (append-nil es))

replay_insert-Grows : (r : Reading) → Grows r.entries (replay_insert r).entries
unfolding replay_insert read_guarded
replay_insert-Grows r = elim (Bool-cases (failed (read_guarded 24 r).1.batch)) [
  | inl e ↦ rw (e) (unchanged r.entries)
  | inr e ↦ rw (e) (_, refl)
]

replay_delete-Grows : (r : Reading) → Grows r.entries (replay_delete r).entries
unfolding replay_delete read_guarded
replay_delete-Grows r = elim (Bool-cases (failed (read_guarded 20 r).1.batch)) [
  | inl e ↦ rw (e) (unchanged r.entries)
  | inr e ↦ rw (e) (_, refl)
]

replay_term-Grows : (r : Reading) → Grows r.entries (replay_term r).entries
unfolding replay_term read_guarded
replay_term-Grows r = elim (Bool-cases (failed (read_guarded 8 r).1.batch)) [
  | inl e ↦ rw (e) (unchanged r.entries)
  | inr e ↦ rw (e) (unchanged r.entries)
]

replay_snapshot-Grows : (r : Reading) → Grows r.entries (replay_snapshot r).entries
unfolding replay_snapshot read_guarded
replay_snapshot-Grows r = elim (Bool-cases (failed (read_guarded 16 r).1.batch)) [
  | inl e ↦ rw (e) (unchanged r.entries)
  | inr e ↦ rw (e) (unchanged r.entries)
]

replay_case-Grows :
    (op : ℕ) (r : Reading)
    → ((r' : Reading) × (replay_case op r ≡ some r') × Grows r.entries r'.entries)
      ⊎ (replay_case op r ≡ none)
unfolding replay_case
replay_case-Grows op r = elim (Bool-cases (op == op_insert)) [
  | inl e ↦ rw (e) (inl (replay_insert r, refl, replay_insert-Grows r))
  | inr e ↦ elim (Bool-cases (op == op_delete)) [
    | inl e' ↦ rw (e, e') (inl (replay_delete r, refl, replay_delete-Grows r))
    | inr e' ↦ elim (Bool-cases (op == op_term_update)) [
      | inl e'' ↦ rw (e, e', e'') (inl (replay_term r, refl, replay_term-Grows r))
      | inr e'' ↦ elim (Bool-cases (op == op_snapshot)) [
        | inl e3 ↦ rw (e, e', e'', e3) (inl (replay_snapshot r, refl, replay_snapshot-Grows r))
        | inr e3 ↦ rw (e, e', e'', e3) (inr refl)
      ]
    ]
  ]
]

loop-Grows :
    (fuel : ℕ) (r : Reading) (input : Bytes)
    → Grows r.entries (replay_loop fuel (record r { input = input })).1.entries
unfolding replay_loop
loop-Grows zero r input = unchanged r.entries
loop-Grows (suc fuel) r [] = unchanged r.entries
loop-Grows (suc fuel) r (op ∷ rest) = elim (replay_case-Grows op (record r { input = rest })) [
  | inl (r', e, (more, e')) ↦
      let (more', e'') = loop-Grows fuel r' r'.input in
      rw (e, replay_loop)
        (more ++ more', e'' ∙ ap (λ es. es ++ more') e' ∙ append_assoc r.entries more more')
  | inr e ↦ rw (e, replay_loop) (unchanged r.entries)
]

pub replay_loop-Grows :
    (fuel : ℕ) (r : Reading)
    → (more : List WalEntry) × ((replay_loop fuel r).1.entries ≡ r.entries ++ more)
replay_loop-Grows fuel r = loop-Grows fuel r r.input
