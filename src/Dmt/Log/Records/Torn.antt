-- ===== src/Dmt/Log/Records/Torn.antt =====
-- What `Replay` makes of a log whose last record is cut off.
use datura.Prelude.{
  ℕ, zero, suc, ◌+◌, ◌-◌, ◌^◌, ◌≤◌, ◌<◌, min, ◌≡◌, refl, ap, ◌∙◌, none, some, List, [], ◌∷◌, ◌++◌,
  append-nil, arith, length, All, replicate, take, leb, false, inl, inr, ltb, Bool-cases,
}
use datura.Prelude.Bytes.{Bytes}
use datura.Dmt.Guard.{guard_value, failed}
use datura.Dmt.Log.Frame.{op_insert, op_term_update, WalEntry, le_bytes, u32_length, insert_header}
use datura.Dmt.Log.Frame.Headers.{
  term_field, index_field, key_size_field, value_size_field, length-insert_header,
}
use datura.Dmt.Log.Replay.{
  short_read, Reading, read_full, read_guarded, replay_insert, replay_delete, replay_term,
  replay_snapshot, replay_case, replay_loop, read_log,
}
use datura.Dmt.Log.Replay.Whole.{reading, read_whole}
use datura.Dmt.Log.Records.{
  LogRecord, Fits, log_bytes, log_entries, last_term_of, last_index_of, loop_empty, read_log-rest,
}

-- The length of the header behind the operation's byte.
abbrev pub header_size : ℕ → ℕ
header_size zero = 24
header_size (suc zero) = 20
header_size (suc (suc zero)) = 16
header_size (suc (suc (suc n))) = 8

-- A reading that has met the end of the log.
abbrev pub cut_off : List WalEntry → ℕ → ℕ → Reading
cut_off entries last_term last_index = record (reading [] entries last_term last_index) {
  batch = record { err = some short_read };
}

read_short :
    (n : ℕ) (input : Bytes) (es : List WalEntry) (t i : ℕ)
    → length input < n
    → read_guarded n (reading input es t i)
      ≡ (input ++ replicate (n - length input) 0, cut_off es t i)
unfolding read_guarded guard_value read_full
read_short n input es t i h =
    let short : leb n (length input) ≡ false = ground arith in rw (short) refl

case_short :
    (op : ℕ) (short : Bytes) (es : List WalEntry) (t i : ℕ)
    → op ≤ op_term_update
    → length short < header_size op
    → replay_case op (reading short es t i) ≡ some (cut_off es t i)
unfolding replay_case replay_insert replay_delete replay_term replay_snapshot failed
case_short zero short es t i h g = rw (read_short 24 short es t i g) refl
case_short (suc zero) short es t i h g = rw (read_short 20 short es t i g) refl
case_short (suc (suc zero)) short es t i h g = rw (read_short 16 short es t i g) refl
case_short (suc (suc (suc zero))) short es t i h g = rw (read_short 8 short es t i g) refl
case_short (suc (suc (suc (suc n)))) short es t i h g = absurd (omega (arith, h))

round_short :
    (fuel op : ℕ) (short : Bytes) (es : List WalEntry) (t i : ℕ) (r : Reading)
    → length (op ∷ short) ≤ fuel
    → replay_case op (reading short es t i) ≡ some (record r { input = [] })
    → replay_loop fuel (reading (op ∷ short) es t i) ≡ (none, record r { input = [] })
unfolding replay_loop
round_short zero op short es t i r h e = absurd (omega (arith, h))
round_short (suc fuel) op short es t i r h e = rw (e, replay_loop) (loop_empty fuel r)

-- A log of whole records and a last one that is cut off in its header is read without an error: the
-- entries, the last term and the last index are those of the whole records.
pub read_log-short :
    (rs : List LogRecord) (op : ℕ) (short : Bytes) (t i : ℕ)
    → All Fits rs
    → op ≤ op_term_update
    → length short < header_size op
    → read_log (log_bytes rs ++ (op ∷ short)) t i
      ≡ (none, cut_off (log_entries rs) (last_term_of rs t) (last_index_of rs i))
read_log-short rs op short t i a h g =
    let (fuel, enough, e) = read_log-rest rs (op ∷ short) t i a in
    e
    ∙ round_short fuel op short (log_entries rs) (last_term_of rs t) (last_index_of rs i)
        (cut_off (log_entries rs) (last_term_of rs t) (last_index_of rs i)) enough
        (case_short op short (log_entries rs) (last_term_of rs t) (last_index_of rs i) h g)

-- A field of which only these bytes are there: the others are zero.
abbrev pub padded : ℕ → Bytes → Bytes
padded n part = part ++ replicate (n - length part) 0

length-take : (n : ℕ) (bs : Bytes) → length (take n bs) ≡ min n (length bs)
length-take zero bs = omega arith
length-take (suc n) [] = omega arith
length-take (suc n) (b ∷ bs) = omega (arith, length-take n bs)

take-append_front : (n : ℕ) (xs bs : Bytes) → n ≤ length xs → take n (xs ++ bs) ≡ take n xs
take-append_front zero xs bs h = refl
take-append_front (suc n) [] bs h = absurd (omega (arith, h))
take-append_front (suc n) (a ∷ xs) bs h = ap (◌∷◌ a) (take-append_front n xs bs (omega (arith, h)))

take-append_behind :
    (n : ℕ) (xs bs : Bytes) → length xs ≤ n → take n (xs ++ bs) ≡ xs ++ take (n - length xs) bs
take-append_behind n [] bs h = ap (λ m. take m bs) (omega arith)
take-append_behind zero (a ∷ xs) bs h = absurd (omega (arith, h))
take-append_behind (suc n) (a ∷ xs) bs h =
    ap (◌∷◌ a)
      (take-append_behind n xs bs (omega (arith, h)) ∙ ap (λ m. xs ++ take m bs) (omega arith))

take-all : (n : ℕ) (bs : Bytes) → length bs ≤ n → take n bs ≡ bs
take-all zero [] h = refl
take-all zero (b ∷ bs) h = absurd (omega (arith, h))
take-all (suc n) [] h = refl
take-all (suc n) (b ∷ bs) h = ap (◌∷◌ b) (take-all n bs (omega (arith, h)))

padded_nothing : (n k : ℕ) (bs : Bytes) → k ≡ 0 → padded n (take k bs) ≡ replicate n 0
padded_nothing n k bs h = ap (λ m. padded n (take m bs)) h ∙ ap (λ m. replicate m 0) (omega arith)

padded_all : (k : ℕ) (bs : Bytes) → length bs ≤ k → padded (length bs) (take k bs) ≡ bs
padded_all k bs h =
    ap (padded (length bs)) (take-all k bs h)
    ∙ ap (λ m. bs ++ replicate m 0) {y = 0} (omega arith)
    ∙ append-nil bs

read_failed :
    (n : ℕ) (es : List WalEntry) (t i : ℕ)
    → read_guarded n (cut_off es t i) ≡ (replicate n 0, cut_off es t i)
unfolding read_guarded guard_value
read_failed n es t i = refl

module _ (term index : ℕ) (w : term < 2 ^ 64) (w' : index < 2 ^ 64) (key value : Bytes)
    (s : length key < 2 ^ 32) (s' : length value < 2 ^ 32) where
  -- The entry for an insertion that has only `k` bytes of its key and value.
  abbrev pub torn_entry : ℕ → WalEntry
  torn_entry k = record {
    op = op_insert;
    term = term;
    index = index;
    key = padded (length key) (take k key);
    value = padded (length value) (take (k - length key) value);
  }

  torn_key :
      (k : ℕ) (es : List WalEntry) (t i : ℕ)
      → k < length key
      → replay_insert (reading (insert_header term index key value ++ take k (key ++ value)) es t i)
        ≡ cut_off (es ++ (torn_entry k ∷ [])) term index
  unfolding replay_insert failed
  torn_key k es t i h =
      rw
        (
          take-append_front k key value (omega (arith, h)),
          read_whole 24 (insert_header term index key value) (take k key) es t i
              (length-insert_header term index w w' key value),
          term_field term index w w' (le_bytes 4 (u32_length key) ++ le_bytes 4 (u32_length value)),
          index_field term index w w'
              (le_bytes 4 (u32_length key) ++ le_bytes 4 (u32_length value)),
          key_size_field term index w w' key (le_bytes 4 (u32_length value)) s,
          value_size_field term index w w' key value s',
          read_short (length key) (take k key) es t i (omega (arith, h, length-take k key)),
          read_failed (length value) es t i,
          padded_nothing (length value) (k - length key) value (omega (arith, h)),
        )
        refl

  torn_value :
      (k : ℕ) (es : List WalEntry) (t i : ℕ)
      → length key ≤ k
      → k < length key + length value
      → replay_insert (reading (insert_header term index key value ++ take k (key ++ value)) es t i)
        ≡ cut_off (es ++ (torn_entry k ∷ [])) term index
  unfolding replay_insert failed
  torn_value k es t i h h' =
      rw
        (
          take-append_behind k key value h,
          read_whole 24 (insert_header term index key value) (key ++ take (k - length key) value) es
              t i (length-insert_header term index w w' key value),
          term_field term index w w' (le_bytes 4 (u32_length key) ++ le_bytes 4 (u32_length value)),
          index_field term index w w'
              (le_bytes 4 (u32_length key) ++ le_bytes 4 (u32_length value)),
          key_size_field term index w w' key (le_bytes 4 (u32_length value)) s,
          value_size_field term index w w' key value s',
          read_whole (length key) key (take (k - length key) value) es t i refl,
          read_short (length value) (take (k - length key) value) es t i
              (omega (arith, h, h', length-take (k - length key) value)),
        )
        (rw (padded_all k key h) refl)

  torn_payload :
      (k : ℕ) (es : List WalEntry) (t i : ℕ)
      → k < length key + length value
      → replay_case op_insert
          (reading (insert_header term index key value ++ take k (key ++ value)) es t i)
        ≡ some (cut_off (es ++ (torn_entry k ∷ [])) term index)
  unfolding replay_case
  torn_payload k es t i h = elim (Bool-cases (ltb k (length key))) [
    | inl e ↦ ap some (torn_key k es t i (ground arith))
    | inr e ↦ ap some (torn_value k es t i (ground arith) h)
  ]

  -- A log of whole records and a last one, of an insertion, that has its header and only `k` bytes
  -- of its key and value, is read without an error too, and the insertion is among the entries: its
  -- key and its value have their full lengths, and the bytes that are not in the log are zero. The
  -- last term and the last index are the insertion's.
  pub read_log-torn :
      (rs : List LogRecord) (k t i : ℕ)
      → All Fits rs
      → k < length key + length value
      → read_log
          (log_bytes rs
            ++ (op_insert ∷ (insert_header term index key value ++ take k (key ++ value))))
          t
          i
        ≡ (none, cut_off (log_entries rs ++ (torn_entry k ∷ [])) term index)
  read_log-torn rs k t i a h =
      let payload = insert_header term index key value ++ take k (key ++ value) in
      let (fuel, enough, e) = read_log-rest rs (op_insert ∷ payload) t i a in
      e
      ∙ round_short fuel op_insert payload (log_entries rs) (last_term_of rs t) (last_index_of rs i)
          (cut_off (log_entries rs ++ (torn_entry k ∷ [])) term index) enough
          (torn_payload k (log_entries rs) (last_term_of rs t) (last_index_of rs i) h)
