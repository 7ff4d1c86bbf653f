-- ===== src/Memory/Search.antt =====
-- What a search returns.
use datura.Prelude.{
  ℕ, ◌≡◌, refl, ap, ◌∙◌, sym, Bool, not, Option, true, false, ◌&&◌, none, some, List, [], ◌∷◌, map,
  take, length, min, All, ltb, ◌==◌, arith, if◌then◌else◌, Bool-cases, Option-cases, inl, inr,
}
use datura.Prelude.Int.{ℤ, pos, negsuc}
use mathlib.Core.List.{Perm}
use datura.Prelude.Bytes.{Bytes}
use datura.Memory.{
  Strings, Floats, Query, Store, score_document, passes, precedes, find_hits, limited, search,
  Document,
}
use datura.Memory.Ranking.{FloatLaws, SliceStable, Hit, HasNumber, Ranked, sort-Ranked}

-- How many of `n` hits a limit lets through; one that is not positive is none.
abbrev pub within_limit : ℤ → ℕ → ℕ
within_limit (negsuc k) n = n
within_limit (pos k) n = if k == 0 then n else min k n

take_all : {A : Type 0} → (l : List A) → take (length l) l ≡ l
take_all [] = refl
take_all (x ∷ l) = ap (λ rest. x ∷ rest) (take_all l)

module _ (strings : Strings) (floats : Floats) (Metadata : Type 0) where
  abbrev pub Doc : Type 0
  Doc = Document strings floats Metadata

  -- The document has this score for the query, and it is not less than the threshold.
  abbrev pub Qualifies : Bytes → Query strings floats Metadata → Doc → floats.Double → Type 0
  Qualifies lower query document score =
      (score_document strings floats Metadata document lower query ≡ some score)
      × ((threshold : floats.Single)
          → query.score_threshold ≡ some threshold
          → floats.less score (floats.widen threshold) ≡ false)

  -- It has none, or a score that is less than the threshold.
  pub data Fails (lower : Bytes) (query : Query strings floats Metadata) (document : Doc)
      : Type 0 where
    unscored :
        score_document strings floats Metadata document lower query ≡ none
        → Fails lower query document
    below_threshold :
        (score : floats.Double) (threshold : floats.Single)
        → score_document strings floats Metadata document lower query ≡ some score
        → query.score_threshold ≡ some threshold
        → floats.less score (floats.widen threshold) ≡ true
        → Fails lower query document

  -- The hits of a store: each entry that qualifies, once and with its score, and no other.
  pub data HitsOf (lower : Bytes) (query : Query strings floats Metadata)
      : Store strings floats Metadata → List (Hit strings floats Metadata) → Type 0 where
    no_entry : HitsOf lower query [] []
    listed :
        (key : Bytes) (document : Doc) (score : floats.Double)
        (store : Store strings floats Metadata) (hits : List (Hit strings floats Metadata))
        → Qualifies lower query document score
        → HitsOf lower query store hits
        → HitsOf lower query
            ((key, document) ∷ store)
            (record { document = document; score = score } ∷ hits)
    left_out :
        (key : Bytes) (document : Doc) (store : Store strings floats Metadata)
        (hits : List (Hit strings floats Metadata))
        → Fails lower query document
        → HitsOf lower query store hits
        → HitsOf lower query ((key, document) ∷ store) hits

  passes_threshold :
      (query : Query strings floats Metadata) (score : floats.Double)
      → passes strings floats Metadata query score ≡ true
      → (threshold : floats.Single) → query.score_threshold ≡ some threshold
      → floats.less score (floats.widen threshold) ≡ false
  passes_threshold query score h threshold e =
      not_true (floats.less score (floats.widen threshold)) (
        sym
          (ap (λ o. passes strings floats Metadata (record query { score_threshold = o }) score) e)
        ∙ h)
    where
      not_true : (b : Bool) → not b ≡ true → b ≡ false
      not_true true h = sym h
      not_true false h = refl

  threshold-Fails :
      (query : Query strings floats Metadata) (document : Doc) (lower : Bytes)
      (score : floats.Double) (o : Option floats.Single)
      → score_document strings floats Metadata document lower query ≡ some score
      → query.score_threshold ≡ o
      → passes strings floats Metadata (record query { score_threshold = o }) score ≡ false
      → Fails lower query document
  threshold-Fails query document lower score none e f h = absurd cc
  threshold-Fails query document lower score (some threshold) e f h =
      below_threshold score threshold e f (not_false (floats.less score (floats.widen threshold)) h)
    where
      not_false : (b : Bool) → not b ≡ false → b ≡ true
      not_false true h = refl
      not_false false h = sym h

  find_hits-HitsOf :
      (lower : Bytes) (query : Query strings floats Metadata)
      (store : Store strings floats Metadata)
      → HitsOf lower query store (find_hits strings floats Metadata lower query store)
  unfolding find_hits
  find_hits-HitsOf lower query [] = no_entry
  find_hits-HitsOf lower query ((key, doc) ∷ store) =
      let rest = find_hits-HitsOf lower query store in
      elim (Option-cases (score_document strings floats Metadata doc lower query)) [
        | inl e ↦ rw (find_hits, e) (left_out key doc store _ (unscored e) rest)
        | inr (score, e) ↦ elim (Bool-cases (passes strings floats Metadata query score)) [
          | inl f ↦
              rw (find_hits, e, f)
                (listed key doc score store _ (e, passes_threshold query score f) rest)
          | inr f ↦
              rw (find_hits, e, f)
                (left_out key doc store _ (threshold-Fails query doc lower score _ e refl f) rest)
        ]
      ]

  limited-take :
      (limit : ℤ) (hits : List (Hit strings floats Metadata))
      → limited strings floats Metadata limit hits ≡ take (within_limit limit (length hits)) hits
  unfolding limited
  limited-take (negsuc k) hits = sym (take_all hits)
  limited-take (pos k) hits = elim (Bool-cases (k == 0)) [
    | inl e ↦ rw (e, limited) (ground (arith, take_all hits))
    | inr e ↦ elim (Bool-cases (ltb k (length hits))) [
      | inl f ↦
          let positive : ltb 0 k ≡ true = ground arith in
          let cut : min k (length hits) ≡ k = ground arith in
          rw (e, limited, positive, f) (ap (λ m. take m hits) (sym cut))
      | inr f ↦
          let positive : ltb 0 k ≡ true = ground arith in
          let uncut : min k (length hits) ≡ length hits = ground arith in
          rw (e, limited, positive, f) (sym (ap (λ m. take m hits) uncut ∙ take_all hits))
    ]
  ]

  -- For a text that is not blank or an embedding that is not empty, by a sort that is stable, with
  -- the comparisons of IEEE 754, and where no score that is found is a NaN: a search gives no error
  -- and the documents of the first hits, as many as a positive limit says and else all, of a
  -- permutation of the store's hits, which are the entries whose score reaches the threshold. In it
  -- no hit stands behind one with a smaller score, nor behind one with the same score and a greater
  -- identifier.
  pub search-Ranked :
      (slice_stable : (Hit strings floats Metadata → Hit strings floats Metadata → Bool)
        → List (Hit strings floats Metadata)
        → List (Hit strings floats Metadata))
      → SliceStable slice_stable
      → FloatLaws floats
      → (query : Query strings floats Metadata) (store : Store strings floats Metadata)
      → (length (strings.trim_space query.text) == 0 && length query.embedding == 0) ≡ false
      → let lower = strings.to_lower (strings.trim_space query.text) in
        All
          (HasNumber strings floats Metadata)
          (find_hits strings floats Metadata lower query store)
        → (found : List (Hit strings floats Metadata)) × (hits : List (Hit strings floats Metadata))
          × HitsOf lower query store found
          × Perm found hits
          × Ranked strings floats Metadata hits
          × (search strings floats Metadata slice_stable query store ≡ (
            record {
              documents =
                  map
                    (λ (hit : Hit strings floats Metadata). hit.document)
                    (take (within_limit query.limit (length hits)) hits);
            },
            none,
          ))
  unfolding search
  search-Ranked slice_stable stable laws query store e numbers =
      let lower : Bytes = strings.to_lower (strings.trim_space query.text) in
      let found = find_hits strings floats Metadata lower query store in
      let hits = slice_stable (precedes strings floats Metadata) found in
      (
        found,
        hits,
        find_hits-HitsOf lower query store,
        stable.moves (precedes strings floats Metadata) found,
        sort-Ranked strings floats Metadata laws slice_stable found stable numbers,
        rw (search, e, limited-take query.limit hits) refl,
      )
