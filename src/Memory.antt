-- ===== src/Memory.antt =====
-- memory/store.go, with the documents of types/memory.go and types/store.go: a store of documents in a
-- map, and its search. The map is the list of its entries, in the order of an iteration. Strings,
-- floats, the metadata and the sort are parameters. Left out: the context and the lock, as operations run one
-- at a time, and what a memory holds besides its documents, which this store leaves empty.
pub mod Lookup
pub mod Contents
pub mod Ranking
pub mod Insertion
pub mod Search
mod Tests
use datura.Prelude.{
  ℕ, zero, suc, Bool, true, false, not, ◌&&◌, ◌||◌, Option, none, some, List, [], ◌∷◌, ◌++◌, map,
  length, take, ltb, ◌==◌, if◌then◌else◌,
}
use datura.Prelude.Int.{ℤ, pos, negsuc}
use datura.Prelude.Bytes.{Bytes, bytes_lt, bytes_equal}

-- `strings.TrimSpace`, `strings.ToLower` and `strings.Contains`.
pub record Strings : Type 0 where
  pub trim_space : Bytes → Bytes
  pub to_lower : Bytes → Bytes
  pub contains : Bytes → Bytes → Bool

-- float64 and float32, with the conversion from the latter.
pub record Floats : Type 1 where
  pub Double : Type 0
  pub Single : Type 0
  pub widen : Single → Double
  pub zero : Double
  pub one : Double
  pub add : Double → Double → Double
  pub mul : Double → Double → Double
  pub div : Double → Double → Double
  pub sqrt : Double → Double
  pub equal : Double → Double → Bool
  pub less : Double → Double → Bool

pub data MemoryError : Type 0 where
  id_required query_required : MemoryError
  not_found : Bytes → MemoryError

module _ (strings : Strings) (floats : Floats) (Metadata : Type 0) where
  pub record Document : Type 0 where
    pub id : Bytes
    pub text : Bytes
    pub embedding : List floats.Single
    pub metadata : Metadata

  -- `Mutation` without the two fields of graph stores.
  pub record Mutation : Type 0 where
    pub id : Bytes
    pub text : Bytes
    pub embedding : List floats.Single
    pub metadata : Metadata

  pub record Query : Type 0 where
    pub id : Bytes
    pub text : Bytes
    pub embedding : List floats.Single
    pub limit : ℤ
    pub score_threshold : Option floats.Single
    pub vector_weight : floats.Double
    pub text_weight : floats.Double

  pub record Memory : Type 0 where
    pub documents : List Document

  abbrev pub new_memory : Memory
  new_memory = record { documents = [] }

  abbrev pub add_document : Document → Memory → Memory
  add_document document memory = record { documents = memory.documents ++ (document ∷ []) }

  -- The map.
  abbrev pub Store : Type 0
  Store = List (Bytes × Document)

  abbrev pub new_store : Store
  new_store = []

  unfoldable pub lookup : Bytes → Store → Option Document
  lookup id [] = none
  lookup id ((key, document) ∷ store) =
      let rest = lookup id store in if bytes_equal key id then some document else rest

  -- An assignment: in place, or a new entry.
  unfoldable pub assign : Bytes → Document → Store → Store
  assign id document [] = (id, document) ∷ []
  assign id document ((key, other) ∷ store) =
      let rest = assign id document store in
      if bytes_equal key id then (key, document) ∷ store else (key, other) ∷ rest

  unfoldable pub remove_key : Bytes → Store → Store
  remove_key id [] = []
  remove_key id ((key, document) ∷ store) =
      let rest = remove_key id store in if bytes_equal key id then rest else (key, document) ∷ rest

  unfoldable pub get : Query → Store → Memory × Option MemoryError
  get query store =
      if length query.id == 0
      then (new_memory, some id_required)
      else elim (lookup query.id store) [
        | none ↦ (new_memory, some (not_found query.id))
        | some document ↦ (add_document document new_memory, none)
      ]

  unfoldable pub put : Mutation → Store → Option MemoryError × Store
  put mutation store = if length mutation.id == 0 then (some id_required, store) else (
    none,
    assign mutation.id
        (record {
          id = mutation.id;
          text = mutation.text;
          embedding = mutation.embedding;
          metadata = mutation.metadata;
        })
        store,
  )

  unfoldable pub delete : Mutation → Store → Option MemoryError × Store
  delete mutation store =
      if length mutation.id == 0
      then (some id_required, store)
      else elim (lookup mutation.id store) [
        | none ↦ (some (not_found mutation.id), store)
        | some document ↦ (none, remove_key mutation.id store)
      ]

  -- The loop of `cosineSimilarity`: the product and the two norms.
  unfoldable pub add_products :
      List floats.Single
      → List floats.Single
      → floats.Double × floats.Double × floats.Double
      → floats.Double × floats.Double × floats.Double
  add_products (left ∷ lefts) (right ∷ rights) (dot, left_norm, right_norm) =
      let lv = floats.widen left in
      let rv = floats.widen right in
      add_products lefts rights (
        floats.add dot (floats.mul lv rv),
        floats.add left_norm (floats.mul lv lv),
        floats.add right_norm (floats.mul rv rv),
      )
  add_products [] rights sums = sums
  add_products (left ∷ lefts) [] sums = sums

  unfoldable pub cosine_similarity : List floats.Single → List floats.Single → Option floats.Double
  cosine_similarity left right =
      if length left == 0 || not (length left == length right)
      then none
      else (let (dot, left_norm, right_norm) =
            add_products left right (floats.zero, floats.zero, floats.zero) in
          if floats.equal left_norm floats.zero || floats.equal right_norm floats.zero
          then none
          else some (floats.div dot (floats.mul (floats.sqrt left_norm) (floats.sqrt right_norm))))

  -- A weight of 0 stands for 1.
  abbrev pub weight_or_one : floats.Double → floats.Double
  weight_or_one weight = if floats.equal weight floats.zero then floats.one else weight

  unfoldable pub score_document : Document → Bytes → Query → Option floats.Double
  score_document doc lower query =
      let has_text = not (length lower == 0) in
      let has_vector = not (length query.embedding == 0) in
      let text_match = has_text && strings.contains (strings.to_lower doc.text) lower in
      if not has_text && not has_vector
      then none
      else (if not has_vector
          then (if not text_match then none else some floats.one)
          else elim (cosine_similarity query.embedding doc.embedding) [
            | none ↦ none
            | some vector_score ↦
                let score = floats.mul (weight_or_one query.vector_weight) vector_score in
                some (
                  if has_text && text_match
                  then floats.add score (weight_or_one query.text_weight)
                  else score)
          ])

  pub record ScoredDocument : Type 0 where
    pub document : Document
    pub score : floats.Double

  -- Does the score reach the threshold, if there is one?
  abbrev pub passes : Query → floats.Double → Bool
  passes query score = elim query.score_threshold [
    | none ↦ true
    | some threshold ↦ not (floats.less score (floats.widen threshold))
  ]

  -- The loop of `Search` over the map.
  unfoldable pub find_hits : Bytes → Query → Store → List ScoredDocument
  find_hits lower query [] = []
  find_hits lower query ((key, doc) ∷ store) =
      let rest = find_hits lower query store in
      elim (score_document doc lower query) [
        | none ↦ rest
        | some score ↦
            if passes query score then record { document = doc; score = score } ∷ rest else rest
      ]

  -- The comparison that `Search` sorts by.
  abbrev pub precedes : ScoredDocument → ScoredDocument → Bool
  precedes left right =
      if floats.equal left.score right.score
      then bytes_lt left.document.id right.document.id
      else floats.less right.score left.score

  unfoldable pub limited : ℤ → List ScoredDocument → List ScoredDocument
  limited (negsuc n) hits = hits
  limited (pos n) hits = if ltb 0 n && ltb n (length hits) then take n hits else hits

  -- `Search`, with `sort.SliceStable`.
  unfoldable pub search :
      ((ScoredDocument → ScoredDocument → Bool) → List ScoredDocument → List ScoredDocument)
      → Query
      → Store
      → Memory × Option MemoryError
  search slice_stable query store =
      let text = strings.trim_space query.text in
      if length text == 0 && length query.embedding == 0
      then (new_memory, some query_required)
      else (
        record {
          documents =
              map (λ (hit : ScoredDocument). hit.document)
                (limited query.limit
                  (slice_stable precedes (find_hits (strings.to_lower text) query store)));
        },
        none,
      )
