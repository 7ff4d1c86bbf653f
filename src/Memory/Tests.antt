-- ===== src/Memory/Tests.antt =====
-- The store and its search on small inputs, with natural numbers for floats.
use datura.Prelude.{
  ℕ, ◌≡◌, refl, Bool, true, false, ◌&&◌, ◌||◌, none, some, List, [], ◌∷◌, map, take, length, ltb,
  ◌==◌, ◌+◌, ◌*◌, ◌/◌, arith,
}
use mathlib.Core.List.{Perm}
use datura.Prelude.Int.{pos}
use datura.Prelude.Bytes.{Bytes, bytes_compare}
use datura.Memory.{
  Strings, Floats, Document, Mutation, Query, Store, not_found, put, delete, get, search, new_store,
  lookup, assign, remove_key, limited, find_hits, score_document,
}
use datura.Memory.Contents.{StoreOp, putting, deleting, run_store, store_refines, latest}
use datura.Memory.Insertion.{insert, insertion_sort, insertion_sort-SliceStable}
use datura.Memory.Ranking.{FloatLaws, Hit, Ranked}
use datura.Memory.Search.{search-Ranked, HitsOf, within_limit}

unfoldable starts : Bytes → Bytes → Bool
starts [] l = true
starts (x ∷ xs) [] = false
starts (x ∷ xs) (y ∷ ys) = let rest = starts xs ys in (x == y) && rest

unfoldable within : Bytes → Bytes → Bool
within [] part = starts part []
within (x ∷ xs) part = let rest = within xs part in starts part (x ∷ xs) || rest

abbrev strings : Strings
strings = record { trim_space = λ s. s; to_lower = λ s. s; contains = within }

abbrev floats : Floats
floats = record {
  Double = ℕ;
  Single = ℕ;
  widen = λ n. n;
  zero = 0;
  one = 1;
  add = λ (a b : ℕ). a + b;
  mul = λ (a b : ℕ). a * b;
  div = λ (a b : ℕ). a / b;
  sqrt = λ n. n;
  equal = λ (a b : ℕ). a == b;
  less = ltb;
}

floats-FloatLaws : FloatLaws floats
floats-FloatLaws = record {
  equal-sym = λ (a b : ℕ). ground arith;
  equal-trans = λ (a b c : ℕ) h k. ground arith;
  equal_less = λ (a b : ℕ) h. ground arith;
  less-asym = λ (a b : ℕ) h. ground arith;
  less_through = λ (a b c : ℕ) n h k. ground arith;
  total = λ (a b : ℕ) n m h k. ground arith;
}

abbrev Data : Type 0
Data = Mutation strings floats ℕ

abbrev mutation : Bytes → Bytes → Data
mutation id text = record { id = id; text = text; embedding = []; metadata = 0 }

abbrev document : Bytes → Bytes → Document strings floats ℕ
document id text = record { id = id; text = text; embedding = []; metadata = 0 }

abbrev query : Bytes → Bytes → ℕ → Query strings floats ℕ
query id text limit = record {
  id = id;
  text = text;
  embedding = [];
  limit = pos limit;
  score_threshold = none;
  vector_weight = 0;
  text_weight = 0;
}

abbrev operations : List (StoreOp strings floats ℕ)
operations =
    putting (mutation (2 ∷ []) (7 ∷ 8 ∷ []))
    ∷ putting (mutation (1 ∷ []) (8 ∷ []))
    ∷ putting (mutation (3 ∷ []) (9 ∷ []))
    ∷ putting (mutation (2 ∷ []) (6 ∷ 8 ∷ []))
    ∷ deleting (mutation (3 ∷ []) [])
    ∷ []

abbrev stored : Store strings floats ℕ
stored = (2 ∷ [], document (2 ∷ []) (6 ∷ 8 ∷ [])) ∷ (1 ∷ [], document (1 ∷ []) (8 ∷ [])) ∷ []

run_store_run : run_store strings floats ℕ operations (new_store strings floats ℕ) ≡ stored
unfolding run_store put delete lookup assign remove_key bytes_compare
run_store_run = refl

-- Both documents hold the text and have the score 1: the smaller identifier is first.
search_run : search strings floats ℕ insertion_sort (query [] (8 ∷ []) 0) stored ≡ (
  record { documents = document (1 ∷ []) (8 ∷ []) ∷ document (2 ∷ []) (6 ∷ 8 ∷ []) ∷ [] },
  none,
)
unfolding search limited insertion_sort insert find_hits score_document within starts bytes_compare
search_run = refl

store_refines_example :
    (get strings floats ℕ
        (query (2 ∷ []) [] 0)
        (run_store strings floats ℕ operations (new_store strings floats ℕ))
      ≡ (record { documents = document (2 ∷ []) (6 ∷ 8 ∷ []) ∷ [] }, none))
    × ((delete strings floats ℕ
          (mutation (3 ∷ []) [])
          (run_store strings floats ℕ operations (new_store strings floats ℕ))).0
        ≡ some (not_found (3 ∷ [])))
unfolding latest bytes_compare
store_refines_example =
    store_refines strings floats ℕ operations (query (2 ∷ []) [] 0) (mutation (3 ∷ []) [])

search-Ranked_example :
    (found : List (Hit strings floats ℕ)) × (hits : List (Hit strings floats ℕ)) × HitsOf strings
      floats ℕ
      (8 ∷ [])
      (query [] (8 ∷ []) 1)
      stored
      found
    × Perm found hits
    × Ranked strings floats ℕ hits
    × (search strings floats ℕ insertion_sort (query [] (8 ∷ []) 1) stored ≡ (
      record {
        documents =
            map
              (λ (hit : Hit strings floats ℕ). hit.document)
              (take (within_limit (pos 1) (length hits)) hits);
      },
      none,
    ))
unfolding find_hits score_document within starts
search-Ranked_example =
    search-Ranked strings floats ℕ insertion_sort insertion_sort-SliceStable floats-FloatLaws
      (query [] (8 ∷ []) 1) stored refl (refl, (refl, tt))
