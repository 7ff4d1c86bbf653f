-- ===== src/Memory/Contents.antt =====
-- The store as a map from identifiers to documents.
use datura.Prelude.{
  ◌≡◌, refl, ap, ◌∙◌, sym, true, false, Option, none, some, List, [], ◌∷◌, length, ◌==◌,
  if◌then◌else◌, ◌⊎◌, Bool-cases, Option-cases, inl, inr,
}
use datura.Prelude.Bytes.{Bytes, bytes_equal, bytes_equal→eq}
use datura.Memory.{
  Strings, Floats, id_required, not_found, Document, Mutation, Query, new_memory, Store, new_store,
  lookup, get, put, delete,
}
use datura.Memory.Lookup.{lookup-assign, lookup-remove_key}

module _ (strings : Strings) (floats : Floats) (Metadata : Type 0) where
  abbrev Docs : Type 0
  Docs = Store strings floats Metadata

  abbrev pub Doc : Type 0
  Doc = Document strings floats Metadata

  pub data StoreOp : Type 0 where
    putting : Mutation strings floats Metadata → StoreOp
    deleting : Mutation strings floats Metadata → StoreOp

  unfoldable pub run_store : List StoreOp → Docs → Docs
  run_store [] store = store
  run_store (putting mutation ∷ ops) store =
      run_store ops (put strings floats Metadata mutation store).1
  run_store (deleting mutation ∷ ops) store =
      run_store ops (delete strings floats Metadata mutation store).1

  abbrev pub document_of : Mutation strings floats Metadata → Doc
  document_of mutation = record {
    id = mutation.id;
    text = mutation.text;
    embedding = mutation.embedding;
    metadata = mutation.metadata;
  }

  -- The document under an identifier behind these operations, if it was `before`.
  unfoldable pub latest : Bytes → Option Doc → List StoreOp → Option Doc
  latest id before [] = before
  latest id before (putting mutation ∷ ops) =
      latest id
        (if length mutation.id == 0
          then before
          else (if bytes_equal mutation.id id then some (document_of mutation) else before))
        ops
  latest id before (deleting mutation ∷ ops) =
      latest id
        (if length mutation.id == 0
          then before
          else (if bytes_equal mutation.id id then none else before))
        ops

  lookup-put :
      (id : Bytes) (mutation : Mutation strings floats Metadata) (store : Docs)
      → lookup strings floats Metadata id (put strings floats Metadata mutation store).1 ≡ (
          if length mutation.id == 0
          then lookup strings floats Metadata id store
          else (if bytes_equal mutation.id id
              then some (document_of mutation)
              else lookup strings floats Metadata id store))
  unfolding put
  lookup-put id mutation store = elim (Bool-cases (length mutation.id == 0)) [
    | inl e ↦ rw (put, e) refl
    | inr e ↦
        rw (put, e)
          (lookup-assign strings floats Metadata id mutation.id (document_of mutation) store)
  ]

  lookup-delete :
      (id : Bytes) (mutation : Mutation strings floats Metadata) (store : Docs)
      → lookup strings floats Metadata id (delete strings floats Metadata mutation store).1 ≡ (
          if length mutation.id == 0
          then lookup strings floats Metadata id store
          else (if bytes_equal mutation.id id
              then none
              else lookup strings floats Metadata id store))
  unfolding delete
  lookup-delete id mutation store = elim (Bool-cases (length mutation.id == 0)) [
    | inl e ↦ rw (delete, e) refl
    | inr e ↦ elim (Option-cases (lookup strings floats Metadata mutation.id store)) [
      | inl absent ↦
          rw (delete, e, absent) (missing absent (Bool-cases (bytes_equal mutation.id id)))
      | inr (document, found) ↦
          rw (delete, e, found) (lookup-remove_key strings floats Metadata id mutation.id store)
    ]
  ]
    where
      missing :
          lookup strings floats Metadata mutation.id store ≡ none
          → (bytes_equal mutation.id id ≡ true) ⊎ (bytes_equal mutation.id id ≡ false)
          → lookup strings floats Metadata id store
            ≡ (if bytes_equal mutation.id id then none else lookup strings floats Metadata id store)
      missing absent (inl e) = rw (e) (
          ap (λ key. lookup strings floats Metadata key store)
            (sym (bytes_equal→eq mutation.id id e))
          ∙ absent)
      missing absent (inr e) = rw (e) refl

  lookup-run_store :
      (id : Bytes) (ops : List StoreOp) (store : Docs)
      → lookup strings floats Metadata id (run_store ops store)
        ≡ latest id (lookup strings floats Metadata id store) ops
  unfolding run_store latest
  lookup-run_store id [] store = refl
  lookup-run_store id (putting mutation ∷ ops) store =
      lookup-run_store id ops _ ∙ ap (λ o. latest id o ops) (lookup-put id mutation store)
  lookup-run_store id (deleting mutation ∷ ops) store =
      lookup-run_store id ops _ ∙ ap (λ o. latest id o ops) (lookup-delete id mutation store)

  delete-error :
      (mutation : Mutation strings floats Metadata) (store : Docs) (o : Option Doc)
      → lookup strings floats Metadata mutation.id store ≡ o
      → (delete strings floats Metadata mutation store).0 ≡ (
          if length mutation.id == 0
          then some id_required
          else elim o [ none ↦ some (not_found mutation.id) | some document ↦ none ])
  unfolding delete
  delete-error mutation store o h = elim (Bool-cases (length mutation.id == 0)) [
    | inl e ↦ rw (delete, e) refl
    | inr e ↦ by_found o h e
  ]
    where
      by_found :
          (o : Option Doc)
          → lookup strings floats Metadata mutation.id store ≡ o
          → (length mutation.id == 0) ≡ false
          → (delete strings floats Metadata mutation store).0 ≡ (
              if length mutation.id == 0
              then some id_required
              else elim o [ none ↦ some (not_found mutation.id) | some document ↦ none ])
      by_found none h e = rw (delete, e, h) refl
      by_found (some document) h e = rw (delete, e, h) refl

  -- Behind any sequence of `Put` and `Delete` on a new store, `Get` returns the document that was
  -- last put under the identifier, and a not-found error if a deletion is behind it or there was
  -- none; `Delete` returns that error in the same case. Both refuse an empty identifier.
  pub store_refines :
      (ops : List StoreOp) (query : Query strings floats Metadata)
      (mutation : Mutation strings floats Metadata)
      → let store = run_store ops (new_store strings floats Metadata) in
        (get strings floats Metadata query store ≡ (
          if length query.id == 0
          then (new_memory strings floats Metadata, some id_required)
          else elim (latest query.id none ops) [
            | none ↦ (new_memory strings floats Metadata, some (not_found query.id))
            | some document ↦ (record { documents = document ∷ [] }, none)
          ]))
        × ((delete strings floats Metadata mutation store).0 ≡ (
            if length mutation.id == 0
            then some id_required
            else elim (latest mutation.id none ops) [
              | none ↦ some (not_found mutation.id)
              | some document ↦ none
            ]))
  unfolding get delete lookup
  store_refines ops query mutation = (
    rw (get, lookup-run_store query.id ops (new_store strings floats Metadata)) refl,
    delete-error mutation _ _
        (lookup-run_store mutation.id ops (new_store strings floats Metadata)),
  )
