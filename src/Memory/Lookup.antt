-- ===== src/Memory/Lookup.antt =====
-- What an assignment and a removal leave under each identifier.
use datura.Prelude.{
  ◌≡◌, refl, ap, ◌∙◌, Bool, true, false, Option, none, some, [], ◌∷◌, if◌then◌else◌, Bool-cases,
  inl, inr,
}
use datura.Prelude.Bytes.{Bytes, bytes_equal, bytes_equal→eq}
use datura.Memory.{Strings, Floats, Document, Store, lookup, assign, remove_key}

-- Equality of bytes on three keys.
equal_through : (a b c : Bytes) → bytes_equal a b ≡ true → bytes_equal a c ≡ bytes_equal b c
equal_through a b c e = ap (λ k. bytes_equal k c) (bytes_equal→eq a b e)

unequal_through :
    (a b c : Bytes) → bytes_equal a b ≡ false → bytes_equal a c ≡ true → bytes_equal b c ≡ false
unequal_through a b c e f = elim (Bool-cases (bytes_equal b c)) [
  | inl g ↦
      let same : bytes_equal a b ≡ true = ap (bytes_equal a) (bytes_equal→eq b c g) ∙ f in absurd cc
  | inr g ↦ g
]

module _ (strings : Strings) (floats : Floats) (Metadata : Type 0) where
  abbrev Docs : Type 0
  Docs = Store strings floats Metadata

  abbrev Doc : Type 0
  Doc = Document strings floats Metadata

  lookup-cons :
      (id key : Bytes) (document : Doc) (store : Docs) (same : Bool)
      → bytes_equal key id ≡ same
      → lookup strings floats Metadata id ((key, document) ∷ store)
        ≡ (if same then some document else lookup strings floats Metadata id store)
  unfolding lookup
  lookup-cons id key document store same e = rw (lookup, e) refl

  assign-cons :
      (key k : Bytes) (document other : Doc) (store : Docs) (same : Bool)
      → bytes_equal k key ≡ same
      → assign strings floats Metadata key document ((k, other) ∷ store) ≡ (
          if same
          then (k, document) ∷ store
          else (k, other) ∷ assign strings floats Metadata key document store)
  unfolding assign
  assign-cons key k document other store same e = rw (assign, e) refl

  remove_key-cons :
      (key k : Bytes) (other : Doc) (store : Docs) (same : Bool)
      → bytes_equal k key ≡ same
      → remove_key strings floats Metadata key ((k, other) ∷ store) ≡ (
          if same
          then remove_key strings floats Metadata key store
          else (k, other) ∷ remove_key strings floats Metadata key store)
  unfolding remove_key
  remove_key-cons key k other store same e = rw (remove_key, e) refl

  pub lookup-assign :
      (id key : Bytes) (document : Doc) (store : Docs)
      → lookup strings floats Metadata id (assign strings floats Metadata key document store)
        ≡ (if bytes_equal key id then some document else lookup strings floats Metadata id store)
  unfolding lookup assign
  lookup-assign id key document [] = refl
  lookup-assign id key document ((k, other) ∷ store) = elim (Bool-cases (bytes_equal k key)) [
    | inl e ↦ elim (Bool-cases (bytes_equal key id)) [
      | inl f ↦
          let g = equal_through k key id e ∙ f in
          rw
            (
              assign-cons key k document other store true e,
              lookup-cons id k document store true g,
              f,
            )
            refl
      | inr f ↦
          let g = equal_through k key id e ∙ f in
          rw
            (
              assign-cons key k document other store true e,
              lookup-cons id k document store false g,
              lookup-cons id k other store false g,
              f,
            )
            refl
    ]
    | inr e ↦ elim (Bool-cases (bytes_equal k id)) [
      | inl f ↦
          rw
            (
              assign-cons key k document other store false e,
              lookup-cons id k other (assign strings floats Metadata key document store) true f,
              lookup-cons id k other store true f,
              unequal_through k key id e f,
            )
            refl
      | inr f ↦
          rw
            (
              assign-cons key k document other store false e,
              lookup-cons id k other (assign strings floats Metadata key document store) false f,
              lookup-cons id k other store false f,
            )
            (lookup-assign id key document store)
    ]
  ]

  pub lookup-remove_key :
      (id key : Bytes) (store : Docs)
      → lookup strings floats Metadata id (remove_key strings floats Metadata key store)
        ≡ (if bytes_equal key id then none else lookup strings floats Metadata id store)
  unfolding lookup remove_key
  lookup-remove_key id key [] = either (bytes_equal key id)
    where
      either : (same : Bool) → ◌≡◌ {A = Option Doc} none (if same then none else none)
      either true = refl
      either false = refl
  lookup-remove_key id key ((k, other) ∷ store) = elim (Bool-cases (bytes_equal k key)) [
    | inl e ↦ elim (Bool-cases (bytes_equal key id)) [
      | inl f ↦
          rw (remove_key-cons key k other store true e, f)
            (lookup-remove_key id key store ∙ rw (f) refl)
      | inr f ↦
          rw
            (
              remove_key-cons key k other store true e,
              lookup-cons id k other store false (equal_through k key id e ∙ f),
              f,
            )
            (lookup-remove_key id key store ∙ rw (f) refl)
    ]
    | inr e ↦ elim (Bool-cases (bytes_equal k id)) [
      | inl f ↦
          rw
            (
              remove_key-cons key k other store false e,
              lookup-cons id k other (remove_key strings floats Metadata key store) true f,
              lookup-cons id k other store true f,
              unequal_through k key id e f,
            )
            refl
      | inr f ↦
          rw
            (
              remove_key-cons key k other store false e,
              lookup-cons id k other (remove_key strings floats Metadata key store) false f,
              lookup-cons id k other store false f,
            )
            (lookup-remove_key id key store)
    ]
  ]
