-- ===== src/Dmt/Tree/Pairs.antt =====
-- A radix tree as a list of pairs, which keeps the last value of a key.
use datura.Prelude.{
  ◌≡◌, ◌≢◌, refl, ap, ◌∙◌, sym, false, Option, none, some, List, [], ◌∷◌, length, if◌then◌else◌,
  Bool-cases, inl, inr,
}
use datura.Prelude.Bytes.{Bytes, bytes_equal, bytes_equal→eq, bytes_equal_refl}
use datura.Dmt.Tree.{Radix}
use datura.Dmt.Tree.Lookup.{RadixLaws}

abbrev pub Pairs : Type 0
Pairs = List (Bytes × Bytes)

unfoldable pub without : Bytes → Pairs → Pairs
without key [] = []
without key ((k, v) ∷ pairs) =
    let rest = without key pairs in if bytes_equal key k then rest else (k, v) ∷ rest

unfoldable pub value_of : Bytes → Pairs → Option Bytes
value_of key [] = none
value_of key ((k, v) ∷ pairs) =
    let rest = value_of key pairs in if bytes_equal key k then some v else rest

abbrev pub pairs_radix : Radix
pairs_radix = record {
  Root = Pairs;
  empty = [];
  insert = λ key value pairs. (key, value) ∷ without key pairs;
  delete = without;
  get = value_of;
  same = λ pairs pairs'. false;
  len = length;
  pairs = λ pairs. pairs;
  prefixed = λ prefix pairs. pairs;
}

value_of-without : (key : Bytes) (pairs : Pairs) → value_of key (without key pairs) ≡ none
unfolding value_of without
value_of-without key [] = refl
value_of-without key ((k, v) ∷ pairs) = elim (Bool-cases (bytes_equal key k)) [
  | inl e ↦ rw (e, without) (value_of-without key pairs)
  | inr e ↦ rw (e, without, value_of, e) (value_of-without key pairs)
]

unequal : (key key' : Bytes) → key ≢ key' → bytes_equal key key' ≡ false
unequal key key' h = elim (Bool-cases (bytes_equal key key')) [
  | inl e ↦ absurd (h (bytes_equal→eq key key' e))
  | inr e ↦ e
]

value_of-without_ne :
    (key key' : Bytes) (pairs : Pairs)
    → key ≢ key'
    → value_of key (without key' pairs) ≡ value_of key pairs
unfolding value_of without
value_of-without_ne key key' [] h = refl
value_of-without_ne key key' ((k, v) ∷ pairs) h = elim (Bool-cases (bytes_equal key' k)) [
  | inl e ↦
      let other = unequal key k (λ p. h (p ∙ sym (bytes_equal→eq key' k e))) in
      rw (e, other) (value_of-without_ne key key' pairs h)
  | inr e ↦ rw (e) (
      ap (λ rest. if bytes_equal key k then some v else rest)
        (value_of-without_ne key key' pairs h))
]

pub pairs_laws : RadixLaws pairs_radix
unfolding value_of
pairs_laws = record {
  get-empty = λ key. refl;
  get-insert = λ key value pairs. rw (bytes_equal_refl key, value_of) refl;
  get-insert_ne = λ key key' value pairs h.
      rw (unequal key key' h, value_of) (value_of-without_ne key key' pairs h);
  get-delete = value_of-without;
  get-delete_ne = value_of-without_ne;
}
