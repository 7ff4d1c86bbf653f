-- ===== src/Structure/ListRing.antt =====
-- structure/list.go: a ring of linked nodes with a write cursor. The nodes stand in a store, where a
-- pointer is an address or nil. An operation has no result where the source follows a nil pointer,
-- or where its loop does not come back to its start in as many steps as the store has nodes.
pub mod Circle
pub mod Build
pub mod Push
pub mod Visit
pub mod Splice
pub mod Clocked
mod Tests
use datura.Prelude.{
  ℕ, zero, suc, ◌+◌, ◌-◌, min, Bool, true, false, Option, none, some, List, [], ◌∷◌, map, length,
  ltb, ◌==◌, if◌then◌else◌,
}
use datura.Prelude.Int.{ℤ, pos, negsuc}

abbrev pub Pointer : Type 0
Pointer = Option ℕ

infix 21 ◌>>=◌
abbrev pub ◌>>=◌ : {A B : Type 0} → Option A → (A → Option B) → Option B
none >>= f = none
some a >>= f = f a

pub record Node (A : Type 0) : Type 0 where
  pub next : Pointer
  pub prev : Pointer
  pub value : A

-- The addresses below `used` hold nodes.
pub record Heap (A : Type 0) : Type 0 where
  pub nodes : ℕ → Node A
  pub used : ℕ

pub record ListRing : Type 0 where
  pub cursor : Pointer
  pub first : Pointer
  pub writes : ℕ
  pub size : ℕ

unfoldable pub ring_len : ListRing → ℕ
ring_len r = r.size

module _ {A : Type 0} where
  unfoldable pub set_node : ℕ → Node A → Heap A → Heap A
  set_node a node h = record h { nodes = λ b. if b == a then node else h.nodes b }

  unfoldable pub set_next : ℕ → Pointer → Heap A → Heap A
  unfolding set_node
  set_next a p h = set_node a (record (h.nodes a) { next = p }) h

  unfoldable pub set_prev : ℕ → Pointer → Heap A → Heap A
  unfolding set_node
  set_prev a p h = set_node a (record (h.nodes a) { prev = p }) h

  unfoldable pub set_value : ℕ → A → Heap A → Heap A
  unfolding set_node
  set_value a v h = set_node a (record (h.nodes a) { value = v }) h

  -- `new` and a composite literal: the address of the node, which is the first unused one.
  unfoldable pub allocate : Node A → Heap A → ℕ × Heap A
  unfolding set_node
  allocate node h = (h.used, record (set_node h.used node h) { used = suc h.used })

  unfoldable pub init : ℕ → Heap A → Heap A
  unfolding set_next set_prev
  init node h = set_prev node (some node) (set_next node (some node) h)

  -- The loop of `NewListRing`, for this many more nodes: the last one.
  unfoldable pub append_nodes : A → ℕ → ℕ → Heap A → ℕ × Heap A
  unfolding allocate set_next
  append_nodes blank zero tail h = (tail, h)
  append_nodes blank (suc count) tail h =
      let (node, h') = allocate (record { next = none; prev = some tail; value = blank }) h in
      append_nodes blank count node (set_next tail (some node) h')

  unfoldable pub new_list_ring : A → ℤ → Heap A → Option ListRing × Heap A
  unfolding allocate append_nodes set_next set_prev
  new_list_ring blank (negsuc n) h = (none, h)
  new_list_ring blank (pos zero) h = (none, h)
  new_list_ring blank (pos (suc count)) h =
      let (head, h1) = allocate (record { next = none; prev = none; value = blank }) h in
      let (tail, h2) = append_nodes blank count head h1 in
      (
        some (record { cursor = some head; first = some head; writes = 0; size = suc count }),
        set_prev head (some tail) (set_next tail (some head) h2),
      )

  -- `init` for a node without a ring.
  unfoldable pub initialized : ℕ → Heap A → Heap A
  unfolding init
  initialized node h = elim (h.nodes node).next [ none ↦ init node h | some n ↦ h ]

  unfoldable pub push : ListRing → A → Heap A → Option (ListRing × Heap A)
  push r value h = do
    cursor ← r.cursor
    let first : Pointer = elim (h.nodes cursor).next [ none ↦ some cursor | some n ↦ r.first ]
    let h' = set_value cursor value (initialized cursor h)
    let next = (h'.nodes cursor).next
    some (
      if ltb r.writes r.size
          then record { cursor = next; first = first; writes = r.writes + 1; size = r.size }
          else record { cursor = next; first = next; writes = r.writes; size = r.size },
      h',
    )

  -- `none` is a nil ring.
  unfoldable pub pop : Option ListRing → Heap A → Option A × Heap A
  pop none h = (none, h)
  pop (some r) h = elim r.cursor [
    | none ↦ (none, h)
    | some cursor ↦ let h' = initialized cursor h in (some (h'.nodes cursor).value, h')
  ]

  unfoldable pub walk_prev : ℕ → Pointer → Heap A → Option Pointer
  walk_prev zero p h = some p
  walk_prev (suc steps) none h = none
  walk_prev (suc steps) (some a) h = walk_prev steps (h.nodes a).prev h

  unfoldable pub walk_next : ℕ → Pointer → Heap A → Option Pointer
  walk_next zero p h = some p
  walk_next (suc steps) none h = none
  walk_next (suc steps) (some a) h = walk_next steps (h.nodes a).next h

  unfoldable pub move : ListRing → ℤ → Heap A → Option (Pointer × Heap A)
  move r (negsuc n) h = do
    cursor ← r.cursor
    let h' = initialized cursor h
    p ← walk_prev (suc n) (some cursor) h'
    some (p, h')
  move r (pos n) h = do
    cursor ← r.cursor
    let h' = initialized cursor h
    p ← walk_next n (some cursor) h'
    some (p, h')

  unfoldable pub select : ListRing → ℤ → Heap A → Option (ListRing × Heap A)
  unfolding move
  select r step h = do (cursor, h') ← move r step h; some (record r { cursor = cursor }, h')

  -- The segment that was behind the node, and the store.
  unfoldable pub link : ℕ → Pointer → Heap A → Option (Pointer × Heap A)
  unfolding set_next set_prev
  link node none h = some ((h.nodes node).next, h)
  link node (some other) h =
      let next = (h.nodes node).next in
      let tail = (h.nodes other).prev in
      let h' = set_prev other (some node) (set_next node (some other) h) in
      do n ← next; t ← tail; some (next, set_next t next (set_prev n tail h'))

  -- The loop of `measure` and of `Do`: the nodes from here on that come before `stop`.
  unfoldable pub nodes_to : ℕ → Pointer → ℕ → Heap A → Option (List ℕ)
  nodes_to fuel none stop h = none
  nodes_to zero (some walk) stop h = if walk == stop then some [] else none
  nodes_to (suc fuel) (some walk) stop h =
      let rest = nodes_to fuel (h.nodes walk).next stop h in
      if walk == stop then some [] else (rest >>= λ nodes. some (walk ∷ nodes))

  -- The node and those behind it, once around.
  unfoldable pub nodes_of : ℕ → Heap A → Option (List ℕ)
  nodes_of start h = elim (h.nodes start).next [
    | none ↦ some (start ∷ [])
    | some n ↦ (nodes_to h.used (some n) start h >>= λ nodes. some (start ∷ nodes))
  ]

  unfoldable pub measure : ListRing → Heap A → Option ℕ
  measure r h = do cursor ← r.cursor; nodes ← nodes_of cursor h; some (length nodes)

  -- A ring with the size that it has now, and no more writes than that.
  unfoldable pub measured : ListRing → Heap A → Option ListRing
  measured r h = do size ← measure r h; some (record r { writes = min r.writes size; size = size })

  -- `none` is a ring of another kind.
  unfoldable pub merge : ListRing → Option ListRing → Heap A → Option (Bool × ListRing × Heap A)
  merge r none h = some (Bool.false, r, h)
  merge r (some other) h = do
    cursor ← r.cursor
    (removed, h') ← link cursor other.cursor (initialized cursor h)
    r' ← measured (record r { writes = r.writes + other.writes }) h'
    some (true, r', h')

  -- The ring, the removed segment as a ring, or none for nil, and the store.
  unfoldable pub slice : ListRing → ℤ → Heap A → Option (ListRing × Option ListRing × Heap A)
  slice r (negsuc n) h = some (r, none, h)
  slice r (pos zero) h = some (r, none, h)
  slice r (pos (suc n)) h = do
    (target, h1) ← move r (pos (suc (suc n))) h
    cursor ← r.cursor
    (removed, h2) ← link cursor target h1
    elim removed [
      | none ↦ some (r, none, h2)
      | some start ↦ do
        r' ← measured r h2
        out ←
            measured (record { cursor = some start; first = some start; writes = suc n; size = 0 })
              h2
        some (r', some out, h2)
    ]

  -- What `Do` hands to its visitor, in order.
  unfoldable pub visit : ListRing → Heap A → Option (List A)
  visit r h = do
    start ← elim r.first [ none ↦ r.cursor | some a ↦ some a ]
    nodes ← nodes_of start h
    some (map (λ a. (h.nodes a).value) nodes)
