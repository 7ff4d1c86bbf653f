-- ===== src/Dmt/Peers.antt =====
-- dmt/peers.go: the cluster's peers as a slice sorted by address, and the registry that publishes
-- it. A string is its bytes. A peer holds a connection and an RPC client, of which this code moves
-- only the pointer, so the type of peers is a parameter.
pub mod Laws
pub mod Map
mod Tests
use datura.Prelude.{
  ℕ, Bool, true, false, Option, none, some, List, [], ◌∷◌, map, length, get_elem?, set,
}
use datura.Prelude.Bytes.{Bytes}
use datura.Dmt.SortedSlice.{lower_bound, key_at, insert_at, remove_at}

pub record PeerEntry (P : Type 0) : Type 0 where
  pub addr : Bytes
  pub node : P

pub record Peers (P : Type 0) : Type 0 where
  pub entries : List (PeerEntry P)

module _ {P : Type 0} where
  abbrev pub address : PeerEntry P → Bytes
  address e = e.addr

  -- A nil *Peers stands for no peers.
  unfoldable pub load : Option (Peers P) → Peers P
  load none = record { entries = [] }
  load (some peers) = peers

  unfoldable pub list : Option (Peers P) → List P
  unfolding load
  list peers = map (λ e. e.node) (load peers).entries

  -- What `Has`, `With` and `Without` do at the index that the search returned.
  unfoldable pub has_at : List (PeerEntry P) → Bytes → ℕ → Bool
  has_at entries addr index = elim (key_at address entries index addr) [
    | some _ ↦ true
    | none ↦ false
  ]

  unfoldable pub has : Option (Peers P) → Bytes → Bool
  unfolding load has_at
  has peers addr =
      let entries = (load peers).entries in has_at entries addr (lower_bound address entries addr)

  -- A copy of the slice with the peer's entry changed, or inserted where it belongs.
  unfoldable pub with_at : List (PeerEntry P) → Bytes → P → ℕ → Peers P
  with_at entries addr node index = elim (key_at address entries index addr) [
    | some e ↦ record { entries = set entries index (record e { node = node }) }
    | none ↦ record { entries = insert_at entries index (record { addr = addr; node = node }) }
  ]

  unfoldable pub with_peer : Option (Peers P) → Bytes → P → Peers P
  unfolding load with_at
  with_peer peers addr node =
      let entries = (load peers).entries in
      with_at entries addr node (lower_bound address entries addr)

  unfoldable pub without_at : Peers P → Bytes → ℕ → Peers P
  without_at current addr index = elim (key_at address current.entries index addr) [
    | none ↦ current
    | some _ ↦ record { entries = remove_at current.entries index }
  ]

  unfoldable pub without_peer : Option (Peers P) → Bytes → Peers P
  unfolding load without_at
  without_peer peers addr =
      let current = load peers in without_at current addr (lower_bound address current.entries addr)

  unfoldable pub len : Option (Peers P) → ℕ
  unfolding load
  len peers = length (load peers).entries

-- `peerRegistry`: an atomic pointer to the published snapshot. With no other writer the first
-- compare-and-swap of `Upsert` and of `Remove` succeeds.
pub record PeerRegistry (P : Type 0) : Type 0 where
  pub snapshot : Option (Peers P)

module _ {P : Type 0} where
  unfoldable pub new_registry : PeerRegistry P
  new_registry = record { snapshot = some (record { entries = [] }) }

  unfoldable pub upsert : PeerRegistry P → Bytes → P → PeerRegistry P
  upsert r addr node = record r { snapshot = some (with_peer r.snapshot addr node) }

  unfoldable pub remove : PeerRegistry P → Bytes → PeerRegistry P
  remove r addr = record r { snapshot = some (without_peer r.snapshot addr) }
