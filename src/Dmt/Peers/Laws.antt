-- ===== src/Dmt/Peers/Laws.antt =====
-- The peer slice is a map from addresses to peers, kept in the order of the addresses.
use datura.Prelude.{
  ◌≡◌, ap, Bool, true, false, Option, none, some, List, [], ◌∷◌, arith, Option-cases, inl, inr, ◌∙◌,
}
use datura.Prelude.Bytes.{Bytes, bytes_equal→eq}
use datura.Dmt.SortedSlice.{IsSorted, find_key, put_key, remove_key}
use datura.Dmt.SortedSlice.Laws.{rank, lower_bound-eq-rank, key_at-rank}
use datura.Dmt.SortedSlice.Update.{written-rank, remove_at-rank, remove_absent}
use datura.Dmt.Peers.{
  PeerEntry, Peers, address, load, has_at, has, with_at, with_peer, without_at, without_peer,
}

module _ {P : Type 0} where
  abbrev pub Ordered : Peers P → Type 0
  Ordered peers = IsSorted address peers.entries

  abbrev pub node_of : Option (PeerEntry P) → Option P
  node_of none = none
  node_of (some e) = some e.node

  -- The peer at an address, by a scan of the slice.
  abbrev pub peer_at : Peers P → Bytes → Option P
  peer_at peers addr = node_of (find_key address addr peers.entries)

  abbrev pub is_some : Option P → Bool
  is_some none = false
  is_some (some _) = true

  has_at-rank :
      (xs : List (PeerEntry P)) (addr : Bytes)
      → IsSorted address xs
      → has_at xs addr (rank address addr xs) ≡ is_some (node_of (find_key address addr xs))
  unfolding has_at
  has_at-rank xs addr s = ground (arith, key_at-rank address addr xs s)

  pub has_lem :
      (peers : Option (Peers P)) (addr : Bytes)
      → Ordered (load peers)
      → has peers addr ≡ is_some (peer_at (load peers) addr)
  has_lem peers addr s =
      unfold has in
      ap (has_at (load peers).entries addr)
        (lower_bound-eq-rank address (load peers).entries addr s)
      ∙ has_at-rank (load peers).entries addr s

  find_key-addr :
      (addr : Bytes) (xs : List (PeerEntry P)) {e : PeerEntry P}
      → find_key address addr xs ≡ some e
      → e.addr ≡ addr
  unfolding find_key
  find_key-addr addr [] h = cc
  find_key-addr addr (x ∷ xs) {e} h =
      ground (arith, bytes_equal→eq x.addr addr, find_key-addr addr xs {e = e})

  with_at-rank :
      (xs : List (PeerEntry P)) (addr : Bytes) (node : P)
      → IsSorted address xs
      → (with_at xs addr node (rank address addr xs)).entries
        ≡ put_key address (record { addr = addr; node = node }) xs
  unfolding with_at
  with_at-rank xs addr node s =
      let v : PeerEntry P = record { addr = addr; node = node } in
      elim (Option-cases (find_key address addr xs)) [
        | inl e ↦ ground (arith, e, key_at-rank address addr xs s, written-rank address v xs s)
        | inr (x, e) ↦ ground (
          arith,
          e,
          key_at-rank address addr xs s,
          written-rank address v xs s,
          find_key-addr addr xs {e = x} e,
        )
      ]

  pub with_peer_lem :
      (peers : Option (Peers P)) (addr : Bytes) (node : P)
      → Ordered (load peers)
      → (with_peer peers addr node).entries
        ≡ put_key address (record { addr = addr; node = node }) (load peers).entries
  with_peer_lem peers addr node s =
      let xs = (load peers).entries in
      unfold with_peer in
      ap (λ i. (with_at xs addr node i).entries) (lower_bound-eq-rank address xs addr s)
      ∙ with_at-rank xs addr node s

  without_at-rank :
      (peers : Peers P) (addr : Bytes)
      → Ordered peers
      → (without_at peers addr (rank address addr peers.entries)).entries
        ≡ remove_key address addr peers.entries
  unfolding without_at
  without_at-rank peers addr s = elim (Option-cases (find_key address addr peers.entries)) [
    | inl e ↦ ground (
      arith,
      e,
      key_at-rank address addr peers.entries s,
      remove_absent address addr peers.entries e,
    )
    | inr (x, e) ↦ ground (
      arith,
      e,
      key_at-rank address addr peers.entries s,
      remove_at-rank address addr peers.entries s e,
    )
  ]

  pub without_peer_lem :
      (peers : Option (Peers P)) (addr : Bytes)
      → Ordered (load peers)
      → (without_peer peers addr).entries ≡ remove_key address addr (load peers).entries
  without_peer_lem peers addr s =
      let current = load peers in
      unfold without_peer in
      ap (λ i. (without_at current addr i).entries)
        (lower_bound-eq-rank address current.entries addr s)
      ∙ without_at-rank current addr s
