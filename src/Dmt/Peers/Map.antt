-- ===== src/Dmt/Peers/Map.antt =====
-- A registry behind any sequence of updates answers as a map from addresses to peers.
use datura.Prelude.{◌≡◌, refl, ap, Option, none, some, List, [], ◌∷◌, arith, if◌then◌else◌, ◌∙◌}
use datura.Prelude.Bytes.{Bytes, bytes_equal}
use datura.Dmt.SortedSlice.{find_key}
use datura.Dmt.SortedSlice.Update.{
  find_key-put, put_key-IsSorted, remove_key-IsSorted, find_key-remove,
}
use datura.Dmt.Peers.{
  Peers, PeerRegistry, address, load, has, with_peer, without_peer, new_registry, upsert, remove,
}
use datura.Dmt.Peers.Laws.{Ordered, peer_at, is_some, has_lem, with_peer_lem, without_peer_lem}

pub data RegistryOp (P : Type 0) : Type 0 where
  upserting : Bytes → P → RegistryOp P
  removing : Bytes → RegistryOp P

module _ {P : Type 0} where
  with_peer_sets :
      (peers : Option (Peers P)) (addr : Bytes) (node : P) (other : Bytes)
      → Ordered (load peers)
      → (peer_at (with_peer peers addr node) other
          ≡ (if bytes_equal addr other then some node else peer_at (load peers) other))
        × Ordered (with_peer peers addr node)
  with_peer_sets peers addr node other s = rw (with_peer_lem peers addr node s) (
    ground (
      arith,
      find_key-put address other (record { addr = addr; node = node }) (load peers).entries,
    ),
    put_key-IsSorted address _ (load peers).entries s,
  )

  without_peer_clears :
      (peers : Option (Peers P)) (addr other : Bytes)
      → Ordered (load peers)
      → (peer_at (without_peer peers addr) other
          ≡ (if bytes_equal addr other then none else peer_at (load peers) other))
        × Ordered (without_peer peers addr)
  without_peer_clears peers addr other s = rw (without_peer_lem peers addr s) (
    ground (arith, find_key-remove address addr other (load peers).entries s),
    remove_key-IsSorted address addr (load peers).entries s,
  )

  -- `With` sets one address and `Without` clears it, whether or not it was there and for a nil
  -- receiver too; each leaves every other address as it was, and the copy is sorted again.
  pub with_peer-without_peer :
      (peers : Option (Peers P)) (addr : Bytes) (node : P) (other : Bytes)
      → Ordered (load peers)
      → (peer_at (with_peer peers addr node) other
          ≡ (if bytes_equal addr other then some node else peer_at (load peers) other))
        × Ordered (with_peer peers addr node)
        × (peer_at (without_peer peers addr) other
            ≡ (if bytes_equal addr other then none else peer_at (load peers) other))
        × Ordered (without_peer peers addr)
  with_peer-without_peer peers addr node other s =
      let (set, sorted) = with_peer_sets peers addr node other s in
      let (cleared, sorted') = without_peer_clears peers addr other s in
      (set, sorted, cleared, sorted')

  unfoldable pub run_registry : List (RegistryOp P) → PeerRegistry P → PeerRegistry P
  run_registry [] r = r
  run_registry (upserting addr node ∷ ops) r = run_registry ops (upsert r addr node)
  run_registry (removing addr ∷ ops) r = run_registry ops (remove r addr)

  -- The same updates on a map.
  unfoldable pub run_map : List (RegistryOp P) → (Bytes → Option P) → Bytes → Option P
  run_map [] m = m
  run_map (upserting addr node ∷ ops) m =
      run_map ops (λ other. if bytes_equal addr other then some node else m other)
  run_map (removing addr ∷ ops) m =
      run_map ops (λ other. if bytes_equal addr other then none else m other)

  run_from :
      (ops : List (RegistryOp P)) (r : PeerRegistry P) (m : Bytes → Option P) (addr : Bytes)
      → Ordered (load r.snapshot)
      → ((other : Bytes) → peer_at (load r.snapshot) other ≡ m other)
      → (peer_at (load (run_registry ops r).snapshot) addr ≡ run_map ops m addr)
        × Ordered (load (run_registry ops r).snapshot)
  unfolding run_registry run_map
  run_from [] r m addr s e = (e addr, s)
  run_from (upserting a node ∷ ops) r m addr s e =
      run_from ops (upsert r a node) (λ other. if bytes_equal a other then some node else m other)
        addr (unfold upsert load in (with_peer_sets r.snapshot a node addr s).1)
        (λ other.
          unfold upsert load in
          (with_peer_sets r.snapshot a node other s).0
          ∙ ap (λ o. if bytes_equal a other then some node else o) (e other))
  run_from (removing a ∷ ops) r m addr s e =
      run_from ops (remove r a) (λ other. if bytes_equal a other then none else m other) addr
        (unfold remove load in (without_peer_clears r.snapshot a addr s).1)
        (λ other.
          unfold remove load in
          (without_peer_clears r.snapshot a other s).0
          ∙ ap (λ o. if bytes_equal a other then none else o) (e other))

  -- After any sequence of `Upsert` and `Remove` on a new registry, `Has` of the published snapshot
  -- answers for every address as the map that got the same updates, the peer stored there is that
  -- map's, and the slice is sorted by address without duplicates.
  pub registry_refines :
      (ops : List (RegistryOp P)) (addr : Bytes)
      → let peers = (run_registry ops new_registry).snapshot in
        (has peers addr ≡ is_some (run_map ops (λ _. none) addr))
        × (peer_at (load peers) addr ≡ run_map ops (λ _. none) addr)
        × Ordered (load peers)
  registry_refines ops addr =
      let fresh = new_registry {P = P} in
      let peers = (run_registry ops fresh).snapshot in
      let (e, s) =
        run_from ops fresh (λ _. none) addr (unfold new_registry load in tt)
          (λ other. unfold new_registry load find_key in refl) in
      (has_lem peers addr s ∙ ap is_some e, e, s)
