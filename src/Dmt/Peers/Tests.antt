-- ===== src/Dmt/Peers/Tests.antt =====
-- Runs of the peer registry, and the theorems at concrete inputs.
use datura.Prelude.{ℕ, ◌≡◌, refl, true, some, List, [], ◌∷◌}
use datura.Prelude.Bytes.{bytes_compare}
use datura.Dmt.SortedSlice.{lower_bound}
use datura.Dmt.Peers.{Peers, load, list, has, with_peer, without_peer, new_registry, upsert, remove}
use datura.Dmt.Peers.Laws.{Ordered, peer_at}
use datura.Dmt.Peers.Map.{RegistryOp, upserting, removing, run_registry, run_map, registry_refines}

-- The addresses "a", "ab", "b" and "c".
abbrev ops : List (RegistryOp ℕ)
ops =
    upserting (b'b' ∷ []) 1
    ∷ upserting (b'a' ∷ []) 2
    ∷ upserting (b'a' ∷ b'b' ∷ []) 3
    ∷ removing (b'c' ∷ [])
    ∷ upserting (b'b' ∷ []) 4
    ∷ removing (b'a' ∷ [])
    ∷ []

run-list : list (run_registry ops new_registry).snapshot ≡ 3 ∷ 4 ∷ []
unfolding run_registry list new_registry upsert remove with_peer without_peer lower_bound
    bytes_compare
run-list = refl

abbrev two : Peers ℕ
two = record {
  entries = record { addr = b'a' ∷ []; node = 1 } ∷ record { addr = b'c' ∷ []; node = 2 } ∷ [];
}

two-Ordered : Ordered two
unfolding bytes_compare
two-Ordered = ((refl, tt), (tt, tt))

registry_refines_example :
    let peers = (run_registry ops new_registry).snapshot in
    (has peers (b'b' ∷ []) ≡ true)
    × (peer_at (load peers) (b'b' ∷ []) ≡ some 4)
    × Ordered (load peers)
unfolding run_map bytes_compare
registry_refines_example = registry_refines ops (b'b' ∷ [])
