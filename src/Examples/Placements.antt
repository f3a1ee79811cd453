-- ===== src/Examples/Placements.antt =====
-- Guest ids around used ones, and jobs spread over two nodes.
use restore_engine.Common.{
  ℕ, length, ◌≡◌, refl, List, [], ◌∷◌, arith, contains, lookup, if◌then◌else◌, ◌==◌, string_key,
}
use restore_engine.Common.Text.{strip, lstrip, rstrip}
use restore_engine.Vmids.{allocated, first_candidate, allocate_sequential_free_vmids}
use restore_engine.Vmids.Reference.{
  reference, IsBatch, allocate_sequential-eq-reference, allocate_sequential-IsBatch,
}
use restore_engine.Vmids.Loop.{free_ids}
use restore_engine.Vmids.Room.{allocate_sequential_total}
use restore_engine.Placement.{Counts, assigned, stripped, min_by_key, assign_nodes_least_loaded}
use restore_engine.Placement.Storage.{storage, no_storage, resolve_storage_for_node}
use restore_engine.Placement.Balance.{IsSpread, assign_nodes_least_loaded-IsSpread}

abbrev used : List ℕ
used = 100 ∷ 102 ∷ []

allocate_sequential-eq-reference_example :
    allocate_sequential_free_vmids used 50 2 ≡ reference used 50 2
allocate_sequential-eq-reference_example = allocate_sequential-eq-reference used 50 2

skips_used : allocate_sequential_free_vmids used 50 2 ≡ allocated (101 ∷ 103 ∷ []) 104
unfolding free_ids contains
skips_used = allocate_sequential-eq-reference used 50 2

allocate_sequential-IsBatch_example :
    (length {A = ℕ} (101 ∷ 103 ∷ []) ≡ 2) × IsBatch used (first_candidate 50) 104 (101 ∷ 103 ∷ [])
allocate_sequential-IsBatch_example =
    allocate_sequential-IsBatch used 50 2 (101 ∷ 103 ∷ []) 104 skips_used

allocate_sequential_total_example :
    (ids : List ℕ) × (next : ℕ) × (allocate_sequential_free_vmids used 50 2 ≡ allocated ids next)
allocate_sequential_total_example = allocate_sequential_total used 50 2 (omega arith)

-- The second node has one job already.
abbrev loads : Counts
loads n = if n == "pve2" then 1 else 0

picks :
    assign_nodes_least_loaded (" pve1" ∷ "pve2" ∷ "" ∷ []) 3 loads
    ≡ assigned ("pve1" ∷ "pve1" ∷ "pve2" ∷ [])
unfolding assign_nodes_least_loaded min_by_key strip lstrip rstrip
picks = refl

assign_nodes_least_loaded-IsSpread_example :
    IsSpread (stripped (" pve1" ∷ "pve2" ∷ "" ∷ [])) loads 3 ("pve1" ∷ "pve1" ∷ "pve2" ∷ [])
assign_nodes_least_loaded-IsSpread_example =
    assign_nodes_least_loaded-IsSpread (" pve1" ∷ "pve2" ∷ "" ∷ []) 3 loads
      ("pve1" ∷ "pve1" ∷ "pve2" ∷ []) picks

maps_storage :
    (resolve_storage_for_node "pve1" (("pve1", " fast ") ∷ []) "local" ≡ storage "fast")
    × (resolve_storage_for_node "pve2" (("pve1", " fast ") ∷ []) "local" ≡ storage "local")
    × (resolve_storage_for_node "pve2" [] "" ≡ no_storage "pve2")
unfolding resolve_storage_for_node lookup strip lstrip rstrip
maps_storage = (refl, refl, refl)
