-- ===== src/Readiness/Site.antt =====
-- The stages of `run_plan_readiness` about the plan, the connections, and the nodes of the location.
use restore_engine.Common.{
  String, Bool, not, ◌&&◌, List, [], ◌∷◌, Option, none, some, map, filter, lookup, put, contains,
  ◌==◌, string_key, if◌then◌else◌,
}
use restore_engine.Common.Text.{strip}
use restore_engine.Runs.Tick.{is_nil}
use restore_engine.Runs.Start.{Location}
use restore_engine.Groups.{Group}
use restore_engine.Placement.Storage.{Resolved, storage, no_storage, resolve_storage_for_node}
use restore_engine.Readiness.{Report, fail, ok_item, StorageInfo, Probes, or_false}

unfoldable pub check_group_ids : List String → Report → Report
check_group_ids ids s = if is_nil ids then fail "plan.groups" s else s

abbrev pub find_location : List (String × Location) → String → Option Location
find_location locations location_id =
    if location_id == "" then none else lookup location_id locations

unfoldable pub check_location : Option Location → Report → Report
check_location none s = fail "plan.location" s
check_location (some loc) s = s

-- The groups that are there; each missing one is an error.
unfoldable pub found_groups : List (String × Group) → List String → List Group
found_groups groups [] = []
found_groups groups (gid ∷ ids) =
    let rest = found_groups groups ids in
    elim (lookup gid groups) [ none ↦ rest | some g ↦ g ∷ rest ]

unfoldable pub check_group : Option Group → Report → Report
check_group none s = fail "plan.group_missing" s
check_group (some g) s = s

unfoldable pub check_groups : List (String × Group) → List String → Report → Report
unfolding check_group
check_groups groups [] s = s
check_groups groups (gid ∷ ids) s = check_groups groups ids (check_group (lookup gid groups) s)

unfoldable pub check_pbs : Probes → Report → Report
check_pbs probes s =
    if or_false probes.probe_pbs then ok_item "pbs.connectivity" s else fail "pbs.connectivity" s

abbrev pub has_session : Probes → Bool
has_session probes = or_false probes.test_pve && probes.connects

unfoldable pub check_pve : Probes → Report → Report
check_pve probes s =
    if not (or_false probes.test_pve)
    then fail "pve.connectivity" s
    else if probes.connects
    then ok_item "pve.connectivity" s
    else fail "pve.connect" (ok_item "pve.connectivity" s)

-- `known`, and the error where the nodes cannot be listed.
abbrev pub known_nodes : Option (List String) → List String
known_nodes none = []
known_nodes (some names) = filter (λ n. not (n == "")) (map strip names)

unfoldable pub check_nodes_listed : Option (List String) → Report → Report
check_nodes_listed none s = fail "pve.nodes" s
check_nodes_listed (some names) s = s

abbrev pub location_nodes : Location → List String
location_nodes loc = if is_nil loc.nodes && not (loc.node == "") then loc.node ∷ [] else loc.nodes

abbrev pub by_id : List (String × StorageInfo) → List StorageInfo → List (String × StorageInfo)
by_id seen [] = seen
by_id seen (info ∷ storages) = by_id (put info.id info seen) storages

unfoldable pub check_storage : Option StorageInfo → Report → Report
check_storage none s = fail "pve.storage_missing" s
check_storage (some meta) s =
    if not meta.usable_for_vm_disks
    then fail "pve.storage_unusable" s
    else if meta.enabled
    then ok_item "pve.storage" s
    else fail "pve.storage_disabled" s

unfoldable pub check_mapped : Resolved → List StorageInfo → Report → Report
unfolding check_storage
check_mapped (no_storage node) storages s = fail "pve.storage_map" s
check_mapped (storage sid) storages s = check_storage (lookup sid (by_id [] storages)) s

unfoldable pub check_storages : Location → String → Option (List StorageInfo) → Report → Report
unfolding check_mapped
check_storages loc node none s = fail "pve.storage_list" s
check_storages loc node (some storages) s =
    check_mapped (resolve_storage_for_node node loc.storage_by_node loc.storage) storages s

module _ (probes : Probes) (loc : Location) where
  unfoldable pub check_node : String → Report → Report
  unfolding check_storages
  check_node node s =
      let known = known_nodes probes.list_nodes in
      if not (is_nil known) && not (contains node known)
      then fail "pve.node_missing" s
      else check_storages loc node (probes.list_storages node) s

  unfoldable pub check_nodes : List String → Report → Report
  unfolding check_node
  check_nodes [] s = s
  check_nodes (node ∷ nodes) s = check_nodes nodes (check_node node s)
