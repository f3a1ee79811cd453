-- ===== src/Readiness/Run/Stages.antt =====
-- What the stages about the plan and its site have found good, when no error stands in the report behind them.
use restore_engine.Common.{
  ◌≡◌, refl, String, true, false, List, [], ◌∷◌, Option, none, some, All, lookup, contains, nat_key,
  string_key, arith, ◌⊎◌, inl, inr, Bool-cases, Option-cases,
}
use restore_engine.Runs.Tick.{is_nil}
use restore_engine.Runs.Start.{Location}
use restore_engine.Groups.{Group}
use restore_engine.Placement.Storage.{Resolved, storage, no_storage, resolve_storage_for_node}
use restore_engine.Schedules.Start.{plan_groups}
use restore_engine.Readiness.{Report, fail, ok_item, StorageInfo, Probes, or_false}
use restore_engine.Readiness.Site.{
  check_group_ids, check_location, found_groups, check_group, check_groups, check_pbs, has_session,
  check_pve, known_nodes, by_id, check_storage, check_mapped, check_storages, check_node,
  check_nodes,
}
use restore_engine.Readiness.Members.{listed}

abbrev pub IsClean : Report → Type 0
IsClean s = s.errors ≡ 0

pub check_group_ids-IsClean :
    (ids : List String) (s : Report)
    → IsClean (check_group_ids ids s)
    → IsClean s × (is_nil ids ≡ false)
unfolding check_group_ids fail
check_group_ids-IsClean ids s h = ground arith

pub check_location-IsClean :
    (o : Option Location) (s : Report)
    → IsClean (check_location o s)
    → IsClean s × ((loc : Location) × (o ≡ some loc))
unfolding check_location fail
check_location-IsClean none s h = absurd (omega arith)
check_location-IsClean (some loc) s h = (h, (loc, refl))

pub check_groups-IsClean :
    (groups : List (String × Group)) (ids : List String) (s : Report)
    → IsClean (check_groups groups ids s)
    → IsClean s × (plan_groups groups ids ≡ some (found_groups groups ids))
unfolding check_groups check_group plan_groups found_groups fail
check_groups-IsClean groups [] s h = (h, refl)
check_groups-IsClean groups (gid ∷ ids) s h =
    let (clean, rest) = check_groups-IsClean groups ids (check_group (lookup gid groups) s) h in
    elim (Option-cases (lookup gid groups)) [
      | inl missing ↦ absurd (ground arith)
      | inr (g, there) ↦ (ground arith, rw (there, rest, plan_groups, found_groups) refl)
    ]

pub check_pbs-IsClean :
    (probes : Probes) (s : Report)
    → IsClean (check_pbs probes s)
    → IsClean s × (or_false probes.probe_pbs ≡ true)
unfolding check_pbs fail ok_item
check_pbs-IsClean probes s h = ground arith

pub check_pve-IsClean :
    (probes : Probes) (s : Report)
    → IsClean (check_pve probes s)
    → IsClean s × (has_session probes ≡ true)
unfolding check_pve fail ok_item
check_pve-IsClean probes s h = ground arith

-- The node is in the cluster, as far as the cluster names its nodes, and the storage that a restore
-- to it would use is there, holds disks of guests, and is enabled.
pub record IsUsable (probes : Probes) (loc : Location) (node : String) : Type 0 where
  pub is_known :
      (is_nil (known_nodes probes.list_nodes) ≡ true)
      ⊎ (contains node (known_nodes probes.list_nodes) ≡ true)
  pub sid : String
  pub resolved : resolve_storage_for_node node loc.storage_by_node loc.storage ≡ storage sid
  pub storages : List StorageInfo
  pub are_listed : probes.list_storages node ≡ some storages
  pub storage_info : StorageInfo
  pub is_there : lookup sid (by_id [] storages) ≡ some storage_info
  pub holds_disks : storage_info.usable_for_vm_disks ≡ true
  pub is_enabled : storage_info.enabled ≡ true

check_storage-IsClean :
    (o : Option StorageInfo) (s : Report)
    → IsClean (check_storage o s)
    → IsClean s
      × ((info : StorageInfo) × (o ≡ some info)
          × (info.usable_for_vm_disks ≡ true)
          × (info.enabled ≡ true))
unfolding check_storage fail ok_item
check_storage-IsClean none s h = absurd (omega arith)
check_storage-IsClean (some info) s h =
    let (clean, usable, enabled) : IsClean s
        × (info.usable_for_vm_disks ≡ true)
        × (info.enabled ≡ true) =
      ground arith in
    (clean, (info, refl, usable, enabled))

check_mapped-IsClean :
    (r : Resolved) (storages : List StorageInfo) (s : Report)
    → IsClean (check_mapped r storages s)
    → IsClean s
      × ((sid : String) × (info : StorageInfo) × (r ≡ storage sid)
          × (lookup sid (by_id [] storages) ≡ some info)
          × (info.usable_for_vm_disks ≡ true)
          × (info.enabled ≡ true))
unfolding check_mapped fail
check_mapped-IsClean (no_storage node) storages s h = absurd (omega arith)
check_mapped-IsClean (storage sid) storages s h =
    let (clean, (info, there, usable, enabled)) =
      check_storage-IsClean (lookup sid (by_id [] storages)) s h in
    (clean, (sid, info, refl, there, usable, enabled))

module _ (probes : Probes) (loc : Location) where
  check_storages-IsClean :
      (node : String) (o : Option (List StorageInfo)) (s : Report)
      → probes.list_storages node ≡ o
      → (is_nil (known_nodes probes.list_nodes) ≡ true)
        ⊎ (contains node (known_nodes probes.list_nodes) ≡ true)
      → IsClean (check_storages loc node o s)
      → IsClean s × IsUsable probes loc node
  unfolding check_storages fail
  check_storages-IsClean node none s e known h = absurd (omega arith)
  check_storages-IsClean node (some storages) s e known h =
      let (clean, (sid, info, resolved, there, usable, enabled)) =
        check_mapped-IsClean (resolve_storage_for_node node loc.storage_by_node loc.storage)
          storages s h in
      (
        clean,
        record {
          is_known = known;
          sid = sid;
          resolved = resolved;
          storages = storages;
          are_listed = e;
          storage_info = info;
          is_there = there;
          holds_disks = usable;
          is_enabled = enabled;
        },
      )

  check_node-IsClean :
      (node : String) (s : Report)
      → IsClean (check_node probes loc node s)
      → IsClean s × IsUsable probes loc node
  unfolding check_node fail
  check_node-IsClean node s h =
      let storages = probes.list_storages node in
      elim (Bool-cases (is_nil (known_nodes probes.list_nodes))) [
        | inl unknown ↦ check_storages-IsClean node storages s refl (inl unknown) (ground arith)
        | inr listed ↦ elim (Bool-cases (contains node (known_nodes probes.list_nodes))) [
          | inl known ↦ check_storages-IsClean node storages s refl (inr known) (ground arith)
          | inr missing ↦ absurd (ground arith)
        ]
      ]

  pub check_nodes-IsClean :
      (nodes : List String) (s : Report)
      → IsClean (check_nodes probes loc nodes s)
      → IsClean s × All (IsUsable probes loc) nodes
  unfolding check_nodes
  check_nodes-IsClean [] s h = (h, tt)
  check_nodes-IsClean (node ∷ nodes) s h =
      let (clean_rest, rest) = check_nodes-IsClean nodes (check_node probes loc node s) h in
      let (clean, usable) = check_node-IsClean node s clean_rest in (clean, (usable, rest))
