-- ===== src/Locations/Valid.antt =====
-- What holds of every location that can be stored.
use restore_engine.Common.{
  ℕ, ◌≤◌, ◌≡◌, refl, String, true, false, not, ◌&&◌, List, [], ◌∷◌, Option, none, some, filter,
  lookup, ltb, ◌==◌, string_key, arith, ltb→le, inl, inr, Bool-cases, ◌⊎◌, eq_iff, All,
}
use mathlib.Core.Path.{subst}
use restore_engine.Common.Text.{strip}
use restore_engine.Common.Parse.{lower}
use restore_engine.Jobs.{text_or}
use restore_engine.Runs.Tick.{is_nil}
use restore_engine.Runs.Start.{Location}
use restore_engine.Locations.{
  LocationForm, Normalized, accepted, rejected, safe_qga_sec, normalize_network_mode, Nodes,
  settle_nodes, unique_names, has_key, missing_nodes, Placed, build_location, place_storages,
  check_mode, check_bwlimit, check_vmid_start, at_nodes, normalize_location, fill_storages,
  read_storages,
}

-- A location that can be stored.
pub record IsValid (loc : Location) : Type 0 where
  pub node_first : (rest : List String) × (loc.nodes ≡ loc.node ∷ rest)
  pub mapped : All (λ n. has_key n loc.storage_by_node ≡ true) loc.nodes
  pub has_storage : (loc.storage == "") ≡ false
  pub vmid_start_in_range : 100 ≤ loc.vmid_start
  pub mode_known : (loc.restore_mode ≡ "normal") ⊎ (loc.restore_mode ≡ "dr")
  pub bridge_given : (loc.network_mode == "remap" && (loc.lab_bridge == "")) ≡ false
  pub qga_bounded : loc.qga_wait_sec ≤ 3600

abbrev AllAccepted : (Location → Type 0) → Normalized → Type 0
AllAccepted P (accepted loc) = P loc
AllAccepted P (rejected error) = Unit

mapped_of_missing :
    (m : List (String × String)) (nodes : List String)
    → is_nil (missing_nodes nodes m) ≡ true
    → All (λ n. has_key n m ≡ true) nodes
mapped_of_missing m [] h = tt
mapped_of_missing m (n ∷ nodes) h = elim (Bool-cases (has_key n m)) [
  | inl there ↦ (there, mapped_of_missing m nodes (ground arith))
  | inr missing ↦ absurd (ground arith)
]

safe_qga_sec_bounded : (raw : Option ℕ) → safe_qga_sec raw ≤ 3600
unfolding safe_qga_sec
safe_qga_sec_bounded none = omega arith
safe_qga_sec_bounded (some raw) = omega arith

abbrev HasFirst : Nodes → Type 0
HasFirst at = (rest : List String) × (at.nodes ≡ at.node ∷ rest)

module _ (form : LocationForm) (id : String) where
  build_location-IsValid :
      (vmid_start bwlimit : ℕ) (mode : String) (placed : Placed)
      → 100 ≤ vmid_start
      → (mode ≡ "normal") ⊎ (mode ≡ "dr")
      → HasFirst placed.at
      → All (λ n. has_key n placed.storage_by_node ≡ true) placed.at.nodes
      → (placed.storage == "") ≡ false
      → AllAccepted IsValid (build_location form id vmid_start bwlimit mode placed)
  unfolding build_location
  build_location-IsValid vmid_start bwlimit mode placed range known first mapped some_storage =
      let no_bridge =
        normalize_network_mode form.network_mode == "remap" && (strip form.lab_bridge == "") in
      elim (Bool-cases no_bridge) [
        | inl missing ↦ rw missing tt
        | inr given ↦ rw given (record {
          node_first = first;
          mapped = mapped;
          has_storage = some_storage;
          vmid_start_in_range = range;
          mode_known = known;
          bridge_given = given;
          qga_bounded = safe_qga_sec_bounded form.qga_wait_sec;
        })
      ]

  place_storages-IsValid :
      (vmid_start bwlimit : ℕ) (mode : String) (at : Nodes)
      → 100 ≤ vmid_start
      → (mode ≡ "normal") ⊎ (mode ≡ "dr")
      → HasFirst at
      → AllAccepted IsValid (place_storages form id vmid_start bwlimit mode at)
  unfolding place_storages
  place_storages-IsValid vmid_start bwlimit mode at range known first =
      let given = strip form.storage in
      let by_node = fill_storages given (read_storages [] form.storage_by_node) at.nodes in
      let chosen = text_or (lookup at.node by_node) given in
      elim (Bool-cases (is_nil (missing_nodes at.nodes by_node))) [
        | inr unmapped_nodes ↦ rw unmapped_nodes tt
        | inl all_mapped ↦ elim (Bool-cases (chosen == "")) [
          | inl none_given ↦ rw (all_mapped, none_given) tt
          | inr some_storage ↦
              rw (all_mapped, some_storage)
                (build_location-IsValid vmid_start bwlimit mode
                  (record { at = at; storage = chosen; storage_by_node = by_node }) range known
                  first (mapped_of_missing by_node at.nodes all_mapped) some_storage)
        ]
      ]

  check_mode-IsValid :
      (vmid_start bwlimit : ℕ) (at : Nodes)
      → 100 ≤ vmid_start
      → HasFirst at
      → AllAccepted IsValid (check_mode form id vmid_start bwlimit at)
  unfolding check_mode
  check_mode-IsValid vmid_start bwlimit at range first =
      let mode = lower (strip (text_or form.restore_mode "normal")) in
      elim (Bool-cases (mode == "normal")) [
        | inl normal ↦ rw normal (
            place_storages-IsValid vmid_start bwlimit mode at range
              (inl ((eq_iff mode "normal").0 normal)) first)
        | inr other ↦ elim (Bool-cases (mode == "dr")) [
          | inl dr ↦
              rw (other, dr)
                (place_storages-IsValid vmid_start bwlimit mode at range
                  (inr ((eq_iff mode "dr").0 dr)) first)
          | inr unknown ↦ rw (other, unknown) tt
        ]
      ]

  check_bwlimit-IsValid :
      (vmid_start : ℕ) (bwlimit : Option ℕ) (at : Nodes)
      → 100 ≤ vmid_start
      → HasFirst at
      → AllAccepted IsValid (check_bwlimit form id vmid_start bwlimit at)
  unfolding check_bwlimit
  check_bwlimit-IsValid vmid_start none at range first = tt
  check_bwlimit-IsValid vmid_start (some bwlimit) at range first =
      check_mode-IsValid vmid_start bwlimit at range first

  check_vmid_start-IsValid :
      (vmid_start : Option ℕ) (at : Nodes)
      → HasFirst at
      → AllAccepted IsValid (check_vmid_start form id vmid_start at)
  unfolding check_vmid_start
  check_vmid_start-IsValid none at first = tt
  check_vmid_start-IsValid (some vmid_start) at first = elim (Bool-cases (ltb vmid_start 100)) [
    | inl low ↦ rw low tt
    | inr high ↦
        rw high
          (check_bwlimit-IsValid vmid_start form.bwlimit at (ltb→le vmid_start 100 high) first)
  ]

  at_nodes-IsValid :
      (node : String) (nodes : List String)
      → AllAccepted IsValid (at_nodes form id (settle_nodes node nodes))
  unfolding at_nodes settle_nodes
  at_nodes-IsValid node [] = elim (Bool-cases (node == "")) [
    | inl missing ↦ rw missing tt
    | inr given ↦ rw given (check_vmid_start-IsValid form.vmid_start _ ([], refl))
  ]
  at_nodes-IsValid node (n ∷ ns) = elim (Bool-cases (node == "")) [
    | inl missing ↦
        rw missing (
          check_vmid_start-IsValid form.vmid_start (record { node = n; nodes = n ∷ ns }) (ns, refl))
    | inr given ↦ rw given (
        check_vmid_start-IsValid form.vmid_start
          (record { node = node; nodes = node ∷ filter (λ m. not (m == node)) (n ∷ ns) }) (_, refl))
  ]

-- A location that can be stored has its node first among its nodes, a storage for each of them and one of
-- its own, a first guest id of 100 or more, a restore mode the enqueue knows, a bridge where it remaps
-- the network, and at most an hour of wait for the guest agent.
pub normalize_location-IsValid :
    (form : LocationForm) (id : String) (loc : Location)
    → normalize_location form id ≡ accepted loc
    → IsValid loc
unfolding normalize_location
normalize_location-IsValid form id loc e =
    let settled = settle_nodes (strip form.node) (unique_names [] form.nodes) in
    elim (Bool-cases (strip form.name == "")) [
      | inl missing ↦ absurd (ground arith)
      | inr named ↦
          let same : at_nodes form id settled ≡ accepted loc = ground arith in
          subst (AllAccepted IsValid) same
            (at_nodes-IsValid form id (strip form.node) (unique_names [] form.nodes))
    ]
