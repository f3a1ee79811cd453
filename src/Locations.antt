-- ===== src/Locations.antt =====
-- plans.py: `normalize_location`, which lets a recovery location be stored.
-- `int(x)` of a form value is a number, or none where it raises or is negative: the caller refuses both.
-- A `nodes` or `storage_by_node` that is no list or dict is an empty one. The name and the
-- dates are not kept.
pub mod Valid
use restore_engine.Common.{
  ℕ, min, String, Bool, true, false, not, ◌&&◌, ◌||◌, List, [], ◌∷◌, ◌++◌, Option, none, some,
  filter, lookup, put, contains, ltb, ◌==◌, string_key, if◌then◌else◌,
}
use restore_engine.Common.Text.{strip}
use restore_engine.Common.Parse.{lower}
use restore_engine.Jobs.{text_or}
use restore_engine.Runs.Tick.{is_nil}
use restore_engine.Runs.Start.{Location}

-- The payload, with the values that its missing keys stand for.
pub record LocationForm : Type 0 where
  pub name : String
  pub node : String
  pub storage : String
  pub nodes : List String
  pub vmid_start : Option ℕ
  pub bwlimit : Option ℕ
  pub restore_mode : Option String
  pub storage_by_node : List (String × String)
  pub live_restore : Bool
  pub power_on : Bool
  pub qga_wait_sec : Option ℕ
  pub network_mode : Option String
  pub lab_bridge : String
  pub http_check_url : String
  pub isolated : Bool

-- ValueError, by its message.
pub data LocationError : Type 0 where
  no_name no_nodes bad_vmid_start bad_bwlimit bad_mode no_storage no_bridge : LocationError
  unmapped : List String → LocationError

pub data Normalized : Type 0 where
  accepted : Location → Normalized
  rejected : LocationError → Normalized

unfoldable pub safe_qga_sec : Option ℕ → ℕ
safe_qga_sec none = 0
safe_qga_sec (some raw) = min 3600 raw

unfoldable pub normalize_network_mode : Option String → String
normalize_network_mode raw =
    let mode = lower (strip (text_or raw "none")) in
    if mode == "none" || mode == "unlink" || mode == "remap" then mode else "none"

-- Each name once, without the empty ones.
unfoldable pub unique_names : List String → List String → List String
unique_names seen [] = seen
unique_names seen (item ∷ items) =
    let n = strip item in
    unique_names (if not (n == "") && not (contains n seen) then seen ++ n ∷ [] else seen) items

-- The node, and the nodes with it in front.
pub record Nodes : Type 0 where
  pub node : String
  pub nodes : List String

unfoldable pub settle_nodes : String → List String → Option Nodes
settle_nodes node [] = if node == "" then none else some (record { node = node; nodes = node ∷ [] })
settle_nodes node (n ∷ ns) = some (
    if node == ""
    then record { node = n; nodes = n ∷ ns }
    else record { node = node; nodes = node ∷ filter (λ m. not (m == node)) (n ∷ ns) })

-- The pairs of the form whose texts are not blank.
unfoldable pub read_storages :
    List (String × String) → List (String × String) → List (String × String)
read_storages m [] = m
read_storages m ((key, val) ∷ items) =
    read_storages
      (if not (strip key == "") && not (strip val == "") then put (strip key) (strip val) m else m)
      items

abbrev pub has_key : String → List (String × String) → Bool
has_key n m = elim (lookup n m) [ none ↦ false | some s ↦ true ]

-- The nodes without an entry get the storage of the form.
unfoldable pub fill_storages :
    String → List (String × String) → List String → List (String × String)
fill_storages storage m [] = m
fill_storages storage m (n ∷ nodes) =
    fill_storages storage (if not (has_key n m) && not (storage == "") then put n storage m else m)
      nodes

abbrev pub missing_nodes : List String → List (String × String) → List String
missing_nodes nodes m = filter (λ n. not (has_key n m)) nodes

-- What the form says of the nodes, mapped to their storages.
pub record Placed : Type 0 where
  pub at : Nodes
  pub storage : String
  pub storage_by_node : List (String × String)

unfoldable pub build_location : LocationForm → String → ℕ → ℕ → String → Placed → Normalized
build_location form id vmid_start bwlimit mode placed =
    let network_mode = normalize_network_mode form.network_mode in
    if network_mode == "remap" && (strip form.lab_bridge == "")
    then rejected no_bridge
    else accepted (record {
      id = id;
      node = placed.at.node;
      nodes = placed.at.nodes;
      storage = placed.storage;
      storage_by_node = placed.storage_by_node;
      vmid_start = vmid_start;
      bwlimit = bwlimit;
      live_restore = form.live_restore;
      power_on = form.power_on;
      qga_wait_sec = safe_qga_sec form.qga_wait_sec;
      network_mode = network_mode;
      lab_bridge = strip form.lab_bridge;
      http_check_url = strip form.http_check_url;
      restore_mode = mode;
      isolated = form.isolated || network_mode == "unlink" || network_mode == "remap";
    })

unfoldable pub place_storages : LocationForm → String → ℕ → ℕ → String → Nodes → Normalized
place_storages form id vmid_start bwlimit mode at =
    let given = strip form.storage in
    let by_node = fill_storages given (read_storages [] form.storage_by_node) at.nodes in
    let missing = missing_nodes at.nodes by_node in
    let storage = text_or (lookup at.node by_node) given in
    if not (is_nil missing)
    then rejected (unmapped missing)
    else if storage == ""
    then rejected no_storage
    else build_location form id vmid_start bwlimit mode
        (record { at = at; storage = storage; storage_by_node = by_node })

unfoldable pub check_mode : LocationForm → String → ℕ → ℕ → Nodes → Normalized
check_mode form id vmid_start bwlimit at =
    let mode = lower (strip (text_or form.restore_mode "normal")) in
    if mode == "normal" || mode == "dr"
    then place_storages form id vmid_start bwlimit mode at
    else rejected bad_mode

unfoldable pub check_bwlimit : LocationForm → String → ℕ → Option ℕ → Nodes → Normalized
check_bwlimit form id vmid_start none at = rejected bad_bwlimit
check_bwlimit form id vmid_start (some bwlimit) at = check_mode form id vmid_start bwlimit at

unfoldable pub check_vmid_start : LocationForm → String → Option ℕ → Nodes → Normalized
check_vmid_start form id none at = rejected bad_vmid_start
check_vmid_start form id (some vmid_start) at =
    if ltb vmid_start 100
    then rejected bad_vmid_start
    else check_bwlimit form id vmid_start form.bwlimit at

unfoldable pub at_nodes : LocationForm → String → Option Nodes → Normalized
at_nodes form id none = rejected no_nodes
at_nodes form id (some at) = check_vmid_start form id form.vmid_start at

-- `id` is the `location_id`, or the fresh uuid.
unfoldable pub normalize_location : LocationForm → String → Normalized
normalize_location form id =
    if strip form.name == ""
    then rejected no_name
    else at_nodes form id (settle_nodes (strip form.node) (unique_names [] form.nodes))
