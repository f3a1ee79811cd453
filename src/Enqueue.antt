-- ===== src/Enqueue.antt =====
-- jobs.py: `enqueue_restores`, up to the choice of guest ids, nodes and storages. Its arguments
-- beside the rows are those of `Order`, which the plan runs call it with.
pub mod Reclaim
pub mod Write
pub mod Call
pub mod Finished
pub mod Queued
pub mod Spares
use restore_engine.Common.{
  ℕ, zero, suc, ◌+◌, String, Bool, true, false, not, ◌&&◌, ◌||◌, List, [], ◌∷◌, ◌++◌, Option, none,
  some, map, put, lookup, contains, length, ltb, ◌==◌, nat_key, string_key, if◌then◌else◌,
}
use restore_engine.Common.Text.{strip, lstrip}
use restore_engine.Common.Parse.{lower}
use restore_engine.Jobs.{Hash, Redis, text_or}
use Prim.Native.Char.{code}
use Prim.Native.String as Str
use restore_engine.Runs.{Row, Settings}
use restore_engine.Placement.{Counts, bump, stripped}
use restore_engine.Placement.Storage.{Resolved, storage, no_storage, resolve_storage_for_node}
use restore_engine.Vmids.{Allocation, allocated, exhausted, allocate_sequential_free_vmids}

-- What the call raises, each with what its message names.
pub data EnqueueError : Type 0 where
  bad_mode : String → EnqueueError
  no_node no_free_vmids unreachable no_pve_storage no_voltail uneven : EnqueueError
  no_storage_for : String → EnqueueError
  duplicate_vmid vmid_in_use is_container node_unknown foreign_guest destroy_failed :
      ℕ → EnqueueError

-- A value, or the exception.
pub data Checked {ℓ} (A : Type ℓ) : Type ℓ where
  good : A → Checked A
  bad : EnqueueError → Checked A

abbrev pub and_then {ℓ κ} : {A : Type ℓ} {B : Type κ} → Checked A → (A → Checked B) → Checked B
and_then (good a) f = f a
and_then (bad e) f = bad e

pub data Mode : Type 0 where
  normal dr : Mode

-- `(restore_mode or "normal").strip().lower()`
unfoldable pub mode_of : String → Checked Mode
mode_of restore_mode =
    let mode = lower (strip (if restore_mode == "" then "normal" else restore_mode)) in
    if mode == "normal"
    then good normal
    else if mode == "dr"
    then good dr
    else bad (bad_mode restore_mode)

abbrev pub is_nil_text : List String → Bool
is_nil_text [] = true
is_nil_text (x ∷ xs) = false

-- `nodes`, or the single `node` where there is none.
unfoldable pub candidates_of : Settings → Checked (List String)
candidates_of settings =
    let candidates = stripped settings.nodes in
    let single = strip settings.node in
    if not (is_nil_text candidates)
    then good candidates
    else if single == ""
    then bad no_node
    else good (single ∷ [])

-- The entries of `storage_by_node` that are not blank.
unfoldable pub clean_storages :
    List (String × String) → List (String × String) → List (String × String)
clean_storages by_node [] = by_node
clean_storages by_node ((key, val) ∷ items) =
    clean_storages
      (if not (strip key == "") && not (strip val == "")
        then put (strip key) (strip val) by_node
        else by_node)
      items

abbrev pub checked_storage : Resolved → Checked String
checked_storage (storage s) = good s
checked_storage (no_storage node) = bad (no_storage_for node)

-- `[resolve_storage_for_node(n, …) for n in nodes]`
unfoldable pub resolve_all : List (String × String) → String → List String → Checked (List String)
resolve_all by_node default_storage [] = good []
resolve_all by_node default_storage (node ∷ nodes) =
    and_then (checked_storage (resolve_storage_for_node node by_node default_storage))
      λ s. and_then (resolve_all by_node default_storage nodes) λ rest. good (s ∷ rest)

-- The source VMIDs of a DR batch.
unfoldable pub source_vmids : Bool → List ℕ → List ℕ → List Row → Checked (List ℕ)
source_vmids overwrite in_use seen [] = good []
source_vmids overwrite in_use seen (row ∷ rows) =
    if contains row.vmid seen
    then bad (duplicate_vmid row.vmid)
    else if contains row.vmid in_use && not overwrite
    then bad (vmid_in_use row.vmid)
    else and_then (source_vmids overwrite in_use (row.vmid ∷ seen) rows)
        λ rest. good (row.vmid ∷ rest)

abbrev pub checked_ids : Allocation → Checked (List ℕ)
checked_ids (allocated ids next) = good ids
checked_ids exhausted = bad no_free_vmids

unfoldable pub target_vmids : Mode → Bool → List ℕ → ℕ → List Row → Checked (List ℕ)
unfolding source_vmids
target_vmids dr overwrite in_use vmid_start rows = source_vmids overwrite in_use [] rows
target_vmids normal overwrite in_use vmid_start rows =
    checked_ids (allocate_sequential_free_vmids in_use vmid_start (length rows))

-- `active_restore_counts_by_node`
unfoldable pub active_counts : List (String × Hash) → Counts
active_counts [] n = 0
active_counts ((key, h) ∷ jobs) n =
    let state = text_or (lookup "state" h) "" in
    let node = strip (text_or (lookup "proxmox_node" h) "") in
    let rest = active_counts jobs in
    if (state == "PENDING" || state == "RESTORING") && not (node == "")
    then bump rest node n
    else rest n

-- `s.lstrip("/")`
lstrip_slash : String → String
lstrip_slash Str.[] = Str.[]
lstrip_slash (Str.◌∷◌ c s) = let rest = lstrip_slash s in if code c == 47 then rest else Str.◌∷◌ c s

unfoldable pub archive_path : String → String → Checked String
unfolding lstrip_slash
archive_path pve_storage voltail =
    let store = strip pve_storage in
    let tail = lstrip_slash (strip voltail) in
    if store == ""
    then bad no_pve_storage
    else if tail == ""
    then bad no_voltail
    else good (Str.◌++◌ store (Str.◌++◌ ":backup/" tail))
