-- ===== src/Placement/Storage.antt =====
-- pve_client.py, `resolve_storage_for_node`: the storage that a restore to a node goes to.
use restore_engine.Common.{String, not, List, lookup, ◌==◌, string_key, if◌then◌else◌}
use restore_engine.Common.Text.{strip}
use restore_engine.Jobs.{text_or}

pub data Resolved : Type 0 where
  storage : String → Resolved
  no_storage : String → Resolved  -- RuntimeError, with the node

unfoldable pub resolve_storage_for_node : String → List (String × String) → String → Resolved
resolve_storage_for_node node storage_by_node default_storage =
    let mapped = strip (text_or (lookup node storage_by_node) "") in
    let fallback = strip default_storage in
    if not (mapped == "")
    then storage mapped
    else if not (fallback == "")
    then storage fallback
    else no_storage node
