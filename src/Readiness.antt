-- ===== src/Readiness.antt =====
-- plans.py: `run_plan_readiness` and what it stores, the check whether a plan could be restored now.
-- The `*_fn` arguments are the record `Probes`, in which none stands for an exception. An item keeps its
-- level and code; its message and detail are texts for the reader.
pub mod Sizes
pub mod Site
pub mod Members
pub mod Run
pub mod Tick
use restore_engine.Common.{
  ℕ, zero, suc, ◌+◌, String, Bool, List, [], ◌∷◌, ◌++◌, Option, none, some, ◌==◌, string_key,
  if◌then◌else◌,
}
use restore_engine.Common.Text.{strip}
use restore_engine.Groups.{Backup, any}

pub data Level : Type 0 where
  error_level ok_level warn_level : Level

pub record Item : Type 0 where
  pub level : Level
  pub code : String

-- The variables `errors` and `items`.
pub record Report : Type 0 where
  pub errors : ℕ
  pub items : List Item

abbrev pub no_report : Report
no_report = record { errors = 0; items = [] }

abbrev pub add_item : Level → String → List Item → List Item
add_item level code items = items ++ record { level = level; code = code } ∷ []

unfoldable pub fail : String → Report → Report
fail code s = record { errors = suc s.errors; items = add_item error_level code s.items }

unfoldable pub ok_item : String → Report → Report
ok_item code s = record s { items = add_item ok_level code s.items }

unfoldable pub warn : String → Report → Report
warn code s = record s { items = add_item warn_level code s.items }

-- A storage of a node, as `list_node_storages` describes it.
pub record StorageInfo : Type 0 where
  pub id : String
  pub usable_for_vm_disks : Bool
  pub enabled : Bool

-- The tags of the backups, and the number of those whose tags could not be read.
pub record TagReply : Type 0 where
  pub tags_by_id : List (String × List String)
  pub tag_errors : ℕ

pub record Probes : Type 0 where
  pub probe_pbs : Option Bool
  pub test_pve : Option Bool
  pub connects : Bool
  pub list_nodes : Option (List String)
  pub list_storages : String → Option (List StorageInfo)
  pub list_backups : Option (List Backup)
  pub resolve_tags : List Backup → String → Option TagReply
  pub vmids_in_use : Option (List ℕ)
  pub estimate_size : String → Option (Option ℕ)

abbrev pub or_false : Option Bool → Bool
or_false none = Bool.false
or_false (some b) = b
