-- ===== src/Schedules/Start.antt =====
-- `_start_scheduled` of worker.py: the groups of a plan and their backups, and the start of the run.
use restore_engine.Common.{
  String, Bool, false, not, List, [], ◌∷◌, Option, none, some, map, filter, lookup, ◌==◌,
  string_key, if◌then◌else◌,
}
use restore_engine.Common.Text.{strip}
use restore_engine.Runs.{Row, Plan, Plans, EnqueueFn}
use restore_engine.Runs.Tick.{is_nil}
use restore_engine.Runs.Start.{Location, Request, Started, started, refused, broken, start_plan_run}
use Prim.Native.String.{compare}
use text.Mathlib.Text.{is_le}
use restore_engine.Groups.{Backup, Group, any, resolve_group_rows, best_from}
use restore_engine.Schedules.{StartReply, run_started, start_failed}

-- What the call reads from outside: the inventory of PBS, none where it cannot be listed; the tags of
-- backups that a node reads, none where no session opens; and the stored groups.
pub record Inventory : Type 0 where
  pub backups : Option (List Backup)
  pub read_tags : List Backup → String → Option (List (String × List String))
  pub is_match : String → String → Bool
  pub groups : List (String × Group)

-- `get_group` for each id, of which a missing one raises.
unfoldable pub plan_groups : List (String × Group) → List String → Option (List Group)
plan_groups groups [] = some []
plan_groups groups (gid ∷ gids) = elim (lookup gid groups) [
  | none ↦ none
  | some g ↦ elim (plan_groups groups gids) [ none ↦ none | some gs ↦ some (g ∷ gs) ]
]

unfoldable pub first_node : List String → String
first_node [] = ""
first_node (n ∷ ns) = let rest = first_node ns in if strip n == "" then rest else strip n

abbrev pub tag_node : Location → String
tag_node loc = let n = first_node loc.nodes in if n == "" then strip loc.node else n

abbrev pub need_tags : List Group → Bool
need_tags groups = any (λ g. not (is_nil g.tags)) groups

-- The tags of the newest backup of each guest, or the exception.
unfoldable pub scheduled_tags :
    Inventory → String → Location → List Group → List Backup → Option (List (String × List String))
unfolding first_node
scheduled_tags inv cutoff loc groups backups =
    if need_tags groups
    then (if tag_node loc == ""
        then none
        else (let candidates =
              map (λ e. e.1)
                (best_from [] (filter (λ b. is_le (compare b.row.timestamp cutoff)) backups)) in
            if is_nil candidates then some [] else inv.read_tags candidates (tag_node loc)))
    else some []

unfoldable pub started_reply : Plans → Started → StartReply
started_reply p (started run p') = run_started p'
started_reply p refused = start_failed p
started_reply p (broken p') = start_failed p'

abbrev pub scheduled_request : Plan → Request
scheduled_request plan = record {
  drill = plan.schedule_drill;
  auto_teardown = plan.schedule_drill;
  powered_off = none;
  power_on = false;
  qga_wait_sec = 0;
  overwrite = false;
}

-- `new_id` is `uuid.uuid4`, asked when the run is made.
module _ (inv : Inventory) (enqueue_fn : EnqueueFn) (now cutoff : String)
    (new_id : Plans → String) where
  abbrev pub rows_of : List (String × List String) → List Backup → Group → List Row
  rows_of tags backups group =
      map (λ b. b.row) (resolve_group_rows inv.is_match group backups cutoff tags)

  unfoldable pub start_with :
      Plan → Location → Plans → List Group → List Backup → List (String × List String) → StartReply
  unfolding started_reply
  start_with plan loc p groups backups tags =
      let group_rows = map (rows_of tags backups) groups in
      if any (λ rows. not (is_nil rows)) group_rows
      then started_reply p
          (start_plan_run enqueue_fn now (new_id p) (scheduled_request plan) plan loc group_rows p)
      else start_failed p

  unfoldable pub start_scheduled : Plan → Location → Plans → StartReply
  unfolding plan_groups scheduled_tags start_with
  start_scheduled plan loc p = elim inv.backups [
    | none ↦ start_failed p
    | some backups ↦ elim (plan_groups inv.groups plan.group_ids) [
      | none ↦ start_failed p
      | some groups ↦ elim (scheduled_tags inv cutoff loc groups backups) [
        | none ↦ start_failed p
        | some tags ↦ start_with plan loc p groups backups tags
      ]
    ]
  ]
