-- ===== src/Readiness/Run/Ready.antt =====
-- When a plan is ready to be restored, in terms of what was read.
use restore_engine.Common.{
  ℕ, suc, ◌≡◌, refl, ap, String, true, false, List, [], ◌∷◌, some, map, All, lookup, length, ◌==◌,
  nat_key, string_key, arith, inl, inr, Option-cases,
}
use restore_engine.Common.Text.{strip}
use restore_engine.Runs.{Row, Plan}
use restore_engine.Runs.Tick.{is_nil}
use restore_engine.Runs.Start.{Location}
use restore_engine.Groups.{Backup, Group}
use restore_engine.Schedules.Start.{plan_groups}
use restore_engine.Readiness.{Probes, or_false}
use restore_engine.Readiness.Site.{find_location, has_session, location_nodes}
use restore_engine.Readiness.Members.{count_members}
use restore_engine.Readiness.Run.{Stored, member_rows}
use restore_engine.Readiness.Run.Stages.{IsUsable}
use restore_engine.Readiness.Run.Rows.{HasVmids}

-- The site: PBS and Proxmox answer, and every node of the location can take a restore.
pub record IsSiteReady (probes : Probes) (stored : Stored) (plan : Plan) (loc : Location)
    : Type 0 where
  pub is_stored : find_location stored.locations (strip plan.location_id) ≡ some loc
  pub pbs_answers : or_false probes.probe_pbs ≡ true
  pub pve_answers : has_session probes ≡ true
  pub nodes_usable : All (IsUsable probes loc) (location_nodes loc)

-- The members: every group is stored and has backups, and there are guest ids for all of them.
pub record AreMembersReady (probes : Probes) (stored : Stored) (cutoff : String) (plan : Plan)
    (loc : Location) (group_rows : List (List Row)) : Type 0 where
  pub groups : List Group
  pub are_stored : plan_groups stored.groups plan.group_ids ≡ some groups
  pub backups : List Backup
  pub are_listed : probes.list_backups ≡ some backups
  pub tags : List (String × List String)
  pub are_resolved : group_rows ≡ map (member_rows stored.is_match cutoff tags backups) groups
  pub not_empty : All (λ rows. is_nil rows ≡ false) group_rows
  pub some_members : (count_members group_rows == 0) ≡ false
  pub ids_in_use : List ℕ
  pub are_known : probes.vmids_in_use ≡ some ids_in_use
  pub has_vmids : HasVmids probes loc group_rows

pub any_members :
    (group_rows : List (List Row))
    → is_nil group_rows ≡ false
    → All (λ rows. is_nil rows ≡ false) group_rows
    → (count_members group_rows == 0) ≡ false
any_members [] h k = absurd (ground arith)
any_members ([] ∷ groups) h k = absurd (ground (arith, k.0))
any_members ((row ∷ rows) ∷ groups) h k = ground arith

pub length-plan_groups :
    (groups : List (String × Group)) (ids : List String) (gs : List Group)
    → plan_groups groups ids ≡ some gs
    → length gs ≡ length ids
unfolding plan_groups
length-plan_groups groups [] gs e = ground arith
length-plan_groups groups (gid ∷ ids) gs e = elim (Option-cases (lookup gid groups)) [
  | inl missing ↦ absurd (ground arith)
  | inr (g, there) ↦ elim (Option-cases (plan_groups groups ids)) [
    | inl missing ↦ absurd (ground arith)
    | inr (rest, there_rest) ↦ ground (arith, length-plan_groups groups ids rest there_rest)
  ]
]

pub is_nil_of_length :
    {A : Type 0} (xs : List A) (ids : List String)
    → length xs ≡ length ids
    → is_nil ids ≡ false
    → is_nil xs ≡ false
is_nil_of_length [] [] e h = ground arith
is_nil_of_length [] (gid ∷ ids) e h = absurd (omega arith)
is_nil_of_length (x ∷ xs) ids e h = refl

pub length-map : {A B : Type 0} (f : A → B) (xs : List A) → length (map f xs) ≡ length xs
length-map f [] = refl
length-map f (x ∷ xs) = ap suc (length-map f xs)
