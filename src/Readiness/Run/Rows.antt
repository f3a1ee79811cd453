-- ===== src/Readiness/Run/Rows.antt =====
-- What the stages about the backups have found good, when no error stands in the report behind them.
use restore_engine.Common.{
  ℕ, ◌≡◌, refl, String, false, List, [], ◌∷◌, Option, none, some, All, ◌==◌, nat_key, string_key,
  arith, inl, inr, Bool-cases, if◌then◌else◌, map, filter,
}
use restore_engine.Runs.{Row}
use restore_engine.Runs.Tick.{is_nil}
use restore_engine.Runs.Start.{Location}
use restore_engine.Groups.{Backup, Group, best_from}
use Prim.Native.String.{compare}
use text.Mathlib.Text.{is_le}
use restore_engine.Vmids.{Allocation, allocated, exhausted, allocate_sequential_free_vmids}
use restore_engine.Readiness.{Report, fail, ok_item, warn, TagReply, Probes}
use restore_engine.Readiness.Sizes.{SizeSummary, size_item, flatten}
use restore_engine.Readiness.Site.{location_nodes, check_nodes_listed}
use restore_engine.Readiness.Members.{
  listed, first_or, check_backups, after_tags, check_tags, check_rows, count_members,
  restore_mode_of, in_use_of, check_vmids_listed, start_of, check_allocation, check_vmids,
}
use restore_engine.Readiness.Run.Fresh.{IsFresh, check_dr-IsFresh}
use restore_engine.Readiness.Run.Stages.{IsClean}

pub check_nodes_listed-IsClean :
    (o : Option (List String)) (s : Report) → IsClean (check_nodes_listed o s) → IsClean s
unfolding check_nodes_listed fail
check_nodes_listed-IsClean none s h = absurd (omega arith)
check_nodes_listed-IsClean (some names) s h = h

pub check_backups-IsClean :
    (o : Option (List Backup)) (s : Report)
    → IsClean (check_backups o s)
    → IsClean s × (o ≡ some (listed o))
unfolding check_backups fail
check_backups-IsClean none s h = absurd (omega arith)
check_backups-IsClean (some backups) s h = (h, refl)

after_tags-IsClean :
    (o : Option TagReply) (s : Report) → IsClean (after_tags s o).report → IsClean s
unfolding after_tags fail warn
after_tags-IsClean none s h = absurd (omega arith)
after_tags-IsClean (some reply) s h = ground arith

pub check_tags-IsClean :
    (probes : Probes) (loc : Location) (cutoff : String) (groups : List Group)
    (backups : List Backup) (s : Report)
    → IsClean (check_tags probes loc cutoff groups backups s).report
    → IsClean s
unfolding check_tags warn
check_tags-IsClean probes loc cutoff groups backups s h =
    let candidates =
      map (λ e. e.1)
        (best_from [] (filter (λ b. is_le (compare b.row.timestamp cutoff)) backups)) in
    let node0 = first_or (location_nodes loc) loc.node in
    ground (arith, after_tags-IsClean (probes.resolve_tags candidates node0) s)

pub check_rows-IsClean :
    (group_rows : List (List Row)) (s : Report)
    → IsClean (check_rows group_rows s)
    → IsClean s × All (λ rows. is_nil rows ≡ false) group_rows
unfolding check_rows fail ok_item
check_rows-IsClean [] s h = (h, tt)
check_rows-IsClean (rows ∷ groups) s h =
    let (clean, rest) =
      check_rows-IsClean groups
        (if is_nil rows then fail "group.empty" s else ok_item "group.members" s) h in
    let (clean', some_rows) : IsClean s × (is_nil rows ≡ false) = ground arith in
    (clean', (some_rows, rest))

abbrev pub IsAllocated : Allocation → Type 0
IsAllocated exhausted = ⊥
IsAllocated (allocated vmids next) = Unit

check_allocation-IsClean :
    (a : Allocation) (s : Report) → IsClean (check_allocation a s) → IsClean s × IsAllocated a
unfolding check_allocation fail ok_item
check_allocation-IsClean exhausted s h = absurd (omega arith)
check_allocation-IsClean (allocated vmids next) s h = (h, tt)

check_vmids_listed-IsClean :
    (o : Option (List ℕ)) (s : Report)
    → IsClean (check_vmids_listed o s)
    → IsClean s × (o ≡ some (in_use_of o))
unfolding check_vmids_listed fail
check_vmids_listed-IsClean none s h = absurd (omega arith)
check_vmids_listed-IsClean (some vmids) s h = (h, refl)

-- The guest ids of the members: their own for a DR restore, all free and different; or as many free
-- ones as there are members.
abbrev pub HasVmids : Probes → Location → List (List Row) → Type 0
HasVmids probes loc group_rows =
    if restore_mode_of loc == "dr"
    then IsFresh (in_use_of probes.vmids_in_use) [] (flatten group_rows)
    else IsAllocated (
        allocate_sequential_free_vmids (in_use_of probes.vmids_in_use) (start_of loc)
          (count_members group_rows))

pub check_vmids-IsClean :
    (probes : Probes) (loc : Location) (group_rows : List (List Row)) (s : Report)
    → (count_members group_rows == 0) ≡ false
    → IsClean (check_vmids probes loc group_rows s)
    → IsClean s
      × (probes.vmids_in_use ≡ some (in_use_of probes.vmids_in_use))
      × HasVmids probes loc group_rows
unfolding check_vmids
check_vmids-IsClean probes loc group_rows s some_members h =
    let in_use = in_use_of probes.vmids_in_use in
    let s' = check_vmids_listed probes.vmids_in_use s in
    elim (Bool-cases (restore_mode_of loc == "dr")) [
      | inl dr ↦
          let (clean, fresh) = check_dr-IsFresh in_use group_rows s' (ground arith) in
          let (clean', there) = check_vmids_listed-IsClean probes.vmids_in_use s clean in
          (clean', there, rw dr fresh)
      | inr normal ↦
          let (clean, allocation) =
            check_allocation-IsClean
              (allocate_sequential_free_vmids in_use (start_of loc) (count_members group_rows)) s'
              (ground arith) in
          let (clean', there) = check_vmids_listed-IsClean probes.vmids_in_use s clean in
          (clean', there, rw normal allocation)
    ]

pub check_vmids_report :
    (probes : Probes) (loc : Location) (group_rows : List (List Row)) (s : Report)
    → IsClean (check_vmids probes loc group_rows s)
    → IsClean s
unfolding check_vmids
check_vmids_report probes loc group_rows s h = elim (Bool-cases (count_members group_rows == 0)) [
  | inl no_members ↦ ground arith
  | inr some_members ↦ (check_vmids-IsClean probes loc group_rows s some_members h).0
]

pub size_item-IsClean : (sizes : SizeSummary) (s : Report) → IsClean (size_item sizes s) → IsClean s
unfolding size_item warn ok_item
size_item-IsClean sizes s h = ground arith
