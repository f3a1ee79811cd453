-- ===== src/Readiness/Run/Sound.antt =====
-- What holds of a plan that the check stores as VERIFIED.
use restore_engine.Common.{
  ◌≡◌, refl, sym, ◌∙◌, String, true, false, List, Option, none, some, map, All, nat_key, string_key,
  arith,
}
use mathlib.Core.Path.{subst}
use restore_engine.Common.Text.{strip}
use restore_engine.Runs.{Row, Plan}
use restore_engine.Runs.Tick.{is_nil}
use restore_engine.Runs.Start.{Location}
use restore_engine.Groups.{Group}
use restore_engine.Schedules.Start.{plan_groups}
use restore_engine.Readiness.{Report, fail, no_report, Probes, or_false}
use restore_engine.Readiness.Sizes.{summarize_member_sizes}
use restore_engine.Readiness.Site.{
  find_location, found_groups, has_session, location_nodes, check_group_ids, check_location,
  check_groups, check_pbs, check_nodes_listed, check_nodes,
}
use restore_engine.Readiness.Members.{listed, check_backups, check_rows}
use restore_engine.Readiness.Run.{
  Stored, member_rows, tagged_at, check_site, check_at, check_start, outcome_of, check_sizes,
  check_empty, final_report,
}
use restore_engine.Readiness.Run.Stages.{
  IsClean, IsUsable, check_group_ids-IsClean, check_location-IsClean, check_groups-IsClean,
  check_pbs-IsClean, check_pve-IsClean, check_nodes-IsClean,
}
use restore_engine.Readiness.Run.Rows.{
  check_nodes_listed-IsClean, check_backups-IsClean, check_tags-IsClean, check_rows-IsClean,
  check_vmids-IsClean, check_vmids_report, size_item-IsClean,
}
use restore_engine.Readiness.Run.Ready.{
  IsSiteReady, AreMembersReady, any_members, length-plan_groups, is_nil_of_length, length-map,
}

module _ (probes : Probes) (stored : Stored) (cutoff : String) (plan : Plan) where
  -- What the stages of the site have found good, whatever groups there are.
  site-IsClean :
      (loc : Location) (groups : List Group) (s : Report)
      → let o = check_site probes stored cutoff loc groups s in
        IsClean o.report
        → IsClean s
          × All (IsUsable probes loc) (location_nodes loc)
          × (probes.list_backups ≡ some (listed probes.list_backups))
          × All (λ rows. is_nil rows ≡ false) o.group_rows
  unfolding check_site tagged_at
  site-IsClean loc groups s h =
      let tagged = tagged_at probes stored cutoff loc groups s in
      let backups = listed probes.list_backups in
      let group_rows = map (member_rows stored.is_match cutoff tagged.tags backups) groups in
      let rows_clean =
        check_vmids_report probes loc group_rows (check_rows group_rows tagged.report) h in
      let (tags_clean, not_empty) = check_rows-IsClean group_rows tagged.report rows_clean in
      let listed_s = check_nodes_listed probes.list_nodes s in
      let nodes_s = check_nodes probes loc (location_nodes loc) listed_s in
      let backups_s = check_backups probes.list_backups nodes_s in
      let (nodes_clean, are_listed) =
        check_backups-IsClean probes.list_backups nodes_s
          (check_tags-IsClean probes loc cutoff groups backups backups_s tags_clean) in
      let (listed_clean, usable) =
        check_nodes-IsClean probes loc (location_nodes loc) listed_s nodes_clean in
      (check_nodes_listed-IsClean probes.list_nodes s listed_clean, usable, are_listed, not_empty)

  members_ready :
      (loc : Location) (groups : List Group) (s : Report)
      → let o = check_site probes stored cutoff loc groups s in
        is_nil plan.group_ids ≡ false
        → plan_groups stored.groups plan.group_ids ≡ some groups
        → IsClean o.report
        → AreMembersReady probes stored cutoff plan loc o.group_rows
  unfolding check_site tagged_at
  members_ready loc groups s some_ids stored_groups h =
      let tagged = tagged_at probes stored cutoff loc groups s in
      let backups = listed probes.list_backups in
      let group_rows = map (member_rows stored.is_match cutoff tagged.tags backups) groups in
      let (_, _, are_listed, not_empty) = site-IsClean loc groups s h in
      let same_length =
        length-map (member_rows stored.is_match cutoff tagged.tags backups) groups
        ∙ length-plan_groups stored.groups plan.group_ids groups stored_groups in
      let some_members =
        any_members group_rows (is_nil_of_length group_rows plan.group_ids same_length some_ids)
          not_empty in
      let (_, are_known, has_vmids) =
        check_vmids-IsClean probes loc group_rows (check_rows group_rows tagged.report) some_members
          h in
      record {
        groups = groups;
        are_stored = stored_groups;
        backups = backups;
        are_listed = are_listed;
        tags = tagged.tags;
        are_resolved = refl;
        not_empty = not_empty;
        some_members = some_members;
        ids_in_use = _;
        are_known = are_known;
        has_vmids = has_vmids;
      }

  -- Both parts, for the location that is stored.
  abbrev pub IsReady : List (List Row) → Type 0
  IsReady group_rows =
      (loc : Location) × IsSiteReady probes stored plan loc
      × AreMembersReady probes stored cutoff plan loc group_rows

  check_at_report :
      (o : Option Location) (groups : List Group) (s : Report)
      → IsClean (check_at probes stored cutoff o groups s).report
      → IsClean s
  unfolding check_at
  check_at_report none groups s h = h
  check_at_report (some loc) groups s h = ground (arith, site-IsClean loc groups s)

  at_location :
      (loc : Location) (groups : List Group) (s : Report) (o : Option Location)
      → o ≡ some loc
      → has_session probes ≡ true
      → check_at probes stored cutoff o groups s ≡ check_site probes stored cutoff loc groups s
  unfolding check_at
  at_location loc groups s o there pve = rw (there, pve) refl

  start_clean :
      IsClean (check_start probes stored cutoff plan)
      → (is_nil plan.group_ids ≡ false)
        × (plan_groups stored.groups plan.group_ids
            ≡ some (found_groups stored.groups plan.group_ids))
        × ((loc : Location) × (find_location stored.locations (strip plan.location_id) ≡ some loc)
            × (or_false probes.probe_pbs ≡ true)
            × (has_session probes ≡ true))
  unfolding check_start
  start_clean h =
      let o = find_location stored.locations (strip plan.location_id) in
      let ids_s = check_group_ids plan.group_ids no_report in
      let location_s = check_location o ids_s in
      let groups_s = check_groups stored.groups plan.group_ids location_s in
      let (pbs_clean, pve) = check_pve-IsClean probes (check_pbs probes groups_s) h in
      let (groups_clean, pbs) = check_pbs-IsClean probes groups_s pbs_clean in
      let (location_clean, groups) =
        check_groups-IsClean stored.groups plan.group_ids location_s groups_clean in
      let (ids_clean, (loc, there)) = check_location-IsClean o ids_s location_clean in
      let (_, some_ids) = check_group_ids-IsClean plan.group_ids no_report ids_clean in
      (some_ids, groups, (loc, there, pbs, pve))

  pub outcome_clean :
      IsClean (outcome_of probes stored cutoff plan).report
      → IsReady (outcome_of probes stored cutoff plan).group_rows
  unfolding outcome_of
  outcome_clean h =
      let o = find_location stored.locations (strip plan.location_id) in
      let groups = found_groups stored.groups plan.group_ids in
      let s = check_start probes stored cutoff plan in
      let (some_ids, stored_groups, (loc, there, pbs, pve)) =
        start_clean (check_at_report o groups s h) in
      let at_site : check_at probes stored cutoff o groups s
          ≡ check_site probes stored cutoff loc groups s =
        at_location loc groups s o there pve in
      let site_h = subst (λ x. IsClean x.report) at_site h in
      (
        loc,
        record {
          is_stored = there;
          pbs_answers = pbs;
          pve_answers = pve;
          nodes_usable = (site-IsClean loc groups s site_h).1;
        },
        subst (λ x. AreMembersReady probes stored cutoff plan loc x.group_rows) (sym at_site)
            (members_ready loc groups s some_ids stored_groups site_h),
      )

  pub final-IsClean :
      IsClean (final_report probes stored cutoff plan)
      → IsClean (outcome_of probes stored cutoff plan).report
  unfolding final_report check_empty check_sizes fail
  final-IsClean h =
      let o = outcome_of probes stored cutoff plan in
      ground (
        arith,
        size_item-IsClean (summarize_member_sizes probes.estimate_size o.group_rows) o.report,
      )
