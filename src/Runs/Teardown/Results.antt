-- ===== src/Runs/Teardown/Results.antt =====
-- What a teardown reports, and what it reports when the cluster cannot be listed.
use restore_engine.Common.{
  ℕ, ◌≡◌, ◌≢◌, refl, sym, ◌∙◌, String, Bool, true, List, [], ◌∷◌, none, some, map, all, filter, All,
  lookup, lookup-put, ◌==◌, nat_key, string_key, eq_iff, arith, inl, inr, Bool-cases, by_test,
}
use restore_engine.Common.Text.{strip}
use restore_engine.Runs.{Target, Entry, Run, Plans, save_plan_run}
use restore_engine.Runs.Tick.{is_nil}
use restore_engine.Guests.{Proxmox, find_row, cluster_vm_resources, find_guest_resource}
use restore_engine.Guests.Destroy.{Session, Outcome, destroy_found, destroy_owned_qemu_vm}
use restore_engine.Runs.Teardown.{
  torn_down, already_completed, entry_of, provenance_vmids, collect_plan_run_targets,
  teardown_status, destroy_on, teardown_one, teardown_all, after_teardown, teardown_plan_run,
}

entry_of-vmid : (vmid : ℕ) (node : String) (o : Outcome) → (entry_of vmid node o).vmid ≡ vmid
entry_of-vmid vmid node o = ground arith

status-completed :
    (results : List Entry) → (teardown_status results == "completed") ≡ all (λ e. e.ok) results
unfolding teardown_status
status-completed results = elim (Bool-cases (all (λ e. e.ok) results)) [
  | inl all_ok ↦ rw all_ok refl
  | inr some_bad ↦ elim (Bool-cases (is_nil (filter (λ e. e.ok) results))) [
    | inl none_ok ↦ rw (some_bad, none_ok) refl
    | inr some_ok ↦ rw (some_bad, some_ok) refl
  ]
]

teardown_status_ok :
    (results : List Entry) → all (λ e. e.ok) results ≡ true → teardown_status results ≡ "completed"
unfolding teardown_status
teardown_status_ok results h = rw h refl

module _ {C : Type 0} (api : Proxmox C) where
  destroy_on-vmid :
      (provenance : List ℕ) (vmid : ℕ) (node : String) (s : Session C)
      → (destroy_on api provenance vmid node s).1.vmid ≡ vmid
  unfolding destroy_on
  destroy_on-vmid provenance vmid node s = elim (Bool-cases (node == "")) [
    | inl blank ↦ rw blank refl
    | inr named ↦ rw named (entry_of-vmid vmid node _)
  ]

  teardown_all-vmids :
      (provenance : List ℕ) (ts : List Target) (s : Session C)
      → map (λ e. e.vmid) (teardown_all api provenance ts s).1 ≡ map (λ t. t.vmid) ts
  unfolding teardown_all teardown_one
  teardown_all-vmids provenance [] s = refl
  teardown_all-vmids provenance (t ∷ ts) s =
      rw (destroy_on-vmid, teardown_all-vmids provenance ts) refl

  -- A teardown that is done ends as `after_teardown` says.
  pub torn_down_lem :
      (now : String) (connects : Bool) (run run' : Run) (p p' : Plans) (s s' : Session C)
      → teardown_plan_run api now connects run p s ≡ torn_down run' p' s'
      → after_teardown api now run p (
          teardown_all api
            (provenance_vmids p.redis run.job_ids_by_group)
            (collect_plan_run_targets p.redis run)
            s)
        ≡ torn_down run' p' s'
  unfolding teardown_plan_run
  torn_down_lem now connects run run' p p' s s' e = ground (arith, e)

  -- A teardown that is done has one line for each target, with its guest, in the order of the
  -- targets; its status is "completed" exactly if all lines are ok; and the run with both is stored.
  pub teardown_results_exact :
      (now : String) (connects : Bool) (run run' : Run) (p p' : Plans) (s s' : Session C)
      → teardown_plan_run api now connects run p s ≡ torn_down run' p' s'
      → (map (λ e. e.vmid) run'.teardown_results
          ≡ map (λ t. t.vmid) (collect_plan_run_targets p.redis run))
        × ((run'.teardown_status == "completed") ≡ all (λ e. e.ok) run'.teardown_results)
        × (lookup run.id p'.runs ≡ some (record run' { updated_at = now }))
  unfolding after_teardown save_plan_run
  teardown_results_exact now connects run run' p p' s s' e =
      let provenance = provenance_vmids p.redis run.job_ids_by_group in
      let targets = collect_plan_run_targets p.redis run in
      let results = (teardown_all api provenance targets s).1 in
      let made : Run = record run {
        teardown_status = teardown_status results;
        teardown_results = results;
      } in
      let done : torn_down made (save_plan_run now made p) (teardown_all api provenance targets s).0
          ≡ torn_down run' p' s' =
        torn_down_lem now connects run run' p p' s s' e in
      let same_run : made ≡ run' = cc in
      let same_plans : save_plan_run now made p ≡ p' = cc in
      let self : (run.id == run.id) ≡ true = (eq_iff run.id run.id).1 refl in
      rw (← same_run, ← same_plans)
        (
          teardown_all-vmids provenance targets s,
          status-completed results,
          rw (lookup-put, self) refl,
        )

  -- The requests for a list of guests that is not answered.
  module _ (provenance : List ℕ) (s : Session C)
      (unlisted : api.vm_resources s.cluster ≡ none) where
    destroy_on-unlisted :
        (vmid : ℕ) (node : String)
        → node ≢ ""
        → (destroy_on api provenance vmid node s).0 ≡ s
          × ((destroy_on api provenance vmid node s).1.ok ≡ true)
    unfolding destroy_on destroy_owned_qemu_vm destroy_found find_guest_resource
        cluster_vm_resources find_row
    destroy_on-unlisted vmid node named = elim (Bool-cases (node == "")) [
      | inl blank ↦ absurd (named ((eq_iff node "").0 blank))
      | inr set ↦ rw (set, unlisted) (refl, refl)
    ]

    teardown_all-unlisted :
        (ts : List Target)
        → All (λ t. strip t.node ≢ "") ts
        → (teardown_all api provenance ts s).0 ≡ s
          × (all (λ e. e.ok) (teardown_all api provenance ts s).1 ≡ true)
    unfolding teardown_all teardown_one
    teardown_all-unlisted [] named = (refl, refl)
    teardown_all-unlisted (t ∷ ts) named = elim (Bool-cases (strip t.node == "")) [
      | inl blank ↦ absurd (named.0 ((eq_iff (strip t.node) "").0 blank))
      | inr set ↦
          let one = destroy_on-unlisted t.vmid (strip t.node) named.0 in
          let rest = teardown_all-unlisted ts named.1 in rw (set, one.0, one.1) rest
    ]

  teardown_skipped :
      (run : Run)
      → run.teardown_status ≡ "completed"
      → (now : String) (connects : Bool) (p : Plans) (s : Session C)
      → teardown_plan_run api now connects run p s ≡ already_completed run
  unfolding teardown_plan_run
  teardown_skipped run completed now connects p s =
      let same : (run.teardown_status == "completed") ≡ true =
        (eq_iff run.teardown_status "completed").1 completed in
      by_test (λ x. x ≡ already_completed run) (run.teardown_status == "completed") (λ _. refl)
        (λ not_so. absurd (ground arith))

  -- If the cluster does not answer the request for its guests when a finished run is torn down, and
  -- the node of each target is known, then the teardown sends nothing, so no guest is removed, and the
  -- run is stored with the status "completed" all the same; and each later teardown of the stored run,
  -- in whatever state and with whatever cluster, is skipped.
  pub teardown_unlisted :
      (now : String) (run run' : Run) (p p' : Plans) (s s' : Session C)
      → api.vm_resources s.cluster ≡ none
      → All (λ t. strip t.node ≢ "") (collect_plan_run_targets p.redis run)
      → teardown_plan_run api now true run p s ≡ torn_down run' p' s'
      → (later : String) (connects : Bool) (q : Plans) (t : Session C)
      → let kept = record run' { updated_at = now } in
        (s' ≡ s)
        × (lookup run.id p'.runs ≡ some kept)
        × (kept.teardown_status ≡ "completed")
        × (teardown_plan_run api later connects kept q t ≡ already_completed kept)
  unfolding after_teardown
  teardown_unlisted now run run' p p' s s' unlisted named e later connects q t =
      let provenance = provenance_vmids p.redis run.job_ids_by_group in
      let targets = collect_plan_run_targets p.redis run in
      let all_ok = teardown_all-unlisted provenance s unlisted targets named in
      let done = torn_down_lem now true run run' p p' s s' e in
      let same : (teardown_all api provenance targets s).0 ≡ s' = cc in
      let results = (teardown_all api provenance targets s).1 in
      let status : teardown_status results ≡ run'.teardown_status = cc in
      let completed : run'.teardown_status ≡ "completed" =
        sym status ∙ teardown_status_ok results all_ok.1 in
      (
        sym same ∙ all_ok.0,
        (teardown_results_exact now true run run' p p' s s' e).2,
        completed,
        teardown_skipped (record run' { updated_at = now }) completed later connects q t,
      )
