-- ===== src/Assurance.antt =====
-- plans.py: `aggregate_plan_run` and `evaluate_assurance_policy`, the verdict on a finished drill.
-- A job summary is a dict of texts; the three numbers in it are kept as their decimal text, and the
-- Booleans as "True" and "False"; a text that is no number, which `int` would raise on, is kept too.
-- `rto` is what `wall_clock_rto_sec` says of the run.
pub mod Policy
pub mod Finalize
pub mod Steps
pub mod Verdict
pub mod Final
pub mod Unreachable
pub mod Once
pub mod Ended
use restore_engine.Common.{
  ℕ, zero, suc, ◌+◌, String, Bool, true, false, not, ◌&&◌, ◌||◌, List, [], ◌∷◌, ◌++◌, Option, none,
  some, map, all, lookup, length, ltb, leb, ◌==◌, nat_key, string_key, if◌then◌else◌,
}
use restore_engine.Common.Text.{strip}
use restore_engine.States.{
  PlanRunStatus, run_completed, PlanAssurance, unknown, assured, assurance_failed,
}
use restore_engine.Jobs.{Hash, Redis, text_or, is_text, hgetall}
use restore_engine.Runs.{
  Detail, disabled, not_a_drill, bad_status, bad_teardown, no_jobs_qga, qga_failed, no_jobs_http,
  no_http_url, http_failed, rto_exceeded, within_policy, Run, Plan,
}
use restore_engine.Runs.Tick.{is_nil}

-- `data.get(field, default)`
abbrev pub field_or : Hash → String → String → String
field_or h field d = elim (lookup field h) [ none ↦ d | some s ↦ s ]

abbrev flag : Bool → String
flag b = if b then "True" else "False"

-- The summary of one job. `group_index` is the index as text.
unfoldable pub job_summary : Hash → String → String → Hash
job_summary h job_id group_index =
    ("job_id", job_id)
    ∷ ("group_index", group_index)
    ∷ ("state", field_or h "state" "")
    ∷ ("vm_name", field_or h "vm_name" "")
    ∷ ("source_vmid", text_or (lookup "source_vmid" h) "0")
    ∷ ("proxmox_vmid", text_or (lookup "proxmox_vmid" h) "0")
    ∷ ("progress", text_or (lookup "progress" h) "0")
    ∷ ("error", field_or h "error" "")
    ∷ ("archive", field_or h "archive" "")
    ∷ ("backup_id", field_or h "backup_id" "")
    ∷ ("power_on", flag (field_or h "power_on" "0" == "1"))
    ∷ ("qga_ok", field_or h "qga_ok" "")
    ∷ ("qga_waited_sec", field_or h "qga_waited_sec" "")
    ∷ ("restore_started_at", field_or h "restore_started_at" "")
    ∷ ("updated_at", field_or h "updated_at" "")
    ∷ []

-- The summaries of a group's jobs, then of all groups. `index_text` is `str` of an index.
unfoldable pub group_summaries : Redis → String → List String → List Hash
group_summaries r group_index job_ids =
    map (λ id. job_summary (hgetall r id) id group_index) job_ids

unfoldable pub summaries : (ℕ → String) → Redis → ℕ → List (List String) → List Hash
unfolding group_summaries
summaries index_text r i [] = []
summaries index_text r i (ids ∷ groups) =
    group_summaries r (index_text i) ids ++ summaries index_text r (i + 1) groups

abbrev pub is_completed : PlanRunStatus → Bool
is_completed run_completed = true
is_completed _ = false

-- The first job that fails its guest-agent check.
pub check_qga : List Hash → Option Detail
check_qga [] = none
check_qga (j ∷ jobs) = if is_text (lookup "qga_ok" j) "1" then check_qga jobs else some qga_failed

-- The first job with no URL, or with a failed HTTP check.
pub check_http : List Hash → Option Detail
check_http [] = none
check_http (j ∷ jobs) =
    if strip (text_or (lookup "http_check_url" j) "") == ""
    then some no_http_url
    else if is_text (lookup "http_check_ok" j) "1"
    then check_http jobs
    else some http_failed

abbrev pub if_required : Bool → List Hash → Detail → Option Detail → Option Detail
if_required required jobs no_jobs check =
    if required then (if is_nil jobs then some no_jobs else check) else none

-- `rto is None or rto > max_rto`
abbrev pub exceeds : ℕ → Option ℕ → Bool
exceeds limit none = true
exceeds limit (some rto) = ltb limit rto

-- `j.get("proxmox_vmid") or j.get("job_id")`, where the number 0 is not taken.
abbrev named_vmid : String → String → String
named_vmid vmid job_id = if vmid == "0" then job_id else vmid

-- The warning of a job, if it has one; the text of a mismatch names its VMID.
abbrev pub warnings : List Hash → List String
warnings [] = []
warnings (j ∷ jobs) =
    let rest = warnings jobs in
    let warn = strip (text_or (lookup "hostname_warning" j) "") in
    if not (warn == "")
    then warn ∷ rest
    else if is_text (lookup "hostname_match" j) "0"
    then named_vmid (text_or (lookup "proxmox_vmid" j) "0") (field_or j "job_id" "") ∷ rest
    else rest

abbrev fail_with : Option Detail → PlanAssurance × Detail → PlanAssurance × Detail
fail_with none verdict = verdict
fail_with (some d) verdict = (assurance_failed, d)

unfoldable pub evaluate_assurance_policy :
    Plan → Run → List Hash → Option ℕ → PlanAssurance × Detail
unfolding check_qga check_http
evaluate_assurance_policy plan run jobs rto =
    if not plan.assurance_enabled
    then (unknown, disabled)
    else if not run.drill
    then (unknown, not_a_drill)
    else if not (is_completed run.status)
    then (assurance_failed, bad_status)
    else if run.auto_teardown
        && not (run.teardown_status == "")
        && not (run.teardown_status == "completed")
    then (assurance_failed, bad_teardown)
    else fail_with (if_required plan.assurance_require_qga jobs no_jobs_qga (check_qga jobs)) (
        fail_with (if_required plan.assurance_require_http jobs no_jobs_http (check_http jobs)) (
          if ltb 0 plan.assurance_max_rto_sec && exceeds plan.assurance_max_rto_sec rto
          then (assurance_failed, rto_exceeded)
          else (assured, within_policy (warnings jobs))))
