-- ===== src/Enqueue/Write.antt =====
-- jobs.py: the jobs that `enqueue_restores` writes to Redis, one for each row. `uuid i` is what the
-- i-th `uuid.uuid4()` of the call returns.
use restore_engine.Common.{
  ℕ, ◌+◌, String, Bool, true, false, ◌||◌, List, [], ◌∷◌, ◌++◌, ltb, ◌==◌, string_key,
  if◌then◌else◌,
}
use restore_engine.Common.Text.{strip}
use restore_engine.Common.Parse.{lower, show}
use restore_engine.Jobs.{Hash, Redis, hset}
use restore_engine.Runs.{Row, Settings, Order}
use restore_engine.Enqueue.{Mode, normal, dr, Checked, good, bad, and_then, archive_path, uneven}

abbrev flag : Bool → String
flag b = if b then "1" else "0"

abbrev mode_text : Mode → String
mode_text normal = "normal"
mode_text dr = "dr"

-- `power_on`, which a live restore and a wait for the guest agent imply.
abbrev pub powers_on : Settings → Bool
powers_on st = (st.power_on || st.live_restore) || ltb 0 st.qga_wait_sec

abbrev pub net_mode : String → String
net_mode network_mode =
    let mode = lower (strip network_mode) in
    if mode == "unlink" || mode == "remap" then mode else "none"

-- The flags `unique` and `force` of the restore.
abbrev pub unique_flag : Mode → Bool
unique_flag normal = true
unique_flag dr = false

abbrev pub force_flag : Mode → Bool → Bool
force_flag normal overwrite = true
force_flag dr overwrite = overwrite

-- What is chosen for a row.
pub record Choice : Type 0 where
  pub vmid : ℕ
  pub node : String
  pub storage : String

unfoldable pub job_fields : String → Mode → Order → Row → Choice → String → String → Hash
job_fields now mode o row choice archive job_id =
    ("job_id", job_id)
    ∷ ("state", "PENDING")
    ∷ ("backup_id", row.backup_id)
    ∷ ("vm_name", row.name)
    ∷ ("source_vmid", show row.vmid)
    ∷ ("source_label", row.source_label)
    ∷ ("proxmox_vmid", show choice.vmid)
    ∷ ("proxmox_node", choice.node)
    ∷ ("proxmox_storage", choice.storage)
    ∷ ("live_restore", flag o.settings.live_restore)
    ∷ ("powered_off", if powers_on o.settings then "0" else "1")
    ∷ ("power_on", flag (powers_on o.settings))
    ∷ ("qga_wait_sec", show o.settings.qga_wait_sec)
    ∷ ("qga_ok", "")
    ∷ ("qga_waited_sec", "")
    ∷ ("network_mode", net_mode o.settings.network_mode)
    ∷ ("lab_bridge", strip o.settings.lab_bridge)
    ∷ ("overwrite", flag o.settings.overwrite)
    ∷ ("http_check_url", strip o.settings.http_check_url)
    ∷ ("http_check_ok", "")
    ∷ ("bwlimit", show o.settings.bwlimit)
    ∷ ("restore_mode", mode_text mode)
    ∷ ("unique", flag (unique_flag mode))
    ∷ ("force", flag (force_flag mode o.settings.overwrite))
    ∷ ("archive", archive)
    ∷ ("backup_size_bytes", show row.size_bytes)
    ∷ ("progress", "0")
    ∷ ("error", "")
    ∷ ("created_at", now)
    ∷ ("updated_at", now)
    ∷ ("plan_run_id", o.plan_run_id)
    ∷ ("plan_group_index", show o.plan_group_index)
    ∷ []

-- HSET of the job, then RPUSH of its id.
unfoldable pub put_job : String → Hash → Redis → Redis
unfolding hset
put_job job_id fields r =
    let r' = hset job_id fields r in record r' { queue = r'.queue ++ job_id ∷ [] }

-- The loop over the rows. What it wrote stays when `archive_path` raises.
module _ (now : String) (mode : Mode) (o : Order) (uuid : ℕ → String) where
  unfoldable pub write_jobs : ℕ → List Row → List Choice → Redis → Redis × Checked (List String)
  unfolding put_job
  write_jobs i [] [] r = (r, good [])
  write_jobs i [] (c ∷ cs) r = (r, bad uneven)
  write_jobs i (row ∷ rows) [] r = (r, bad uneven)
  write_jobs i (row ∷ rows) (c ∷ cs) r = elim (archive_path row.pve_storage row.voltail) [
    | good archive ↦
        let written =
          write_jobs (i + 1) rows cs
            (put_job (uuid i) (job_fields now mode o row c archive (uuid i)) r) in
        (written.0, and_then written.1 λ ids. good (uuid i ∷ ids))
    | bad e ↦ (r, bad e)
  ]
