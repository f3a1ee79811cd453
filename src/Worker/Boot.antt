-- ===== src/Worker/Boot.antt =====
-- worker.py: the stages of `process_job` behind the ownership mark, network, power and checks, and the
-- whole.
use restore_engine.Common.{
  ℕ, max, min, String, Bool, true, false, not, ◌&&◌, ◌||◌, [], ◌∷◌, map, Option, none, some, lookup,
  ltb, leb, ◌==◌, nat_key, string_key, if◌then◌else◌, ◌*◌,
}
use restore_engine.Common.Text.{strip}
use restore_engine.Common.Parse.{lower, concat, show, join}
use restore_engine.States.{completed}
use restore_engine.Jobs.{Hash, text_or, is_text, hgetall, cancel_requested}
use restore_engine.Worker.{
  Answer, answered, refused, stop_vm, Host, World, Result, done, task_cancelled, timed_out, error,
  unfinished, M, ◌>>=◌, ◌>>◌, pure, raise, asks, or_raise, when_so, send_request, write, say,
  move_to, cancel,
}
use restore_engine.Worker.Task.{wait_for_task}
use restore_engine.Worker.Guest.{
  Items, apply_network_isolation, start_qemu_vm, wait_for_qemu_agent, get_qemu_guest_hostname,
  hostname_matches_pve_name,
}
use restore_engine.Worker.Job.{
  JobOrder, read_order, number_or_0, JobEnding, absent, stopped, restored, Config, tenths,
  after_wait, info, prefixed, begin_restore, polling, fresh_ticks, on_cancel, stamp,
}

-- `power_on` and `qga_wait_sec` as the job has them in the end.
pub record Power : Type 0 where
  pub power_on : Bool
  pub qga_wait_sec : ℕ

unfoldable pub boot_power : JobOrder → Hash → Power
boot_power o d =
    let qga = number_or_0 d "qga_wait_sec" in
    record {
      power_on = is_text (lookup "power_on" d) "1" || o.live_restore || ltb 0 qga;
      qga_wait_sec = qga;
    }

abbrev pub isolates : String → Bool
isolates mode = mode == "unlink" || mode == "remap"

abbrev pub net_mode_of : Hash → String
net_mode_of d = lower (strip (text_or (lookup "network_mode" d) "none"))

abbrev pub lab_bridge_of : Hash → String
lab_bridge_of d = strip (text_or (lookup "lab_bridge" d) "")

-- The name in a guest's config, from what its request answers.
abbrev pub name_in : Items → String
name_in items = strip (text_or (lookup "name" items) "")

abbrev pub or_long_dash : String → String
or_long_dash s = if s == "" then "—" else s

abbrev pub is_empty : Hash → Bool
is_empty [] = true
is_empty (kv ∷ h) = false

-- The keys of the changes; `sorted` only matters to the log.
keys_text : Items → String
keys_text [] = "no net devices"
keys_text (i ∷ items) = join ", " (map (λ kv. kv.0) (i ∷ items))

-- The error of a check whose status code is 400 or more, and what the check raises itself.
unfoldable pub http_outcome : Answer ℕ → Answer ℕ
http_outcome (refused msg) = refused msg
http_outcome (answered code) =
    if leb 400 code
    then refused (concat ("HTTP check returned " ∷ show code ∷ []))
    else answered code

-- A TimeoutError is raised again after a write.
unfoldable pub on_timeout :
    {C A : Type 0} → M C (Unit {0}) → World C × Result A → World C × Result A
on_timeout write_it (w, done a) = (w, done a)
on_timeout write_it (w, task_cancelled) = (w, task_cancelled)
on_timeout write_it (w, timed_out msg) = ((write_it w).0, timed_out msg)
on_timeout write_it (w, error msg) = (w, error msg)
on_timeout write_it (w, unfinished) = (w, unfinished)

module _ {C : Type 0} (host : Host C) (id : String) where
  unfoldable pub isolate_as : JobOrder → String → String → M C (Unit {0})
  unfolding keys_text
  isolate_as o mode bridge = when_so (isolates mode) (do
    info host id (
        concat (
          "Applying network isolation mode="
          ∷ mode
          ∷ (if bridge == "" then "" else concat (" bridge=" ∷ bridge ∷ []))
          ∷ []))
    changed ← λ w.
        prefixed (concat ("Network isolation failed for VMID " ∷ show o.vmid ∷ ": " ∷ []))
          (apply_network_isolation host o.node o.vmid mode bridge w)
    info host id (concat ("Network isolation updated: " ∷ keys_text changed ∷ [])))

  unfoldable pub isolate_network : JobOrder → Hash → M C (Unit {0})
  unfolding isolate_as
  isolate_network o d = isolate_as o (net_mode_of d) (lab_bridge_of d)

  -- The fields for a host name that is unknown, that matches, and that does not.
  unfoldable pub hostname_result : String → Option String → M C (Unit {0})
  hostname_result pve_name none = do
    write host id (
        ("pve_name", pve_name)
        ∷ ("guest_hostname", "")
        ∷ ("hostname_match", "")
        ∷ ("hostname_warning", "")
        ∷ [])
    info host id (
        concat ("Guest hostname unavailable via QGA (PVE name=" ∷ or_long_dash pve_name ∷ ")" ∷ []))
  hostname_result pve_name (some guest_host) =
      let matches = not (pve_name == "") && hostname_matches_pve_name guest_host pve_name in
      let warning = concat (
        "Guest hostname '"
        ∷ guest_host
        ∷ "' does not match PVE name '"
        ∷ or_long_dash pve_name
        ∷ "'"
        ∷ []) in
      write host id (
        ("pve_name", pve_name)
        ∷ ("guest_hostname", guest_host)
        ∷ ("hostname_match", if matches then "1" else "0")
        ∷ ("hostname_warning", if matches then "" else warning)
        ∷ [])
      >> (if matches
          then info host id (
              concat
                ("Guest hostname '" ∷ guest_host ∷ "' matches PVE name '" ∷ pve_name ∷ "'" ∷ []))
          else say host id "WARN" "RESTORING" warning)

  -- The name in the guest's config, or none with a warning.
  unfoldable pub pve_name_of : JobOrder → Answer Items → M C String
  pve_name_of o (answered items) = pure (name_in items)
  pve_name_of o (refused msg) =
      say host id "WARN" "RESTORING"
        (concat ("Could not read PVE name for VMID " ∷ show o.vmid ∷ ": " ∷ msg ∷ []))
      >> pure ""

  unfoldable pub check_guest_hostname : JobOrder → M C (Unit {0})
  unfolding hostname_result pve_name_of
  check_guest_hostname o = do
    answer ← asks (λ w. host.config_items w.cluster o.node o.vmid)
    pve_name ← pve_name_of o answer
    guest_host ← asks (λ w. get_qemu_guest_hostname host o.node o.vmid w.cluster)
    hostname_result pve_name guest_host

  unfoldable pub http_result : String → Answer ℕ → M C (Unit {0})
  http_result url (answered code) = do
    write host id (("http_check_ok", "1") ∷ [])
    info host id (concat ("HTTP check OK (" ∷ show code ∷ ")" ∷ []))
  http_result url (refused msg) = do
    write host id (("http_check_ok", "0") ∷ [])
    raise (concat ("HTTP check failed: " ∷ msg ∷ []))

  unfoldable pub http_check : Hash → M C (Unit {0})
  unfolding http_outcome http_result
  http_check d =
      let url = strip (text_or (lookup "http_check_url" d) "") in
      when_so (not (url == "")) (do
        info host id (concat ("HTTP check " ∷ url ∷ []))
        answer ← asks (λ w. host.http_get url w.cluster)
        http_result url (http_outcome answer))

  unfoldable pub complete_job : JobOrder → M C JobEnding
  complete_job o = do
    move_to host id completed (("progress", "100") ∷ ("eta_sec", "0") ∷ ("speed_bps", "") ∷ [])
    say host id "INFO" "COMPLETED" (concat ("Restore completed for VMID " ∷ show o.vmid ∷ []))
    pure restored

  -- The guest is to be off.
  unfoldable pub power_off : JobOrder → M C (Unit {0})
  power_off o = do
    send_request (stop_vm o.node o.vmid) (λ c. (host.guests.stop o.node o.vmid c, tt))
    info host id (concat ("Ensured VMID " ∷ show o.vmid ∷ " is powered off" ∷ []))

  module _ (config : Config) (rounds : ℕ) (o : JobOrder) (d : Hash) where
    -- The host name and the HTTP check, and the end of the job.
    unfoldable pub checks : M C JobEnding
    checks = do check_guest_hostname o; http_check d; complete_job o

    unfoldable pub agent_timeout : ℕ → M C (Unit {0})
    agent_timeout qga = write host id (("qga_ok", "0") ∷ ("qga_waited_sec", show qga) ∷ [])

    unfoldable pub agent_ok : ℕ → M C (Unit {0})
    agent_ok waited = do
      write host id (("qga_ok", "1") ∷ ("qga_waited_sec", tenths waited) ∷ [])
      info host id (concat ("QEMU guest agent OK after " ∷ tenths waited ∷ "s" ∷ []))

    -- The wait for the guest agent, if the job has one.
    unfoldable pub await_agent : ℕ → M C JobEnding
    unfolding agent_timeout agent_ok
    await_agent qga =
        if ltb 0 qga
        then (do
          info host id (
              concat (
                "Waiting up to " ∷ show qga ∷ "s for QEMU guest agent on VMID " ∷ show o.vmid ∷ []))
          λ w.
              after_wait
                (on_timeout (agent_timeout qga) (
                  wait_for_qemu_agent host o.node o.vmid rounds id (1000 * qga)
                    (min 5000 (max 1000 config.task_poll_ms)) w))
                (on_cancel host id "QGA wait cancelled") (λ waited. agent_ok waited >> checks))
        else checks

    -- `start_upid` is waited for, if there is one.
    unfoldable pub power_on_result : ℕ → Option String → M C JobEnding
    unfolding await_agent
    power_on_result qga none w = (write host id (("powered_off", "0") ∷ []) >> await_agent qga) w
    power_on_result qga (some upid) w =
        after_wait (wait_for_task host (polling id config o) false upid rounds w)
          (on_cancel host id "VM start cancelled")
          (λ _. write host id (("powered_off", "0") ∷ []) >> await_agent qga)

    unfoldable pub start_guest : ℕ → M C JobEnding
    unfolding power_on_result
    start_guest qga = do
      info host id (concat ("Starting VMID " ∷ show o.vmid ∷ " after restore" ∷ []))
      upid ← λ w.
          prefixed (concat ("Failed to start VMID " ∷ show o.vmid ∷ ": " ∷ []))
            (start_qemu_vm host o.node o.vmid w)
      power_on_result qga upid

    -- A live restore has started the guest already.
    unfoldable pub boot_as : Bool → Bool → ℕ → M C JobEnding
    unfolding start_guest
    boot_as power_on live_restore qga =
        if not power_on
        then power_off o >> complete_job o
        else if live_restore
        then await_agent qga
        else start_guest qga

    -- The power stage, which ends the job.
    unfoldable pub boot : M C JobEnding
    unfolding boot_as
    boot = let p = boot_power o d in boot_as p.power_on o.live_restore p.qga_wait_sec

    -- What follows the restore task.
    unfoldable pub after_restore : M C JobEnding
    unfolding boot isolate_network
    after_restore = do
      stamp host id 3 1 "" o (text_or (lookup "plan_run_id" d) "")
      isolate_network o d
      boot

    unfoldable pub restore_guest : M C JobEnding
    unfolding after_restore
    restore_guest = do
      upid ← begin_restore host id o
      fresh_ticks host id
      λ w.
          after_wait (wait_for_task host (polling id config o) true upid rounds w)
            (on_cancel host id (concat ("PVE restore task " ∷ upid ∷ " stopped" ∷ [])))
            (λ _. after_restore)

  unfoldable pub process_found : Config → ℕ → Hash → M C JobEnding
  unfolding restore_guest
  process_found config rounds d w =
      if cancel_requested w.redis id
      then (cancel host id >> pure stopped) w
      else (or_raise (read_order id d) >>= λ o. restore_guest config rounds o d) w

  unfoldable pub process_job : Config → ℕ → M C JobEnding
  unfolding process_found
  process_job config rounds w =
      let d = hgetall w.redis id in
      if is_empty d then (w, done absent) else process_found config rounds d w
