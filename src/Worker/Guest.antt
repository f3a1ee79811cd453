-- ===== src/Worker/Guest.antt =====
-- pve_client.py: the steps on a restored guest, its ownership mark (`mark_qemu_managed_by_tool`), its
-- network (`apply_network_isolation`), its start, its guest agent and its host name.
use restore_engine.Common.{
  ℕ, zero, suc, ◌+◌, ◌-◌, ◌/◌, max, String, Bool, false, not, ◌&&◌, ◌||◌, List, [], ◌∷◌, ◌++◌, map,
  Option, none, some, contains, filter, leb, ◌==◌, nat_key, string_key, if◌then◌else◌,
}
use restore_engine.Common.Text.{strip}
use restore_engine.Common.Parse.{lower, has_text, concat, show, split_on, join, rstrip_dots}
use restore_engine.Jobs.{cancel_requested}
use restore_engine.Guests.{GuestConfig, qemu_tags_from_config}
use restore_engine.Worker.{
  Answer, answered, refused, TaskReply, task_text, task_dict, task_other, AgentReply, under_data,
  under_result, names, plain, put_config_of, start_vm, Host, World, done, task_cancelled, timed_out,
  unfinished, M, ◌>>=◌, ◌>>◌, pure, asks, or_raise, send_request, pause,
}
use text.Mathlib.Text.{starts_with}

-- The tags with the marker of the program.
unfoldable pub marked_tags : List String → List String
marked_tags tags =
    if not (contains "restore-engine" tags) && not (contains "restore-engine" (map lower tags))
    then tags ++ "restore-engine" ∷ []
    else tags

-- `job_id or "-"`
abbrev pub or_dash : String → String
or_dash s = if s == "" then "-" else s

abbrev pub marker_of : String → String → String
marker_of job_id plan_run_id =
    concat ("restore-engine:job=" ∷ or_dash job_id ∷ ";run=" ∷ or_dash plan_run_id ∷ [])

-- The description with the marker, an older one of which is replaced.
unfoldable pub marked_description : String → String → String
marked_description marker raw =
    let desc = strip raw in
    if has_text "restore-engine:" desc
    then (let parts = filter (λ p. not (has_text "restore-engine:" p)) (split_on b'\n' desc) in
        strip (join "\n" (filter (λ p. not (p == "")) (parts ++ marker ∷ []))))
    else if desc == ""
    then marker
    else strip (concat (desc ∷ "\n" ∷ marker ∷ []))

abbrev pub Items : Type 0
Items = List (String × String)

-- One device under `unlink`, and under `remap`; none where it stays as it is.
unfoldable pub unlinked : String → Option String
unlinked text =
    if has_text "link_down=1" text
    then none
    else some (concat (text ∷ (if text == "" then "link_down=1" else ",link_down=1") ∷ []))

unfoldable pub remapped : String → String → String
remapped bridge text =
    let kept = filter (λ p. not (p == "") && not (starts_with p "bridge=")) (split_on b',' text) in
    join "," (kept ++ concat ("bridge=" ∷ bridge ∷ []) ∷ [])

-- The loop over the devices, with the new text of each that is changed.
unfoldable pub device_changes : (String → Option String) → Items → Items
device_changes change [] = []
device_changes change ((key, val) ∷ items) =
    let rest = device_changes change items in
    if starts_with key "net"
    then elim (change val) [ none ↦ rest | some v ↦ (key, v) ∷ rest ]
    else rest

abbrev pub has_nets : Items → Bool
has_nets [] = false
has_nets ((key, val) ∷ items) = starts_with key "net" || has_nets items

-- The changes for a mode, or the ValueError that the first device raises.
unfoldable pub isolation_changes : String → String → Items → Answer Items
unfolding device_changes unlinked remapped
isolation_changes mode bridge items =
    if mode == "unlink"
    then answered (device_changes unlinked items)
    else if not (has_nets items)
    then answered []
    else if mode == "remap"
    then (if bridge == ""
        then refused "lab_bridge is required for network remap"
        else answered (device_changes (λ text. some (remapped bridge text)) items))
    else refused (concat ("Unknown network isolation mode: " ∷ mode ∷ []))

-- The UPID of a start, if the reply has one.
unfoldable pub start_upid : TaskReply → Option String
start_upid (task_text upid) = if strip upid == "" then none else some (strip upid)
start_upid (task_dict upid shown) = if upid == "" then none else some upid
start_upid (task_other shown) = none

unfoldable pub unwrap_agent_result : AgentReply → AgentReply
unwrap_agent_result (under_data r) = unwrap_agent_result r
unwrap_agent_result (under_result r) = r
unwrap_agent_result (names a b c) = names a b c
unwrap_agent_result (plain s) = plain s

abbrev pub or_none : String → Option String
or_none s = if strip s == "" then none else some (strip s)

-- A dict has none of the three names where it is only a wrapper.
unfoldable pub host_of : AgentReply → Option String
host_of (names a b c) = or_none (if not (a == "") then a else if not (b == "") then b else c)
host_of (plain s) = or_none s
host_of (under_data r) = none
host_of (under_result r) = none

unfoldable pub hostname_matches_pve_name : String → String → Bool
hostname_matches_pve_name guest_hostname pve_name =
    let guest = rstrip_dots (lower (strip guest_hostname)) in
    let expect = rstrip_dots (lower (strip pve_name)) in
    if guest == "" || expect == ""
    then false
    else guest == expect
      || starts_with guest (concat (expect ∷ "." ∷ []))
      || starts_with expect (concat (guest ∷ "." ∷ []))

module _ {C : Type 0} (host : Host C) (node : String) (vmid : ℕ) where
  unfoldable pub put_items : Items → M C (Unit {0})
  put_items items =
      send_request (put_config_of node vmid items) (host.put_config node vmid items) >>= or_raise

  unfoldable pub qemu_agent_ping : C → Bool
  qemu_agent_ping c = host.ping_get c node vmid || host.ping_post c node vmid

  unfoldable pub get_qemu_guest_hostname : C → Option String
  unfolding unwrap_agent_result host_of
  get_qemu_guest_hostname c = elim (host.host_name c node vmid) [
    | none ↦ none
    | some raw ↦ host_of (unwrap_agent_result raw)
  ]

  unfoldable pub put_changes : Items → M C Items
  put_changes [] = pure []
  put_changes (item ∷ items) = put_items (item ∷ items) >>= λ _. pure (item ∷ items)

  -- The changes that were made.
  unfoldable pub apply_network_isolation : String → String → M C Items
  unfolding isolation_changes put_changes
  apply_network_isolation raw_mode lab_bridge =
      let mode = lower (strip raw_mode) in
      if mode == "" || mode == "none" || mode == "off" then pure [] else (do
        items ← asks (λ w. host.config_items w.cluster node vmid) >>= or_raise
        changes ← or_raise (isolation_changes mode (strip lab_bridge) items)
        put_changes changes)

  -- The message of the exception is not kept.
  unfoldable pub config_of : World C → Answer GuestConfig
  config_of w = elim (host.guests.qemu_config w.cluster node vmid) [
    | none ↦ refused "the config of the guest cannot be read"
    | some cfg ↦ answered cfg
  ]

  -- The config that the stamp sends.
  abbrev pub stamped_items : String → String → GuestConfig → Items
  stamped_items job_id plan_run_id cfg =
      ("tags", join ";" (marked_tags (qemu_tags_from_config cfg)))
      ∷ ("description", marked_description (marker_of job_id plan_run_id) cfg.description)
      ∷ []

  unfoldable pub mark_qemu_managed_by_tool : String → String → M C (Unit {0})
  unfolding config_of
  mark_qemu_managed_by_tool job_id plan_run_id = do
    cfg ← asks config_of >>= or_raise
    put_items (stamped_items job_id plan_run_id cfg)

  unfoldable pub start_qemu_vm : M C (Option String)
  unfolding start_upid
  start_qemu_vm = do
    answer ← send_request (start_vm node vmid) (host.post_start node vmid)
    reply ← or_raise answer
    pure (start_upid reply)

  no_agent : ℕ → String
  no_agent timeout = concat (
      "QEMU guest agent did not respond within "
      ∷ show (timeout / 1000)
      ∷ "s (VMID "
      ∷ show vmid
      ∷ " on "
      ∷ node
      ∷ ")"
      ∷ [])

  -- One round of the `while` loop: whether to cancel, the ping, the deadline.
  unfoldable pub agent_round : M C ℕ → String → ℕ → ℕ → ℕ → M C ℕ
  unfolding qemu_agent_ping no_agent
  agent_round again job_id timeout deadline started w =
      if cancel_requested w.redis job_id
      then (w, task_cancelled)
      else if qemu_agent_ping w.cluster
      then (w, done (host.clock w.cluster - started))
      else if leb deadline (host.clock w.cluster)
      then (w, timed_out (no_agent timeout))
      else again w

  unfoldable pub poll_agent : ℕ → String → ℕ → ℕ → ℕ → ℕ → M C ℕ
  unfolding agent_round
  poll_agent zero job_id timeout poll deadline started w = (w, unfinished)
  poll_agent (suc rounds) job_id timeout poll deadline started w =
      agent_round
        (pause host (max 500 poll) >> poll_agent rounds job_id timeout poll deadline started) job_id
        timeout deadline started w

  -- The milliseconds that were waited.
  unfoldable pub wait_for_qemu_agent : ℕ → String → ℕ → ℕ → M C ℕ
  unfolding poll_agent
  wait_for_qemu_agent rounds job_id timeout poll w =
      let now = host.clock w.cluster in
      poll_agent rounds job_id timeout poll (now + max 1000 timeout) now w
