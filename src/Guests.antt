-- ===== src/Guests.antt =====
-- pve_client.py: the guests of a cluster, and the mark by which the program knows its own.
-- A cluster is a state of a type `C` with the requests of `Proxmox` on it, which stand for the HTTP
-- API: a read depends on the state, a write may change it in any way.
pub mod Destroy
pub mod Owned
use restore_engine.Common.{
  ℕ, zero, suc, ◌+◌, String, Bool, true, false, not, ◌&&◌, ◌||◌, List, [], ◌∷◌, Option, none, some,
  map, contains, leb, ◌==◌, nat_key, string_key, if◌then◌else◌,
}
use restore_engine.Common.Text.{strip}
use restore_engine.Common.Parse.{lower, has_text, split_tags}
use Prim.Native.Char.{code}
use Prim.Native.String as Str
use text.Mathlib.Text.{starts_with}

-- A row of `cluster.resources`. `vmid` is none where `int(row.get("vmid"))` raises.
pub record Resource : Type 0 where
  pub kind : String  -- `str(row.get("type") or "")`
  pub node : String
  pub vmid : Option ℕ

pub data Tags : Type 0 where
  no_tags : Tags
  tag_list : List String → Tags
  tag_text : String → Tags

pub record GuestConfig : Type 0 where
  pub tags : Tags
  pub description : String

pub data DeleteReply : Type 0 where
  deleted : DeleteReply
  type_error : String → DeleteReply  -- TypeError: an argument that the client does not know
  rejected : String → DeleteReply  -- another exception, with its message

-- The requests. `vm_resources` is none where the request raises or the reply holds no list, and
-- `qemu_config` is none where it raises. `delete` has the flags `purge` and
-- `destroy-unreferenced-disks`.
pub record Proxmox (C : Type 0) : Type 0 where
  pub vm_resources : C → Option (List Resource)
  pub qemu_config : C → String → ℕ → Option GuestConfig
  pub stop : String → ℕ → C → C
  pub delete : Bool → Bool → String → ℕ → C → C × DeleteReply

abbrev pub is_word : ℕ → Bool
is_word c = (leb 48 c && leb c 57) || (leb 65 c && leb c 90) || (leb 97 c && leb c 122) || c == 95

-- `[A-Za-z0-9_]+:$`, of which `seen` says whether a character has come.
key_tail : Bool → String → Bool
key_tail seen Str.[] = false
key_tail seen (Str.◌∷◌ c Str.[]) = seen && (code c == 58)
key_tail seen (Str.◌∷◌ c (Str.◌∷◌ d s)) = is_word (code c) && key_tail true (Str.◌∷◌ d s)

-- `_TAG_LOOKS_LIKE_CONFIG_KEY_RE`
pub looks_like_config_key : String → Bool
unfolding key_tail
looks_like_config_key Str.[] = false
looks_like_config_key (Str.◌∷◌ c s) =
    ((leb 65 (code c) && leb (code c) 90) || (leb 97 (code c) && leb (code c) 122))
    && key_tail false s

abbrev is_hex : ℕ → Bool
is_hex c = (leb 48 c && leb c 57) || (leb 65 c && leb c 70) || (leb 97 c && leb c 102)

-- `n` digits, then a dash and the other groups
hex_groups : ℕ → List ℕ → String → Bool
hex_groups zero [] Str.[] = true
hex_groups zero [] (Str.◌∷◌ c s) = false
hex_groups zero (n ∷ ns) Str.[] = false
hex_groups zero (n ∷ ns) (Str.◌∷◌ c s) = (code c == 45) && hex_groups n ns s
hex_groups (suc n) ns Str.[] = false
hex_groups (suc n) ns (Str.◌∷◌ c s) = is_hex (code c) && hex_groups n ns s

-- `_TAG_UUID_RE`
pub is_uuid : String → Bool
unfolding hex_groups
is_uuid s = hex_groups 8 (4 ∷ 4 ∷ 4 ∷ 12 ∷ []) s

unfoldable pub sanitize_tag_token : String → Option String
unfolding looks_like_config_key is_uuid
sanitize_tag_token tag =
    let t = strip tag in
    if t == ""
    then none
    else if looks_like_config_key t
    then none
    else if starts_with (lower t) "vmgenid:"
    then none
    else if is_uuid t
    then none
    else some t

-- The loop over the parts, with the lower-case tags that were seen.
tags_from : List String → List String → List String
unfolding sanitize_tag_token
tags_from seen [] = []
tags_from seen (part ∷ parts) = elim (sanitize_tag_token part) [
  | none ↦ tags_from seen parts
  | some tag ↦
      let key = lower tag in
      let skipped = tags_from seen parts in
      let kept = tags_from (key ∷ seen) parts in if contains key seen then skipped else tag ∷ kept
]

abbrev pub tag_parts : Tags → List String
tag_parts no_tags = []
tag_parts (tag_list parts) = parts
tag_parts (tag_text raw) = split_tags raw

unfoldable pub qemu_tags_from_config : GuestConfig → List String
unfolding tags_from
qemu_tags_from_config cfg = tags_from [] (tag_parts cfg.tags)

-- The marker in a guest's config.
unfoldable pub is_marked : GuestConfig → Bool
is_marked cfg =
    contains "restore-engine" (map lower (qemu_tags_from_config cfg))
    || has_text "restore-engine:" cfg.description

abbrev pub resource_list : Option (List Resource) → List Resource
resource_list none = []
resource_list (some rows) = rows

-- What `find_guest_resource` returns, beside the VMID.
pub record Guest : Type 0 where
  pub kind : String
  pub node : String

abbrev pub has_vmid : ℕ → Option ℕ → Bool
has_vmid vmid none = false
has_vmid vmid (some v) = v == vmid

abbrev pub kind_of : String → String
kind_of s = let kind = lower (strip s) in if kind == "" then "qemu" else kind

unfoldable pub find_row : ℕ → List Resource → Option Guest
find_row vmid [] = none
find_row vmid (row ∷ rows) =
    if has_vmid vmid row.vmid
    then some (record { kind = kind_of row.kind; node = strip row.node })
    else find_row vmid rows

-- The guest types that occupy a VMID.
abbrev holds_vmid : String → Bool
holds_vmid s = let kind = lower (strip s) in kind == "" || kind == "qemu" || kind == "lxc"

unfoldable pub vmids_of : List Resource → List ℕ
vmids_of [] = []
vmids_of (row ∷ rows) =
    let rest = vmids_of rows in
    if holds_vmid row.kind then elim row.vmid [ none ↦ rest | some v ↦ v ∷ rest ] else rest

module _ {C : Type 0} (api : Proxmox C) where
  unfoldable pub cluster_vm_resources : C → List Resource
  cluster_vm_resources c = resource_list (api.vm_resources c)

  unfoldable pub qemu_vmids_in_use_cluster : C → List ℕ
  unfolding cluster_vm_resources vmids_of
  qemu_vmids_in_use_cluster c = vmids_of (cluster_vm_resources c)

  unfoldable pub find_guest_resource : ℕ → C → Option Guest
  unfolding cluster_vm_resources find_row
  find_guest_resource vmid c = find_row vmid (cluster_vm_resources c)

  -- None for a guest that is missing, not QEMU, or on a node with no name.
  unfoldable pub find_qemu_node : ℕ → C → Option String
  unfolding find_guest_resource
  find_qemu_node vmid c = elim (find_guest_resource vmid c) [
    | none ↦ none
    | some guest ↦ if guest.kind == "qemu" && not (guest.node == "") then some guest.node else none
  ]

  unfoldable pub qemu_is_managed_by_tool : String → ℕ → C → Bool
  unfolding is_marked
  qemu_is_managed_by_tool node vmid c = elim (api.qemu_config c node vmid) [
    | none ↦ false
    | some cfg ↦ is_marked cfg
  ]
