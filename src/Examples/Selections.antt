-- ===== src/Examples/Selections.antt =====
-- A group by range and by name, with one guest excluded.
use restore_engine.Common.{
  All, ℕ, ◌≡◌, refl, String, Bool, List, [], ◌∷◌, lookup, put, contains, ◌==◌, nat_key, string_key,
  map,
}
use restore_engine.Common.Text.{strip, lstrip, rstrip}
use restore_engine.Groups.{
  Backup, Group, vmid_in_ranges, guest_name_matches, candidates_until, best_from, is_selected,
  is_excluded, sorted_entries, resolve_group_rows,
}
use restore_engine.Groups.Order.{Ascending}
use restore_engine.Groups.Members.{vmids, IsRow, GuestAnswer, resolve_group_rows_exact}
use restore_engine.Examples.{row}

abbrev backup : ℕ → String → String → Backup
backup vmid name timestamp = record {
  row = record row { vmid = vmid; name = name; timestamp = timestamp };
  source_id = "main";
  server_id = "";
}

abbrev pub group : Group
group = record {
  source_ids = [];
  vmids = [];
  vmid_ranges = record { start = 100; end = 199 } ∷ [];
  name_patterns = "db" ∷ [];
  tags = [];
  exclude_vmids = 101 ∷ [];
  exclude_name_patterns = [];
}

abbrev pub equal_names : String → String → Bool
equal_names name pattern = name == pattern

-- The newer backup of 150 is too late.
abbrev pub inventory : List Backup
inventory =
    backup 300 "db" "2026-01-02"
    ∷ backup 150 "web" "2026-01-01"
    ∷ backup 150 "web" "2026-02-01"
    ∷ backup 101 "old" "2026-01-01"
    ∷ backup 400 "mail" "2026-01-01"
    ∷ []

finds_two :
    map (λ b. b.row.timestamp) (resolve_group_rows equal_names group inventory "2026-01-31" [])
    ≡ "2026-01-01" ∷ "2026-01-02" ∷ []
unfolding resolve_group_rows candidates_until best_from sorted_entries is_selected is_excluded
    vmid_in_ranges guest_name_matches lookup put contains strip lstrip rstrip
finds_two = refl

resolve_group_rows_exact_example :
    Ascending (vmids (resolve_group_rows equal_names group inventory "2026-01-31" []))
    × All
        (IsRow equal_names group inventory "2026-01-31" [])
        (resolve_group_rows equal_names group inventory "2026-01-31" [])
    × GuestAnswer equal_names group inventory "2026-01-31" [] 150
resolve_group_rows_exact_example =
    resolve_group_rows_exact equal_names group inventory "2026-01-31" [] 150
