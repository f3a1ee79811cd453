-- ===== src/Groups/Members.antt =====
-- Which guests a group stands for, and in which order.
use restore_engine.Common.{
  ℕ, ◌≡◌, refl, sym, ap, ◌∙◌, String, Bool, true, false, List, [], ◌∷◌, Option, none, some, ◌⊎◌,
  inl, inr, map, filter, All, keys, lookup, contains, ◌==◌, nat_key, string_key, arith, Bool-cases,
}
use restore_engine.Groups.{
  Backup, Group, vmid_in_ranges, guest_name_matches, is_selected, is_excluded, candidates_until,
  best_from, is_member, sorted_entries, resolve_group_rows,
}
use mathlib.Core.Path.{subst}
use restore_engine.Groups.Candidates.{
  is_wanted, IsNewest, NoCandidate, Kept-best, IsNewest-Kept, none_of,
}
use restore_engine.Groups.Newest.{Kept, Among}
use restore_engine.Groups.Best.{
  Entries, Unique, OwnKey, held, best_from-keys, Unique-filter, OwnKey-filter, contains-filter,
}
use restore_engine.Groups.Order.{
  Ascending, contains-sorted_entries, All-sorted_entries, Ascending-sorted_entries,
}

abbrev pub vmids : List Backup → List ℕ
vmids bs = map (λ b. b.row.vmid) bs

vmids-keys : (m : Entries) → All OwnKey m → vmids (map (λ e. e.1) m) ≡ keys m
vmids-keys [] h = refl
vmids-keys (e ∷ m) h = rw (h.0, vmids-keys m h.1) refl

All-rows : (P : Backup → Type 0) (m : Entries) → All (λ e. P e.1) m → All P (map (λ e. e.1) m)
All-rows P [] h = tt
All-rows P (e ∷ m) h = (h.0, All-rows P m h.1)

All-filter :
    (P Q : ℕ × Backup → Type 0) (p : ℕ × Backup → Bool) (m : Entries)
    → ((e : ℕ × Backup) → P e → p e ≡ true → Q e)
    → All P m
    → All Q (filter p m)
All-filter P Q p [] k h = tt
All-filter P Q p (e ∷ m) k h = elim (Bool-cases (p e)) [
  | inl kept ↦ rw kept (k e h.0 kept, All-filter P Q p m k h.1)
  | inr dropped ↦ rw dropped (All-filter P Q p m k h.1)
]

-- In a dict, each entry is what its key is looked up as.
found_later :
    (v : ℕ) (b : Backup) (m n : Entries)
    → contains v (keys m) ≡ false
    → All (λ e. lookup e.0 n ≡ some e.1) m
    → All (λ e. lookup e.0 ((v, b) ∷ n) ≡ some e.1) m
unfolding contains lookup
found_later v b [] n new h = tt
found_later v b (e ∷ m) n new h =
    let other : (v == e.0) ≡ false = ground arith in
    (rw other h.0, found_later v b m n (ground arith) h.1)

All-lookup : (m : Entries) → Unique m → All (λ e. lookup e.0 m ≡ some e.1) m
unfolding lookup
All-lookup [] h = tt
All-lookup ((v, b) ∷ m) h =
    let self : (v == v) ≡ true = ground arith in
    (rw self refl, found_later v b m m h.0 (All-lookup m h.1))

module _ (is_match : String → String → Bool) (group : Group) (backups : List Backup)
    (cutoff : String) (tags : List (String × List String)) where
  abbrev rows : List Backup
  rows = resolve_group_rows is_match group backups cutoff tags

  abbrev kept : Entries
  kept = best_from [] (candidates_until cutoff group backups)

  abbrev member : ℕ × Backup → Bool
  member = is_member is_match group tags

  -- A row is a newest candidate, and wanted.
  abbrev pub IsRow : Backup → Type 0
  IsRow b = IsNewest cutoff group backups b × (is_wanted is_match group tags b ≡ true)

  member-is_wanted :
      (v : ℕ) (b : Backup) → b.row.vmid ≡ v → member (v, b) ≡ is_wanted is_match group tags b
  unfolding is_selected is_excluded vmid_in_ranges guest_name_matches
  member-is_wanted v b own = ap (λ u. member (u, b)) (sym own)

  entry-IsRow : (e : ℕ × Backup) → lookup e.0 kept ≡ some e.1 → member e ≡ true → IsRow e.1
  entry-IsRow e found chosen =
      let k =
        subst (Kept (λ c. Among c (candidates_until cutoff group backups)) e.0) found
          (Kept-best cutoff group backups e.0) in
      (IsNewest-Kept cutoff group backups e.0 e.1 k, sym (member-is_wanted e.0 e.1 k.1) ∙ chosen)

  rows-IsRow : All IsRow rows
  unfolding resolve_group_rows
  rows-IsRow =
      let (unique, own) = best_from-keys (candidates_until cutoff group backups) [] tt tt in
      All-rows IsRow (sorted_entries (filter member kept)) (
        All-sorted_entries (λ e. IsRow e.1) (filter member kept)
          (All-filter (λ e. lookup e.0 kept ≡ some e.1) (λ e. IsRow e.1) member kept entry-IsRow
            (All-lookup kept unique)))

  vmids-rows :
      (vmid : ℕ)
      → Ascending (vmids rows) × (contains vmid (vmids rows) ≡ held member vmid (lookup vmid kept))
  unfolding resolve_group_rows
  vmids-rows vmid =
      let (unique, own) = best_from-keys (candidates_until cutoff group backups) [] tt tt in
      let entries = sorted_entries (filter member kept) in
      let same : vmids (map (λ e. e.1) entries) ≡ keys entries =
        vmids-keys entries
          (All-sorted_entries OwnKey (filter member kept) (OwnKey-filter member kept own)) in
      rw same (
        Ascending-sorted_entries (filter member kept) (Unique-filter member kept unique),
        contains-sorted_entries vmid (filter member kept) ∙ contains-filter member vmid kept unique,
      )

  -- What is said of one guest.
  abbrev pub GuestAnswer : ℕ → Type 0
  GuestAnswer vmid =
      (NoCandidate cutoff group backups vmid × (contains vmid (vmids rows) ≡ false))
      ⊎ ((b : Backup) × (b.row.vmid ≡ vmid)
          × IsNewest cutoff group backups b
          × (contains vmid (vmids rows) ≡ is_wanted is_match group tags b))

  answer :
      (vmid : ℕ) (o : Option Backup)
      → Kept (λ c. Among c (candidates_until cutoff group backups)) vmid o
      → contains vmid (vmids rows) ≡ held member vmid o
      → GuestAnswer vmid
  answer vmid none k e = inl (none_of cutoff group backups vmid k, e)
  answer vmid (some b) k e =
      inr (b, k.1, IsNewest-Kept cutoff group backups vmid b k, e ∙ member-is_wanted vmid b k.1)

  -- For every group, inventory and cutoff: the rows have strictly ascending VMIDs, so there is one for
  -- each guest at most. Each row is a backup of the inventory that is not behind the cutoff and of one
  -- of the group's sources, if it names some; of these backups the guest has none that is newer; and it
  -- is selected by VMID, range, name or tags and not excluded. And for each guest: either it has no
  -- backup in time and of these sources, and no row; or there is such a newest backup of it, and it has
  -- a row exactly if that backup is selected and not excluded.
  pub resolve_group_rows_exact :
      (vmid : ℕ) → Ascending (vmids rows) × All IsRow rows × GuestAnswer vmid
  resolve_group_rows_exact vmid =
      let (ascending, holds) = vmids-rows vmid in
      (
        ascending,
        rows-IsRow,
        answer vmid (lookup vmid kept) (Kept-best cutoff group backups vmid) holds,
      )
