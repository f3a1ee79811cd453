-- ===== src/Groups/Candidates.antt =====
-- Which backups may stand for their guest, and which one `best` keeps.
use restore_engine.Common.{
  ℕ, ◌≡◌, refl, sym, ap, ◌∙◌, String, Bool, true, false, not, ◌&&◌, ◌||◌, List, [], ◌∷◌, none, some,
  ◌⊎◌, inl, inr, map, filter, lookup, contains, leb, ◌==◌, nat_key, string_key, arith, Bool-cases,
  if◌then◌else◌,
}
use restore_engine.Groups.{Backup, Group, any, has_tags, from_source, candidates_until, best_from}
use Prim.Native.String.{compare}
use text.Mathlib.Text.{is_le}
use mathlib.Core.Path.{subst}
use restore_engine.Common.Text.{strip}
use restore_engine.Common.Parse.{lower}
use restore_engine.Runs.Tick.{is_nil}
use restore_engine.Groups.Newest.{newer_of, Kept, AllKept, Among, Kept-same, best_from-AllKept}
use restore_engine.Groups.Best.{Entries}

-- A backup that may stand for its guest: in time, and of one of the sources, where some are given.
abbrev pub is_candidate : String → Group → Backup → Bool
is_candidate cutoff group b =
    let sources = map lower group.source_ids in
    is_le (compare b.row.timestamp cutoff)
    && (is_nil sources
        || contains (lower (if b.source_id == "" then b.server_id else b.source_id)) sources
        || contains (lower b.row.source_label) sources)

-- A backup that the group asks for: by VMID, by range, by name or by tags, and not excluded.
abbrev pub is_wanted :
    (String → String → Bool) → Group → List (String × List String) → Backup → Bool
is_wanted is_match group tags b =
    let named : List String → Bool =
      λ patterns. any (λ raw. not (strip raw == "") && is_match b.row.name (strip raw)) patterns in
    (contains b.row.vmid group.vmids
      || any (λ r. leb r.start b.row.vmid && leb b.row.vmid r.end) group.vmid_ranges
      || named group.name_patterns
      || has_tags group.tags tags b)
    && not (contains b.row.vmid group.exclude_vmids || named group.exclude_name_patterns)

-- A candidate of the inventory of which the guest has no newer one.
abbrev pub IsNewest : String → Group → List Backup → Backup → Type 0
IsNewest cutoff group backups b =
    Among b backups
    × (is_candidate cutoff group b ≡ true)
    × ((c : Backup)
        → Among c backups
        → (is_candidate cutoff group c && newer_of b.row.vmid b c) ≡ false)

Among-filter :
    (p : Backup → Bool) (c : Backup) (bs : List Backup)
    → Among c (filter p bs)
    → Among c bs × (p c ≡ true)
Among-filter p c [] among = absurd among
Among-filter p c (b ∷ bs) among = elim (Bool-cases (p b)) [
  | inl kept ↦ elim (rw kept at among) [
    | inl same ↦ (inl same, subst (λ x. p x ≡ true) same kept)
    | inr later ↦ let (there, h) = Among-filter p c bs later in (inr there, h)
  ]
  | inr dropped ↦ let (there, h) = Among-filter p c bs (rw dropped at among) in (inr there, h)
]

filter-Among :
    (p : Backup → Bool) (c : Backup) (bs : List Backup)
    → Among c bs
    → p c ≡ true
    → Among c (filter p bs)
filter-Among p c [] among h = absurd among
filter-Among p c (b ∷ bs) (inl same) h = rw (ap p same ∙ h) (inl same)
filter-Among p c (b ∷ bs) (inr later) h = elim (Bool-cases (p b)) [
  | inl kept ↦ rw kept (inr (filter-Among p c bs later h))
  | inr dropped ↦ rw dropped (filter-Among p c bs later h)
]

module _ (cutoff : String) (group : Group) (backups : List Backup) where
  abbrev candidates : List Backup
  candidates = candidates_until cutoff group backups

  abbrev in_time : Backup → Bool
  in_time b = is_le (compare b.row.timestamp cutoff)

  abbrev sources : List String
  sources = map lower group.source_ids

  candidate_of :
      (c : Backup) → Among c candidates → Among c backups × (is_candidate cutoff group c ≡ true)
  unfolding candidates_until
  candidate_of c among = elim (Bool-cases (is_nil sources)) [
    | inl all_sources ↦
        let (there, soon) = Among-filter in_time c backups (rw all_sources at among) in
        (there, ground arith)
    | inr some_sources ↦
        let (early, from) =
          Among-filter (from_source sources) c (filter in_time backups)
            (rw some_sources at among) in
        let (there, soon) = Among-filter in_time c backups early in (there, ground arith)
  ]

  of_candidate :
      (c : Backup) → Among c backups → is_candidate cutoff group c ≡ true → Among c candidates
  unfolding candidates_until
  of_candidate c among h =
      let early = filter-Among in_time c backups among (ground arith) in
      elim (Bool-cases (is_nil sources)) [
        | inl all_sources ↦ rw all_sources early
        | inr some_sources ↦
            rw some_sources
              (filter-Among (from_source sources) c (filter in_time backups) early (ground arith))
      ]

  abbrev best : Entries
  best = best_from [] candidates

  pub Kept-best : AllKept (λ c. Among c candidates) best
  unfolding lookup
  Kept-best v =
      Kept-same (λ c. ⊥ ⊎ Among c candidates) (λ c. Among c candidates) v (lookup v best)
        (λ c t. elim t [ inl never ↦ absurd never | inr among ↦ among ]) (λ c among. inr among)
        (best_from-AllKept candidates (λ c. ⊥) [] nothing v)
    where
      nothing : AllKept (λ c. ⊥) []
      nothing v c never = absurd never

  pub IsNewest-Kept :
      (v : ℕ) (b : Backup)
      → Kept (λ c. Among c candidates) v (some b)
      → IsNewest cutoff group backups b
  IsNewest-Kept v b (seen, own, h) =
      let (there, fits) = candidate_of b seen in
      (
        there,
        fits,
        λ c among. elim (Bool-cases (is_candidate cutoff group c)) [
          | inl fits_c ↦
              rw fits_c
                (subst (λ u. newer_of u b c ≡ false) (sym own) (h c (of_candidate c among fits_c)))
          | inr other ↦ rw other refl
        ],
      )

  -- No backup of the guest may stand for it.
  abbrev pub NoCandidate : ℕ → Type 0
  NoCandidate vmid =
      (c : Backup) → Among c backups → (is_candidate cutoff group c && (c.row.vmid == vmid)) ≡ false

  pub none_of : (v : ℕ) → Kept (λ c. Among c candidates) v none → NoCandidate v
  none_of v h c among = elim (Bool-cases (is_candidate cutoff group c)) [
    | inl fits ↦ rw fits (h c (of_candidate c among fits))
    | inr other ↦ rw other refl
  ]
