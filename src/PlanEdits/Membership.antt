-- ===== src/PlanEdits/Membership.antt =====
-- A plan stays VERIFIED only while its members are those that were verified.
use restore_engine.Common.{
  ◌≡◌, refl, ◌∙◌, String, true, false, List, [], ◌∷◌, Option, none, some, lookup, ◌==◌, string_key,
  arith, eq_iff, inl, inr, Bool-cases,
}
use mathlib.Core.Path.{subst}
use restore_engine.Common.Text.{strip, lstrip, rstrip}
use restore_engine.States.{PlanVerification, verified}
use restore_engine.Runs.{Plan, Plans}
use restore_engine.Runs.Tick.{is_nil}
use restore_engine.PlanEdits.{
  Patch, absent, null, given, PlanForm, merge, NormalizedPlan, accepted, rejected, or_value,
  clean_ids, settle_plan, normalize_plan, same_ids, groups_changed, location_changed,
  membership_changed, merged_verification, Updated, updated, bad_verification, save_normalized,
  update_found, update_plan,
}

same_ids→eq : (xs ys : List String) → same_ids xs ys ≡ true → xs ≡ ys
same_ids→eq [] [] h = refl
same_ids→eq [] (y ∷ ys) h = cc
same_ids→eq (x ∷ xs) [] h = cc
same_ids→eq (x ∷ xs) (y ∷ ys) h = ground (arith, eq_iff x y, same_ids→eq xs ys)

-- The members that an update stores, where it has not changed them.
groups_kept :
    (key : Patch (List String)) (old : List String)
    → clean_ids old ≡ old
    → groups_changed key old ≡ false
    → is_nil (clean_ids (or_value (merge key old) [])) ≡ false
    → clean_ids (or_value (merge key old) []) ≡ old
unfolding groups_changed
groups_kept absent old clean same some_ids = clean
groups_kept null old clean same some_ids = absurd (ground arith)
groups_kept (given ids) old clean same some_ids = same_ids→eq (clean_ids ids) old (ground arith)

location_kept :
    (key : Patch String) (old : String)
    → strip old ≡ old
    → location_changed key old ≡ false
    → (strip (or_value (merge key old) "") == "") ≡ false
    → strip (or_value (merge key old) "") ≡ old
unfolding location_changed strip lstrip rstrip
location_kept absent old clean same some_id = clean
location_kept null old clean same some_id = absurd (ground arith)
location_kept (given id) old clean same some_id = (eq_iff (strip id) old).0 (ground arith)

abbrev new_groups : PlanForm → Plan → List String
new_groups form old = clean_ids (or_value (merge form.group_ids old.group_ids) [])

abbrev new_location : PlanForm → Plan → String
new_location form old = strip (or_value (merge form.location_id old.location_id) "")

-- What an accepted plan has from its payload.
abbrev AreParts : PlanForm → Plan → Option PlanVerification → NormalizedPlan → Type 0
AreParts form old v (rejected error) = Unit
AreParts form old v (accepted plan) =
    (v ≡ some plan.verification)
    × (plan.group_ids ≡ new_groups form old)
    × (is_nil (new_groups form old) ≡ false)
    × (plan.location_id ≡ new_location form old)
    × ((new_location form old == "") ≡ false)

normalize_plan-AreParts :
    (form : PlanForm) (old : Plan) (v : Option PlanVerification)
    → AreParts form old v (normalize_plan form old v)
unfolding normalize_plan settle_plan
normalize_plan-AreParts form old v =
    elim (Bool-cases (strip (or_value (merge form.name old.name) "") == "")) [
      | inl no_name ↦ rw no_name tt
      | inr named ↦ elim (Bool-cases (is_nil (new_groups form old))) [
        | inl no_groups ↦ rw (named, no_groups) tt
        | inr some_groups ↦ elim (Bool-cases (new_location form old == "")) [
          | inl no_location ↦ rw (named, some_groups, no_location) tt
          | inr located ↦ rw (named, some_groups, located) (by_verification v some_groups located)
        ]
      ]
    ]
  where
    by_verification :
        (v : Option PlanVerification)
        → is_nil (new_groups form old) ≡ false
        → (new_location form old == "") ≡ false
        → AreParts form old v (elim v [
          | none ↦ rejected bad_verification
          | some w ↦ accepted (
              settle_plan form old
                (strip (or_value (merge form.name old.name) ""))
                (new_groups form old)
                (new_location form old)
                w)
        ])
    by_verification none some_groups located = tt
    by_verification (some w) some_groups located = (refl, refl, some_groups, refl, located)

abbrev IsKept : PlanForm → Plan → Updated → Type 0
IsKept form old (updated saved p) =
    saved.verification ≡ verified
    → (old.verification ≡ verified)
      × (saved.group_ids ≡ old.group_ids)
      × (saved.location_id ≡ old.location_id)
IsKept form old _ = Unit

save_normalized-IsKept :
    (form : PlanForm) (old : Plan) (id : String) (p : Plans) (n : NormalizedPlan)
    → clean_ids old.group_ids ≡ old.group_ids
    → strip old.location_id ≡ old.location_id
    → form.verification ≡ absent
    → AreParts form old (merged_verification form old) n
    → IsKept form old (save_normalized id n p)
unfolding save_normalized merged_verification membership_changed
save_normalized-IsKept form old id p (rejected error) groups location silent parts = tt
save_normalized-IsKept form old id p (accepted plan) groups location silent
      (v, ids, some_ids, loc, some_loc) =
    λ is_verified. elim (Bool-cases (groups_changed form.group_ids old.group_ids)) [
      | inl changed ↦ absurd (ground arith)
      | inr same ↦ elim (Bool-cases (location_changed form.location_id old.location_id)) [
        | inl changed ↦ absurd (ground arith)
        | inr same_location ↦ (
          ground arith,
          ids ∙ groups_kept form.group_ids old.group_ids groups same some_ids,
          loc ∙ location_kept form.location_id old.location_id location same_location some_loc,
        )
      ]
    ]

-- For a plan whose group ids and location id are stored without blanks, as `normalize_plan` stores them: an
-- update that does not name the verification leaves it VERIFIED only if it was so before, and only with
-- the groups, in their order, and the location that it had.
pub update_plan_keeps_verified :
    (form : PlanForm) (id : String) (p p' : Plans) (old saved : Plan)
    → lookup id p.plans ≡ some old
    → clean_ids old.group_ids ≡ old.group_ids
    → strip old.location_id ≡ old.location_id
    → form.verification ≡ absent
    → update_plan form id p ≡ updated saved p'
    → saved.verification ≡ verified
    → (old.verification ≡ verified)
      × (saved.group_ids ≡ old.group_ids)
      × (saved.location_id ≡ old.location_id)
unfolding update_plan update_found
update_plan_keeps_verified form id p p' old saved found groups location silent e is_verified =
    let n = normalize_plan form old (merged_verification form old) in
    let same : save_normalized id n p ≡ updated saved p' =
      subst (λ o. update_found form id p o ≡ updated saved p') found e in
    subst (IsKept form old) same
      (save_normalized-IsKept form old id p n groups location silent
        (normalize_plan-AreParts form old (merged_verification form old)))
      is_verified
