-- ===== src/Readiness/Tick/Settled.antt =====
-- No plan is checked twice in its interval, also when its check crashes.
use restore_engine.Common.{
  ℕ, ◌+◌, ◌<◌, ◌≡◌, refl, sym, ap, ◌∙◌, String, Bool, true, false, List, [], ◌∷◌, Option, none,
  some, map, filter, lookup, lookup-put, lookup-put_self, contains, ◌==◌, nat_key, string_key,
  eq_iff, arith, inl, inr, Bool-cases, if◌then◌else◌,
}
use restore_engine.Common.Text.{strip}
use mathlib.Core.Path.{subst}
use restore_engine.States.{verified, not_verified}
use restore_engine.Runs.{Plan, Plans}
use restore_engine.Schedules.{is_past, is_due_for_check, plans_due_for_check}
use restore_engine.Readiness.Run.{
  Stored, Check, readiness_check, apply_check_result, run_plan_readiness,
}
use restore_engine.Readiness.{Probes}
use restore_engine.Readiness.Tick.{
  CheckReply, checked, crashed, crash_check, after_check, tick_checks, tick_plan_readiness,
}

-- Each plan is stored under its own id.
abbrev pub AreKeyed : Plans → Type 0
AreKeyed p = (id : String) (plan : Plan) → lookup id p.plans ≡ some plan → plan.id ≡ id

-- From one state to the next, the plan `id` has got a check at `stamp`, under its own id, and the others
-- are as they were.
abbrev IsStamped : String → String → Option Plan → Type 0
IsStamped stamp id none = ⊥
IsStamped stamp id (some plan) = (plan.last_check_at ≡ stamp) × (plan.id ≡ id)

abbrev pub Stamps : String → String → Plans → Plans → Type 0
Stamps stamp id p p' =
    IsStamped stamp id (lookup id p'.plans)
    × ((j : String) → (id == j) ≡ false → lookup j p'.plans ≡ lookup j p.plans)

-- A check stores its verdict on its plan and writes to no other plan; one that crashes has not stored
-- anything.
abbrev IsCheckOf : String → Plan → Plans → CheckReply → Type 0
IsCheckOf stamp plan p (checked p') = Stamps stamp plan.id p p'
IsCheckOf stamp plan p (crashed p') = p'.plans ≡ p.plans

abbrev pub IsCheckFn : String → (Plan → Plans → CheckReply) → Type 0
IsCheckFn stamp check_fn = (plan : Plan) (p : Plans) → IsCheckOf stamp plan p (check_fn plan p)

apply_check_result-Stamps :
    (plan : Plan) (check : Check) (p : Plans)
    → Stamps check.checked_at plan.id p (apply_check_result plan check p)
unfolding apply_check_result
apply_check_result-Stamps plan check p =
    let verdict = if check.ok then verified else not_verified in
    let saved = record plan { last_check_at = check.checked_at; verification = verdict } in
    (
      subst (IsStamped check.checked_at plan.id) (sym (lookup-put_self plan.id saved p.plans))
          (refl, refl),
      λ j other. rw (lookup-put, other) refl,
    )

pub run_plan_readiness-Stamps :
    (probes : Probes) (stored : Stored) (stamp cutoff : String) (plan : Plan) (p : Plans)
    → Stamps stamp plan.id p (run_plan_readiness probes stored stamp cutoff plan p)
unfolding run_plan_readiness readiness_check
run_plan_readiness-Stamps probes stored stamp cutoff plan p =
    apply_check_result-Stamps plan (readiness_check probes stored stamp cutoff plan) p

after_check-Stamps :
    (stamp : String) (plan : Plan) (p : Plans) (reply : CheckReply)
    → IsCheckOf stamp plan p reply
    → Stamps stamp plan.id p (after_check stamp plan reply)
unfolding after_check
after_check-Stamps stamp plan p (checked p') h = h
after_check-Stamps stamp plan p (crashed p') h =
    let (own, others) = apply_check_result-Stamps plan (crash_check stamp) p' in
    (own, λ j other. others j other ∙ ap (lookup j) h)

-- Where the plan under an id is due, it is on the list.
abbrev IsListed : (Plan → Bool) → String → List Plan → Plans → Type 0
IsListed is_due id due p =
    (plan : Plan)
    → lookup id p.plans ≡ some plan
    → is_due plan ≡ true
    → contains id (map (λ q. q.id) due) ≡ true

listed_first :
    (is_due : Plan → Bool) (plan : Plan) (plans : List Plan)
    → is_due plan ≡ true
    → contains plan.id (map (λ q. q.id) (filter is_due (plan ∷ plans))) ≡ true
unfolding contains
listed_first is_due plan plans due = rw due (ground (arith, eq_iff plan.id plan.id))

listed_of_lookup :
    (is_due : Plan → Bool) (plans : List (String × Plan)) (id : String) (plan : Plan)
    → lookup id plans ≡ some plan
    → is_due plan ≡ true
    → contains plan.id (map (λ q. q.id) (filter is_due (map (λ kv. kv.1) plans))) ≡ true
unfolding lookup contains
listed_of_lookup is_due [] id plan e due = absurd (ground arith)
listed_of_lookup is_due ((j, q) ∷ plans) id plan e due = elim (Bool-cases (j == id)) [
  | inl same ↦
      let same_plan : q ≡ plan = ground arith in
      subst
        (λ x. contains x.id (map (λ q. q.id) (filter is_due (q ∷ map (λ kv. kv.1) plans))) ≡ true)
        same_plan (listed_first is_due q (map (λ kv. kv.1) plans) (ap is_due same_plan ∙ due))
  | inr other ↦
      let rest = listed_of_lookup is_due plans id plan (ground arith) due in ground (arith, rest)
]

module _ (stamp : String) (is_due : Plan → Bool) (id : String)
    (fresh : (plan : Plan) → plan.last_check_at ≡ stamp → is_due plan ≡ false) where
  step-IsListed :
      (plan : Plan) (due : List Plan) (p p' : Plans)
      → Stamps stamp plan.id p p'
      → IsListed is_due id (plan ∷ due) p
      → IsListed is_due id due p'
  unfolding contains
  step-IsListed plan due p p' (own, others) listed q e is_due_q =
      elim (Bool-cases (plan.id == id)) [
        | inl same ↦
            let stamped =
              subst (λ j. IsStamped stamp j (lookup j p'.plans)) ((eq_iff plan.id id).0 same) own in
            let (last, _) = subst (IsStamped stamp id) e stamped in
            absurd (ground (arith, fresh q last, is_due_q))
        | inr other ↦
            let was = listed q (sym (others id other) ∙ e) is_due_q in ground (arith, was, other)
      ]

  tick_checks-IsListed :
      (check_fn : Plan → Plans → CheckReply) (due : List Plan) (p : Plans)
      → IsCheckFn stamp check_fn
      → IsListed is_due id due p
      → IsListed is_due id [] (tick_checks check_fn stamp due p)
  unfolding tick_checks
  tick_checks-IsListed check_fn [] p is_check listed = listed
  tick_checks-IsListed check_fn (plan ∷ due) p is_check listed =
      let p' = after_check stamp plan (check_fn plan p) in
      tick_checks-IsListed check_fn due p' is_check (
        step-IsListed plan due p p'
          (after_check-Stamps stamp plan p (check_fn plan p) (is_check plan p)) listed)

-- A plan that was checked at the time of the tick is not due before its interval has passed.
fresh_check :
    (parse : String → Option ℕ) (interval_sec later t : ℕ) (stamp : String)
    → parse (strip stamp) ≡ some t
    → later < t + interval_sec
    → (plan : Plan) → plan.last_check_at ≡ stamp
    → is_due_for_check parse later interval_sec plan ≡ false
unfolding is_due_for_check is_past
fresh_check parse interval_sec later t stamp read soon plan last =
    let read_last : parse (strip plan.last_check_at) ≡ some t =
      ap (λ x. parse (strip x)) last ∙ read in
    rw read_last (ground arith)

-- When each plan is stored under its own id, the checks are on, and each check either stores its verdict
-- with the time of the tick or crashes before it has stored anything: a plan that was due at the tick is
-- due at no time before its interval has passed since the time of the tick, also where its check has
-- crashed.
pub tick_plan_readiness_settles :
    (check_fn : Plan → Plans → CheckReply) (stamp : String) (parse : String → Option ℕ)
    (interval_sec now t : ℕ) (p : Plans)
    → AreKeyed p
    → IsCheckFn stamp check_fn
    → parse (strip stamp) ≡ some t
    → 0 < interval_sec
    → (id : String) (plan plan' : Plan) (later : ℕ) → lookup id p.plans ≡ some plan
    → is_due_for_check parse now interval_sec plan ≡ true
    → lookup id (tick_plan_readiness check_fn stamp parse interval_sec now p).plans ≡ some plan'
    → later < t + interval_sec
    → is_due_for_check parse later interval_sec plan' ≡ false
unfolding tick_plan_readiness plans_due_for_check contains
tick_plan_readiness_settles check_fn stamp parse interval_sec now t p keyed is_check read some_time
      id plan plan' later found due e soon =
    let is_due = is_due_for_check parse now interval_sec in
    let is_due_later = is_due_for_check parse later interval_sec in
    let all_due = plans_due_for_check parse now interval_sec (map (λ kv. kv.1) p.plans) in
    let on : (interval_sec == 0) ≡ false = ground arith in
    let listed =
      subst (λ j. contains j (map (λ q. q.id) all_due) ≡ true) (keyed id plan found)
        (listed_of_lookup is_due p.plans id plan found due) in
    elim (Bool-cases (is_due_later plan')) [
      | inr settled ↦ settled
      | inl is_due_plan ↦
          let nothing =
            tick_checks-IsListed stamp is_due_later id
              (fresh_check parse interval_sec later t stamp read soon) check_fn all_due p is_check
              (λ q _ _. listed) plan'
              (subst
                (λ b.
                  lookup id (if b then p else tick_checks check_fn stamp all_due p).plans
                  ≡ some plan')
                on e)
              is_due_plan in
          absurd (ground (arith, nothing))
    ]
