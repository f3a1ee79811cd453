-- ===== src/Assurance/Policy.antt =====
-- When a drill is ASSURED.
use restore_engine.Common.{
  ℕ, ◌+◌, ◌≡◌, refl, String, Bool, true, false, not, ◌&&◌, ◌||◌, List, [], ◌∷◌, Option, none, some,
  all, lookup, ltb, ◌==◌, nat_key, string_key, arith,
}
use restore_engine.Common.Text.{lstrip, rstrip, strip}
use restore_engine.States.{PlanAssurance, assured}
use restore_engine.Jobs.{Hash, Redis, text_or, is_text, hgetall}
use restore_engine.Runs.{Run, Plan}
use restore_engine.Runs.Tick.{is_nil}
use restore_engine.Assurance.{
  job_summary, group_summaries, summaries, is_completed, check_qga, check_http, exceeds,
  evaluate_assurance_policy,
}

abbrev pub is_assured : PlanAssurance → Bool
is_assured assured = true
is_assured _ = false

abbrev pub qga_ok : Hash → Bool
qga_ok j = is_text (lookup "qga_ok" j) "1"

abbrev pub http_ok : Hash → Bool
http_ok j =
    not (strip (text_or (lookup "http_check_url" j) "") == "")
    && is_text (lookup "http_check_ok" j) "1"

-- The policy in one formula.
abbrev pub meets_policy : Plan → Run → List Hash → Option ℕ → Bool
meets_policy plan run jobs rto =
    plan.assurance_enabled
    && run.drill
    && is_completed run.status
    && (not run.auto_teardown || run.teardown_status == "" || run.teardown_status == "completed")
    && (not plan.assurance_require_qga || (not (is_nil jobs) && all qga_ok jobs))
    && (not plan.assurance_require_http || (not (is_nil jobs) && all http_ok jobs))
    && (not (ltb 0 plan.assurance_max_rto_sec) || not (exceeds plan.assurance_max_rto_sec rto))

abbrev is_none {ℓ} : {A : Type ℓ} → Option A → Bool
is_none none = true
is_none (some a) = false

is_none-check_qga : (jobs : List Hash) → is_none (check_qga jobs) ≡ all qga_ok jobs
unfolding check_qga
is_none-check_qga [] = refl
is_none-check_qga (j ∷ jobs) = ground (arith, is_none-check_qga jobs)

is_none-check_http : (jobs : List Hash) → is_none (check_http jobs) ≡ all http_ok jobs
unfolding check_http
is_none-check_http [] = refl
is_none-check_http (j ∷ jobs) = ground (arith, is_none-check_http jobs)

-- For every plan, run, jobs and recovery time: the verdict is ASSURED exactly if the plan has
-- assurance enabled and the run is a drill that completed, its teardown, if automatic, did not go
-- wrong, the guest-agent and HTTP checks that the plan requires are there and passed on every job of
-- at least one, and the recovery time is known and within the maximum, if there is one.
pub evaluate_assurance_exact :
    (plan : Plan) (run : Run) (jobs : List Hash) (rto : Option ℕ)
    → is_assured (evaluate_assurance_policy plan run jobs rto).0 ≡ meets_policy plan run jobs rto
unfolding evaluate_assurance_policy
evaluate_assurance_exact plan run jobs rto =
    ground (arith, is_none-check_qga jobs, is_none-check_http jobs)

-- No summary says anything of the HTTP check.
http_ok-job_summary : (h : Hash) (id i : String) → http_ok (job_summary h id i) ≡ false
unfolding job_summary lookup strip lstrip rstrip
http_ok-job_summary h id i = refl

abbrev http_passed : List Hash → Bool
http_passed jobs = not (is_nil jobs) && all http_ok jobs

http_passed-summaries :
    (index_text : ℕ → String) (r : Redis) (i : ℕ) (groups : List (List String))
    → http_passed (summaries index_text r i groups) ≡ false
unfolding summaries group_summaries
http_passed-summaries index_text r i [] = refl
http_passed-summaries index_text r i ([] ∷ groups) =
    http_passed-summaries index_text r (i + 1) groups
http_passed-summaries index_text r i ((id ∷ ids) ∷ groups) =
    rw (http_ok-job_summary (hgetall r id) id (index_text i)) refl

-- For every run and every state of its jobs, however their HTTP checks went: a plan that requires
-- the HTTP check is not given the verdict ASSURED on the job summaries that `aggregate_plan_run`
-- makes, since they leave out the fields of that check.
pub http_never_assured :
    (index_text : ℕ → String) (plan : Plan) (run : Run) (r : Redis) (groups : List (List String))
    (rto : Option ℕ)
    → plan.assurance_require_http ≡ true
    → is_assured (evaluate_assurance_policy plan run (summaries index_text r 0 groups) rto).0
      ≡ false
http_never_assured index_text plan run r groups rto required =
    let jobs = summaries index_text r 0 groups in
    ground (
      arith,
      evaluate_assurance_exact plan run jobs rto,
      http_passed-summaries index_text r 0 groups,
    )
