-- ===== src/Examples/Verdicts.antt =====
-- The verdict on a drill whose one job answered the guest agent.
use restore_engine.Common.{ℕ, ◌≡◌, refl, String, true, false, List, [], ◌∷◌, some, lookup}
use restore_engine.States.{run_completed}
use restore_engine.Jobs.{Hash, Redis, hgetall}
use restore_engine.Runs.{Run, Plan}
use restore_engine.Assurance.{job_summary, group_summaries, summaries, evaluate_assurance_policy}
use restore_engine.Assurance.Policy.{
  is_assured, meets_policy, evaluate_assurance_exact, http_never_assured,
}
use restore_engine.Examples.{run_one, plan, redis_with}

abbrev drill_end : Run
drill_end = record run_one { status = run_completed }

-- Both checks passed.
abbrev checked : Redis
checked = redis_with (
    (
      "a",
      ("state", "COMPLETED")
          ∷ ("qga_ok", "1")
          ∷ ("http_check_url", "http://a/")
          ∷ ("http_check_ok", "1")
          ∷ [],
    )
    ∷ [])

abbrev one_text : ℕ → String
one_text n = "0"

abbrev checked_jobs : List Hash
checked_jobs = summaries one_text checked 0 (("a" ∷ []) ∷ [])

policy_met : meets_policy plan drill_end checked_jobs (some 300) ≡ true
unfolding summaries group_summaries job_summary hgetall lookup
policy_met = refl

evaluate_assurance_exact_example :
    is_assured (evaluate_assurance_policy plan drill_end checked_jobs (some 300)).0
    ≡ meets_policy plan drill_end checked_jobs (some 300)
evaluate_assurance_exact_example = evaluate_assurance_exact plan drill_end checked_jobs (some 300)

abbrev http_plan : Plan
http_plan = record plan { assurance_require_http = true }

http_never_assured_example :
    is_assured (evaluate_assurance_policy http_plan drill_end checked_jobs (some 300)).0 ≡ false
http_never_assured_example =
    http_never_assured one_text http_plan drill_end checked (("a" ∷ []) ∷ []) (some 300) refl
