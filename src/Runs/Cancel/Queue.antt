-- ===== src/Runs/Cancel/Queue.antt =====
-- What the cancel of a run does to the jobs of all its groups, and what it leaves of the queue.
use restore_engine.Common.{
  ◌≡◌, refl, sym, ap, ◌∙◌, String, Bool, true, false, not, ◌&&◌, List, [], ◌∷◌, ◌++◌, filter,
  lookup, contains, ◌==◌, string_key, eq_iff, arith, by_test,
}
use restore_engine.Jobs.{Redis}
use restore_engine.Queue.{no_fields}
use restore_engine.Runs.Tick.{job_state}
use restore_engine.Runs.Cancel.{
  Cancelling, requested, cancel_queued, cancel_job, cancel_jobs, cancel_groups,
}
use restore_engine.Runs.Cancel.Met.{
  is_pending, contains-append, queue-hset, Met, Met-cancel_job, Met-nil, Met-append,
}

Met-cancel_jobs :
    (now j : String) (ids : List String) (c : Cancelling)
    → Met ids j c.redis (cancel_jobs now ids c).redis
unfolding cancel_jobs
Met-cancel_jobs now j [] c = Met-nil j c.redis
Met-cancel_jobs now j (id ∷ ids) c =
    let c' = cancel_job now id c in
    Met-append (id ∷ []) ids j c.redis c'.redis (cancel_jobs now ids c').redis
      (Met-cancel_job now id j c) (Met-cancel_jobs now j ids c')

-- The jobs of all groups.
abbrev pub jobs_of : List (List String) → List String
jobs_of [] = []
jobs_of (ids ∷ groups) = ids ++ jobs_of groups

pub Met-cancel_groups :
    (now j : String) (groups : List (List String)) (c : Cancelling)
    → Met (jobs_of groups) j c.redis (cancel_groups now groups c).redis
unfolding cancel_groups
Met-cancel_groups now j [] c = Met-nil j c.redis
Met-cancel_groups now j (ids ∷ groups) c =
    let c' = cancel_jobs now ids c in
    Met-append ids (jobs_of groups) j c.redis c'.redis (cancel_groups now groups c').redis
      (Met-cancel_jobs now j ids c) (Met-cancel_groups now j groups c')

filter_same :
    (p q : String → Bool) (xs : List String)
    → ((x : String) → p x ≡ q x)
    → filter p xs ≡ filter q xs
filter_same p q [] h = refl
filter_same p q (x ∷ xs) h = ground (arith, h x, filter_same p q xs h)

filter-filter :
    (p q : String → Bool) (xs : List String) → filter p (filter q xs) ≡ filter (λ x. q x && p x) xs
filter-filter p q [] = refl
filter-filter p q (x ∷ xs) = ground (arith, filter-filter p q xs)

filter_all : (xs : List String) → filter (λ x. true) xs ≡ xs
filter_all [] = refl
filter_all (x ∷ xs) = ap (λ l. x ∷ l) (filter_all xs)

-- A job that stays on the queue.
abbrev stays : List String → Redis → String → Bool
stays ids r j = not (contains j ids && is_pending r j)

abbrev Left : List String → Redis → Redis → Type 0
Left ids r r' = r'.queue ≡ filter (stays ids r) r.queue

Left-nil : (r : Redis) → Left [] r r
unfolding contains
Left-nil r = sym (filter_all r.queue)

Left-append :
    (xs ys : List String) (r r' r'' : Redis)
    → ((j : String) → Met xs j r r')
    → Left xs r r'
    → Left ys r' r''
    → Left (xs ++ ys) r r''
Left-append xs ys r r' r'' met first second =
    let same : (j : String) → (stays xs r j && stays ys r' j) ≡ stays (xs ++ ys) r j =
      λ j. ground (arith, contains-append j xs ys, (met j).there, (met j).state) in
    second
    ∙ ap (filter (stays ys r')) first
    ∙ filter-filter (stays ys r') (stays xs r) r.queue
    ∙ filter_same _ _ r.queue same

Left-cancel_job :
    (now id : String) (c : Cancelling) → Left (id ∷ []) c.redis (cancel_job now id c).redis
unfolding cancel_job contains cancel_queued
Left-cancel_job now id c =
    let r = c.redis in
    let left : Cancelling → Type 0 = λ x. x.redis.queue ≡ filter (stays (id ∷ []) r) r.queue in
    let kept : is_pending r id ≡ false → left c = λ h. sym (
      filter_same (stays (id ∷ []) r) (λ x. true) r.queue (λ x. ground (arith, eq_iff id x, h))
      ∙ filter_all r.queue) in
    by_test left (no_fields (lookup id r.jobs)) (λ gone. kept (ground arith))
      λ there.
        by_test left (job_state r id == "PENDING")
          (λ pending.
            filter_same (λ x. not (x == id)) (stays (id ∷ []) r) r.queue
              (λ x. ground (arith, eq_iff id x, eq_iff x id)))
          λ other.
            let not_pending = kept (ground arith) in
            by_test left (job_state r id == "RESTORING")
              (λ _. queue-hset id (requested now) r ∙ not_pending) (λ _. not_pending)

Left-cancel_jobs :
    (now : String) (ids : List String) (c : Cancelling)
    → Left ids c.redis (cancel_jobs now ids c).redis
unfolding cancel_jobs
Left-cancel_jobs now [] c = Left-nil c.redis
Left-cancel_jobs now (id ∷ ids) c =
    let c' = cancel_job now id c in
    Left-append (id ∷ []) ids c.redis c'.redis (cancel_jobs now ids c').redis
      (λ j. Met-cancel_job now id j c) (Left-cancel_job now id c) (Left-cancel_jobs now ids c')

pub Left-cancel_groups :
    (now : String) (groups : List (List String)) (c : Cancelling)
    → Left (jobs_of groups) c.redis (cancel_groups now groups c).redis
unfolding cancel_groups
Left-cancel_groups now [] c = Left-nil c.redis
Left-cancel_groups now (ids ∷ groups) c =
    let c' = cancel_jobs now ids c in
    Left-append ids (jobs_of groups) c.redis c'.redis (cancel_groups now groups c').redis
      (λ j. Met-cancel_jobs now j ids c) (Left-cancel_jobs now ids c)
      (Left-cancel_groups now groups c')
