-- ===== src/Placement/Balance.antt =====
-- How `assign_nodes_least_loaded` spreads the jobs over the nodes.
use restore_engine.Common.{
  ℕ, zero, suc, ◌+◌, ◌≤◌, max, ◌≡◌, refl, ap, true, false, List, [], ◌∷◌, String, length, ltb, All,
  contains, ◌==◌, nat_key, string_key, eq_iff, arith, if◌then◌else◌,
}
use restore_engine.Placement.{
  Counts, order, bump, key_lt, min_by_key, assign, assigned, stripped, assign_all,
  assign_nodes_least_loaded,
}

-- How often a node stands in a list.
abbrev pub count : String → List String → ℕ
count n [] = 0
count n (x ∷ xs) = (if x == n then 1 else 0) + count n xs

-- The load of a node when the assigned jobs are there.
abbrev pub load_after : Counts → List String → String → ℕ
load_after active picks n = active n + count n picks

module _ (counts : Counts) (ord : String → ℕ) where
  min_by_key-le :
      (best : String) (nodes : List String)
      → counts (min_by_key counts ord best nodes) ≤ counts best
  unfolding min_by_key
  min_by_key-le best [] = omega arith
  min_by_key-le best (n ∷ nodes) =
      ground (arith, min_by_key-le (if key_lt counts ord n best then n else best) nodes)

  min_by_key_least :
      (best : String) (nodes : List String) (m : String)
      → contains m (best ∷ nodes) ≡ true
      → counts (min_by_key counts ord best nodes) ≤ counts m
  unfolding min_by_key contains
  min_by_key_least best [] m h = ground (arith, eq_iff best m)
  min_by_key_least best (n ∷ nodes) m h = ground (
    arith,
    eq_iff best m,
    eq_iff n m,
    eq_iff m m,
    min_by_key-le (if key_lt counts ord n best then n else best) nodes,
    min_by_key_least (if key_lt counts ord n best then n else best) nodes m,
  )

  min_by_key_mem :
      (best : String) (nodes : List String)
      → contains (min_by_key counts ord best nodes) (best ∷ nodes) ≡ true
  unfolding min_by_key contains
  min_by_key_mem best [] = ground (arith, eq_iff best best)
  min_by_key_mem best (n ∷ nodes) =
      ground (arith, min_by_key_mem (if key_lt counts ord n best then n else best) nodes)

-- What the `for` loop leaves: as many picks as rounds, all of them nodes, and no node above both
-- its own load before and the load of each other node by more than one job.
pub record IsSpread (nodes : List String) (active : Counts) (rounds : ℕ) (picks : List String)
    : Type 0 where
  pub as_many : length picks ≡ rounds
  pub known : All (λ n. contains n nodes ≡ true) picks
  pub balanced :
      (a : String)
      → All (λ b. load_after active picks a ≤ max (active a) (load_after active picks b + 1)) nodes

All-of_contains :
    {P : String → Type 0} (nodes : List String)
    → ((b : String) → contains b nodes ≡ true → P b)
    → All P nodes
unfolding contains
All-of_contains [] f = tt
All-of_contains (n ∷ nodes) f =
    (f n (ground (arith, eq_iff n n)), All-of_contains nodes (λ b h. f b (ground arith)))

module _ (ord : String → ℕ) (n0 : String) (nodes : List String) where
  assign-balanced :
      (rounds : ℕ) (counts : Counts) (a b : String)
      → contains b (n0 ∷ nodes) ≡ true
      → load_after counts (assign rounds counts ord n0 nodes) a
        ≤ max (counts a) (load_after counts (assign rounds counts ord n0 nodes) b + 1)
  unfolding assign
  assign-balanced zero counts a b h = omega arith
  assign-balanced (suc rounds) counts a b h =
      let pick = min_by_key counts ord n0 nodes in
      ground (
        arith,
        eq_iff pick a,
        min_by_key_least counts ord n0 nodes b h,
        assign-balanced rounds (bump counts pick) a b h,
      )

  length-assign :
      (rounds : ℕ) (counts : Counts) → length (assign rounds counts ord n0 nodes) ≡ rounds
  unfolding assign
  length-assign zero counts = refl
  length-assign (suc rounds) counts = ap suc (length-assign rounds _)

  assign_known :
      (rounds : ℕ) (counts : Counts)
      → All (λ n. contains n (n0 ∷ nodes) ≡ true) (assign rounds counts ord n0 nodes)
  unfolding assign
  assign_known zero counts = tt
  assign_known (suc rounds) counts = (min_by_key_mem counts ord n0 nodes, assign_known rounds _)

assign_all-IsSpread :
    (nodes : List String) (jobs : ℕ) (active : Counts) (picks : List String)
    → assign_all nodes jobs active ≡ assigned picks
    → IsSpread nodes active jobs picks
unfolding assign_all
assign_all-IsSpread [] jobs active picks p = cc
assign_all-IsSpread (n0 ∷ nodes) zero active picks p =
    let e : [] ≡ picks = cc in
    rw (← e) (record {
      as_many = refl;
      known = tt;
      balanced = λ a. All-of_contains (n0 ∷ nodes) (λ b _. omega arith);
    })
assign_all-IsSpread (n0 ∷ nodes) (suc jobs) active picks p =
    let ord = order (n0 ∷ nodes) in
    let some_jobs : ltb (suc jobs) 1 ≡ false = ground arith in
    let made : assigned (assign (suc jobs) active ord n0 nodes) ≡ assigned picks =
      rw some_jobs at p in
    let e : assign (suc jobs) active ord n0 nodes ≡ picks = cc in
    rw (← e) (record {
      as_many = length-assign ord n0 nodes (suc jobs) active;
      known = assign_known ord n0 nodes (suc jobs) active;
      balanced =
          λ a. All-of_contains (n0 ∷ nodes) (assign-balanced ord n0 nodes (suc jobs) active a);
    })

-- For every list of candidates, number of jobs and current loads: if an assignment is returned, it
-- has one node for each job, each a candidate (stripped of spaces), and is balanced: no node ends
-- with both a higher load than before and a load of more than one job above another candidate's.
pub assign_nodes_least_loaded-IsSpread :
    (candidates : List String) (jobs : ℕ) (active : Counts) (picks : List String)
    → assign_nodes_least_loaded candidates jobs active ≡ assigned picks
    → IsSpread (stripped candidates) active jobs picks
unfolding assign_nodes_least_loaded
assign_nodes_least_loaded-IsSpread candidates jobs active picks e =
    assign_all-IsSpread (stripped candidates) jobs active picks e
