-- ===== src/Placement.antt =====
-- pve_client.py: `assign_nodes_least_loaded` and `resolve_storage_for_node`.
pub mod Balance
pub mod Storage
use restore_engine.Common.Text.{strip}
use restore_engine.Common.{
  ℕ, zero, suc, ◌+◌, ◌-◌, Bool, ◌&&◌, ◌||◌, List, [], ◌∷◌, String, length, ltb, filter, map, not,
  ◌==◌, nat_key, string_key, if◌then◌else◌,
}

-- `counts`: the load of each node, as the dict that the loop updates.
abbrev pub Counts : Type 0
Counts = String → ℕ

abbrev pub bump : Counts → String → Counts
bump counts pick n = if pick == n then counts n + 1 else counts n

-- `{n: i for i, n in enumerate(nodes)}`: a name that stands twice keeps its last index.
order_from : ℕ → ℕ → List String → String → ℕ
order_from i found [] n = found
order_from i found (x ∷ xs) n = order_from (i + 1) (if x == n then i else found) xs n

pub order : List String → String → ℕ
unfolding order_from
order nodes n = order_from 0 0 nodes n

-- `(counts[n], order[n]) < (counts[m], order[m])`
abbrev pub key_lt : Counts → (String → ℕ) → String → String → Bool
key_lt counts ord n m = ltb (counts n) (counts m) || ((counts n == counts m) && ltb (ord n) (ord m))

-- `min(nodes, key=…)` over a list that begins with `best`: the first of the least keys.
unfoldable pub min_by_key : Counts → (String → ℕ) → String → List String → String
min_by_key counts ord best [] = best
min_by_key counts ord best (n ∷ nodes) =
    min_by_key counts ord (if key_lt counts ord n best then n else best) nodes

-- The `for` loop: the nodes assigned, and the counts that it leaves.
pub assign : ℕ → Counts → (String → ℕ) → String → List String → List String
assign zero counts ord n0 nodes = []
assign (suc rounds) counts ord n0 nodes =
    let pick = min_by_key counts ord n0 nodes in
    pick ∷ assign rounds (bump counts pick) ord n0 nodes

-- `[n.strip() for n in candidates if str(n).strip()]`
pub stripped : List String → List String
stripped candidates = filter (λ n. not (n == "")) (map strip candidates)

pub data Assignment : Type 0 where
  assigned : List String → Assignment
  no_node : Assignment  -- ValueError

pub assign_all : List String → ℕ → Counts → Assignment
unfolding assign order
assign_all [] count active = no_node
assign_all (n0 ∷ nodes) count active =
    if ltb count 1
    then assigned []
    else assigned (assign count active (order (n0 ∷ nodes)) n0 nodes)

unfoldable pub assign_nodes_least_loaded : List String → ℕ → Counts → Assignment
unfolding assign_all stripped
assign_nodes_least_loaded candidates count active = assign_all (stripped candidates) count active
