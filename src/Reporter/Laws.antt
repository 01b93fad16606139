-- ===== src/Reporter/Laws.antt =====
-- reporter.py: the counts of a summary.
use media_refinery.Common.Dict
use media_refinery.Common.{
  Bool, List, String, [], arith, eq_iff, if◌then◌else◌, length, or_default, ℕ, ◌++◌, ◌+◌, ◌==◌, ◌∷◌,
  ◌≡◌,
}
use media_refinery.Decision.{ActionPlan, intended}
use media_refinery.Reporter.{Counter, count_all, count_up, summarize_loop, summarize_scan}

processed-summarize_loop :
    (plans : List ActionPlan) (n : ℕ) (c i : Counter)
    → (summarize_loop plans n c i).0 ≡ n + length plans
unfolding summarize_loop
processed-summarize_loop [] n c i = omega arith
processed-summarize_loop (p ∷ plans) n c i = omega (
  arith,
  processed-summarize_loop plans (n + 1) (count_up c p.category_id) (count_all i p.actions),
)

-- A summary has processed as many assets as it has plans.
pub processed-summarize_scan :
    (plans : List ActionPlan) (skipped errors : ℕ) (d : Bool)
    → (summarize_scan plans skipped errors d).processed ≡ length plans
unfolding summarize_scan
processed-summarize_scan plans skipped errors d =
    omega (arith, processed-summarize_loop plans 0 [] [])

-- How often a key is in a list, and what a counter says of it.
abbrev pub occurrences : String → List String → ℕ
occurrences k [] = 0
occurrences k (x ∷ xs) = (if x == k then 1 else 0) + occurrences k xs

abbrev pub count_of : Counter → String → ℕ
count_of c k = or_default (Dict.get c k) 0

count_of-count_up :
    (c : Counter) (x k : String)
    → count_of (count_up c x) k ≡ count_of c k + (if x == k then 1 else 0)
unfolding count_up
count_of-count_up c x k = simp Dict.get-put (ground (arith, eq_iff x k))

count_of-count_all :
    (xs : List String) (c : Counter) (k : String)
    → count_of (count_all c xs) k ≡ count_of c k + occurrences k xs
unfolding count_all
count_of-count_all [] c k = omega arith
count_of-count_all (x ∷ xs) c k =
    omega (arith, count_of-count_all xs (count_up c x) k, count_of-count_up c x k)

-- The categories of the plans, and all of their actions.
abbrev pub categories_of : List ActionPlan → List String
categories_of [] = []
categories_of (p ∷ plans) = p.category_id ∷ categories_of plans

abbrev pub actions_of : List ActionPlan → List String
actions_of [] = []
actions_of (p ∷ plans) = p.actions ++ actions_of plans

occurrences-append :
    (k : String) (xs ys : List String)
    → occurrences k (xs ++ ys) ≡ occurrences k xs + occurrences k ys
occurrences-append k [] ys = omega arith
occurrences-append k (x ∷ xs) ys = omega (arith, occurrences-append k xs ys)

counts-summarize_loop :
    (plans : List ActionPlan) (n : ℕ) (c i : Counter) (k : String)
    → let (_, categories, intended) = summarize_loop plans n c i in
      (count_of categories k ≡ count_of c k + occurrences k (categories_of plans))
      × (count_of intended k ≡ count_of i k + occurrences k (actions_of plans))
unfolding summarize_loop
counts-summarize_loop [] n c i k = omega arith
counts-summarize_loop (p ∷ plans) n c i k = omega (
  arith,
  counts-summarize_loop plans (n + 1) (count_up c p.category_id) (count_all i p.actions) k,
  count_of-count_up c p.category_id k,
  count_of-count_all p.actions i k,
  occurrences-append k p.actions (actions_of plans),
)

-- A summary counts each category as often as a plan has it and each action as often as it is
-- planned, and has processed as many assets as there are plans.
pub summarize_scan_counts :
    (plans : List ActionPlan) (skipped errors : ℕ) (d : Bool) (k : String)
    → let s = summarize_scan plans skipped errors d in
      (count_of s.by_category k ≡ occurrences k (categories_of plans))
      × (count_of s.intended_actions k ≡ occurrences k (actions_of plans))
      × (s.processed ≡ length plans)
unfolding summarize_scan Dict.get
summarize_scan_counts plans skipped errors d k =
    omega (arith, counts-summarize_loop plans 0 [] [] k, processed-summarize_loop plans 0 [] [])
