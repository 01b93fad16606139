-- ===== src/Reporter.antt =====
-- reporter.py: the counts of a scan.
pub mod Laws
use media_refinery.Common.Dict
use media_refinery.Common.{Bool, List, String, [], or_default, ℕ, ◌+◌, ◌∷◌}
use media_refinery.Common.Dict.{Dict, keys}
use media_refinery.Decision.{ActionPlan, intended}

-- `collections.Counter`: counts in the order of their first occurrence.
abbrev pub Counter : Type 0
Counter = Dict ℕ

-- counter[key] += 1
unfoldable pub count_up : Counter → String → Counter
count_up counter key = Dict.put counter key (or_default (Dict.get counter key) 0 + 1)

-- counter.update(keys)
unfoldable pub count_all : Counter → List String → Counter
unfolding count_up
count_all counter [] = counter
count_all counter (key ∷ keys) = count_all (count_up counter key) keys

pub record ScanSummary : Type 0 where
  pub processed : ℕ
  pub skipped : ℕ
  pub errors : ℕ
  pub by_category : Counter
  pub intended_actions : Counter
  pub dry_run : Bool

unfoldable pub summarize_loop : List ActionPlan → ℕ → Counter → Counter → ℕ × Counter × Counter
unfolding count_all count_up
summarize_loop [] processed categories intended = (processed, categories, intended)
summarize_loop (plan ∷ plans) processed categories intended =
    summarize_loop plans (processed + 1) (count_up categories plan.category_id)
      (count_all intended plan.actions)

unfoldable pub summarize_scan : List ActionPlan → ℕ → ℕ → Bool → ScanSummary
unfolding summarize_loop
summarize_scan plans skipped errors dry_run =
    let (processed, categories, intended) = summarize_loop plans 0 [] [] in
    record {
      processed = processed;
      skipped = skipped;
      errors = errors;
      by_category = categories;
      intended_actions = intended;
      dry_run = dry_run;
    }
