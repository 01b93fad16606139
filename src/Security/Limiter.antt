-- ===== src/Security/Limiter.antt =====
-- service/security.py: `InMemoryRateLimiter`. Times are natural numbers of a tick of the monotonic clock;
-- the lock makes a call of `check` one step.
pub mod Window
pub mod Refines
pub mod Bound
use media_refinery.Common.{
  Bool, List, Option, Outcome, String, [], false, if◌then◌else◌, leb, length, ltb, none, pos,
  raised, returned, some, suc, true, ℕ, ℤ, ◌++◌, ◌+◌, ◌∷◌, ◌≤◌,
}
use media_refinery.Common.Dict.{Dict}
use media_refinery.Common.Dict

-- `ValueError("max_events must be positive")`
pub data LimiterError : Type 0 where
  not_positive : LimiterError

pub record Limiter : Type 0 where
  pub max_events : ℕ
  pub window : ℕ
  pub events : Dict (List ℕ)

unfoldable pub new_limiter : ℤ → ℕ → Outcome LimiterError Limiter
new_limiter (pos (suc n)) window =
    returned (record { max_events = suc n; window = window; events = [] })
new_limiter n window = raised not_positive

-- `bucket[0] < timestamp - window`, with the window on the other side
abbrev pub is_stale : ℕ → ℕ → ℕ → Bool
is_stale window now t = ltb (t + window) now

-- `while bucket and bucket[0] < cutoff: bucket.popleft()`
unfoldable pub drop_stale : ℕ → ℕ → List ℕ → List ℕ
drop_stale window now [] = []
drop_stale window now (t ∷ ts) =
    let rest = drop_stale window now ts in if is_stale window now t then rest else t ∷ ts

-- `self._events.setdefault(key, deque())`
unfoldable pub bucket : Limiter → String → List ℕ
bucket l key = elim (Dict.get l.events key) [ none ↦ [] | some ts ↦ ts ]

abbrev pub with_bucket : String → List ℕ → Limiter → Limiter
with_bucket key ts l = record {
  max_events = l.max_events;
  window = l.window;
  events = Dict.put l.events key ts;
}

-- `check`: whether the event is permitted, and the buckets that it leaves.
unfoldable pub check : String → ℕ → Limiter → Bool × Limiter
unfolding drop_stale bucket
check key now l =
    let ts = drop_stale l.window now (bucket l key) in
    if leb l.max_events (length ts)
    then (false, with_bucket key ts l)
    else (true, with_bucket key (ts ++ (now ∷ [])) l)

unfoldable pub reset : Option String → Limiter → Limiter
reset none l = record { max_events = l.max_events; window = l.window; events = [] }
reset (some key) l = record {
  max_events = l.max_events;
  window = l.window;
  events = Dict.remove l.events key;
}

abbrev pub Request : Type 0
Request = String × ℕ

-- The answers to the requests, in their order.
unfoldable pub run_checks : List Request → Limiter → List Bool × Limiter
unfolding check
run_checks [] l = ([], l)
run_checks ((key, now) ∷ rest) l =
    let (answer, after) = check key now l in
    let (answers, final) = run_checks rest after in (answer ∷ answers, final)

-- The requests come in the order of the clock, from the time `now`.
unfoldable pub IsOrdered : ℕ → List Request → Type 0
IsOrdered now [] = Unit
IsOrdered now ((key, t) ∷ rest) = (now ≤ t) × IsOrdered t rest
