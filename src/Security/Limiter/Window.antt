-- ===== src/Security/Limiter/Window.antt =====
-- The sliding window of `InMemoryRateLimiter` against a limiter that forgets nothing: it keeps every event
-- that it permitted and looks back over the window.
use media_refinery.Common.{
  All, Bool, Bool-cases, List, String, [], arith, false, if◌then◌else◌, inl, inr, length, ltb, not,
  refl, true, ℕ, ◌&&◌, ◌++◌, ◌+◌, ◌==◌, ◌∷◌, ◌≡◌, ◌≤◌,
}
use media_refinery.Security.Limiter.{Request, drop_stale, is_stale}

-- The permitted events of the key that lie in the window before `now`.
unfoldable pub recent : ℕ → String → ℕ → List Request → List ℕ
recent window key now [] = []
recent window key now ((k, t) ∷ log) =
    let rest = recent window key now log in
    if (k == key) && not (is_stale window now t) then t ∷ rest else rest

-- One request to the limiter that forgets nothing.
unfoldable pub full_check : ℕ → ℕ → String → ℕ → List Request → Bool × List Request
unfolding recent
full_check max_events window key now log =
    if ltb (length (recent window key now log)) max_events
    then (true, log ++ ((key, now) ∷ []))
    else (false, log)

unfoldable pub full_checks : ℕ → ℕ → List Request → List Request → List Bool × List Request
unfolding full_check
full_checks max_events window [] log = ([], log)
full_checks max_events window ((key, now) ∷ rest) log =
    let (answer, after) = full_check max_events window key now log in
    let (answers, final) = full_checks max_events window rest after in (answer ∷ answers, final)

unfoldable pub fresh : ℕ → ℕ → List ℕ → List ℕ
fresh window now [] = []
fresh window now (t ∷ ts) =
    let rest = fresh window now ts in if is_stale window now t then rest else t ∷ rest

-- The times are in order, from `low`.
unfoldable pub IsSorted : ℕ → List ℕ → Type 0
IsSorted low [] = Unit
IsSorted low (t ∷ ts) = (low ≤ t) × IsSorted t ts

lower-IsSorted : (low t : ℕ) (ts : List ℕ) → low ≤ t → IsSorted t ts → IsSorted low ts
unfolding IsSorted
lower-IsSorted low t [] h sorted = sorted
lower-IsSorted low t (u ∷ ts) h sorted = (omega (arith, sorted.0), sorted.1)

pub append-IsSorted :
    (low now : ℕ) (ts : List ℕ)
    → IsSorted low ts
    → low ≤ now
    → All (λ t. t ≤ now) ts
    → IsSorted low (ts ++ (now ∷ []))
unfolding IsSorted
append-IsSorted low now [] sorted h all = (h, tt)
append-IsSorted low now (t ∷ ts) sorted h all =
    (sorted.0, append-IsSorted t now ts sorted.1 all.0 all.1)

fresh_all :
    (window now low : ℕ) (ts : List ℕ)
    → IsSorted low ts
    → now ≤ low + window
    → fresh window now ts ≡ ts
unfolding fresh IsSorted
fresh_all window now low [] sorted h = refl
fresh_all window now low (t ∷ ts) sorted h =
    let later : now ≤ t + window = omega (arith, sorted.0) in
    ground (arith, fresh_all window now t ts sorted.1 later)

pub drop_stale-fresh :
    (window now low : ℕ) (ts : List ℕ)
    → IsSorted low ts
    → drop_stale window now ts ≡ fresh window now ts
unfolding drop_stale fresh IsSorted
drop_stale-fresh window now low [] sorted = refl
drop_stale-fresh window now low (t ∷ ts) sorted = elim (Bool-cases (is_stale window now t)) [
  | inl stale ↦ rw (drop_stale, fresh, stale) (drop_stale-fresh window now t ts sorted.1)
  | inr kept ↦ rw (drop_stale, fresh, kept, fresh_all window now t ts sorted.1 (ground arith)) refl
]

pub fresh-fresh :
    (window now later : ℕ) (ts : List ℕ)
    → now ≤ later
    → fresh window later (fresh window now ts) ≡ fresh window later ts
unfolding fresh
fresh-fresh window now later [] h = refl
fresh-fresh window now later (t ∷ ts) h = ground (arith, fresh-fresh window now later ts h)

pub fresh-append :
    (window now : ℕ) (xs ys : List ℕ)
    → fresh window now (xs ++ ys) ≡ fresh window now xs ++ fresh window now ys
unfolding fresh
fresh-append window now [] ys = refl
fresh-append window now (x ∷ xs) ys = ground (arith, fresh-append window now xs ys)

pub recent-append :
    (window : ℕ) (key : String) (now : ℕ) (xs ys : List Request)
    → recent window key now (xs ++ ys) ≡ recent window key now xs ++ recent window key now ys
unfolding recent
recent-append window key now [] ys = refl
recent-append window key now ((k, t) ∷ xs) ys = ground (arith, recent-append window key now xs ys)

pub fresh-IsSorted :
    (window now low : ℕ) (ts : List ℕ) → IsSorted low ts → IsSorted low (fresh window now ts)
unfolding fresh IsSorted
fresh-IsSorted window now low [] sorted = sorted
fresh-IsSorted window now low (t ∷ ts) sorted = elim (Bool-cases (is_stale window now t)) [
  | inl stale ↦
      rw (fresh, stale)
        (lower-IsSorted low t (fresh window now ts) sorted.0
          (fresh-IsSorted window now t ts sorted.1))
  | inr kept ↦ rw (fresh, kept) (sorted.0, fresh-IsSorted window now t ts sorted.1)
]
