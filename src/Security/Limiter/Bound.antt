-- ===== src/Security/Limiter/Bound.antt =====
-- What a new `InMemoryRateLimiter` permits over a sequence of requests.
use mathlib.Core.List.{append_assoc, append-nil}
use media_refinery.Common.{
  Bool, Bool-cases, List, String, [], arith, eq_iff, false, if◌then◌else◌, inl, inr, leb, length,
  ltb, negsuc, pos, raised-ne-returned, refl, returned, subst, suc, true, zero, ℕ, ℤ, ◌&&◌, ◌++◌,
  ◌+◌, ◌==◌, ◌∷◌, ◌≡◌, ◌≤◌, ◌⊎◌,
}
use media_refinery.Security.Limiter.{IsOrdered, Limiter, Request, bucket, new_limiter, run_checks}
use media_refinery.Security.Limiter.Refines.{Remembers, run_checks-full_checks}
use media_refinery.Security.Limiter.Window.{IsSorted, fresh, full_check, full_checks, recent}
use media_refinery.Common.Dict

-- The requests that were permitted.
unfoldable pub admitted : List Request → List Bool → List Request
admitted (r ∷ rest) (true ∷ answers) = r ∷ admitted rest answers
admitted (r ∷ rest) (false ∷ answers) = admitted rest answers
admitted requests answers = []

-- How many events of the key lie in the window that begins at `start`, its ends included.
unfoldable pub within : ℕ → String → ℕ → List Request → ℕ
within window key start [] = 0
within window key start ((k, t) ∷ log) =
    let rest = within window key start log in
    if (k == key) && (leb start t && leb t (start + window)) then suc rest else rest

within-recent :
    (window : ℕ) (key : String) (start now : ℕ) (log : List Request)
    → now ≤ start + window
    → within window key start log ≤ length (recent window key now log)
unfolding within recent
within-recent window key start now [] h = omega arith
within-recent window key start now ((k, t) ∷ log) h =
    ground (arith, within-recent window key start now log h)

within_added :
    (window : ℕ) (key k : String) (start now : ℕ) (log : List Request)
    → (within window key start (log ++ ((k, now) ∷ [])) ≡ within window key start log)
      ⊎ ((k ≡ key)
          × (now ≤ start + window)
          × (within window key start (log ++ ((k, now) ∷ [])) ≡ suc (within window key start log)))
unfolding within
within_added window key k start now [] = ground (arith, eq_iff k key)
within_added window key k start now ((j, t) ∷ log) =
    ground (arith, within_added window key k start now log)

module _ (max_events window : ℕ) where
  abbrev IsBounded : List Request → Type 0
  IsBounded log = (key : String) (start : ℕ) → within window key start log ≤ max_events

  full_check-IsBounded :
      (key : String) (now : ℕ) (log : List Request)
      → IsBounded log
      → IsBounded (full_check max_events window key now log).1
  unfolding full_check
  full_check-IsBounded key now log h other start =
      elim (Bool-cases (ltb (length (recent window key now log)) max_events)) [
        | inr full ↦ rw (full_check, full) (h other start)
        | inl free ↦
            rw (full_check, free)
              (elim (within_added window other key start now log) [
                | inl same ↦ rw same (h other start)
                | inr (e, inside, more) ↦
                    let few = within-recent window key start now log inside in
                    let counted : within window other start log
                        ≤ length (recent window key now log) =
                      subst
                        (λ (k : String).
                          within window k start log ≤ length (recent window key now log))
                        e few in
                    ground (arith, counted, more, free)
              ])
      ]

  full_checks-IsBounded :
      (requests log : List Request)
      → IsBounded log
      → IsBounded (log ++ admitted requests (full_checks max_events window requests log).0)
  unfolding full_checks admitted full_check
  full_checks-IsBounded [] log h = rw (append-nil log) h
  full_checks-IsBounded ((key, now) ∷ rest) log h =
      elim (Bool-cases (ltb (length (recent window key now log)) max_events)) [
        | inr full ↦ rw (full_checks, full_check, full, admitted) (full_checks-IsBounded rest log h)
        | inl free ↦
            let step : IsBounded (log ++ ((key, now) ∷ [])) =
              rw (full_check, free) at (full_check-IsBounded key now log h) in
            rw (full_checks, full_check, free, admitted)
              (rw (append_assoc log ((key, now) ∷ []) _) at
                (full_checks-IsBounded rest (log ++ ((key, now) ∷ [])) step))
      ]

new_limiter_eq :
    (n : ℤ) (window : ℕ) {l : Limiter}
    → new_limiter n window ≡ returned l
    → record { max_events = l.max_events; window = window; events = [] } ≡ l
unfolding new_limiter
new_limiter_eq (pos (suc n)) window h = cc
new_limiter_eq (pos zero) window h = absurd (raised-ne-returned h)
new_limiter_eq (negsuc n) window h = absurd (raised-ne-returned h)

module _ (n : ℤ) (window now : ℕ) (requests : List Request) where
  -- A new rate limiter gives requests that come in the order of the clock the answers of a limiter
  -- that keeps every event it permitted and permits one exactly if fewer than the maximum of its
  -- key lie in the window before it.
  pub run_checks_window :
      {l : Limiter}
      → new_limiter n window ≡ returned l
      → IsOrdered now requests
      → (run_checks requests l).0 ≡ (full_checks l.max_events window requests []).0
  unfolding bucket fresh recent IsSorted Dict.get
  run_checks_window {l} h ordered =
      run_checks-full_checks l.max_events window now requests l [] ordered (
        subst (λ (x : Limiter). Remembers l.max_events window now x []) (new_limiter_eq n window h)
          (record {
            max_eq = refl;
            window_eq = refl;
            sorted = λ key. tt;
            past = λ key. tt;
            same = λ key later le. refl;
          }))

  -- A new rate limiter permits, of requests that come in the order of the clock, at most its
  -- maximum for one key within any window of its length.
  pub run_checks_bound :
      {l : Limiter}
      → new_limiter n window ≡ returned l
      → IsOrdered now requests
      → (key : String) (start : ℕ)
      → within window key start (admitted requests (run_checks requests l).0) ≤ l.max_events
  unfolding within
  run_checks_bound {l} h ordered key start =
      rw (run_checks_window h ordered)
        (full_checks-IsBounded l.max_events window requests [] (λ key start. omega arith) key start)
