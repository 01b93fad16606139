-- ===== src/Security/Limiter/Refines.antt =====
-- `InMemoryRateLimiter` gives the answers of the limiter that forgets nothing.
use media_refinery.Common.{
  ap, subst, All-append, leb, length, ltb, refl, sym, true, ◌∙◌, All, Bool-cases, List, String, [],
  arith, eq_iff, eq_refl, false, if◌then◌else◌, inl, inr, ℕ, ◌++◌, ◌==◌, ◌∷◌, ◌≡◌, ◌≤◌,
}
use media_refinery.Security.Limiter.Window.{
  append-IsSorted, drop_stale-fresh, fresh-IsSorted, fresh-append, fresh-fresh, full_check,
  full_checks, IsSorted, fresh, recent,
}
use media_refinery.Security.Limiter.{
  IsOrdered, check, run_checks, Limiter, Request, bucket, drop_stale, is_stale, with_bucket,
}
use media_refinery.Common.Dict

module _ (max_events window : ℕ) where
  -- The buckets hold what is still in the window of the permitted events.
  pub record Remembers (now : ℕ) (l : Limiter) (log : List Request) : Type 0 where
    pub max_eq : l.max_events ≡ max_events
    pub window_eq : l.window ≡ window
    pub sorted : (key : String) → IsSorted 0 (bucket l key)
    pub past : (key : String) → All (λ t. t ≤ now) (bucket l key)
    pub same :
        (key : String) (later : ℕ)
        → now ≤ later
        → fresh window later (bucket l key) ≡ recent window key later log

  raise_bound : (a b : ℕ) (xs : List ℕ) → a ≤ b → All (λ t. t ≤ a) xs → All (λ t. t ≤ b) xs
  raise_bound a b [] h all = tt
  raise_bound a b (x ∷ xs) h all = (omega (arith, all.0), raise_bound a b xs h all.1)

  drop_stale-All :
      (now low : ℕ) (ts : List ℕ)
      → now ≤ low
      → All (λ t. t ≤ now) ts
      → All (λ t. t ≤ low) (drop_stale window low ts)
  unfolding drop_stale
  drop_stale-All now low [] h all = all
  drop_stale-All now low (t ∷ ts) h all = elim (Bool-cases (is_stale window low t)) [
    | inl stale ↦ rw (drop_stale, stale) (drop_stale-All now low ts h all.1)
    | inr kept ↦ rw (drop_stale, kept) (raise_bound now low (t ∷ ts) h all)
  ]

  bucket-with_bucket :
      (key other : String) (ts : List ℕ) (l : Limiter)
      → bucket (with_bucket key ts l) other ≡ (if key == other then ts else bucket l other)
  unfolding bucket
  bucket-with_bucket key other ts l = ground (arith, Dict.get-put l.events key other ts)

  recent_other :
      (key other : String) (now later : ℕ) (log : List Request)
      → (key == other) ≡ false
      → recent window other later (log ++ ((key, now) ∷ [])) ≡ recent window other later log
  unfolding recent
  recent_other key other now later [] h = ground arith
  recent_other key other now later ((k, t) ∷ log) h =
      ground (arith, recent_other key other now later log h)

  recent_self :
      (key : String) (now later : ℕ) (log : List Request)
      → recent window key later (log ++ ((key, now) ∷ []))
        ≡ recent window key later log ++ fresh window later (now ∷ [])
  unfolding recent fresh
  recent_self key now later [] = ground (arith, eq_refl key)
  recent_self key now later ((k, t) ∷ log) = ground (arith, recent_self key now later log)

  -- The bucket of one key and the log change together.
  with_bucket-Remembers :
      (before now : ℕ) (key : String) (ts : List ℕ) (l : Limiter) (log after : List Request)
      → before ≤ now
      → Remembers before l log
      → IsSorted 0 ts
      → All (λ t. t ≤ now) ts
      → ((later : ℕ) → now ≤ later → fresh window later ts ≡ recent window key later after)
      → ((other : String) (later : ℕ)
          → (key == other) ≡ false
          → recent window other later after ≡ recent window other later log)
      → Remembers now (with_bucket key ts l) after
  with_bucket-Remembers before now key ts l log after h r sorted past same others = record {
    max_eq = r.max_eq;
    window_eq = r.window_eq;
    sorted = λ other. at_key other (λ xs. IsSorted 0 xs) sorted (λ _. r.sorted other);
    past = λ other.
        at_key other (λ xs. All (λ t. t ≤ now) xs) past
          (λ _. raise_bound before now (bucket l other) h (r.past other));
    same = λ other later le. elim (Bool-cases (key == other)) [
      | inl e ↦
          let is : key ≡ other = (eq_iff key other).0 e in
          rw (bucket-with_bucket key other ts l, e, ← is) (same later le)
      | inr e ↦
          rw (bucket-with_bucket key other ts l, e, others other later e)
            (r.same other later (omega arith))
    ];
  }
    where
      at_key :
          (other : String) (P : List ℕ → Type 0)
          → P ts
          → ((key == other) ≡ false → P (bucket l other))
          → P (bucket (with_bucket key ts l) other)
      at_key other P p q = elim (Bool-cases (key == other)) [
        | inl e ↦ rw (bucket-with_bucket key other ts l, e) p
        | inr e ↦ rw (bucket-with_bucket key other ts l, e) (q e)
      ]

  check-full_check :
      (before now : ℕ) (key : String) (l : Limiter) (log : List Request)
      → before ≤ now
      → Remembers before l log
      → ((check key now l).0 ≡ (full_check max_events window key now log).0)
        × Remembers now (check key now l).1 (full_check max_events window key now log).1
  unfolding check full_check
  check-full_check before now key l log h r =
      let kept = bucket l key in
      let ts = drop_stale l.window now kept in
      let as_fresh : ts ≡ fresh window now kept =
        subst (λ (w : ℕ). drop_stale w now kept ≡ fresh window now kept) (sym r.window_eq)
          (drop_stale-fresh window now 0 kept (r.sorted key)) in
      let as_recent : length ts ≡ length (recent window key now log) =
        ap length (as_fresh ∙ r.same key now h) in
      let ts_sorted : IsSorted 0 ts =
        subst (IsSorted 0) (sym as_fresh) (fresh-IsSorted window now 0 kept (r.sorted key)) in
      let ts_past : All (λ t. t ≤ now) ts =
        subst (λ (w : ℕ). All (λ t. t ≤ now) (drop_stale w now kept)) (sym r.window_eq)
          (drop_stale-All before now kept h (r.past key)) in
      let ts_same : (later : ℕ)
          → now ≤ later
          → fresh window later ts ≡ recent window key later log =
        λ later le.
          ap (fresh window later) as_fresh
          ∙ fresh-fresh window now later kept le
          ∙ r.same key later (omega arith) in
      elim (Bool-cases (leb l.max_events (length ts))) [
        | inl full ↦
            let refused : ltb (length (recent window key now log)) max_events ≡ false =
              ground (arith, as_recent, r.max_eq, full) in
            rw (check, full_check, full, refused)
              (
                refl,
                with_bucket-Remembers before now key ts l log log h r ts_sorted ts_past ts_same
                    (λ other later e. refl),
              )
        | inr free ↦
            let permitted : ltb (length (recent window key now log)) max_events ≡ true =
              ground (arith, as_recent, r.max_eq, free) in
            rw (check, full_check, free, permitted)
              (
                refl,
                with_bucket-Remembers before now key (ts ++ (now ∷ [])) l log
                    (log ++ ((key, now) ∷ [])) h r
                    (append-IsSorted 0 now ts ts_sorted (omega arith) ts_past)
                    (All-append (λ t. t ≤ now) ts (now ∷ []) ts_past (omega arith, tt))
                    (λ later le.
                      fresh-append window later ts (now ∷ [])
                      ∙ ap (λ xs. xs ++ fresh window later (now ∷ [])) (ts_same later le)
                      ∙ sym (recent_self key now later log))
                    (λ other later e. recent_other key other now later log e),
              )
      ]

  pub run_checks-full_checks :
      (now : ℕ) (requests : List Request) (l : Limiter) (log : List Request)
      → IsOrdered now requests
      → Remembers now l log
      → (run_checks requests l).0 ≡ (full_checks max_events window requests log).0
  unfolding run_checks full_checks IsOrdered
  run_checks-full_checks now [] l log ordered r = refl
  run_checks-full_checks now ((key, t) ∷ rest) l log ordered r =
      let (answer, after) = check-full_check now t key l log ordered.0 r in
      rw
        (
          answer,
          run_checks-full_checks t rest (check key t l).1 (full_check max_events window key t log).1
              ordered.1 after,
        )
        refl
