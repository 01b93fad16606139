-- ===== src/Service/AutoScanning/Ticked.antt =====
-- service/auto_scan.py: what a tick counts, where it leaves the cursor, and what it records.
use media_refinery.Common.{
  Bool-cases, Option-cases, Outcome, ap, leb, nat_eq, raised-ne-returned, returned, sym,
  Outcome-cases, code, inr, raised, Bool, List, Option, String, [], arith, false, inl, none, not,
  refl, some, suc, text_ltb, true, zero, ℕ, ℤ, ◌+◌, ◌∷◌, ◌≡◌, ◌≤◌, ◌⊎◌,
}
use media_refinery.Service.AutoScanning.{
  Answer, answer, count_page, extract_items_and_next, no_answer, page_result, take_page, Search,
  Walk, later, max_taken_at, taken_at, walk_pages,
}
use media_refinery.Values.{Value}

text_ltb_trans : (a b c : String) → text_ltb a b ≡ true → text_ltb b c ≡ true → text_ltb a c ≡ true
unfolding text_ltb
text_ltb_trans String.[] String.[] c h k = absurd (ground (arith, h))
text_ltb_trans (String.◌∷◌ x a) String.[] c h k = absurd (ground (arith, h))
text_ltb_trans a (String.◌∷◌ y b) String.[] h k = absurd (ground (arith, k))
text_ltb_trans String.[] (String.◌∷◌ y b) (String.◌∷◌ z c) h k = refl
text_ltb_trans (String.◌∷◌ x a) (String.◌∷◌ y b) (String.◌∷◌ z c) h k =
    ground (arith, h, k, text_ltb_trans a b c)

pub text_ltb_irrefl : (a : String) → text_ltb a a ≡ false
unfolding text_ltb
text_ltb_irrefl String.[] = refl
text_ltb_irrefl (String.◌∷◌ x a) = ground (arith, text_ltb_irrefl a)

-- The second cursor is not before the first.
abbrev pub not_before : Option String → Option String → Bool
not_before none new = true
not_before (some old) none = false
not_before (some old) (some new) = not (text_ltb new old)

later-not_before :
    (old out found : Option String)
    → not_before old out ≡ true
    → not_before old (later out found) ≡ true
unfolding later
later-not_before none out found h = refl
later-not_before (some old) none found h = absurd (ground (arith, h))
later-not_before (some old) (some out) none h = h
later-not_before (some old) (some out) (some found) h =
    ground (arith, h, text_ltb_trans out found old)

max_taken_at-not_before :
    (items : List Value) (old out : Option String)
    → not_before old out ≡ true
    → not_before old (max_taken_at items out) ≡ true
unfolding max_taken_at
max_taken_at-not_before [] old out h = h
max_taken_at-not_before (item ∷ items) old out h =
    max_taken_at-not_before items old (later out (taken_at item))
      (later-not_before old out (taken_at item) h)

Answer-cases :
    (a : Answer) → (a ≡ no_answer) ⊎ ((code : ℕ) × (body : Option Value) × (a ≡ answer code body))
Answer-cases no_answer = inl refl
Answer-cases (answer code body) = inr (code, body, refl)

page_result-disable :
    (code : ℕ) (body : Option Value) {error : String} {disable : Bool}
    → page_result code body ≡ raised (error, disable)
    → disable ≡ true
    → some error ≡ some "upstream_session_expired"
unfolding page_result
page_result-disable code body {error} {disable} h on = elim (Bool-cases (nat_eq code 401)) [
  | inl gone ↦ ap (λ f. some f.0) (sym (fault_eq (rw (page_result, gone) at h)))
  | inr other ↦ elim (Bool-cases (leb 500 code)) [
    | inl down ↦ absurd (off (fault_eq (rw (page_result, other, down) at h)) refl)
    | inr up ↦ elim (Bool-cases (leb 400 code)) [
      | inl bad ↦ absurd (off (fault_eq (rw (page_result, other, up, bad) at h)) refl)
      | inr good ↦ elim (Option-cases body) [
        | inl unread ↦ absurd (off (fault_eq (rw (page_result, other, up, good, unread) at h)) refl)
        | inr (payload, read) ↦
            absurd (raised-ne-returned (sym (rw (page_result, other, up, good, read) at h)))
      ]
    ]
  ]
]
  where
    as_fault : String × Bool → Outcome (String × Bool) Value
    as_fault f = raised f

    fault_or : String × Bool → Outcome (String × Bool) Value → String × Bool
    fault_or f (raised g) = g
    fault_or f (returned v) = f

    fault_eq : {f g : String × Bool} → as_fault f ≡ raised g → f ≡ g
    fault_eq {f} e = ap (fault_or f) e

    off : {f : String × Bool} → f ≡ (error, disable) → f.1 ≡ false → ⊥
    off e k = absurd (ground (arith, ap (λ g. g.1) e, k, on))

module _ (search : Search) (last_seen : Option String) where
  -- What a walk keeps from its start.
  pub record IsWalk (left : ℕ) (before after : Walk) : Type 0 where
    pub pages_le : after.pages_walked ≤ before.pages_walked + left
    pub cursor_eq :
        (old : Option String)
        → not_before old before.new_cursor ≡ true
        → not_before old after.new_cursor ≡ true
    pub disable_eq :
        after.disable ≡ true
        → (before.disable ≡ true) ⊎ (after.error_code ≡ some "upstream_session_expired")

  pub walk_pages-IsWalk :
      (left : ℕ) (page : Option ℤ) (w : Walk)
      → w.disable ≡ false
      → IsWalk left w (walk_pages search last_seen left page w)
  unfolding walk_pages
  walk_pages-IsWalk zero page w h = record {
    pages_le = omega arith;
    cursor_eq = λ old k. k;
    disable_eq = λ k. inl k;
  }
  walk_pages-IsWalk (suc left) none w h = record {
    pages_le = omega arith;
    cursor_eq = λ old k. k;
    disable_eq = λ k. inl k;
  }
  walk_pages-IsWalk (suc left) (some page) w h =
      elim (Answer-cases (search.page_of last_seen page)) [
        | inl silent ↦
            rw (walk_pages, silent)
              (record {
                pages_le = omega arith;
                cursor_eq = λ old k. k;
                disable_eq = λ k. absurd (ground (arith, k));
              })
        | inr (code, body, came) ↦ elim (Outcome-cases (page_result code body)) [
          | inr ((error, disable), bad) ↦
              rw (walk_pages, came, bad)
                (record {
                  pages_le = omega arith;
                  cursor_eq = λ old k. k;
                  disable_eq = λ k. inr (page_result-disable code body bad k);
                })
          | inl (payload, fine) ↦
              let (items, next) = extract_items_and_next search payload in
              let rest = walk_pages-IsWalk left next (take_page items (count_page w)) h in
              rw (walk_pages, came, fine)
                (record {
                  pages_le = omega (arith, rest.pages_le);
                  cursor_eq = λ old k.
                      rest.cursor_eq old (max_taken_at-not_before items old w.new_cursor k);
                  disable_eq = rest.disable_eq;
                })
        ]
      ]
