-- ===== src/Config/Sound.antt =====
-- config.py: what a document that `_validate_policies` takes says of its actions.
use media_refinery.Common.{
  ◌==◌, Bool-cases, cons-ne-nil, inl, inr, is_empty, is_nil, none-ne-some, not, subst, ◌&&◌, ◌<>◌,
  All, Bool, List, String, [], append-eq-nil, arith, contains, false, map, some, true, ℕ, ◌+◌, ◌∷◌,
  ◌≡◌,
}
use media_refinery.Config.{allowed_media_types, allowed_actions, destructive_actions}
use media_refinery.Config.Policies.{
  validate_category_policy, validate_on_match, validate_policy_fields, validate_rules,
  validate_action, validate_action_list, validate_rule,
}
use media_refinery.Values.{
  end, field, is_key, null, Fields, Items, Platform, Value, as_mapping, cons, get_value, nil,
  non_empty_text, seq, str, to_list, to_text,
}
use media_refinery.Values.Laws.{get_value_at}
use media_refinery.Actions.{normalized_action}
use media_refinery.Config.Checks.{at_index, complain}

-- An action that may be configured: it is a known one, none that destroys under any spelling, and
-- archiving only where that is enabled.
pub record MayConfigure (enabled : Bool) (a : String) : Type 0 where
  pub allowed : contains allowed_actions a ≡ true
  pub harmless : contains destructive_actions (normalized_action a) ≡ false
  pub archiving : (a == "archive") ≡ true → enabled ≡ true

pub complain-nil : (b : Bool) (m : String) → complain b m ≡ [] → b ≡ false
complain-nil b m h = ground arith

module _ (platform : Platform) (ids : List String) (enabled : Bool) where
  action-MayConfigure :
      (a : String) (path : String)
      → validate_action platform ids enabled path (str a) ≡ []
      → MayConfigure enabled a
  unfolding validate_action non_empty_text
  action-MayConfigure a path h = record {
    allowed = ground arith;
    harmless = ground arith;
    archiving = λ e. ground arith;
  }

  validate_action-MayConfigure :
      (path : String) (v : Value)
      → validate_action platform ids enabled path v ≡ []
      → MayConfigure enabled (to_text platform v)
  unfolding validate_action non_empty_text to_text
  validate_action-MayConfigure path (str a) h = action-MayConfigure a path h
  validate_action-MayConfigure path v h = absurd (ground arith)

  validate_action_list-AllMayConfigure :
      (path : String) (index : ℕ) (vs : Items)
      → validate_action_list platform ids enabled path index vs ≡ []
      → All (MayConfigure enabled) (map (to_text platform) (to_list vs))
  unfolding validate_action_list to_list
  validate_action_list-AllMayConfigure path index nil h = tt
  validate_action_list-AllMayConfigure path index (cons v vs) h =
      let parts =
        append-eq-nil (validate_action platform ids enabled (at_index path index) v) _ h in
      (
        validate_action-MayConfigure (at_index path index) v parts.0,
        validate_action_list-AllMayConfigure path (index + 1) vs parts.1,
      )

  -- What the checks of a rule leave, and what those of a category's policy do.
  abbrev pub IsSoundRule : Value → Type 0
  IsSoundRule rule =
      (d : Fields)
      → as_mapping rule ≡ some d
      → (first : Value) (rest : Items) → get_value d "on_match" ≡ seq (cons first rest)
      → All (MayConfigure enabled) (map (to_text platform) (first ∷ to_list rest))

  abbrev pub IsSoundPolicy : Value → Type 0
  IsSoundPolicy policy =
      (d : Fields) → as_mapping policy ≡ some d → (name : String) → IsSoundRule (get_value d name)

  validate_on_match-AllMayConfigure :
      (path : String) (first : Value) (rest : Items)
      → validate_on_match platform ids enabled path (seq (cons first rest)) ≡ []
      → All (MayConfigure enabled) (map (to_text platform) (first ∷ to_list rest))
  unfolding validate_on_match to_list
  validate_on_match-AllMayConfigure path first rest h =
      validate_action_list-AllMayConfigure path 0 (cons first rest) h

  validate_rule-IsSoundRule :
      (path media_type : String) (rule : Value)
      → validate_rule platform ids enabled path (str media_type) rule ≡ []
      → IsSoundRule rule
  unfolding validate_rule
  validate_rule-IsSoundRule path media_type rule h d e first rest listed =
      elim (Bool-cases (contains allowed_media_types media_type)) [
        | inl known ↦
            validate_on_match-AllMayConfigure (path <> ".on_match") first rest
              (rw (known, e, listed) at h)
        | inr unknown ↦ absurd (cons-ne-nil (rw unknown at h))
      ]

  null-IsSoundRule : IsSoundRule null
  unfolding as_mapping
  null-IsSoundRule d e = absurd (none-ne-some e)

  validate_rules-IsSoundRule :
      (path : String) (d : Fields) (name : String)
      → validate_rules platform ids enabled path d ≡ []
      → IsSoundRule (get_value d name)
  unfolding validate_rules get_value is_key
  validate_rules-IsSoundRule path end name h = null-IsSoundRule
  validate_rules-IsSoundRule path (field k v rest) name h =
      let parts =
        append-eq-nil (validate_rule platform ids enabled (path <> "." <> to_text platform k) k v) _
          h in
      get_value_at IsSoundRule k v rest name
        (λ e. validate_rule-IsSoundRule (path <> "." <> to_text platform k) name v (
          subst
            (λ t. validate_rule platform ids enabled (path <> "." <> to_text platform k) t v ≡ []) e
            parts.0))
        (validate_rules-IsSoundRule path rest name parts.1)

  validate_category_policy-IsSoundPolicy :
      (name : String) (policy : Value)
      → validate_category_policy platform ids enabled (str name) policy ≡ []
      → IsSoundPolicy policy
  unfolding validate_category_policy non_empty_text is_empty
  validate_category_policy-IsSoundPolicy name policy h d e media_type =
      elim (Bool-cases (is_empty name)) [
        | inl empty ↦
            absurd (cons-ne-nil (rw (validate_category_policy, non_empty_text, empty) at h))
        | inr given ↦
            validate_rules-IsSoundRule ("policies." <> name) d media_type
              (append-eq-nil (complain (not (is_nil ids) && not (contains ids name)) _) _
                (rw (validate_category_policy, non_empty_text, given, e) at h)).1
      ]

  null-IsSoundPolicy : IsSoundPolicy null
  unfolding as_mapping
  null-IsSoundPolicy d e = absurd (none-ne-some e)

  pub validate_policy_fields-IsSoundPolicy :
      (d : Fields) (name : String)
      → validate_policy_fields platform ids enabled d ≡ []
      → IsSoundPolicy (get_value d name)
  unfolding validate_policy_fields get_value
  validate_policy_fields-IsSoundPolicy end name h = null-IsSoundPolicy
  validate_policy_fields-IsSoundPolicy (field k v rest) name h =
      let parts = append-eq-nil (validate_category_policy platform ids enabled k v) _ h in
      get_value_at IsSoundPolicy k v rest name
        (λ e.
          validate_category_policy-IsSoundPolicy name v
            (subst (λ t. validate_category_policy platform ids enabled t v ≡ []) e parts.0))
        (validate_policy_fields-IsSoundPolicy rest name parts.1)
