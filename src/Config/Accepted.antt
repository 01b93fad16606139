-- ===== src/Config/Accepted.antt =====
-- config.py, `validate_config_data`: what is known of a configuration that it returns.
use media_refinery.Common.{
  ◌++◌, >>=-IfReturned, IfReturned, IfReturned_at, List-cases, Option, Outcome-cases, String, [],
  ap, append-eq-nil, arith, inl, inr, map, raised-ne-returned, refl, returned, returned-injective,
  subst, ◌∙◌, ◌≡◌,
}
use media_refinery.Config.{AppConfig}
use media_refinery.Config.Policies.{validate_policies}
use media_refinery.Config.Profiles.{
  validate_categories, validate_classifier_profiles, validate_classifier_selection,
}
use media_refinery.Config.Sections.{
  validate_actions, validate_config_version, validate_immich, validate_scanner, validate_video,
}
use media_refinery.Config.Validate.{
  Checked, accept, check_document, unknown_keys, validate_config_data,
}
use media_refinery.Values.{Fields, Platform, Value, get_value, mapping}

-- Each of these checks of the document had no message.
pub record PassesChecks (platform : Platform) (d : Fields) (c : Checked) : Type 0 where
  pub categories_eq : validate_categories (get_value d "categories") ≡ ([], c.categories)
  pub profiles_eq :
      validate_classifier_profiles
        (get_value d "classifier_profiles")
        (map (λ x. x.id) c.categories)
      ≡ returned ([], c.profiles)
  pub selection_eq :
      validate_classifier_selection (get_value d "classifier") c.profiles
      ≡ ([], c.active_profile_name)
  pub policies_eq :
      validate_policies platform
        (map (λ x. x.id) c.categories)
        (validate_actions (get_value d "actions")).1
        (get_value d "policies")
      ≡ []

check_document-PassesChecks :
    (platform : Platform) (d : Fields)
    → IfReturned (λ c. c.errors ≡ [] → PassesChecks platform d c) (check_document platform d)
unfolding check_document
check_document-PassesChecks platform d =
    let P = λ (c : Checked). c.errors ≡ [] → PassesChecks platform d c in
    let categories = validate_categories (get_value d "categories") in
    let ids = map (λ x. x.id) categories.1 in
    >>=-IfReturned P (unknown_keys platform d) _ (λ unknown _.
      >>=-IfReturned P (validate_classifier_profiles (get_value d "classifier_profiles") ids) _
        (λ profiles checked.
          >>=-IfReturned P (validate_scanner platform (get_value d "scanner")) _ (λ scanner _.
            >>=-IfReturned P (validate_video (get_value d "video")) _ (λ video _ h.
              let actions = validate_actions (get_value d "actions") in
              let selection = validate_classifier_selection (get_value d "classifier") profiles.1 in
              let policies = validate_policies platform ids actions.1 (get_value d "policies") in
              let l1 = unknown ++ validate_config_version platform (get_value d "version") in
              let l2 = l1 ++ categories.0 in
              let l3 = l2 ++ profiles.0 in
              let l4 = l3 ++ selection.0 in
              let l8 =
                l4
                ++ validate_immich platform (get_value d "integration")
                ++ scanner
                ++ video
                ++ actions.0 in
              let h9 = append-eq-nil l8 policies (append-eq-nil (l8 ++ policies) _ h).0 in
              let h8 =
                append-eq-nil
                  (l4 ++ validate_immich platform (get_value d "integration") ++ scanner ++ video)
                  actions.0 h9.0 in
              let h7 =
                append-eq-nil
                  (l4 ++ validate_immich platform (get_value d "integration") ++ scanner) video
                  h8.0 in
              let h6 =
                append-eq-nil (l4 ++ validate_immich platform (get_value d "integration")) scanner
                  h7.0 in
              let h5 =
                append-eq-nil l4 (validate_immich platform (get_value d "integration")) h6.0 in
              let h4 = append-eq-nil l3 selection.0 h5.0 in
              let h3 = append-eq-nil l2 profiles.0 h4.0 in
              let h2 = append-eq-nil l1 categories.0 h3.0 in
              record {
                categories_eq = ap (λ e. (e, categories.1)) h2.1;
                profiles_eq = checked ∙ ap (λ e. returned (e, profiles.1)) h3.1;
                selection_eq = ap (λ e. (e, selection.1)) h4.1;
                policies_eq = h9.1;
              }))))

-- The configuration is made of the document and of what its checks keep.
pub record IsAccepted (platform : Platform) (document : Value) (config : AppConfig) : Type 0 where
  pub document_eq : document ≡ mapping config.raw
  pub checked : Checked
  pub passes : PassesChecks platform config.raw checked
  pub categories_eq : config.categories ≡ checked.categories
  pub profiles_eq : config.classifier_profiles ≡ checked.profiles
  pub name_eq : config.active_profile_name ≡ checked.active_profile_name

accept-IsAccepted :
    (platform : Platform) (source : Option String) (d : Fields) (c : Checked) {config : AppConfig}
    → (c.errors ≡ [] → PassesChecks platform d c)
    → accept source d c ≡ returned config
    → IsAccepted platform (mapping d) config
unfolding accept
accept-IsAccepted platform source d c {config} passes h = elim (List-cases c.errors) [
  | inl clean ↦
      subst (IsAccepted platform (mapping d)) (returned-injective (rw (accept, clean) at h))
        (record {
          document_eq = refl;
          checked = c;
          passes = passes clean;
          categories_eq = refl;
          profiles_eq = refl;
          name_eq = refl;
        })
  | inr (e, rest, dirty) ↦ absurd (raised-ne-returned (rw (accept, dirty) at h))
]

pub validate_config_data-IsAccepted :
    (platform : Platform) (source : Option String) (document : Value) {config : AppConfig}
    → validate_config_data platform source document ≡ returned config
    → IsAccepted platform document config
unfolding validate_config_data
validate_config_data-IsAccepted platform source (mapping d) h =
    elim (Outcome-cases (check_document platform d)) [
      | inr (e, failed) ↦ absurd (raised-ne-returned (rw (validate_config_data, failed) at h))
      | inl (c, checked) ↦
          accept-IsAccepted platform source d c
            (IfReturned_at (λ c. c.errors ≡ [] → PassesChecks platform d c)
              (check_document-PassesChecks platform d) checked)
            (rw (validate_config_data, checked) at h)
    ]
validate_config_data-IsAccepted platform source v h = absurd (ground arith)
