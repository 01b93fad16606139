-- ===== src/Pipeline/Start.antt =====
-- What the start of a scan takes over from its set-up, and where its counters begin.
use media_refinery.Common.{
  >>=-IfReturned, Bool-cases, IfReturned, IfReturned_at, String, arith, inl, inr, is_empty, length,
  raised-ne-returned, refl, returned, returned-injective, subst, ℕ, ◌||◌, ◌≡◌,
}
use media_refinery.Actions.{new_executor}
use media_refinery.Classifier.{Scores, create_classifier}
use media_refinery.Pipeline.{Progress, Scan}
use media_refinery.Pipeline.Laws.{Adds, IsAccounted}
use media_refinery.Pipeline.Run.{
  Setup, active_profile_or_raise, configured_page_size, dry_run_of, raise_setup, start_scan,
}
use media_refinery.Scanner.{filters_from_config}
use media_refinery.Store.{Store, record_config_snapshot, record_model_version, start_run}
use media_refinery.Values.{Fields}
use media_refinery.Config

record_model_version-Adds :
    (backend name version hash : String) (s : Store) {r : ℕ × Store}
    → record_model_version backend name version hash s ≡ returned r
    → Adds s r.1 0 0
unfolding record_model_version
record_model_version-Adds backend name version hash s {r} h =
    elim (Bool-cases (is_empty backend || is_empty name)) [
      | inl missing ↦ absurd (raised-ne-returned (rw missing at h))
      | inr given ↦ subst (λ t. Adds s t.1 0 0) (returned-injective (rw given at h)) (omega arith)
    ]

module _ {scores : Scores} {W : Type 0} where
  -- The scan is for the client, the progress for its world; the mode is that of the override and the
  -- settings, and nothing is counted yet.
  pub record StartsAs (setup : Setup scores W) (store : Store) (w : W)
      (start : Scan scores W × Progress W) : Type 0 where
    pub client_eq : start.0.client ≡ setup.client
    pub world_eq : start.1.world ≡ w
    pub settings : Fields
    pub settings_eq : Config.actions setup.config ≡ returned settings
    pub mode_eq : start.0.dry_run ≡ dry_run_of setup.dry_run_override settings
    pub accounted : IsAccounted (length store.errors) (length store.classification_runs) start.1

  start_scan-StartsAs :
      (setup : Setup scores W) (store : Store) (w : W)
      → IfReturned (StartsAs setup store w) (start_scan setup store w)
  unfolding start_scan record_config_snapshot start_run
  start_scan-StartsAs setup store w =
      let P = StartsAs setup store w in
      >>=-IfReturned P (Config.actions setup.config) _ (λ settings read.
        >>=-IfReturned P (active_profile_or_raise setup.config) _ (λ profile _.
          >>=-IfReturned P (raise_setup (create_classifier scores setup.registry profile)) _
            (λ classifier _.
              >>=-IfReturned P (new_executor setup.config setup.dry_run_override) _ (λ executor _.
                >>=-IfReturned P
                  (record_model_version profile.backend profile.name classifier.backend.version
                    setup.model_identity_hash
                    (record_config_snapshot setup.config_hash setup.config.source store).1)
                  _
                  (λ model recorded.
                    >>=-IfReturned P (filters_from_config setup.platform setup.config) _
                      (λ filters _.
                        >>=-IfReturned P (configured_page_size setup.config) _ (λ page_size _.
                          record {
                            client_eq = refl;
                            world_eq = refl;
                            settings = settings;
                            settings_eq = read;
                            mode_eq = refl;
                            accounted = omega (arith, record_model_version-Adds _ _ _ _ _ recorded);
                          })))))))

  pub start_scan_at :
      (setup : Setup scores W) (store : Store) (w : W) {start : Scan scores W × Progress W}
      → start_scan setup store w ≡ returned start
      → StartsAs setup store w start
  start_scan_at setup store w started =
      IfReturned_at (StartsAs setup store w) (start_scan-StartsAs setup store w) started
