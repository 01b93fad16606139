-- ===== src/Lib.antt =====
-- A model of MediaRefinery, a companion of an Immich photo library. A scan lists the library's assets,
-- classifies those that are new or changed, decides by policy what should happen to each, and does it, or
-- says what it would do. A web service around it keeps sessions, secrets and runs for several users.
--
-- The parts, under src/mediarefinery/, and the files that model them:
--   * Pipeline (pipeline.py): `run_scan`. `Pipeline.Run` has the set-up and the end, `start_scan` and
--     `finish_scan`; `Pipeline` has the loop, `visit_pages`, and its body, `visit`, `process_asset` and
--     `act`. A `Progress` is the store, the client's world and the local counters.
--   * Scanner (scanner.py): `filters_from_config` and `matches_filters`. `Scanner.Pages` has
--     `iter_candidates` by itself, for a caller that only reads.
--   * Classifier (classifier.py): batches, the mapping of labels to categories, the aggregation of the
--     frames of a video in `Classifier.Aggregate`, and the noop backend in `Classifier.Noop`.
--   * Decision (decision.py): `decide`, from a category and a media type to an `ActionPlan`.
--   * Actions (actions.py): the executor of a plan, with `execute_one` for its guards and one function for
--     each side effect.
--   * Client (immich.py): the calls of a client as a record over its world, and in `Client.Mock` the
--     client `MockImmichClient` with its dictionaries, sets and logs of requests.
--   * Store (state.py): the SQLite tables that a scan writes, as lists of rows in the order of their ids,
--     and the methods of `StateStore` that it calls.
--   * Reporter (reporter.py): `summarize_scan`.
--   * Config (config.py): `AppConfig`, its accessors and constants. `Config.Checks`, `Config.Sections`,
--     `Config.Profiles` and `Config.Policies` have the validators, each of which gives its messages and
--     what it keeps, and `Config.Validate` has `validate_config_data`. Values: what a YAML document may
--     hold, and Python's truth and text of it.
--   * Security (service/security.py): `Security.Limiter` has the rate limiter, `Security.Cipher` the layout
--     of a ciphertext, `Security.MasterKey` the key file, and `Security.Rotation` the rotation of the
--     stored secrets, row by row and then both tables in one transaction.
--   * Service (service/state_store.py): the tables of the web service and, in `Service.Scope` and
--     `Service.Purge`, the methods of `UserScopedState`, each with its user as an argument.
--     `Service.Scheduler` (service/scheduler.py) has `submit_scan` and the synthetic runner,
--     `Service.Sessions` (service/auth.py, service/deps.py) the gate of every request,
--     `Service.LockedFolder` (service/locked_folder.py) the flow behind the PIN, and
--     `Service.AutoScanning` (service/auto_scan.py) the tick of a user and the coordinator.
--   * Common: tests, lists, texts, integers, decimal numerals, dictionaries, and calls that may raise.
--   * Tests: concrete data, whole runs of a scan, and the theorems at concrete data.
--
-- A run goes from the listing of a page through the filters, the store's word on whether an asset needs
-- processing, the classifier, the decision and the executor to the rows of the store. Each asset is
-- tested against the store as the assets before it left it, since the source's generator is lazy.
--
-- A call that may raise is an `Outcome`; a call of a client also changes the client's world, and what it
-- wrote before it raised stays written. Exceptions keep their kind and lose their message, but
-- for the messages of a configuration that is refused. The loop over the pages has fuel, where `none` says that it ran out: the source's loop is unbounded, and the mock
-- client has at most one page for each asset and one more, so more fuel than assets is enough.
--
-- Parameters stand for what is not in the repository or not modelled: `Platform` for Python's own `str`,
-- `urlparse` and `fromisoformat`, `Scores` for floating-point scores with their order and mean, `Extractor`
-- for the media extractor, and the registry of the classifier's backends. The digests of the configuration and of
-- the model are given. `lower` maps the letters A to Z only. `Aead` stands for AES-GCM, and the random bytes
-- and the readings of the clock are arguments; a time of the clock is a natural number of ticks.
--
-- The walk over the pages of the search has the number of pages that are left, at most `max_pages`. A method
-- of the database that commits is one step; calls of several users interleave as lists of steps.
--
-- Not modelled: the HTTP client, the web service's routes, its event groups and models, OCR, analysis, the
-- command line, logs, and the SQL engine with its migrations and foreign keys;
-- an exception that `run_scan` does not catch ends the model's run without the store's rows so far.
pub mod Common
pub mod Values
pub mod Config
pub mod Client
pub mod Classifier
pub mod Decision
pub mod Actions
pub mod Reporter
pub mod Security
pub mod Service
pub mod Store
pub mod Scanner
pub mod Pipeline
pub mod Tests
