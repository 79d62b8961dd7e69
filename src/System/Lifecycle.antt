-- ===== src/System/Lifecycle.antt =====
-- The start of the application, its scheduled jobs and its probes in src/app/main.py, where the node or
-- the database fails.
use ared_edge_iota_anchor.Prelude.{
  leb, ◌<◌, ◌⊎◌, Result, err, value_error, arith, ℕ, ◌≡◌, refl, Bool, true, false, Bool-cases, [],
  ◌∷◌, ◌++◌, Option, some, ok, inl, inr, Result-cases, if◌then◌else◌,
}
use ared_edge_iota_anchor.World.Types.{World, Env, Exec}
use ared_edge_iota_anchor.World.Exec.{commit, try_except, pure, ◌>>◌, with_session}
use ared_edge_iota_anchor.World.Returns.{
  Returns, Anything, Returns-pure, Returns-bind, Returns-session, Returns-if, Returns-caught,
}
use ared_edge_iota_anchor.Workflow.Job.{run_daily_anchor, run_anchor_job}
use ared_edge_iota_anchor.System.Session.{
  touch, ensure_anchor_tables, init_db, ensure_retry_log_table,
}
use ared_edge_iota_anchor.System.Jobs.{
  App, reconcile, daily_anchor, reconciliation, scheduled_anchor_job, scheduled_reconciliation_job,
  run_background_anchor,
}
use ared_edge_iota_anchor.System.Startup.{StartSettings, schedule, start_service, prepare, startup}

module _ (env : Env) where
  -- A session whose exceptions are logged.
  logged :
      {A B : Type 0} (m : Exec A) (b : B) (w : World)
      → (try_except (with_session (do m; pure b)) (λ e. pure b) w).0 ≡ ok b
  unfolding with_session
  logged m b w = elim (Result-cases (m (record w { tables = w.committed })).0) [
    | inl (a, returned) ↦ rw returned refl
    | inr (e, raised) ↦ rw raised refl
  ]

  if-returns :
      {B : Type 0} (c : Bool) (m : Exec B) (b : B) (w : World)
      → (m w).0 ≡ ok b
      → ((if c then m else pure b) w).0 ≡ ok b
  if-returns true m b w h = h
  if-returns false m b w h = refl

  -- The scheduled jobs and the background task never raise, whatever the database and the node do; the
  -- jobs record the time at which they began.
  pub jobs_return :
      (app : App) (start_time end_time : Option ℕ) (w : World)
      → ((scheduled_anchor_job env app w).0 ≡ ok (record app { scheduler_last_run = some w.now }))
        × ((scheduled_reconciliation_job env app w).0
            ≡ ok (record app { reconciliation_last_run = some w.now }))
        × ((run_background_anchor env start_time end_time w).0 ≡ ok tt)
  unfolding scheduled_anchor_job scheduled_reconciliation_job run_background_anchor
  jobs_return app start_time end_time w = (
    if-returns app.has_service _ _ w (logged (run_daily_anchor env) _ w),
    if-returns app.has_service _ _ w (logged (reconcile env) _ w),
    logged (run_anchor_job env start_time end_time true) tt w,
  )

  -- What is there after the start.
  pub record Started (settings : StartSettings) (app app' : App) : Type 0 where
    pub service : app'.has_service ≡ true
    pub running : app'.running ≡ (if settings.scheduler_enabled then true else app.running)
    pub jobs : app'.jobs ≡ (
        if settings.scheduler_enabled
        then app.jobs
          ++ daily_anchor settings.anchor_schedule_hour settings.anchor_schedule_minute
            ∷ reconciliation 15
            ∷ []
        else app.jobs)

  -- The scheduler starts, or its times are no times of a day and nothing of the application is left.
  abbrev pub Starts : StartSettings → App → Result App → Type 0
  Starts settings app r =
      ((app' : App) × (r ≡ ok app') × Started settings app app')
      ⊎ ((settings.scheduler_enabled ≡ true)
          × ((23 < settings.anchor_schedule_hour) ⊎ (59 < settings.anchor_schedule_minute))
          × (r ≡ err value_error))

  schedule-Starts :
      (settings : StartSettings) (app : App) (node_connected : ℕ) (w : World)
      → Starts settings app
          (schedule settings
            (record app { has_service = true; node_connected = node_connected })
            w).0
  unfolding schedule
  schedule-Starts settings app n w = elim (Bool-cases settings.scheduler_enabled) [
    | inr off ↦ rw off (inl (_, refl, record { service = refl; running = refl; jobs = refl }))
    | inl on ↦ elim (Bool-cases (leb settings.anchor_schedule_hour 23)) [
      | inr late_hour ↦ rw (on, late_hour) (inr (refl, inl (ground arith), refl))
      | inl hour ↦ elim (Bool-cases (leb settings.anchor_schedule_minute 59)) [
        | inr late_minute ↦ rw (on, hour, late_minute) (inr (refl, inr (ground arith), refl))
        | inl minute ↦
            rw (on, hour, minute)
              (inl (_, refl, record { service = refl; running = refl; jobs = refl }))
      ]
    ]
  ]

  module _ (up : (n : ℕ) → env.fault n ≡ false) where
    touch-Returns : Returns Anything (touch env)
    unfolding touch
    touch-Returns = record { at = λ w. rw (up w.calls) (tt, refl, tt) }

    commit-Returns : Returns Anything (commit env)
    unfolding commit
    commit-Returns = record { at = λ w. rw (up w.calls) (tt, refl, tt) }

    then-Returns :
        {A : Type 0} (P : A → Type 0) (m : Exec A) → Returns P m → Returns P (do touch env; m)
    then-Returns P m h = Returns-bind P (touch env) (λ _. m) touch-Returns (λ _. h)

    init_db-Returns : Returns Anything (init_db env)
    unfolding init_db ensure_anchor_tables
    init_db-Returns = then-Returns Anything _ (
        Returns-session Anything _ (
          then-Returns Anything _ (
            then-Returns Anything _ (
              then-Returns Anything _ (
                then-Returns Anything _
                  (then-Returns Anything _ (then-Returns Anything _ commit-Returns)))))))

    log_table-Returns : Returns Anything (ensure_retry_log_table env)
    unfolding ensure_retry_log_table
    log_table-Returns = then-Returns Anything _ (then-Returns Anything _ commit-Returns)

    start_service-Returns :
        (settings : StartSettings) → Returns Anything (start_service env settings)
    unfolding start_service
    start_service-Returns settings =
        Returns-if Anything settings.iota_enabled _ _ (Returns-caught _ (λ e. 0))
          (Returns-pure Anything 0 tt)

    prepare-Returns : (settings : StartSettings) → Returns Anything (prepare env settings)
    prepare-Returns settings = Returns-bind Anything (init_db env) _ init_db-Returns (λ _.
        Returns-bind Anything (start_service env settings) _ (start_service-Returns settings) (λ n.
          Returns-bind Anything _ _ (Returns-session Anything _ log_table-Returns)
            (λ _. Returns-pure Anything n tt)))

    -- With every statement of the database answered, the start succeeds whatever the node replies: it
    -- leaves a service, and the scheduler with its two jobs where it is enabled; only where it is enabled
    -- with an hour above 23 or a minute above 59 it raises `ValueError`.
    pub startup_degrades :
        (settings : StartSettings) (app : App) (w : World)
        → Starts settings app (startup env settings app w).0
    unfolding startup
    startup_degrades settings app w =
        let (n, e, _) = (prepare-Returns settings).at w in
        rw e (schedule-Starts settings app n (prepare env settings w).1)
