-- ===== src/System/Startup.antt =====
-- `lifespan` of src/app/main.py: what happens before the service answers, and when it stops.
use ared_edge_iota_anchor.Prelude.{
  leb, ◌&&◌, value_error, ℕ, Bool, true, false, [], ◌∷◌, ◌++◌, if◌then◌else◌,
}
use ared_edge_iota_anchor.World.Types.{Env, Exec}
use ared_edge_iota_anchor.World.Exec.{raise, ◌>>=◌, ◌>>◌, pure, try_except, with_session}
use ared_edge_iota_anchor.Service.Anchors.{initialize, shutdown}
use ared_edge_iota_anchor.System.Session.{init_db, ensure_retry_log_table}
use ared_edge_iota_anchor.System.Jobs.{App, daily_anchor, reconciliation}

-- What `lifespan` reads of the settings.
pub record StartSettings : Type 0 where
  pub iota_enabled : Bool
  pub scheduler_enabled : Bool
  pub anchor_schedule_hour : ℕ
  pub anchor_schedule_minute : ℕ

-- `add_job` raises `ValueError` for a cron trigger whose hour or minute is out of range. What the settings
-- hold is not checked before.
unfoldable pub schedule : StartSettings → App → Exec App
schedule settings app =
    if settings.scheduler_enabled
    then (if leb settings.anchor_schedule_hour 23 && leb settings.anchor_schedule_minute 59
        then pure (record app {
          jobs =
              app.jobs
              ++ daily_anchor settings.anchor_schedule_hour settings.anchor_schedule_minute
                ∷ reconciliation 15
                ∷ [];
          running = true;
        })
        else raise value_error)
    else pure app

module _ (env : Env) where
  -- The gauge of the node's connection: 1 where the service has been initialized.
  unfoldable pub start_service : StartSettings → Exec ℕ
  unfolding initialize
  start_service settings =
      if settings.iota_enabled then try_except (do initialize env; pure 1) (λ e. pure 0) else pure 0

  -- Before the scheduler.
  abbrev pub prepare : StartSettings → Exec ℕ
  prepare settings = do
    init_db env
    node_connected ← start_service settings
    with_session (ensure_retry_log_table env)
    pure node_connected

  unfoldable pub startup : StartSettings → App → Exec App
  unfolding schedule with_session
  startup settings app = do
    node_connected ← prepare settings
    schedule settings (record app { has_service = true; node_connected = node_connected })

  unfoldable pub stop : StartSettings → App → Exec App
  unfolding shutdown
  stop settings app = do
    let app' : App = if settings.scheduler_enabled then record app { running = false } else app
    if app.has_service then (do shutdown env; pure app') else pure app'
