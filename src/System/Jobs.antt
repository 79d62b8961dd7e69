-- ===== src/System/Jobs.antt =====
-- The scheduled jobs of src/app/main.py, and `_run_background_anchor` of
-- src/app/api/v1/endpoints/anchors.py. Each runs in a session of its own; what it raises is logged.
use ared_edge_iota_anchor.Prelude.{ℕ, Bool, true, Option, some, ok, List, if◌then◌else◌}
use ared_edge_iota_anchor.World.Types.{Env, Exec}
use ared_edge_iota_anchor.World.Exec.{◌>>=◌, ◌>>◌, pure, try_except, utcnow, with_session}
use ared_edge_iota_anchor.Workflow.Job.{run_anchor_job, run_daily_anchor}
use ared_edge_iota_anchor.Reconciliation.Run.{ReconciliationResult, run_reconciliation}

-- `scheduler.add_job`: a daily time, or an interval in minutes.
pub data ScheduledJob : Type 0 where
  daily_anchor : (hour minute : ℕ) → ScheduledJob
  reconciliation : (minutes : ℕ) → ScheduledJob

-- The globals of the module, and its three gauges. `has_service`: `anchor_service` is not None.
pub record App : Type 0 where
  pub has_service : Bool
  pub jobs : List ScheduledJob
  pub running : Bool
  pub node_connected : ℕ
  pub scheduler_last_run : Option ℕ
  pub reconciliation_last_run : Option ℕ

module _ (env : Env) where
  unfoldable pub scheduled_anchor_job : App → Exec App
  unfolding with_session
  scheduled_anchor_job app = do
    now ← utcnow
    let app' : App = record app { scheduler_last_run = some now }
    if app.has_service
        then try_except (with_session (do run_daily_anchor env; pure app')) (λ e. pure app')
        else pure app'

  abbrev pub reconcile : Exec ReconciliationResult
  reconcile w = let (result, w') = run_reconciliation env w in (ok result, w')

  unfoldable pub scheduled_reconciliation_job : App → Exec App
  unfolding with_session
  scheduled_reconciliation_job app = do
    now ← utcnow
    let app' : App = record app { reconciliation_last_run = some now }
    if app.has_service
        then try_except (with_session (do reconcile; pure app')) (λ e. pure app')
        else pure app'

  unfoldable pub run_background_anchor : (start_time end_time : Option ℕ) → Exec (Unit {0})
  unfolding with_session
  run_background_anchor start_time end_time =
      try_except (with_session (do run_anchor_job env start_time end_time true; pure tt))
        (λ e. pure tt)
