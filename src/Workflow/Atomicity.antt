-- ===== src/Workflow/Atomicity.antt =====
-- The advisory lock and the transaction of `run_anchor_job` in src/app/services/anchor_workflow.py, on
-- every path of it.
use ared_edge_iota_anchor.Prelude.{ℕ, suc, ◌≡◌, Bool}
use ared_edge_iota_anchor.World.Types.{World, Env, Exec}
use ared_edge_iota_anchor.World.Exec.{◌>>=◌, try_except}
use ared_edge_iota_anchor.Iota.Submission.{IsRetrying}
use ared_edge_iota_anchor.Workflow.Job.{AnchorResult, job_body, job_failed}

module _ (env : Env) (rt : IsRetrying env.retrying) (attempts : ℕ)
    (positive : env.settings.retry_count ≡ suc attempts) where
  -- The job under the lock, up to the release.
  attempt : (job_start start_time end_time : ℕ) (wait : Bool) → Exec AnchorResult
  attempt job_start start_time end_time wait =
      try_except (job_body env job_start start_time end_time wait)
        (job_failed env job_start start_time end_time)
