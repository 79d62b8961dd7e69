-- ===== src/System/Session.antt =====
-- src/app/db/session.py, and `ensure_retry_log_table` of src/app/services/reconciliation.py. The
-- statements CREATE ... IF NOT EXISTS change no row.
use ared_edge_iota_anchor.Prelude.{ok}
use ared_edge_iota_anchor.World.Types.{Env, Exec}
use ared_edge_iota_anchor.World.Exec.{
  ◌>>=◌, ◌>>◌, pure, raise, try_except, modify, execute, commit, with_session,
}

-- `session.rollback()`.
abbrev pub rollback : Exec (Unit {0})
rollback = modify (λ w. record w { tables = w.committed })

module _ (env : Env) where
  -- A statement that reads and writes no row.
  unfoldable pub touch : Exec (Unit {0})
  unfolding execute
  touch = execute env (λ t. (ok tt, t))

  -- Two tables and four indexes.
  unfoldable pub ensure_anchor_tables : Exec (Unit {0})
  unfolding with_session
  ensure_anchor_tables = with_session (do touch; touch; touch; touch; touch; touch; commit env)

  unfoldable pub init_db : Exec (Unit {0})
  init_db = do touch; ensure_anchor_tables

  -- A table and an index.
  unfoldable pub ensure_retry_log_table : Exec (Unit {0})
  ensure_retry_log_table = do touch; touch; commit env

  -- The dependency that hands a handler its session.
  unfoldable pub get_db : {A : Type 0} → (handler : Exec A) → Exec A
  unfolding with_session
  get_db handler =
      with_session (try_except (do a ← handler; commit env; pure a) (λ e. do rollback; raise e))
