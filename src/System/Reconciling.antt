-- ===== src/System/Reconciling.antt =====
-- The loops of `run_reconciliation` of src/app/services/reconciliation.py, and the scheduled job around
-- them, by the rules of System.Keeping.
use ared_edge_iota_anchor.Prelude.{◌+◌, ℕ, suc, ◌≡◌, List, [], ◌∷◌, some, Result, ok, err}
use ared_edge_iota_anchor.Anchor.{AnchorRecord, AnchorStatus, pending, posted, status_value}
use ared_edge_iota_anchor.World.Types.{World, Env, Exec}
use ared_edge_iota_anchor.World.Exec.{pure, ◌>>◌, utcnow}
use ared_edge_iota_anchor.World.Frame.{
  Respects, Respects-bind, Respects-pure, Respects-try, Respects-if,
}
use ared_edge_iota_anchor.Iota.Submission.{IsRetrying}
use ared_edge_iota_anchor.Reconciliation.Retry.{
  Outcome, process_pending_anchor, process_failed_anchor, confirm_anchor,
}
use ared_edge_iota_anchor.Reconciliation.Run.{
  ReconciliationResult, Progress, count_pending, count_posted, count_failed, process_all,
  get_anchors_by_status, phase, finish, zeros, run_reconciliation,
}
use ared_edge_iota_anchor.System.Jobs.{App, reconcile, scheduled_reconciliation_job}
use ared_edge_iota_anchor.System.Keeping.{
  Keeping, Keeping-IsPreorder, session-Keeping, list-Keeping,
}
use ared_edge_iota_anchor.System.Retrying.{
  now-Keeping, pending-Keeping, failed-Keeping, confirm-Keeping,
}

module _ (env : Env) (rt : IsRetrying env.retrying) (attempts : ℕ)
    (positive : env.settings.retry_count ≡ suc attempts) where
  all-Keeping :
      (process : AnchorRecord → Exec Outcome)
      (count : Outcome → ReconciliationResult → ReconciliationResult)
      → ((a : AnchorRecord) → Respects Keeping (process a))
      → (c : ReconciliationResult) (anchors : List AnchorRecord) (w : World)
      → Keeping w (process_all process count c anchors w).1
  unfolding process_all
  all-Keeping process count k c [] w = Keeping-IsPreorder.refl_lem w
  all-Keeping process count k c (a ∷ anchors) w =
      of (process a w).0 ((k a).at w)
        (λ o. all-Keeping process count k (count o started) anchors (process a w).1)
    where
      started : ReconciliationResult
      started = record c { processed = c.processed + 1 }

      w' : World
      w' = (process a w).1

      of :
          (r : Result Outcome)
          → Keeping w w'
          → ((o : Outcome) → Keeping w' (process_all process count (count o started) anchors w').1)
          → Keeping w
              (elim r as (λ _. Progress × World) [
                | ok outcome ↦ process_all process count (count outcome started) anchors w'
                | err e ↦ ((started, err e), w')
              ]).1
      of (ok o) one rest = Keeping-IsPreorder.trans_lem w w' _ one (rest o)
      of (err e) one rest = one

  phase-Keeping :
      (status : AnchorStatus) (process : AnchorRecord → Exec Outcome)
      (count : Outcome → ReconciliationResult → ReconciliationResult)
      → ((a : AnchorRecord) → Respects Keeping (process a))
      → (w : World) (p : Progress × World) → Keeping w p.1
      → Keeping w (phase env status process count p).1
  unfolding phase get_anchors_by_status
  phase-Keeping status process count k w ((c, err e), w1) h = h
  phase-Keeping status process count k w ((c, ok u), w1) h =
      of (get_anchors_by_status env status w1).0 (
        Keeping-IsPreorder.trans_lem w w1 _ h
          ((list-Keeping env (some (status_value status)) 100 0).at w1))
    where
      w2 : World
      w2 = (get_anchors_by_status env status w1).1

      of :
          (r : Result (List AnchorRecord))
          → Keeping w w2
          → Keeping w
              (elim r as (λ _. Progress × World) [
                | ok anchors ↦ process_all process count c anchors w2
                | err e ↦ ((c, err e), w2)
              ]).1
      of (ok anchors) h =
          Keeping-IsPreorder.trans_lem w w2 _ h (all-Keeping process count k c anchors w2)
      of (err e) h = h

  finish-Keeping : (w : World) (p : Progress × World) → Keeping w p.1 → Keeping w (finish env p).1
  unfolding finish
  finish-Keeping w ((c, ok u), w1) h = h
  finish-Keeping w ((c, err e), w1) h = h

  reconciliation-Keeping : (w : World) → Keeping w (run_reconciliation env w).1
  unfolding run_reconciliation
  reconciliation-Keeping w = finish-Keeping w third (
      phase-Keeping AnchorStatus.failed (process_failed_anchor env) count_failed
        (failed-Keeping env rt attempts positive) w second
        (phase-Keeping posted (confirm_anchor env) count_posted
          (confirm-Keeping env rt attempts positive) w first
          (phase-Keeping pending (process_pending_anchor env) count_pending
            (pending-Keeping env rt attempts positive) w start (Keeping-IsPreorder.refl_lem w))))
    where
      start : Progress × World
      start = ((zeros env, ok tt), w)

      first : Progress × World
      first = phase env pending (process_pending_anchor env) count_pending start

      second : Progress × World
      second = phase env posted (confirm_anchor env) count_posted first

      third : Progress × World
      third = phase env AnchorStatus.failed (process_failed_anchor env) count_failed second

  pub scheduled_reconciliation-Keeping :
      (app : App) → Respects Keeping (scheduled_reconciliation_job env app)
  unfolding scheduled_reconciliation_job
  scheduled_reconciliation-Keeping app =
      Respects-bind Keeping-IsPreorder utcnow _ (now-Keeping env rt attempts positive) (λ now.
        Respects-if app.has_service _ _
          (Respects-try Keeping-IsPreorder _ _
            (session-Keeping (do reconcile env; pure (seen now))
              (Respects-bind Keeping-IsPreorder (reconcile env) _
                (record { at = reconciliation-Keeping })
                (λ r. Respects-pure Keeping-IsPreorder (seen now))))
            (λ e. Respects-pure Keeping-IsPreorder (seen now)))
          (Respects-pure Keeping-IsPreorder (seen now)))
    where
      seen : ℕ → App
      seen now = record app { reconciliation_last_run = some now }
