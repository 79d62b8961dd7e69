-- ===== src/Reconciliation/Run.antt =====
-- `run_reconciliation` of src/app/services/reconciliation.py: its three loops and their counters.
use ared_edge_iota_anchor.Prelude.{ℕ, ◌+◌, List, [], ◌∷◌, some, Result, ok, err}
use ared_edge_iota_anchor.Anchor.{AnchorRecord, AnchorStatus, pending, posted, status_value}
use ared_edge_iota_anchor.World.Types.{World, Env, Exec}
use ared_edge_iota_anchor.Repository.Anchors.{list_anchors}
use ared_edge_iota_anchor.Reconciliation.Retry.{
  Outcome, gave_up, review, now_confirmed, process_pending_anchor, process_failed_anchor,
  confirm_anchor,
}

pub record ReconciliationResult : Type 0 where
  pub processed : ℕ
  pub retried : ℕ
  pub confirmed : ℕ
  pub failed : ℕ
  pub marked_for_review : ℕ

-- What the loops have done: the counters keep their values when an exception ends a loop.
abbrev pub Progress : Type 0
Progress = ReconciliationResult × Result (Unit {0})

unfoldable pub count_pending : Outcome → ReconciliationResult → ReconciliationResult
count_pending Outcome.retried c = record c { retried = c.retried + 1 }
count_pending gave_up c = record c { failed = c.failed + 1 }
count_pending review c = record c { marked_for_review = c.marked_for_review + 1 }
count_pending _ c = c

unfoldable pub count_posted : Outcome → ReconciliationResult → ReconciliationResult
count_posted now_confirmed c = record c { confirmed = c.confirmed + 1 }
count_posted _ c = c

unfoldable pub count_failed : Outcome → ReconciliationResult → ReconciliationResult
count_failed Outcome.retried c = record c { retried = c.retried + 1 }
count_failed review c = record c { marked_for_review = c.marked_for_review + 1 }
count_failed _ c = c

-- `for anchor in ...: processed += 1; result = await process(anchor); ...`.
unfoldable pub process_all :
    (AnchorRecord → Exec Outcome)
    → (Outcome → ReconciliationResult → ReconciliationResult)
    → ReconciliationResult
    → List AnchorRecord
    → World
    → Progress × World
process_all process count c [] w = ((c, ok tt), w)
process_all process count c (a ∷ anchors) w =
    let (r, w') = process a w in
    let started : ReconciliationResult = record c { processed = c.processed + 1 } in
    elim r [
      | ok outcome ↦ process_all process count (count outcome started) anchors w'
      | err e ↦ ((started, err e), w')
    ]

module _ (env : Env) where
  unfoldable pub get_anchors_by_status : AnchorStatus → Exec (List AnchorRecord)
  get_anchors_by_status status = list_anchors env (some (status_value status)) 100 0

  -- One loop, unless an earlier one has ended the run.
  unfoldable pub phase :
      AnchorStatus
      → (AnchorRecord → Exec Outcome)
      → (Outcome → ReconciliationResult → ReconciliationResult)
      → Progress × World
      → Progress × World
  phase status process count ((c, err e), w) = ((c, err e), w)
  phase status process count ((c, ok u), w) =
      let (r, w') = get_anchors_by_status status w in
      elim r [ ok anchors ↦ process_all process count c anchors w' | err e ↦ ((c, err e), w') ]

  unfoldable pub finish : Progress × World → ReconciliationResult × World
  finish ((c, ok u), w) = (c, w)
  finish ((c, err e), w) = (record c { failed = c.failed + 1 }, w)

  abbrev pub zeros : ReconciliationResult
  zeros = record { processed = 0; retried = 0; confirmed = 0; failed = 0; marked_for_review = 0 }

  -- It never raises: `except Exception` gives the counters with one failure more.
  unfoldable pub run_reconciliation : World → ReconciliationResult × World
  unfolding phase finish
  run_reconciliation w = finish (
      phase AnchorStatus.failed (process_failed_anchor env) count_failed (
        phase posted (confirm_anchor env) count_posted
          (phase pending (process_pending_anchor env) count_pending ((zeros, ok tt), w))))
